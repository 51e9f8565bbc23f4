-- ===== src/Collections/TotalOrder.antt =====
-- The order that a `BTreeSet` asks of its elements (`Ord`), with the laws that the trait documents.
use starlingmonkey_ng.Prelude.{
  ℕ, ◌≡◌, ◌↔◌, Bool, true, false, ◌&&◌, ◌||◌, Option, none, some, arith, ltb, ◌==◌,
}

pub record TotalOrder (K : Type 0) : Type 0 where
  pub lt : K → K → Bool
  pub eq : K → K → Bool
  pub eq_iff : (a b : K) → (eq a b ≡ true) ↔ (a ≡ b)
  pub lt_irrefl : (a : K) → lt a a ≡ false
  pub lt_trans : (a b c : K) → lt a b ≡ true → lt b c ≡ true → lt a c ≡ true
  pub lt_total : (a b : K) → lt a b ≡ false → eq a b ≡ false → lt b a ≡ true

-- `Option<Instant>` compares `None` first.
abbrev pub option_lt : Option ℕ → Option ℕ → Bool
option_lt none none = false
option_lt none (some b) = true
option_lt (some a) none = false
option_lt (some a) (some b) = ltb a b

abbrev pub option_eq : Option ℕ → Option ℕ → Bool
option_eq none none = true
option_eq none (some b) = false
option_eq (some a) none = false
option_eq (some a) (some b) = a == b

-- Tuples compare lexicographically.
abbrev pub pair_lt : ℕ × ℕ → ℕ × ℕ → Bool
pair_lt a b = ltb a.0 b.0 || ((a.0 == b.0) && ltb a.1 b.1)

abbrev pub pair_eq : ℕ × ℕ → ℕ × ℕ → Bool
pair_eq a b = (a.0 == b.0) && (a.1 == b.1)

abbrev pub key_lt : Option ℕ × ℕ → Option ℕ × ℕ → Bool
key_lt a b = option_lt a.0 b.0 || (option_eq a.0 b.0 && ltb a.1 b.1)

abbrev pub key_eq : Option ℕ × ℕ → Option ℕ × ℕ → Bool
key_eq a b = option_eq a.0 b.0 && (a.1 == b.1)

pub key_eq_iff : (a b : Option ℕ × ℕ) → (key_eq a b ≡ true) ↔ (a ≡ b)
key_eq_iff a b = ground arith

pub key_lt_irrefl : (a : Option ℕ × ℕ) → key_lt a a ≡ false
key_lt_irrefl a = ground arith

pub key_lt_trans :
    (a b c : Option ℕ × ℕ) → key_lt a b ≡ true → key_lt b c ≡ true → key_lt a c ≡ true
key_lt_trans a b c h k = ground arith

pub key_lt_total :
    (a b : Option ℕ × ℕ) → key_lt a b ≡ false → key_eq a b ≡ false → key_lt b a ≡ true
key_lt_total a b h k = ground arith

pub pair_eq_iff : (a b : ℕ × ℕ) → (pair_eq a b ≡ true) ↔ (a ≡ b)
pair_eq_iff a b = ground arith

pub pair_lt_irrefl : (a : ℕ × ℕ) → pair_lt a a ≡ false
pair_lt_irrefl a = ground arith

pub pair_lt_trans : (a b c : ℕ × ℕ) → pair_lt a b ≡ true → pair_lt b c ≡ true → pair_lt a c ≡ true
pair_lt_trans a b c h k = ground arith

pub pair_lt_total : (a b : ℕ × ℕ) → pair_lt a b ≡ false → pair_eq a b ≡ false → pair_lt b a ≡ true
pair_lt_total a b h k = ground arith

instance abbrev pub pair_order : TotalOrder (ℕ × ℕ)
pair_order = record {
  lt = pair_lt;
  eq = pair_eq;
  eq_iff = pair_eq_iff;
  lt_irrefl = pair_lt_irrefl;
  lt_trans = pair_lt_trans;
  lt_total = pair_lt_total;
}

instance abbrev pub key_order : TotalOrder (Option ℕ × ℕ)
key_order = record {
  lt = key_lt;
  eq = key_eq;
  eq_iff = key_eq_iff;
  lt_irrefl = key_lt_irrefl;
  lt_trans = key_lt_trans;
  lt_total = key_lt_total;
}
