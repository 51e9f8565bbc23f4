-- ===== src/Collections/HashMap.antt =====
-- `HashMap<u64, V>`, as an association list with one entry for each key. The order in which it is
-- iterated is no part of its meaning.
use starlingmonkey_ng.Prelude.{
  ℕ, ◌≡◌, refl, Bool, Option, none, some, List, [], ◌∷◌, arith, if◌then◌else◌, ◌==◌, is_some,
}

abbrev pub HashMap : Type 0 → Type 0
HashMap V = List (ℕ × V)

module _ {V : Type 0} where
  unfoldable pub get : ℕ → HashMap V → Option V
  get k [] = none
  get k ((j, v) ∷ m) = if k == j then some v else get k m

  unfoldable pub insert : ℕ → V → HashMap V → HashMap V
  insert k v [] = (k, v) ∷ []
  insert k v ((j, w) ∷ m) = if k == j then (k, v) ∷ m else (j, w) ∷ insert k v m

  unfoldable pub remove : ℕ → HashMap V → HashMap V
  remove k [] = []
  remove k ((j, w) ∷ m) = let rest = remove k m in if k == j then rest else (j, w) ∷ rest

  unfoldable pub contains_key : ℕ → HashMap V → Bool
  contains_key k m = is_some (get k m)

  pub get-insert :
      (k j : ℕ) (v : V) (m : HashMap V)
      → get k (insert j v m) ≡ (if k == j then some v else get k m)
  unfolding get insert
  get-insert k j v [] = refl
  get-insert k j v ((i, w) ∷ m) = ground (arith, get-insert k j v m)

  pub get-remove :
      (k j : ℕ) (m : HashMap V) → get k (remove j m) ≡ (if k == j then none else get k m)
  unfolding get remove
  get-remove k j [] = ground arith
  get-remove k j ((i, w) ∷ m) = ground (arith, get-remove k j m)
