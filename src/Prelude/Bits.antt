-- ===== src/Prelude/Bits.antt =====
-- Bit operations in the shapes that the code uses: a mask of six ones, and an or of values that have
-- no bit in common.
use Prim.Native.Nat.{
  ℕ, zero, suc, ◌+◌, ◌*◌, ◌/◌, ◌%◌, ◌≤◌, ◌<◌, min, max, bit_and, bit_or, digits, bitwise,
  bit_and-bitwise, bit_or-bitwise,
}
use mathlib.Core.Path.{◌≡◌, refl, sym, ap, ◌∙◌}
use native.Mathlib.Omega.{arith}

-- The recursion on digits takes a count of digits to go; any count that is large enough will do.
module _ (out : ℕ → ℕ) (op : ℕ → ℕ → ℕ) where
  digits-of_zero : (count b : ℕ) → digits out op count 0 b ≡ out b
  digits-of_zero zero b = refl
  digits-of_zero (suc count) b = refl

  digits-count :
      (count count' a b : ℕ)
      → a ≤ count
      → a ≤ count'
      → digits out op count a b ≡ digits out op count' a b
  digits-count count count' zero b h k = digits-of_zero count b ∙ sym (digits-of_zero count' b)
  digits-count zero count' (suc a) b h k = elim h [ ]
  digits-count (suc count) zero (suc a) b h k = elim k [ ]
  digits-count (suc count) (suc count') (suc a) b h k =
      ap (λ (high : ℕ). high * 2 + op (suc a % 2) (b % 2))
        (digits-count count count' (suc a / 2) (b / 2) (omega arith) (omega arith))

  -- The lowest digit apart, when the left number is not 0.
  bitwise-low :
      (a b : ℕ)
      → bitwise out op (suc a) b ≡ bitwise out op (suc a / 2) (b / 2) * 2 + op (suc a % 2) (b % 2)
  bitwise-low a b =
      ap (λ (high : ℕ). high * 2 + op (suc a % 2) (b % 2))
        (digits-count a (suc a / 2) (suc a / 2) (b / 2) (omega arith) (omega arith))

nothing_and : (b : ℕ) → bit_and 0 b ≡ 0
nothing_and b = bit_and-bitwise 0 b

nothing_or : (b : ℕ) → bit_or 0 b ≡ b
nothing_or b = bit_or-bitwise 0 b

and-low : (a b : ℕ) → bit_and a b ≡ bit_and (a / 2) (b / 2) * 2 + min (a % 2) (b % 2)
and-low zero b = omega (arith, nothing_and b, nothing_and (b / 2))
and-low (suc a) b =
    bit_and-bitwise (suc a) b
    ∙ bitwise-low (λ _. 0) min a b
    ∙ ap (λ (high : ℕ). high * 2 + min (suc a % 2) (b % 2))
        (sym (bit_and-bitwise (suc a / 2) (b / 2)))

or-low : (a b : ℕ) → bit_or a b ≡ bit_or (a / 2) (b / 2) * 2 + max (a % 2) (b % 2)
or-low zero b = omega (arith, nothing_or b, nothing_or (b / 2))
or-low (suc a) b =
    bit_or-bitwise (suc a) b
    ∙ bitwise-low (λ d. d) max a b
    ∙ ap (λ (high : ℕ). high * 2 + max (suc a % 2) (b % 2))
        (sym (bit_or-bitwise (suc a / 2) (b / 2)))

-- Nothing is left under an empty mask, and an or with nothing changes nothing. The bound is for the
-- recursion.
and_nothing : (bound a : ℕ) → a ≤ bound → bit_and a 0 ≡ 0
and_nothing bound zero h = nothing_and 0
and_nothing zero (suc a) h = elim h [ ]
and_nothing (suc bound) (suc a) h =
    omega (arith, and-low (suc a) 0, and_nothing bound (suc a / 2) (omega arith))

or_nothing : (bound a : ℕ) → a ≤ bound → bit_or a 0 ≡ a
or_nothing bound zero h = nothing_or 0
or_nothing zero (suc a) h = elim h [ ]
or_nothing (suc bound) (suc a) h =
    omega (arith, or-low (suc a) 0, or_nothing bound (suc a / 2) (omega arith))

-- A mask with one more digit keeps one more.
mask-longer :
    (a mask longer : ℕ)
    → longer ≡ mask * 2 + 1
    → {low : ℕ} → bit_and (a / 2) mask ≡ low
    → bit_and a longer ≡ low * 2 + a % 2
mask-longer a mask longer e h =
    let half : longer / 2 ≡ mask = omega arith in
    omega (arith, and-low a longer, ap (λ (m : ℕ). bit_and (a / 2) m) half)

-- `a & 0x3f`
pub bit_and_mask6 : (a : ℕ) → bit_and a 0x3f ≡ a % 64
bit_and_mask6 a =
    let a1 = a / 2 in
    let a2 = a1 / 2 in
    let a3 = a2 / 2 in
    let a4 = a3 / 2 in
    let a5 = a4 / 2 in
    mask-longer a 31 63 (omega arith) (
      mask-longer a1 15 31 (omega arith) (
        mask-longer a2 7 15 (omega arith) (
          mask-longer a3 3 7 (omega arith) (
            mask-longer a4 1 3 (omega arith)
              (mask-longer a5 0 1 (omega arith) (and_nothing (a5 / 2) (a5 / 2) (omega arith)))))))
    ∙ omega arith

-- An or with a number that ends in 0, and digit by digit an or with zeros below.
shifted-or :
    (a b shifted : ℕ)
    → shifted ≡ a * 2
    → {high : ℕ} → bit_or a (b / 2) ≡ high
    → bit_or shifted b ≡ high * 2 + b % 2
shifted-or a b shifted e h =
    let half : shifted / 2 ≡ a = omega arith in
    omega (arith, or-low shifted b, ap (λ (m : ℕ). bit_or m (b / 2)) half)

-- Eight places.
shifted8-or : (a b high : ℕ) → bit_or a (b / 256) ≡ high → bit_or (a * 256) b ≡ high * 256 + b % 256
shifted8-or a b high h =
    let top : b / 256 ≡ b / 2 / 2 / 2 / 2 / 2 / 2 / 2 / 2 = omega arith in
    shifted-or (a * 128) b (a * 256) (omega arith) (
      shifted-or (a * 64) _ (a * 128) (omega arith) (
        shifted-or (a * 32) _ (a * 64) (omega arith) (
          shifted-or (a * 16) _ (a * 32) (omega arith) (
            shifted-or (a * 8) _ (a * 16) (omega arith) (
              shifted-or (a * 4) _ (a * 8) (omega arith) (
                shifted-or (a * 2) _ (a * 4) (omega arith) (
                  shifted-or a _ (a * 2) (omega arith)
                    (ap (λ (m : ℕ). bit_or a m) (sym top) ∙ h))))))))
    ∙ omega arith

-- `(a << 8) | b`
pub bit_or_above8 : (a b : ℕ) → b < 256 → bit_or (a * 256) b ≡ a * 256 + b
bit_or_above8 a b h =
    let small : b / 256 ≡ 0 = omega arith in
    shifted8-or a b a (ap (λ (m : ℕ). bit_or a m) small ∙ or_nothing a a (omega arith))
    ∙ omega arith

-- `(a << 8) | (b << 8)`
pub bit_or_shift8 : (a b : ℕ) → bit_or (a * 256) (b * 256) ≡ bit_or a b * 256
bit_or_shift8 a b =
    let top : b * 256 / 256 ≡ b = omega arith in
    shifted8-or a (b * 256) (bit_or a b) (ap (λ (m : ℕ). bit_or a m) top) ∙ omega arith
