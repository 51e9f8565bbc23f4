-- ===== src/Web/Params/Order.antt =====
-- The comparison of names in `sort` of url_search_params.rs.
use starlingmonkey_ng.Prelude.{
  ℕ, ◌<◌, ◌≤◌, ◌≡◌, ◌≢◌, refl, sym, ◌∙◌, true, List, [], ◌∷◌, ◌++◌, ltb, All, arith, ◌⊎◌, inl, inr,
  Bool-cases,
}
use starlingmonkey_ng.Web.Text.{Text, utf8, utf8_char, utf16, utf16_char}
use starlingmonkey_ng.Web.Params.{lexicographic, is_ascii, compare_names}
use Prim.Native.Nat.{Ordering}

-- A scalar value: no surrogate.
abbrev pub IsScalar : ℕ → Type 0
IsScalar c = (c < 0xd800) ⊎ ((0xdfff < c) × (c < 0x110000))

abbrev pub IsText : Text → Type 0
IsText s = All IsScalar s

-- Of two characters the first of which is ASCII and the other not, the encodings start with numbers
-- in the same order.
ascii_before_utf8 :
    (c d : ℕ) (xs ys : List ℕ)
    → c < 0x80
    → 0x80 ≤ d
    → lexicographic (c ∷ xs) (utf8_char d ++ ys) ≡ Ordering.lt
unfolding lexicographic utf8_char
ascii_before_utf8 c d xs ys hc hd = ground arith

ascii_before_utf16 :
    (c d : ℕ) (xs ys : List ℕ)
    → c < 0x80
    → 0x80 ≤ d
    → lexicographic (c ∷ xs) (utf16_char d ++ ys) ≡ Ordering.lt
unfolding lexicographic utf16_char
ascii_before_utf16 c d xs ys hc hd = ground arith

utf8_char-ascii : (c : ℕ) → c < 0x80 → utf8_char c ≡ c ∷ []
unfolding utf8_char
utf8_char-ascii c h = ground arith

utf16_char-ascii : (c : ℕ) → c < 0x80 → utf16_char c ≡ c ∷ []
unfolding utf16_char
utf16_char-ascii c h = ground arith

empty_before_utf8 : (d : ℕ) (ys : List ℕ) → lexicographic [] (utf8_char d ++ ys) ≡ Ordering.lt
unfolding lexicographic utf8_char
empty_before_utf8 d ys = ground arith

empty_before_utf16 : (d : ℕ) (ys : List ℕ) → lexicographic [] (utf16_char d ++ ys) ≡ Ordering.lt
unfolding lexicographic utf16_char
empty_before_utf16 d ys = ground arith

ascii-head : (c : ℕ) (s : Text) → is_ascii (c ∷ s) ≡ true → (c < 0x80) × (is_ascii s ≡ true)
unfolding is_ascii
ascii-head c s h = ground arith

wide_or_ascii : (d : ℕ) → (d < 0x80) ⊎ (0x80 ≤ d)
wide_or_ascii d = elim (Bool-cases (ltb d 0x80)) [
  | inl h ↦ inl (ground arith)
  | inr h ↦ inr (ground arith)
]

lexicographic-cons :
    (c d : ℕ) (xs ys xs' ys' : List ℕ)
    → lexicographic xs ys ≡ lexicographic xs' ys'
    → lexicographic (c ∷ xs) (d ∷ ys) ≡ lexicographic (c ∷ xs') (d ∷ ys')
unfolding lexicographic
lexicographic-cons c d xs ys xs' ys' h = ground arith

lexicographic-ascii :
    (a b : Text)
    → is_ascii a ≡ true
    → lexicographic (utf8 a) (utf8 b) ≡ lexicographic (utf16 a) (utf16 b)
unfolding utf8 utf16
lexicographic-ascii [] [] h = refl
lexicographic-ascii [] (d ∷ b) h = rw (empty_before_utf8 d (utf8 b), empty_before_utf16 d (utf16 b))
lexicographic-ascii (c ∷ a) [] h =
    rw (utf8_char-ascii c (ascii-head c a h).0, utf16_char-ascii c (ascii-head c a h).0)
      (unfold lexicographic in refl)
lexicographic-ascii (c ∷ a) (d ∷ b) h =
    let hc = (ascii-head c a h).0 in
    rw (utf8_char-ascii c hc, utf16_char-ascii c hc)
      (elim (wide_or_ascii d) [
        | inr wide ↦ rw (ascii_before_utf8 c d _ _ hc wide, ascii_before_utf16 c d _ _ hc wide)
        | inl small ↦
            rw (utf8_char-ascii d small, utf16_char-ascii d small)
              (lexicographic-cons c d _ _ _ _ (lexicographic-ascii a b (ascii-head c a h).1))
      ])

-- The shortcut that `sort` takes for ASCII names does not change the order: names compare by their
-- UTF-16 code units, whichever of the two strings is ASCII.
pub compare_names-utf16 : (a b : Text) → compare_names a b ≡ lexicographic (utf16 a) (utf16 b)
unfolding compare_names
compare_names-utf16 a b = elim (Bool-cases (is_ascii a)) [
  | inl ascii ↦ rw ascii (lexicographic-ascii a b ascii)
  | inr wide ↦ rw wide
]

lexicographic_refl : (xs : List ℕ) → lexicographic xs xs ≡ Ordering.eq
unfolding lexicographic
lexicographic_refl [] = refl
lexicographic_refl (x ∷ xs) = ground (arith, lexicographic_refl xs)

lexicographic_flip :
    (xs ys : List ℕ) → lexicographic xs ys ≡ Ordering.gt → lexicographic ys xs ≡ Ordering.lt
unfolding lexicographic
lexicographic_flip [] [] h = cc
lexicographic_flip [] (y ∷ ys) h = cc
lexicographic_flip (x ∷ xs) [] h = refl
lexicographic_flip (x ∷ xs) (y ∷ ys) h = ground (arith, lexicographic_flip xs ys)

lexicographic_trans :
    (xs ys zs : List ℕ)
    → lexicographic xs ys ≢ Ordering.gt
    → lexicographic ys zs ≢ Ordering.gt
    → lexicographic xs zs ≢ Ordering.gt
unfolding lexicographic
lexicographic_trans [] [] [] p q = q
lexicographic_trans [] [] (z ∷ zs) p q = q
lexicographic_trans [] (y ∷ ys) [] p q = λ h. cc
lexicographic_trans [] (y ∷ ys) (z ∷ zs) p q = λ h. cc
lexicographic_trans (x ∷ xs) [] zs p q = absurd (p refl)
lexicographic_trans (x ∷ xs) (y ∷ ys) [] p q = absurd (q refl)
lexicographic_trans (x ∷ xs) (y ∷ ys) (z ∷ zs) p q = ground (arith, lexicographic_trans xs ys zs)

-- The order of `sort`: by UTF-16 code units.
infix 50 ◌≼◌
abbrev pub ◌≼◌ : Text → Text → Type 0
a ≼ b = compare_names a b ≢ Ordering.gt

pub compare_names_refl : (a : Text) → compare_names a a ≡ Ordering.eq
compare_names_refl a = rw (compare_names-utf16 a a) (lexicographic_refl (utf16 a))

pub compare_names_flip : (a b : Text) → compare_names a b ≡ Ordering.gt → b ≼ a
compare_names_flip a b h =
    let g : compare_names b a ≡ Ordering.lt =
      compare_names-utf16 b a ∙ lexicographic_flip _ _ (sym (compare_names-utf16 a b) ∙ h) in
    λ e. cc

pub compare_names_trans : (a b c : Text) → a ≼ b → b ≼ c → a ≼ c
compare_names_trans a b c p q = rw (compare_names-utf16 a c) (
    lexicographic_trans (utf16 a) (utf16 b) (utf16 c) (rw (compare_names-utf16 a b) at p)
      (rw (compare_names-utf16 b c) at q))
