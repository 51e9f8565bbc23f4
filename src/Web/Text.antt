-- ===== src/Web/Text.antt =====
-- Rust strings as the lists of their scalar values, and results that carry an error.
use starlingmonkey_ng.Prelude.{
  ℕ, ◌+◌, ◌-◌, ◌/◌, ◌%◌, ◌≡◌, ◌↔◌, Bool, true, false, ◌&&◌, Option, none, some, String, List, [],
  ◌∷◌, ◌++◌, ltb, ◌==◌, if◌then◌else◌, arith,
}
use Prim.Native.Char.{code}

abbrev pub Text : Type 0
Text = List ℕ

-- The scalar values of a literal.
abbrev pub codes : String → Text
codes String.[] = []
codes (String.◌∷◌ c s) = code c ∷ codes s

-- `Result<A, E>`
pub data Result (A E : Type 0) : Type 0 where
  ok : A → Result A E
  err : E → Result A E

-- `map_err`
abbrev pub map_err : {A E F : Type 0} → (E → F) → Result A E → Result A F
map_err f (ok a) = ok a
map_err f (err e) = err (f e)

-- What may panic: `none` is the panic.
infixl 5 ◌>>=◌
abbrev pub ◌>>=◌ : {A B : Type 0} → Option A → (A → Option B) → Option B
none >>= f = none
some a >>= f = f a

-- `==` on strings
unfoldable pub text_eq : Text → Text → Bool
text_eq [] [] = true
text_eq [] (d ∷ t) = false
text_eq (c ∷ s) [] = false
text_eq (c ∷ s) (d ∷ t) = c == d && text_eq s t

pub text_eq_iff : (s t : Text) → (text_eq s t ≡ true) ↔ (s ≡ t)
unfolding text_eq
text_eq_iff [] [] = ground arith
text_eq_iff [] (d ∷ t) = ground arith
text_eq_iff (c ∷ s) [] = ground arith
text_eq_iff (c ∷ s) (d ∷ t) = ground (arith, text_eq_iff s t)

-- The bytes of a scalar value in UTF-8.
unfoldable pub utf8_char : ℕ → List ℕ
utf8_char c =
    if ltb c 0x80
    then c ∷ []
    else if ltb c 0x800
    then (0xc0 + c / 64) ∷ (0x80 + c % 64) ∷ []
    else if ltb c 0x10000
    then (0xe0 + c / 4096) ∷ (0x80 + c / 64 % 64) ∷ (0x80 + c % 64) ∷ []
    else (0xf0 + c / 262144) ∷ (0x80 + c / 4096 % 64) ∷ (0x80 + c / 64 % 64) ∷ (0x80 + c % 64) ∷ []

-- `as_bytes`
unfoldable pub utf8 : Text → List ℕ
unfolding utf8_char
utf8 [] = []
utf8 (c ∷ s) = utf8_char c ++ utf8 s

-- `char::encode_utf16`
unfoldable pub utf16_char : ℕ → List ℕ
utf16_char c =
    if ltb c 0x10000
    then c ∷ []
    else (0xd800 + (c - 0x10000) / 1024) ∷ (0xdc00 + (c - 0x10000) % 1024) ∷ []

-- `encode_utf16`
unfoldable pub utf16 : Text → List ℕ
unfolding utf16_char
utf16 [] = []
utf16 (c ∷ s) = utf16_char c ++ utf16 s
