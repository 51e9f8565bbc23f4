-- ===== src/Web/Base64/RoundTrip.antt =====
-- `btoa` and `atob` of base64.rs together, and the shape of what `btoa` returns.
use starlingmonkey_ng.Prelude.{
  ℕ, ◌+◌, ◌*◌, ◌/◌, ◌%◌, ◌^◌, ◌<◌, ◌≡◌, ◌⊎◌, inl, inr, refl, ◌∙◌, ap, false, Option, none, some,
  List, [], ◌∷◌, map, All, Bool-cases, arith,
}
use starlingmonkey_ng.Web.Text.{Text, utf8, utf8_char, ok, err}
use starlingmonkey_ng.Web.Base64.{
  base64_chars, at_index, has_wide, btoa, global_btoa, DecodeToVec, forgiving_base64_decode, atob,
  global_atob,
}
use starlingmonkey_ng.Web.Base64.Encoding.{
  symbol, at_index-symbol, encoding, IsByte, base64_encode-encoding,
}

abbrev pub first_byte : ℕ → ℕ → ℕ
first_byte i j = i * 4 + j / 16

abbrev pub second_byte : ℕ → ℕ → ℕ
second_byte j k = j % 16 * 16 + k / 4

abbrev pub third_byte : ℕ → ℕ → ℕ
third_byte k l = k % 4 * 64 + l

abbrev pub prepend3 : ℕ → ℕ → ℕ → Option (List ℕ) → Option (List ℕ)
prepend3 a b c none = none
prepend3 a b c (some rest) = some (a ∷ b ∷ c ∷ rest)

-- What https://infra.spec.whatwg.org/#forgiving-base64-decode says of input that starts with four
-- symbols, and of the two padded endings. The crate's documentation refers to it.
pub record IsForgivingBase64 (decode : DecodeToVec) : Type 0 where
  pub nothing : decode [] ≡ some []
  pub two :
      (i j c d : ℕ)
      → at_index base64_chars i ≡ some c
      → at_index base64_chars j ≡ some d
      → decode (c ∷ d ∷ b'=' ∷ b'=' ∷ []) ≡ some (first_byte i j ∷ [])
  pub three :
      (i j k c d e : ℕ)
      → at_index base64_chars i ≡ some c
      → at_index base64_chars j ≡ some d
      → at_index base64_chars k ≡ some e
      → decode (c ∷ d ∷ e ∷ b'=' ∷ []) ≡ some (first_byte i j ∷ second_byte j k ∷ [])
  pub four :
      (i j k l c d e f : ℕ) (rest : List ℕ)
      → at_index base64_chars i ≡ some c
      → at_index base64_chars j ≡ some d
      → at_index base64_chars k ≡ some e
      → at_index base64_chars l ≡ some f
      → decode (c ∷ d ∷ e ∷ f ∷ rest)
        ≡ prepend3 (first_byte i j) (second_byte j k) (third_byte k l) (decode rest)

is_symbol : (i : ℕ) → i < 64 → at_index base64_chars i ≡ some (symbol i)
is_symbol i h = (at_index-symbol i h).0

module _ (decode : DecodeToVec) (ax : IsForgivingBase64 decode) where
  decode-encoding : (bytes : List ℕ) → All IsByte bytes → decode (encoding bytes) ≡ some bytes
  unfolding encoding
  decode-encoding [] h = ax.nothing
  decode-encoding (a ∷ []) (ha, _) =
      ax.two (a / 4) (a % 4 * 16) _ _ (is_symbol _ (omega arith)) (is_symbol _ (omega arith))
      ∙ ap (λ (n : ℕ). some (n ∷ [])) (omega arith)
  decode-encoding (a ∷ b ∷ []) (ha, (hb, _)) =
      let e : first_byte (a / 4) (a % 4 * 16 + b / 16) ≡ a = omega arith in
      let f : second_byte (a % 4 * 16 + b / 16) (b % 16 * 4) ≡ b = omega arith in
      ax.three (a / 4) (a % 4 * 16 + b / 16) (b % 16 * 4) _ _ _ (is_symbol _ (omega arith))
        (is_symbol _ (omega arith)) (is_symbol _ (omega arith))
      ∙ rw (e, f)
  decode-encoding (a ∷ b ∷ c ∷ rest) (ha, (hb, (hc, hr))) =
      let e : first_byte (a / 4) (a % 4 * 16 + b / 16) ≡ a = omega arith in
      let f : second_byte (a % 4 * 16 + b / 16) (b % 16 * 4 + c / 64) ≡ b = omega arith in
      let g : third_byte (b % 16 * 4 + c / 64) (c % 64) ≡ c = omega arith in
      ax.four (a / 4) (a % 4 * 16 + b / 16) (b % 16 * 4 + c / 64) (c % 64) _ _ _ _ (encoding rest)
        (is_symbol _ (omega arith)) (is_symbol _ (omega arith)) (is_symbol _ (omega arith))
        (is_symbol _ (omega arith))
      ∙ rw (e, f, g, decode-encoding rest hr)

abbrev IsAscii : ℕ → Type 0
IsAscii c = c < 128

utf8-ascii : (s : Text) → All IsAscii s → utf8 s ≡ s
unfolding utf8 utf8_char
utf8-ascii [] h = refl
utf8-ascii (c ∷ s) (hc, hs) = ground (arith, utf8-ascii s hs)

symbol-IsAscii : (i : ℕ) → i < 64 → symbol i < 128
symbol-IsAscii i h = (at_index-symbol i h).1

encoding-IsAscii : (bytes : List ℕ) → All IsByte bytes → All IsAscii (encoding bytes)
unfolding encoding
encoding-IsAscii [] h = tt
encoding-IsAscii (a ∷ []) (ha, _) =
    padded (symbol-IsAscii _ (omega arith)) (symbol-IsAscii _ (omega arith))
  where
    padded : {i j : ℕ} → IsAscii i → IsAscii j → All IsAscii (i ∷ j ∷ b'=' ∷ b'=' ∷ [])
    padded h k = (h, (k, (omega arith, (omega arith, tt))))
encoding-IsAscii (a ∷ b ∷ []) (ha, (hb, _)) = (
  symbol-IsAscii _ (omega arith),
  (symbol-IsAscii _ (omega arith), (symbol-IsAscii _ (omega arith), (omega arith, tt))),
)
encoding-IsAscii (a ∷ b ∷ c ∷ rest) (ha, (hb, (hc, hr))) = (
  symbol-IsAscii _ (omega arith),
  (
    symbol-IsAscii _ (omega arith),
    (symbol-IsAscii _ (omega arith), (symbol-IsAscii _ (omega arith), encoding-IsAscii rest hr)),
  ),
)

-- Characters up to U+00FF are their own bytes.
abbrev pub IsLatin1 : Text → Type 0
IsLatin1 s = All IsByte s

to_bytes : (s : Text) → IsLatin1 s → map (λ ch. ch % 2 ^ 8) s ≡ s
to_bytes [] h = refl
to_bytes (c ∷ s) (hc, hs) = let e : c % 2 ^ 8 ≡ c = omega arith in rw (e, to_bytes s hs)

has_wide-Latin1 : (s : Text) → IsLatin1 s → has_wide s ≡ false
unfolding has_wide
has_wide-Latin1 [] h = refl
has_wide-Latin1 (c ∷ s) (hc, hs) = ground (arith, has_wide-Latin1 s hs)

Latin1-has_wide : (s : Text) → has_wide s ≡ false → IsLatin1 s
unfolding has_wide
Latin1-has_wide [] h = tt
Latin1-has_wide (c ∷ s) h = ground (arith, Latin1-has_wide s)

btoa-encoding : (s : Text) → IsLatin1 s → btoa s ≡ some (ok (encoding s))
unfolding btoa
btoa-encoding s h = rw (has_wide-Latin1 s h, to_bytes s h, base64_encode-encoding s h)

-- `btoa` never panics. On a text whose characters are all at most U+00FF it returns the base64
-- encoding of their numbers, and the global `btoa` throws an InvalidCharacterError exactly on the
-- other texts.
pub global_btoa-cases :
    (s : Text)
    → (IsLatin1 s × (global_btoa s ≡ some (ok (encoding s))))
      ⊎ ((IsLatin1 s → ⊥)
          × (global_btoa s
              ≡ some (
                  err (record {
                    name = "InvalidCharacterError";
                    message =
                        "The string to be encoded contains characters outside of the Latin1 range.";
                  }))))
unfolding global_btoa btoa
global_btoa-cases s = elim (Bool-cases (has_wide s)) [
  | inl wide ↦ inr (λ h. cc (wide, has_wide-Latin1 s h), rw wide)
  | inr narrow ↦
      let h : IsLatin1 s = Latin1-has_wide s narrow in
      inl (h, rw (narrow, to_bytes s h, base64_encode-encoding s h))
]

global_atob-decoded :
    (decode : DecodeToVec) (t : Text) (bytes : List ℕ)
    → decode (utf8 t) ≡ some bytes
    → global_atob decode t ≡ ok bytes
unfolding global_atob atob forgiving_base64_decode
global_atob-decoded decode t bytes h = ground arith

-- With a decoder that follows the forgiving-base64 algorithm, `btoa` succeeds on every text whose
-- characters are all at most U+00FF, and `atob` reads the text back from what it returned.
pub global_atob-global_btoa :
    (decode : DecodeToVec)
    → IsForgivingBase64 decode
    → (s : Text) → IsLatin1 s
    → (t : Text) × (global_btoa s ≡ some (ok t)) × (global_atob decode t ≡ ok s)
unfolding global_btoa
global_atob-global_btoa decode ax s h = (
  encoding s,
  rw (btoa-encoding s h),
  global_atob-decoded decode (encoding s) s
      (rw (utf8-ascii (encoding s) (encoding-IsAscii s h)) (decode-encoding decode ax s h)),
)
