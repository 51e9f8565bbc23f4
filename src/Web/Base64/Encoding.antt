-- ===== src/Web/Base64/Encoding.antt =====
-- The encoder of base64.rs against the grouping of bits that RFC 4648 describes.
use starlingmonkey_ng.Prelude.{
  ℕ, zero, suc, ◌+◌, ◌*◌, ◌/◌, ◌%◌, ◌^◌, ◌<◌, ◌≡◌, refl, ◌∙◌, ap, Bool, true, ◌&&◌, none, some,
  List, [], ◌∷◌, ◌++◌, ltb, length, All, arith,
}
use starlingmonkey_ng.Prelude.Bits.{bit_and_mask6, bit_or_above8, bit_or_shift8}
use starlingmonkey_ng.Web.Text.{Text}
use starlingmonkey_ng.Web.Base64.{
  base64_chars, at_index, chunks3, triple_of, digit, encode_chunk, encode_chunks, base64_encode,
}
use mathlib.Core.List.{append-nil, append_assoc}

-- The character for six bits.
unfoldable pub symbol : ℕ → ℕ
unfolding at_index
symbol i = elim (at_index base64_chars i) [ none ↦ 0 | some c ↦ c ]

are_ascii : List ℕ → Bool
are_ascii [] = true
are_ascii (c ∷ chars) = ltb c 128 && are_ascii chars

symbol_in : List ℕ → ℕ → ℕ
unfolding at_index
symbol_in chars i = elim (at_index chars i) [ none ↦ 0 | some c ↦ c ]

-- Within bounds a table of ASCII characters has one.
at_index-within :
    (chars : List ℕ) (i : ℕ)
    → are_ascii chars ≡ true
    → i < length chars
    → (at_index chars i ≡ some (symbol_in chars i)) × (symbol_in chars i < 128)
unfolding are_ascii symbol_in at_index
at_index-within [] i h k = elim k [ ]
at_index-within (c ∷ chars) zero h k = (refl, ground arith)
at_index-within (c ∷ chars) (suc i) h k = at_index-within chars i (ground arith) (omega arith)

base64_chars_ascii : are_ascii base64_chars ≡ true
unfolding are_ascii
base64_chars_ascii = refl

pub at_index-symbol :
    (i : ℕ) → i < 64 → (at_index base64_chars i ≡ some (symbol i)) × (symbol i < 128)
unfolding symbol symbol_in
at_index-symbol i h = at_index-within base64_chars i base64_chars_ascii h

-- Each group of three bytes gives four symbols; one or two bytes at the end are padded.
unfoldable pub encoding : List ℕ → Text
encoding (a ∷ b ∷ c ∷ rest) =
    symbol (a / 4)
    ∷ symbol (a % 4 * 16 + b / 16)
    ∷ symbol (b % 16 * 4 + c / 64)
    ∷ symbol (c % 64)
    ∷ encoding rest
encoding (a ∷ b ∷ []) =
    symbol (a / 4) ∷ symbol (a % 4 * 16 + b / 16) ∷ symbol (b % 16 * 4) ∷ b'=' ∷ []
encoding (a ∷ []) = symbol (a / 4) ∷ symbol (a % 4 * 16) ∷ b'=' ∷ b'=' ∷ []
encoding [] = []

abbrev pub IsByte : ℕ → Type 0
IsByte b = b < 256

triple_of-bytes : (a b c : ℕ) → IsByte b → IsByte c → triple_of a b c ≡ a * 65536 + b * 256 + c
unfolding triple_of
triple_of-bytes a b c hb hc =
    let regroup : a * 65536 ≡ a * 256 * 256 = omega arith in
    rw (regroup, bit_or_shift8 (a * 256) b, bit_or_above8 a b hb)
      (rw (bit_or_above8 (a * 256 + b) c hc) (omega arith))

digit-symbol : (t k : ℕ) → digit t k ≡ some (symbol (t / 2 ^ k % 64))
unfolding digit
digit-symbol t k = rw (bit_and_mask6 (t / 2 ^ k)) (at_index-symbol (t / 2 ^ k % 64) (omega arith)).0

-- The four digits of a group.
digits_of_group :
    (a b c : ℕ)
    → IsByte a
    → IsByte b
    → IsByte c
    → (digit (triple_of a b c) 18 ≡ some (symbol (a / 4)))
      × (digit (triple_of a b c) 12 ≡ some (symbol (a % 4 * 16 + b / 16)))
      × (digit (triple_of a b c) 6 ≡ some (symbol (b % 16 * 4 + c / 64)))
      × (digit (triple_of a b c) 0 ≡ some (symbol (c % 64)))
digits_of_group a b c ha hb hc = (
  digit-symbol _ 18 ∙ ap (λ (i : ℕ). some (symbol i)) (omega (arith, triple_of-bytes a b c hb hc)),
  digit-symbol _ 12 ∙ ap (λ (i : ℕ). some (symbol i)) (omega (arith, triple_of-bytes a b c hb hc)),
  digit-symbol _ 6 ∙ ap (λ (i : ℕ). some (symbol i)) (omega (arith, triple_of-bytes a b c hb hc)),
  digit-symbol _ 0 ∙ ap (λ (i : ℕ). some (symbol i)) (omega (arith, triple_of-bytes a b c hb hc)),
)

encode_chunks-encoding :
    (bytes : List ℕ) (output : Text)
    → All IsByte bytes
    → encode_chunks (chunks3 bytes) output ≡ some (output ++ encoding bytes)
unfolding encode_chunks encode_chunk encoding chunks3
encode_chunks-encoding [] output h = rw append-nil
encode_chunks-encoding (a ∷ []) output (ha, _) =
    let d = digits_of_group a 0 0 ha (omega arith) (omega arith) in
    let e : a % 4 * 16 + 0 ≡ a % 4 * 16 = omega arith in rw (d.0, d.1, e)
encode_chunks-encoding (a ∷ b ∷ []) output (ha, (hb, _)) =
    let d = digits_of_group a b 0 ha hb (omega arith) in
    let e : b % 16 * 4 + 0 ≡ b % 16 * 4 = omega arith in rw (d.0, d.1, d.2, e)
encode_chunks-encoding (a ∷ b ∷ c ∷ rest) output (ha, (hb, (hc, hr))) =
    let d = digits_of_group a b c ha hb hc in
    rw (d.0, d.1, d.2, d.3)
      (encode_chunks-encoding rest _ hr ∙ ap some (append_assoc output _ (encoding rest)))

-- On bytes, the encoder does not panic, and its output is the grouping of their bits into sixes.
pub base64_encode-encoding :
    (bytes : List ℕ) → All IsByte bytes → base64_encode bytes ≡ some (encoding bytes)
unfolding base64_encode
base64_encode-encoding bytes h = encode_chunks-encoding bytes [] h
