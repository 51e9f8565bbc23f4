-- ===== src/Web/Tests/Decoder.antt =====
-- A concrete decoder for padded base64, which satisfies what is assumed of the `data-url` crate.
use starlingmonkey_ng.Prelude.{
  ℕ, zero, suc, ◌+◌, ◌≡◌, refl, ◌∙◌, Bool, true, false, not, ◌&&◌, Option, none, some, List, [],
  ◌∷◌, if◌then◌else◌, ◌==◌, arith,
}
use starlingmonkey_ng.Web.Base64.{base64_chars, at_index}
use starlingmonkey_ng.Web.Base64.RoundTrip.{
  IsForgivingBase64, first_byte, second_byte, third_byte, prepend3,
}

index_in : List ℕ → ℕ → ℕ
index_in [] c = 0
index_in (x ∷ xs) c = if x == c then 0 else suc (index_in xs c)

index_of : ℕ → ℕ
unfolding index_in
index_of = index_in base64_chars

pub decode_padded : List ℕ → Option (List ℕ)
unfolding index_of
decode_padded [] = some []
decode_padded (c ∷ d ∷ e ∷ f ∷ rest) = elim (e == b'=') [
  | true ↦ some (first_byte (index_of c) (index_of d) ∷ [])
  | false ↦ elim (f == b'=') [
    | true ↦
        some (first_byte (index_of c) (index_of d) ∷ second_byte (index_of d) (index_of e) ∷ [])
    | false ↦
        prepend3 (first_byte (index_of c) (index_of d)) (second_byte (index_of d) (index_of e))
          (third_byte (index_of e) (index_of f)) (decode_padded rest)
  ]
]
decode_padded _ = none

module _ (f : ℕ → ℕ) where
  is_known : List ℕ → ℕ → Bool
  is_known [] start = true
  is_known (c ∷ chars) start = (f c == start && not (c == b'=')) && is_known chars (suc start)

  -- Every character of the table is found at its index.
  known-at :
      (chars : List ℕ) (start i c : ℕ)
      → is_known chars start ≡ true
      → at_index chars i ≡ some c
      → (f c ≡ start + i) × ((c == b'=') ≡ false)
  unfolding is_known at_index
  known-at [] start i c k h = cc
  known-at (x ∷ chars) start zero c k h = ground arith
  known-at (x ∷ chars) start (suc i) c k h = ground (arith, known-at chars (suc start) i c)

base64_chars_known : is_known index_of base64_chars 0 ≡ true
unfolding is_known index_of index_in
base64_chars_known = refl

index_of_lem :
    (i c : ℕ) → at_index base64_chars i ≡ some c → (index_of c ≡ i) × ((c == b'=') ≡ false)
index_of_lem i c h =
    let k = known-at index_of base64_chars 0 i c base64_chars_known h in (omega (arith, k.0), k.1)

decode_two :
    (c d : ℕ)
    → decode_padded (c ∷ d ∷ b'=' ∷ b'=' ∷ []) ≡ some (first_byte (index_of c) (index_of d) ∷ [])
unfolding decode_padded
decode_two c d = refl

decode_three :
    (c d e : ℕ)
    → (e == b'=') ≡ false
    → decode_padded (c ∷ d ∷ e ∷ b'=' ∷ [])
      ≡ some (first_byte (index_of c) (index_of d) ∷ second_byte (index_of d) (index_of e) ∷ [])
unfolding decode_padded
decode_three c d e h = ground arith

decode_four :
    (c d e f : ℕ) (rest : List ℕ)
    → (e == b'=') ≡ false
    → (f == b'=') ≡ false
    → decode_padded (c ∷ d ∷ e ∷ f ∷ rest)
      ≡ prepend3
          (first_byte (index_of c) (index_of d))
          (second_byte (index_of d) (index_of e))
          (third_byte (index_of e) (index_of f))
          (decode_padded rest)
unfolding decode_padded
decode_four c d e f rest h k = ground arith

pub decode_padded-IsForgivingBase64 : IsForgivingBase64 decode_padded
decode_padded-IsForgivingBase64 = record {
  nothing = unfold decode_padded in refl;
  two = λ i j c d hi hj. decode_two c d ∙ rw ((index_of_lem i c hi).0, (index_of_lem j d hj).0);
  three = λ i j k c d e hi hj hk.
      decode_three c d e (index_of_lem k e hk).1
      ∙ rw ((index_of_lem i c hi).0, (index_of_lem j d hj).0, (index_of_lem k e hk).0);
  four = λ i j k l c d e f rest hi hj hk hl.
      decode_four c d e f rest (index_of_lem k e hk).1 (index_of_lem l f hl).1
      ∙ rw (
        (index_of_lem i c hi).0,
        (index_of_lem j d hj).0,
        (index_of_lem k e hk).0,
        (index_of_lem l f hl).0,
      );
}
