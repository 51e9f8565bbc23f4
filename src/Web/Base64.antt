-- ===== src/Web/Base64.antt =====
-- crates/builtins/web-globals/src/base64.rs: the `btoa` and `atob` globals. The decoder of the
-- `data-url` crate is a parameter.
pub mod Encoding
pub mod RoundTrip
use starlingmonkey_ng.Prelude.{
  ℕ, zero, suc, ◌*◌, ◌/◌, ◌^◌, ◌+◌, ◌%◌, Bool, true, false, Option, none, some, String, List, [],
  ◌∷◌, ◌++◌, map, ◌≡◌, ltb, if◌then◌else◌, length,
}
use starlingmonkey_ng.Web.Text.{Text, codes, utf8, Result, ok, err, map_err, ◌>>=◌}
use Prim.Native.Nat.{bit_and, bit_or}

-- `DOMExceptionError`
pub record DomExceptionError : Type 0 where
  pub name : String
  pub message : String

abbrev pub base64_chars : List ℕ
base64_chars = codes "ABCDEFGHIJKLMNOPQRSTUVWXYZabcdefghijklmnopqrstuvwxyz0123456789+/"

-- Indexing; out of bounds it panics.
unfoldable pub at_index : List ℕ → ℕ → Option ℕ
at_index [] i = none
at_index (x ∷ xs) zero = some x
at_index (x ∷ xs) (suc i) = at_index xs i

-- `slice::chunks(3)`
unfoldable pub chunks3 : List ℕ → List (List ℕ)
chunks3 (a ∷ b ∷ c ∷ rest) = (a ∷ b ∷ c ∷ []) ∷ chunks3 rest
chunks3 (a ∷ b ∷ []) = (a ∷ b ∷ []) ∷ []
chunks3 (a ∷ []) = (a ∷ []) ∷ []
chunks3 [] = []

-- `(b0 << 16) | (b1 << 8) | b2`
unfoldable pub triple_of : ℕ → ℕ → ℕ → ℕ
triple_of b0 b1 b2 = bit_or (bit_or (b0 * 2 ^ 16) (b1 * 2 ^ 8)) b2

-- `BASE64_CHARS[((triple >> shift) & 0x3F) as usize] as char`
unfoldable pub digit : ℕ → ℕ → Option ℕ
unfolding at_index
digit triple shift = at_index base64_chars (bit_and (triple / 2 ^ shift) 0x3f)

-- One round of the loop of `base64_encode`.
unfoldable pub encode_chunk : List ℕ → Text → Option Text
unfolding at_index triple_of digit
encode_chunk chunk output = do
  b0 ← at_index chunk 0
  b1 ← (if ltb 1 (length chunk) then at_index chunk 1 else some 0)
  b2 ← (if ltb 2 (length chunk) then at_index chunk 2 else some 0)
  let triple = triple_of b0 b1 b2
  d0 ← digit triple 18
  d1 ← digit triple 12
  d2 ← (if ltb 1 (length chunk) then digit triple 6 else some b'=')
  d3 ← (if ltb 2 (length chunk) then digit triple 0 else some b'=')
  some (output ++ d0 ∷ d1 ∷ d2 ∷ d3 ∷ [])

unfoldable pub encode_chunks : List (List ℕ) → Text → Option Text
unfolding encode_chunk
encode_chunks [] output = some output
encode_chunks (chunk ∷ chunks) output = do
  output' ← encode_chunk chunk output
  encode_chunks chunks output'

unfoldable pub base64_encode : List ℕ → Option Text
unfolding chunks3 encode_chunks
base64_encode input = encode_chunks (chunks3 input) []

-- The first loop of `btoa`: whether a character lies above U+00FF.
unfoldable pub has_wide : Text → Bool
has_wide [] = false
has_wide (ch ∷ rest) = if ltb 0xff ch then true else has_wide rest

-- `btoa`; `ch as u8` keeps the low eight bits.
unfoldable pub btoa : Text → Option (Result Text String)
unfolding has_wide base64_encode
btoa s =
    if has_wide s
    then some (err "The string to be encoded contains characters outside of the Latin1 range.")
    else do output ← base64_encode (map (λ ch. ch % 2 ^ 8) s); some (ok output)

-- The `btoa` of `base64_globals`
unfoldable pub global_btoa : Text → Option (Result Text DomExceptionError)
unfolding btoa
global_btoa s = do
  r ← btoa s
  some (map_err (λ msg. record { name = "InvalidCharacterError"; message = msg }) r)

-- `data_url::forgiving_base64::decode_to_vec`: bytes to bytes, or an error.
abbrev pub DecodeToVec : Type 0
DecodeToVec = List ℕ → Option (List ℕ)

module _ (decode_to_vec : DecodeToVec) where
  unfoldable pub forgiving_base64_decode : Text → Result (List ℕ) String
  unfolding utf8
  forgiving_base64_decode s = elim (decode_to_vec (utf8 s)) [
    | none ↦ err "The string to be decoded is not correctly encoded."
    | some bytes ↦ ok bytes
  ]

  -- A byte is the character with that number.
  unfoldable pub atob : Text → Result Text String
  unfolding forgiving_base64_decode
  atob s = forgiving_base64_decode s

  -- The `atob` of `base64_globals`
  unfoldable pub global_atob : Text → Result Text DomExceptionError
  unfolding atob
  global_atob s = map_err (λ msg. record { name = "InvalidCharacterError"; message = msg }) (atob s)
