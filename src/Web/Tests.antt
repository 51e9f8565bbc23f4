-- ===== src/Web/Tests.antt =====
-- Tests of the web globals, and the theorems at concrete inputs.
mod Crates
mod Decoder
use starlingmonkey_ng.Prelude.{
  ℕ, ◌+◌, ◌%◌, ◌/◌, ◌*◌, ◌<◌, ◌≡◌, ◌≢◌, ◌⊎◌, refl, Bool, true, false, Option, none, some, List, [],
  ◌∷◌, ◌++◌, length, arith, if◌then◌else◌, inl, inr, is_some,
}
use starlingmonkey_ng.Web.Text.{Text, text_eq, codes, utf8, utf16, Result, ok, err}
use starlingmonkey_ng.Web.Base64.{base64_encode, btoa, global_btoa, global_atob, DomExceptionError}
use starlingmonkey_ng.Web.Base64.Encoding.{encoding, base64_encode-encoding}
use starlingmonkey_ng.Web.Base64.RoundTrip.{global_btoa-cases, global_atob-global_btoa, IsLatin1}
use starlingmonkey_ng.Web.Params
use starlingmonkey_ng.Web.Params.{Pairs}
use starlingmonkey_ng.Web.Params.Multimap.{
  params-Multimap, values_of, update_at, without, contains, first,
}
use starlingmonkey_ng.Web.Params.Order.{compare_names-utf16}
use starlingmonkey_ng.Web.Params.Sort.{IsSorted, sort-IsSorted_stable}
use starlingmonkey_ng.Web.Tests.Decoder.{decode_padded, decode_padded-IsForgivingBase64}
use starlingmonkey_ng.Web.Tests.Crates.{read_pairs, write_pairs, only_query, only_query-IsUrlCrate}
use starlingmonkey_ng.Web.Url.{UrlCrate, Store, UrlObject, put_url, put_params, new_url, new_params}
use starlingmonkey_ng.Web.Url.SearchParams
use starlingmonkey_ng.Web.Url.Methods
use starlingmonkey_ng.Web.Url.Sync.{InSync}
use starlingmonkey_ng.Web.Url.Sync.Reach.{
  no_objects, Reach, start, call, make_url, make_params, append, sort, set_search, Reach-InSync,
}

-- The cases of the unit tests of base64.rs.
btoa_ab : btoa (codes "ab") ≡ some (ok (codes "YWI="))
unfolding btoa
btoa_ab = refl

btoa_abc : btoa (codes "abc") ≡ some (ok (codes "YWJj"))
unfolding btoa
btoa_abc = refl

btoa_abcd : btoa (codes "abcd") ≡ some (ok (codes "YWJjZA=="))
unfolding btoa
btoa_abcd = refl

btoa_latin1 : btoa (0xff ∷ 0xff ∷ 0xc0 ∷ []) ≡ some (ok (codes "///A"))
unfolding btoa
btoa_latin1 = refl

btoa_wide :
    btoa (0x100 ∷ [])
    ≡ some (err "The string to be encoded contains characters outside of the Latin1 range.")
unfolding btoa
btoa_wide = refl

base64_encode-encoding_example :
    base64_encode (0 ∷ 255 ∷ 97 ∷ 98 ∷ []) ≡ some (encoding (0 ∷ 255 ∷ 97 ∷ 98 ∷ []))
base64_encode-encoding_example = base64_encode-encoding (0 ∷ 255 ∷ 97 ∷ 98 ∷ []) (omega arith)

abbrev two_names : Pairs
two_names = (codes "b", codes "1") ∷ (codes "a", codes "2") ∷ (codes "b", codes "3") ∷ []

set_b :
    Params.set (codes "b") (codes "4") two_names
    ≡ (codes "b", codes "4") ∷ (codes "a", codes "2") ∷ []
unfolding Params.set text_eq
set_b = refl

sort_names :
    Params.sort two_names
    ≡ (codes "a", codes "2") ∷ (codes "b", codes "1") ∷ (codes "b", codes "3") ∷ []
unfolding Params.sort
sort_names = refl

-- U+FF5E comes after U+1F600 in UTF-16, and before it in UTF-8.
units_order : Params.compare_names (0xff5e ∷ []) (0x1f600 ∷ []) ≡ Prim.Native.Nat.Ordering.gt
unfolding Params.compare_names
units_order = refl

global_btoa-cases_example :
    (IsLatin1 (codes "a") × (global_btoa (codes "a") ≡ some (ok (encoding (codes "a")))))
    ⊎ ((IsLatin1 (codes "a") → ⊥)
        × (global_btoa (codes "a")
            ≡ some (
                err (record {
                  name = "InvalidCharacterError";
                  message =
                      "The string to be encoded contains characters outside of the Latin1 range.";
                }))))
global_btoa-cases_example = global_btoa-cases (codes "a")

global_atob-global_btoa_example :
    (t : Text) × (global_btoa (codes "abcd") ≡ some (ok t))
    × (global_atob decode_padded t ≡ ok (codes "abcd"))
global_atob-global_btoa_example =
    global_atob-global_btoa decode_padded decode_padded-IsForgivingBase64 (codes "abcd")
      (omega arith)

params-Multimap_example :
    (values_of (Params.append (codes "b") (codes "4") two_names) (codes "b")
      ≡ update_at (codes "b") (λ vs. vs ++ codes "4" ∷ []) (values_of two_names) (codes "b"))
    × (values_of (Params.delete (codes "b") none two_names) (codes "b")
        ≡ update_at (codes "b") (λ vs. []) (values_of two_names) (codes "b"))
    × (values_of (Params.delete (codes "b") (some (codes "4")) two_names) (codes "b")
        ≡ update_at (codes "b") (without (codes "4")) (values_of two_names) (codes "b"))
    × (values_of (Params.set (codes "b") (codes "4") two_names) (codes "b")
        ≡ update_at (codes "b") (λ vs. codes "4" ∷ []) (values_of two_names) (codes "b"))
    × (Params.get (codes "b") two_names ≡ first (values_of two_names (codes "b")))
    × (Params.has (codes "b") (some (codes "4")) two_names
        ≡ contains (codes "4") (values_of two_names (codes "b")))
    × (Params.has (codes "b") none two_names ≡ is_some (first (values_of two_names (codes "b"))))
params-Multimap_example = params-Multimap (codes "b") (codes "4") (codes "b") two_names

compare_names-utf16_example :
    Params.compare_names (codes "a") (0xff5e ∷ [])
    ≡ Params.lexicographic (utf16 (codes "a")) (utf16 (0xff5e ∷ []))
compare_names-utf16_example = compare_names-utf16 (codes "a") (0xff5e ∷ [])

sort-IsSorted_stable_example :
    IsSorted (Params.sort two_names)
    × (length (Params.sort two_names) ≡ length two_names)
    × ((name : Text) → Params.get_all name (Params.sort two_names) ≡ Params.get_all name two_names)
sort-IsSorted_stable_example = sort-IsSorted_stable two_names

-- A URL is made, a pair is appended to its search parameters, and its query is set.
abbrev made_url : Store only_query
made_url =
    let s =
      new_params (record { list = []; url_object = none }) (new_url (no_objects only_query)) in
    put_params 0 (record { list = []; url_object = some 0 })
      (put_url 0 (record { url = some (some (codes "b")); query_object = some 0 }) s)

makes_url :
    Methods.construct only_query true (codes "b") none (no_objects only_query) ≡ ok (0, made_url)
unfolding Methods.construct utf8 read_pairs
makes_url = refl

abbrev appended : Store only_query
appended = SearchParams.append only_query 0 (codes "k") (codes "v") made_url

-- The new query: the pair, as the serializer writes it.
appended_url : (appended.urls 0).url ≡ some (some (write_pairs ((codes "k", codes "v") ∷ [])))
unfolding SearchParams.append write_pairs
appended_url = refl

some_calls : Reach only_query (Methods.set_search only_query 0 (codes "?q") appended)
some_calls =
    call
      (call (call start (make_url true (codes "b") none makes_url))
        (append 0 (codes "k") (codes "v")))
      (set_search 0 (codes "?q") appended_url refl)

Reach-InSync_example : InSync (Methods.set_search only_query 0 (codes "?q") appended)
Reach-InSync_example = Reach-InSync only_query-IsUrlCrate some_calls
