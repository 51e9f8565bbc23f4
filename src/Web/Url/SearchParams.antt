-- ===== src/Web/Url/SearchParams.antt =====
-- The constructor and the methods of URLSearchParams that change its list
-- (crates/builtins/web-url/src/url_search_params.rs), on the store of objects.
use starlingmonkey_ng.Prelude.{
  ℕ, ◌-◌, ◌&&◌, Option, none, some, List, [], ◌∷◌, ◌++◌, if◌then◌else◌, is_none, length,
}
use starlingmonkey_ng.Web.Text.{Text, codes, Result, ok, err}
use starlingmonkey_ng.Web.Params
use starlingmonkey_ng.Web.Params.{Pairs}
use starlingmonkey_ng.Web.Url.{
  UrlCrate, Thrown, type_error, Store, put_url, put_list, new_params, urlencoded_parse,
  urlencoded_serialize, ends_with_space, trim_end_spaces, spaces, without_question_mark, is_empty,
}

-- `URLSearchParamsInit`
pub data ParamsInit : Type 0 where
  pairs : List (List Text) → ParamsInit
  record_of : Pairs → ParamsInit
  str : Text → ParamsInit

-- The loop over the sequence of sequences.
unfoldable pub pairs_of : List (List Text) → Result Pairs Thrown
pairs_of [] = ok []
pairs_of ((name ∷ value ∷ []) ∷ rest) = elim (pairs_of rest) [
  | ok list ↦ ok ((name, value) ∷ list)
  | err e ↦ err e
]
pairs_of (_ ∷ rest) = err type_error

module _ (c : UrlCrate) where
  open c use {Url}

  -- The list that the constructor stores.
  unfoldable pub initial_list : Option ParamsInit → Result Pairs Thrown
  unfolding pairs_of urlencoded_parse
  initial_list none = ok []
  initial_list (some (pairs ps)) = pairs_of ps
  initial_list (some (record_of list)) = ok list
  initial_list (some (str s)) = ok (urlencoded_parse c (without_question_mark s))

  -- The constructor, with the object that it makes; one that threw is not reachable.
  unfoldable pub construct : Option ParamsInit → Store c → Result (ℕ × Store c) Thrown
  unfolding initial_list
  construct init s = elim (initial_list init) [
    | ok list ↦ ok (s.params_count, new_params (record { list = list; url_object = none }) s)
    | err e ↦ err e
  ]

  -- The trailing space of an opaque path, which is percent-encoded when the query goes.
  unfoldable pub encode_trailing_space : Url → Url
  encode_trailing_space url =
      let path = c.path url in
      if ends_with_space path
      then (let trimmed = trim_end_spaces path in
          let trailing_spaces = length path - length trimmed in
          c.set_path url (trimmed ++ (spaces (trailing_spaces - 1) ++ codes "%20")))
      else url

  unfoldable pub update_url : Option Text → Url → Url
  unfolding encode_trailing_space
  update_url serialized_query url =
      c.set_query
        (if is_none serialized_query && c.cannot_be_a_base url
          then encode_trailing_space url
          else url)
        serialized_query

  -- `update`; it never throws.
  unfoldable pub update : ℕ → Store c → Store c
  unfolding urlencoded_serialize update_url
  update p s = elim (s.params p).url_object [
    | none ↦ s
    | some u ↦
        let serialized = urlencoded_serialize c (s.params p).list in
        let serialized_query = (if is_empty serialized then none else some serialized) in
        elim (s.urls u).url [
          | none ↦ s
          | some url ↦
              put_url u (record (s.urls u) { url = some (update_url serialized_query url) }) s
        ]
  ]

  unfoldable pub append : ℕ → Text → Text → Store c → Store c
  unfolding Params.append update
  append p name value s = update p (put_list p (Params.append name value (s.params p).list) s)

  unfoldable pub delete : ℕ → Text → Option Text → Store c → Store c
  unfolding Params.delete update
  delete p name value s = update p (put_list p (Params.delete name value (s.params p).list) s)

  unfoldable pub set : ℕ → Text → Text → Store c → Store c
  unfolding Params.set update
  set p name value s = update p (put_list p (Params.set name value (s.params p).list) s)

  unfoldable pub sort : ℕ → Store c → Store c
  unfolding Params.sort update
  sort p s = update p (put_list p (Params.sort (s.params p).list) s)

  unfoldable pub to_string : ℕ → Store c → Text
  unfolding urlencoded_serialize
  to_string p s = urlencoded_serialize c (s.params p).list
