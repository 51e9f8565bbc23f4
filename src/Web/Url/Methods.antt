-- ===== src/Web/Url/Methods.antt =====
-- The constructor, the accessors and the static methods of URL (crates/builtins/web-url/src/url.rs),
-- on the store of objects.
use starlingmonkey_ng.Prelude.{
  ℕ, Bool, ◌||◌, Option, none, some, List, [], if◌then◌else◌, is_some, is_none,
}
use starlingmonkey_ng.Web.Text.{Text, Result, ok, err}
use starlingmonkey_ng.Web.Url.{
  UrlCrate, Thrown, type_error, engine_error, Store, put_url, put_params, put_list, new_url,
  new_params, basic_url_parser, api_url_parser, urlencoded_parse, without_question_mark, is_empty,
}

-- `query().unwrap_or("")`
abbrev pub text_or_empty : Option Text → Text
text_or_empty none = []
text_or_empty (some t) = t

module _ (c : UrlCrate) where
  open c use {Url}

  -- `created` tells whether the engine could make the object of the search parameters.
  unfoldable pub initialize_with_url_record : Bool → ℕ → Url → Store c → Result (Store c) Thrown
  unfolding urlencoded_parse
  initialize_with_url_record created u url_record s =
      let query_list = urlencoded_parse c (text_or_empty (c.query url_record)) in
      if created
      then (let q = s.params_count in
          let s1 = new_params (record { list = query_list; url_object = none }) s in
          let s2 = put_url u (record { url = some url_record; query_object = some q }) s1 in
          ok (put_params q (record (s2.params q) { url_object = some u }) s2))
      else err engine_error

  -- The constructor, with the object that it makes; one that threw is not reachable.
  unfoldable pub construct : Bool → Text → Option Text → Store c → Result (ℕ × Store c) Thrown
  unfolding api_url_parser initialize_with_url_record
  construct created url base s = elim (api_url_parser c url base) [
    | none ↦ err type_error
    | some parsed_url ↦
        elim (initialize_with_url_record created s.url_count parsed_url (new_url s)) [
          | ok s' ↦ ok (s.url_count, s')
          | err e ↦ err e
        ]
  ]

  -- `parse`: what the constructor throws is cleared.
  unfoldable pub parse : Bool → Text → Option Text → Store c → Option (ℕ × Store c)
  unfolding construct
  parse created url base s = elim (construct created url base s) [ ok r ↦ some r | err e ↦ none ]

  unfoldable pub can_parse : Text → Option Text → Bool
  unfolding api_url_parser
  can_parse url base = is_some (api_url_parser c url base)

  -- A getter: the empty string when there is no URL.
  unfoldable pub read : (Url → Text) → ℕ → Store c → Text
  read f u s = elim (s.urls u).url [ none ↦ [] | some url ↦ f url ]

  unfoldable pub href : ℕ → Store c → Text
  unfolding read
  href = read c.as_str

  unfoldable pub origin : ℕ → Store c → Text
  unfolding read
  origin = read c.ascii_origin

  unfoldable pub protocol : ℕ → Store c → Text
  unfolding read
  protocol = read c.protocol

  unfoldable pub username : ℕ → Store c → Text
  unfolding read
  username = read c.username

  unfoldable pub password : ℕ → Store c → Text
  unfolding read
  password = read c.password

  unfoldable pub host : ℕ → Store c → Text
  unfolding read
  host = read c.host

  unfoldable pub hostname : ℕ → Store c → Text
  unfolding read
  hostname = read c.hostname

  unfoldable pub port : ℕ → Store c → Text
  unfolding read
  port = read c.port

  unfoldable pub pathname : ℕ → Store c → Text
  unfolding read
  pathname = read c.path

  unfoldable pub search : ℕ → Store c → Text
  unfolding read
  search = read c.search

  unfoldable pub hash : ℕ → Store c → Text
  unfolding read
  hash = read c.hash

  -- A setter: nothing happens when there is no URL.
  unfoldable pub change : (Url → Url) → ℕ → Store c → Store c
  change f u s = elim (s.urls u).url [
    | none ↦ s
    | some url ↦ put_url u (record (s.urls u) { url = some (f url) }) s
  ]

  unfoldable pub set_protocol : ℕ → Text → Store c → Store c
  unfolding change
  set_protocol u value = change (λ url. c.set_protocol url value) u

  -- A URL that cannot have credentials is left alone.
  unfoldable pub with_host : (Url → Url) → Url → Url
  with_host f url = if c.cannot_be_a_base url || is_none (c.host_str url) then url else f url

  unfoldable pub set_username : ℕ → Text → Store c → Store c
  unfolding change with_host
  set_username u value = change (with_host (λ url. c.set_username url value)) u

  unfoldable pub set_password : ℕ → Text → Store c → Store c
  unfolding change with_host
  set_password u value = change (with_host (λ url. c.set_password url value)) u

  unfoldable pub set_host : ℕ → Text → Store c → Store c
  unfolding change
  set_host u value = change (λ url. c.set_host url value) u

  unfoldable pub set_hostname : ℕ → Text → Store c → Store c
  unfolding change
  set_hostname u value = change (λ url. c.set_hostname url value) u

  unfoldable pub set_port : ℕ → Text → Store c → Store c
  unfolding change
  set_port u value = change (λ url. c.set_port url value) u

  unfoldable pub set_pathname : ℕ → Text → Store c → Store c
  unfolding change
  set_pathname u value = change (λ url. c.set_pathname url value) u

  unfoldable pub set_hash : ℕ → Text → Store c → Store c
  unfolding change
  set_hash u value = change (λ url. c.set_hash url value) u

  -- The list of the query object, where the URL has one.
  unfoldable pub refill : ℕ → (List (Text × Text)) → Store c → Store c
  refill u list s = elim (s.urls u).query_object [ none ↦ s | some q ↦ put_list q list s ]

  unfoldable pub set_search : ℕ → Text → Store c → Store c
  unfolding urlencoded_parse refill
  set_search u value s = elim (s.urls u).url [
    | none ↦ s
    | some url ↦
        let input = without_question_mark value in
        let s' = put_url u (record (s.urls u) { url = some (c.set_search url value) }) s in
        refill u (if is_empty value then [] else urlencoded_parse c input) s'
  ]

  unfoldable pub list_of_query : Option Text → List (Text × Text)
  unfolding urlencoded_parse
  list_of_query none = []
  list_of_query (some query) = urlencoded_parse c query

  unfoldable pub set_href : ℕ → Text → Store c → Result (Store c) Thrown
  unfolding basic_url_parser refill list_of_query
  set_href u value s = elim (basic_url_parser c value none) [
    | none ↦ err type_error
    | some parsed_url ↦
        let s' = put_url u (record (s.urls u) { url = some parsed_url }) s in
        ok (refill u (list_of_query (c.query parsed_url)) s')
  ]

  -- `none` is the panic of `expect`.
  unfoldable pub search_params : ℕ → Store c → Option ℕ
  search_params u s = (s.urls u).query_object
