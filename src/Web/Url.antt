-- ===== src/Web/Url.antt =====
-- url.rs, algorithms.rs and the methods of url_search_params.rs that change a list, in
-- crates/builtins/web-url/src. The `url` and `form_urlencoded` crates are parameters. Objects stand
-- in a store: a URL and its search parameters point at each other.
pub mod SearchParams
pub mod Methods
pub mod Sync
use starlingmonkey_ng.Prelude.{
  ℕ, zero, suc, ◌+◌, ◌-◌, ◌%◌, ◌^◌, Bool, true, false, not, ◌&&◌, ◌||◌, Option, none, some, List,
  [], ◌∷◌, ◌++◌, map, ltb, ◌==◌, if◌then◌else◌, is_some, is_none, length,
}
use starlingmonkey_ng.Web.Text.{Text, codes, utf8, Result, ok, err}
use starlingmonkey_ng.Web.Params
use starlingmonkey_ng.Web.Params.{Pairs}

-- What the code calls of `url::Url`, `url::quirks` and `form_urlencoded`. A setter returns the
-- changed URL; the code ignores whether it was refused.
pub record UrlCrate : Type 1 where
  pub Url : Type 0
  pub parse : Text → Option Url
  pub join : Url → Text → Option Url
  pub as_str : Url → Text
  pub query : Url → Option Text
  pub set_query : Url → Option Text → Url
  pub path : Url → Text
  pub set_path : Url → Text → Url
  pub cannot_be_a_base : Url → Bool
  pub host_str : Url → Option Text
  pub ascii_origin : Url → Text
  pub username : Url → Text
  pub protocol : Url → Text
  pub password : Url → Text
  pub host : Url → Text
  pub hostname : Url → Text
  pub port : Url → Text
  pub search : Url → Text
  pub hash : Url → Text
  pub set_protocol : Url → Text → Url
  pub set_username : Url → Text → Url
  pub set_password : Url → Text → Url
  pub set_host : Url → Text → Url
  pub set_hostname : Url → Text → Url
  pub set_port : Url → Text → Url
  pub set_pathname : Url → Text → Url
  pub set_search : Url → Text → Url
  pub set_hash : Url → Text → Url
  pub form_parse : List ℕ → Pairs
  pub Serializer : Type 0
  pub new_serializer : Serializer
  pub append_pair : Serializer → Text → Text → Serializer
  pub finish : Serializer → Text

-- A thrown exception: a TypeError of this code, or the engine's own when it cannot make an object.
pub data Thrown : Type 0 where
  type_error engine_error : Thrown

abbrev pub ends_with_space : Text → Bool
ends_with_space [] = false
ends_with_space (c ∷ []) = c == b' '
ends_with_space (c ∷ d ∷ s) = ends_with_space (d ∷ s)

-- `trim_end_matches(' ')`
abbrev pub all_spaces : Text → Bool
all_spaces [] = true
all_spaces (c ∷ s) = c == b' ' && all_spaces s

abbrev pub trim_end_spaces : Text → Text
trim_end_spaces [] = []
trim_end_spaces (c ∷ s) = if all_spaces (c ∷ s) then [] else c ∷ trim_end_spaces s

-- `" ".repeat(n)`
abbrev pub spaces : ℕ → Text
spaces zero = []
spaces (suc n) = b' ' ∷ spaces n

-- `starts_with('?')` and `remove(0)`, `strip_prefix('?')`
abbrev pub without_question_mark : Text → Text
without_question_mark [] = []
without_question_mark (c ∷ s) = if c == b'?' then s else c ∷ s

abbrev pub is_empty : Text → Bool
is_empty [] = true
is_empty (c ∷ s) = false

module _ (c : UrlCrate) where
  open c use {Url, Serializer}

  unfoldable pub basic_url_parser : Text → Option Url → Option Url
  basic_url_parser input (some base_url) = c.join base_url input
  basic_url_parser input none = c.parse input

  unfoldable pub api_url_parser : Text → Option Text → Option Url
  unfolding basic_url_parser
  api_url_parser url none = basic_url_parser url none
  api_url_parser url (some base) = elim (basic_url_parser base none) [
    | none ↦ none
    | some parsed_base ↦ basic_url_parser url (some parsed_base)
  ]

  unfoldable pub urlencoded_parse : Text → Pairs
  unfolding utf8
  urlencoded_parse input = c.form_parse (utf8 input)

  unfoldable pub append_pairs : Serializer → Pairs → Serializer
  append_pairs serializer [] = serializer
  append_pairs serializer ((name, value) ∷ tuples) =
      append_pairs (c.append_pair serializer name value) tuples

  unfoldable pub urlencoded_serialize : Pairs → Text
  unfolding append_pairs
  urlencoded_serialize tuples = c.finish (append_pairs c.new_serializer tuples)

-- The JS objects. An index stands for a reference.
pub record UrlObject (c : UrlCrate) : Type 0 where
  pub url : Option c.Url
  pub query_object : Option ℕ

pub record ParamsObject : Type 0 where
  pub list : Pairs
  pub url_object : Option ℕ

pub record Store (c : UrlCrate) : Type 0 where
  pub urls : ℕ → UrlObject c
  pub url_count : ℕ
  pub params : ℕ → ParamsObject
  pub params_count : ℕ

module _ {c : UrlCrate} where
  abbrev pub put_url : ℕ → UrlObject c → Store c → Store c
  put_url u o s = record s { urls = λ v. if u == v then o else s.urls v }

  abbrev pub put_params : ℕ → ParamsObject → Store c → Store c
  put_params p o s = record s { params = λ q. if p == q then o else s.params q }

  abbrev pub put_list : ℕ → Pairs → Store c → Store c
  put_list p list s = put_params p (record (s.params p) { list = list }) s

  -- A new object of each class, with nothing in it.
  abbrev pub new_url : Store c → Store c
  new_url s =
      let s' = put_url s.url_count (record { url = none; query_object = none }) s in
      record s' { url_count = s.url_count + 1 }

  abbrev pub new_params : ParamsObject → Store c → Store c
  new_params o s =
      let s' = put_params s.params_count o s in record s' { params_count = s.params_count + 1 }
