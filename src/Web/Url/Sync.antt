-- ===== src/Web/Url/Sync.antt =====
-- A URL and its search parameters stay in step: url.rs with url_search_params.rs.
pub mod Updates
pub mod Reach
use starlingmonkey_ng.Prelude.{
  ℕ, ◌+◌, ◌<◌, ◌≡◌, refl, sym, subst, ◌∙◌, ap, Bool, true, false, ◌&&◌, ◌||◌, Option, none, some,
  List, [], ◌∷◌, ◌++◌, if◌then◌else◌, is_some, is_none, ◌==◌, ==_iff, Bool-cases, Option-cases,
  arith, inl, inr, some_inj,
}
use starlingmonkey_ng.Web.Text.{Text, Result, ok, err}
use starlingmonkey_ng.Web.Params
use starlingmonkey_ng.Web.Params.{Pairs}
use starlingmonkey_ng.Web.Url.{
  UrlCrate, Thrown, UrlObject, ParamsObject, Store, put_url, put_params, put_list, new_url,
  new_params, basic_url_parser, urlencoded_parse, urlencoded_serialize, without_question_mark,
  is_empty,
}
use starlingmonkey_ng.Web.Url.SearchParams
use starlingmonkey_ng.Web.Url.Methods
use starlingmonkey_ng.Web.Url.Methods.{text_or_empty, initialize_with_url_record, change, refill}

abbrev pub is_stripped : ℕ → Bool
is_stripped c = c == 9 || c == 10 || c == 13

-- Tabs and newlines, which a URL parser removes.
abbrev pub has_tab_or_newline : Text → Bool
has_tab_or_newline [] = false
has_tab_or_newline (c ∷ s) = is_stripped c || has_tab_or_newline s

-- What the documentation of the two crates and the URL standard say of them. The form serializer
-- writes only characters that the query of a URL keeps, and the form parser reads back what it
-- wrote. A setter of another part leaves the query alone, and the query that the `search` setter
-- stores reads as the given one, unless that has characters that the parser strips.
pub record IsUrlCrate (c : UrlCrate) : Type 0 where
  pub parse_nothing : urlencoded_parse c [] ≡ []
  pub parse-serialize : (list : Pairs) → urlencoded_parse c (urlencoded_serialize c list) ≡ list
  pub query-set_query_none : (url : c.Url) → c.query (c.set_query url none) ≡ none
  pub query-set_query :
      (url : c.Url) (list : Pairs)
      → c.query (c.set_query url (some (urlencoded_serialize c list)))
        ≡ some (urlencoded_serialize c list)
  pub parse-set_search :
      (url : c.Url) (value : Text)
      → has_tab_or_newline value ≡ false
      → urlencoded_parse c (text_or_empty (c.query (c.set_search url value)))
        ≡ urlencoded_parse c (without_question_mark value)
  pub query-set_protocol : (url : c.Url) (v : Text) → c.query (c.set_protocol url v) ≡ c.query url
  pub query-set_username : (url : c.Url) (v : Text) → c.query (c.set_username url v) ≡ c.query url
  pub query-set_password : (url : c.Url) (v : Text) → c.query (c.set_password url v) ≡ c.query url
  pub query-set_host : (url : c.Url) (v : Text) → c.query (c.set_host url v) ≡ c.query url
  pub query-set_hostname : (url : c.Url) (v : Text) → c.query (c.set_hostname url v) ≡ c.query url
  pub query-set_port : (url : c.Url) (v : Text) → c.query (c.set_port url v) ≡ c.query url
  pub query-set_pathname : (url : c.Url) (v : Text) → c.query (c.set_pathname url v) ≡ c.query url
  pub query-set_hash : (url : c.Url) (v : Text) → c.query (c.set_hash url v) ≡ c.query url

-- What holds of the store after a method that did not throw.
abbrev pub After : {A : Type 0} → (A → Type 0) → Result A Thrown → Type 0
After P (ok a) = P a
After P (err e) = Unit

-- The list that a URL's query means.
abbrev pub query_list : (c : UrlCrate) → c.Url → Pairs
query_list c url = urlencoded_parse c (text_or_empty (c.query url))

-- A URL and its search parameters point at each other, and the list is what the query means.
pub record InSync {c : UrlCrate} (s : Store c) : Type 0 where
  pub forward : (u q : ℕ) → (s.urls u).query_object ≡ some q → (s.params q).url_object ≡ some u
  pub back : (u q : ℕ) → (s.params q).url_object ≡ some u → (s.urls u).query_object ≡ some q
  pub agree :
      (u q : ℕ) (url : c.Url)
      → (s.urls u).query_object ≡ some q
      → (s.urls u).url ≡ some url
      → (s.params q).list ≡ query_list c url
  pub has_query :
      (u : ℕ) (url : c.Url) → (s.urls u).url ≡ some url → is_some (s.urls u).query_object ≡ true
  pub known_url : (u q : ℕ) → (s.params q).url_object ≡ some u → u < s.url_count
  pub known_params : (u q : ℕ) → (s.urls u).query_object ≡ some q → q < s.params_count

module _ {c : UrlCrate} (ax : IsUrlCrate c) where
  -- A new URL and a new list for a linked pair, which agree.
  pub put_pair-InSync :
      (s : Store c) (u q : ℕ) (url : c.Url) (list : Pairs)
      → InSync s
      → (s.urls u).query_object ≡ some q
      → list ≡ query_list c url
      → InSync (put_list q list (put_url u (record (s.urls u) { url = some url }) s))
  put_pair-InSync s u q url list v link h = record {
    forward = λ v' q'. ground (arith, v.forward v' q', v.forward u q);
    back = λ v' q'. ground (arith, v.back v' q');
    agree = λ v' q' url'.
        ground (arith, v.agree v' q' url', v.forward u q, v.forward v' q', v.back u q);
    has_query = λ v' url'. ground (arith, v.has_query v' url');
    known_url = λ v' q'. ground (arith, v.known_url v' q');
    known_params = λ v' q'. ground (arith, v.known_params v' q');
  }

  -- A URL whose query means the same.
  pub put_url-InSync :
      (s : Store c) (u : ℕ) (url url' : c.Url)
      → InSync s
      → (s.urls u).url ≡ some url
      → query_list c url' ≡ query_list c url
      → InSync (put_url u (record (s.urls u) { url = some url' }) s)
  put_url-InSync s u url url' v here same = record {
    forward = λ v' q'. ground (arith, v.forward v' q');
    back = λ v' q'. ground (arith, v.back v' q');
    agree = λ v' q' other. ground (arith, v.agree v' q' other, v.agree u q' url);
    has_query = λ v' other. ground (arith, v.has_query v' other, v.has_query u url);
    known_url = λ v' q'. ground (arith, v.known_url v' q');
    known_params = λ v' q'. ground (arith, v.known_params v' q');
  }

  -- A list that belongs to no URL.
  pub put_list-InSync :
      (s : Store c) (q : ℕ) (list : Pairs)
      → InSync s
      → (s.params q).url_object ≡ none
      → InSync (put_list q list s)
  put_list-InSync s q list v loose = record {
    forward = λ v' q'. ground (arith, v.forward v' q');
    back = λ v' q'. ground (arith, v.back v' q');
    agree = λ v' q' url. ground (arith, v.agree v' q' url, v.forward v' q');
    has_query = v.has_query;
    known_url = λ v' q'. ground (arith, v.known_url v' q');
    known_params = v.known_params;
  }

  pub change-InSync :
      (f : c.Url → c.Url)
      → ((url : c.Url) → c.query (f url) ≡ c.query url)
      → (u : ℕ) (s : Store c) → InSync s
      → InSync (change c f u s)
  unfolding change
  change-InSync f keeps u s v = elim (Option-cases (s.urls u).url) [
    | inl gone ↦
        subst
          (λ o. InSync (elim o [
            | none ↦ s
            | some url ↦ put_url u (record (s.urls u) { url = some (f url) }) s
          ]))
          (sym gone) v
    | inr (url, here) ↦
        subst
          (λ o. InSync (elim o [
            | none ↦ s
            | some url ↦ put_url u (record (s.urls u) { url = some (f url) }) s
          ]))
          (sym here) (put_url-InSync s u url (f url) v here (rw (keeps url)))
  ]

  pub new_params-InSync :
      (s : Store c) (list : Pairs)
      → InSync s
      → InSync (new_params (record { list = list; url_object = none }) s)
  new_params-InSync s list v = record {
    forward = λ v' q'. ground (arith, v.forward v' q', v.known_params v' q');
    back = λ v' q'. ground (arith, v.back v' q');
    agree = λ v' q' url. ground (arith, v.agree v' q' url, v.known_params v' q');
    has_query = v.has_query;
    known_url = λ v' q'. ground (arith, v.known_url v' q');
    known_params = λ v' q'. ground (arith, v.known_params v' q');
  }

  pub new_url-InSync : (s : Store c) → InSync s → InSync (new_url s)
  new_url-InSync s v = record {
    forward = λ v' q'. ground (arith, v.forward v' q');
    back = λ v' q'. ground (arith, v.back v' q', v.known_url v' q');
    agree = λ v' q' url. ground (arith, v.agree v' q' url);
    has_query = λ v' url. ground (arith, v.has_query v' url);
    known_url = λ v' q'. ground (arith, v.known_url v' q');
    known_params = λ v' q'. ground (arith, v.known_params v' q');
  }

  -- A fresh list for a URL object that has none.
  pub initialize-InSync :
      (created : Bool) (s : Store c) (u : ℕ) (url : c.Url)
      → InSync s
      → (s.urls u).query_object ≡ none
      → u < s.url_count
      → After InSync (initialize_with_url_record c created u url s)
  unfolding initialize_with_url_record
  initialize-InSync false s u url v bare old = tt
  initialize-InSync true s u url v bare old = record {
    forward = λ v' q'. ground (arith, v.forward v' q', v.known_params v' q');
    back = λ v' q'. ground (arith, v.back v' q');
    agree = λ v' q' other. ground (arith, v.agree v' q' other, v.known_params v' q');
    has_query = λ v' other. ground (arith, v.has_query v' other);
    known_url = λ v' q'. ground (arith, v.known_url v' q');
    known_params = λ v' q'. ground (arith, v.known_params v' q');
  }
