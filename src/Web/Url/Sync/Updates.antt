-- ===== src/Web/Url/Sync/Updates.antt =====
-- The methods of url.rs and url_search_params.rs on a store whose objects agree.
use starlingmonkey_ng.Prelude.{
  ℕ, ◌≡◌, refl, sym, subst, ◌∙◌, true, false, Option, none, some, [], ◌∷◌, if◌then◌else◌,
  Bool-cases, Option-cases, arith, inl, inr,
}
use starlingmonkey_ng.Web.Text.{Text, ok, err}
use starlingmonkey_ng.Web.Params.{Pairs}
use starlingmonkey_ng.Web.Url.{
  UrlCrate, type_error, Store, put_url, put_list, basic_url_parser, urlencoded_parse,
  urlencoded_serialize, without_question_mark, is_empty,
}
use starlingmonkey_ng.Web.Url.SearchParams.{update_url, update}
use starlingmonkey_ng.Web.Url.Methods
use starlingmonkey_ng.Web.Url.Methods.{text_or_empty, change, refill}
use starlingmonkey_ng.Web.Url.Sync.{
  has_tab_or_newline, IsUrlCrate, InSync, After, query_list, put_pair-InSync, put_list-InSync,
}

empty-nil : (t : Text) → is_empty t ≡ true → t ≡ []
empty-nil [] h = refl
empty-nil (c ∷ t) h = cc

module _ {c : UrlCrate} (ax : IsUrlCrate c) where
  abbrev query_of : Pairs → Option Text
  query_of list =
      if is_empty (urlencoded_serialize c list) then none else some (urlencoded_serialize c list)

  update_url-query_list :
      (list : Pairs) (url : c.Url) → query_list c (update_url c (query_of list) url) ≡ list
  unfolding update_url
  update_url-query_list list url = elim (Bool-cases (is_empty (urlencoded_serialize c list))) [
    | inl bare ↦
        rw bare
          (rw (ax.query-set_query_none _) (rw (empty-nil _ bare) at (ax.parse-serialize list)))
    | inr full ↦ rw full (rw (ax.query-set_query _ list) (ax.parse-serialize list))
  ]

  update-loose :
      (s : Store c) (p : ℕ) (list : Pairs)
      → (s.params p).url_object ≡ none
      → update c p (put_list p list s) ≡ put_list p list s
  unfolding update
  update-loose s p list h = ground arith

  update-gone :
      (s : Store c) (p u : ℕ) (list : Pairs)
      → (s.params p).url_object ≡ some u
      → (s.urls u).url ≡ none
      → update c p (put_list p list s) ≡ put_list p list s
  unfolding update
  update-gone s p u list h g = ground arith

  update-linked :
      (s : Store c) (p u : ℕ) (url : c.Url) (list : Pairs)
      → (s.params p).url_object ≡ some u
      → (s.urls u).url ≡ some url
      → update c p (put_list p list s)
        ≡ put_list p list
            (put_url u (record (s.urls u) { url = some (update_url c (query_of list) url) }) s)
  unfolding update
  update-linked s p u url list h g = ground arith

  -- The list of a pair whose URL was never set.
  put_gone-InSync :
      (s : Store c) (q u : ℕ) (list : Pairs)
      → InSync s
      → (s.params q).url_object ≡ some u
      → (s.urls u).url ≡ none
      → InSync (put_list q list s)
  put_gone-InSync s q u list v link gone = record {
    forward = λ v' q'. ground (arith, v.forward v' q');
    back = λ v' q'. ground (arith, v.back v' q');
    agree = λ v' q' url. ground (arith, v.agree v' q' url, v.forward v' q');
    has_query = v.has_query;
    known_url = λ v' q'. ground (arith, v.known_url v' q');
    known_params = v.known_params;
  }

  pub update-InSync :
      (s : Store c) (p : ℕ) (list : Pairs) → InSync s → InSync (update c p (put_list p list s))
  update-InSync s p list v = elim (Option-cases (s.params p).url_object) [
    | inl loose ↦
        subst InSync (sym (update-loose s p list loose)) (put_list-InSync ax s p list v loose)
    | inr (u, link) ↦ elim (Option-cases (s.urls u).url) [
      | inl gone ↦
          subst InSync (sym (update-gone s p u list link gone))
            (put_gone-InSync s p u list v link gone)
      | inr (url, here) ↦ subst InSync (sym (update-linked s p u url list link here)) (
          put_pair-InSync ax s u p (update_url c (query_of list) url) list v (v.back u p link)
            (sym (update_url-query_list list url)))
    ]
  ]

  refill_lem :
      (s : Store c) (u q : ℕ) (url : c.Url) (list : Pairs)
      → (s.urls u).query_object ≡ some q
      → refill c u list (put_url u (record (s.urls u) { url = some url }) s)
        ≡ put_list q list (put_url u (record (s.urls u) { url = some url }) s)
  unfolding refill
  refill_lem s u q url list h = ground arith

  -- A URL and its list are replaced together.
  replace-InSync :
      (s : Store c) (u : ℕ) (url url' : c.Url) (list : Pairs)
      → InSync s
      → (s.urls u).url ≡ some url
      → list ≡ query_list c url'
      → InSync (refill c u list (put_url u (record (s.urls u) { url = some url' }) s))
  replace-InSync s u url url' list v here h = elim (Option-cases (s.urls u).query_object) [
    | inl bare ↦ absurd (cc (bare, v.has_query u url here))
    | inr (q, link) ↦
        subst InSync (sym (refill_lem s u q url' list link))
          (put_pair-InSync ax s u q url' list v link h)
  ]

  by_query :
      (query : Option Text)
      → Methods.list_of_query c query ≡ urlencoded_parse c (text_or_empty query)
  unfolding Methods.list_of_query
  by_query none = sym ax.parse_nothing
  by_query (some query) = refl

  set_href-none :
      (u : ℕ) (value : Text) (s : Store c)
      → basic_url_parser c value none ≡ none
      → Methods.set_href c u value s ≡ err type_error
  unfolding Methods.set_href
  set_href-none u value s h = ground arith

  set_href-some :
      (u : ℕ) (value : Text) (s : Store c) (parsed : c.Url)
      → basic_url_parser c value none ≡ some parsed
      → Methods.set_href c u value s
        ≡ ok (
            refill c u
              (Methods.list_of_query c (c.query parsed))
              (put_url u (record (s.urls u) { url = some parsed }) s))
  unfolding Methods.set_href
  set_href-some u value s parsed h = ground arith

  pub set_href-InSync :
      (u : ℕ) (value : Text) (s : Store c) (url : c.Url)
      → InSync s
      → (s.urls u).url ≡ some url
      → After InSync (Methods.set_href c u value s)
  set_href-InSync u value s url v here = elim (Option-cases (basic_url_parser c value none)) [
    | inl bad ↦ subst (After InSync) (sym (set_href-none u value s bad)) tt
    | inr (parsed, good) ↦
        subst (After InSync) (sym (set_href-some u value s parsed good))
          (replace-InSync s u url parsed _ v here (by_query (c.query parsed)))
  ]

  set_search_lem :
      (u : ℕ) (value : Text) (s : Store c) (url : c.Url)
      → (s.urls u).url ≡ some url
      → Methods.set_search c u value s
        ≡ refill c u
            (if is_empty value then [] else urlencoded_parse c (without_question_mark value))
            (put_url u (record (s.urls u) { url = some (c.set_search url value) }) s)
  unfolding Methods.set_search
  set_search_lem u value s url h = ground arith

  searched :
      (value : Text)
      → (if is_empty value then [] else urlencoded_parse c (without_question_mark value))
        ≡ urlencoded_parse c (without_question_mark value)
  searched [] = sym ax.parse_nothing
  searched (x ∷ value) = refl

  pub set_search-InSync :
      (u : ℕ) (value : Text) (s : Store c) (url : c.Url)
      → InSync s
      → (s.urls u).url ≡ some url
      → has_tab_or_newline value ≡ false
      → InSync (Methods.set_search c u value s)
  set_search-InSync u value s url v here clean =
      subst InSync (sym (set_search_lem u value s url here)) (
        replace-InSync s u url (c.set_search url value) _ v here
          (searched value ∙ sym (ax.parse-set_search url value clean)))
