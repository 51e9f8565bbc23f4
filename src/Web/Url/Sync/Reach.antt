-- ===== src/Web/Url/Sync/Reach.antt =====
-- The stores that calls of the methods of url.rs and url_search_params.rs lead to.
use starlingmonkey_ng.Prelude.{ℕ, ◌≡◌, subst, Bool, false, Option, none, some, [], arith}
use starlingmonkey_ng.Web.Text.{Text, Result, ok, err}
use starlingmonkey_ng.Web.Params.{Pairs}
use starlingmonkey_ng.Web.Url.{
  UrlCrate, Thrown, type_error, api_url_parser, Store, new_url, new_params,
}
use starlingmonkey_ng.Web.Url.SearchParams
use starlingmonkey_ng.Web.Url.SearchParams.{update_url, update, encode_trailing_space}
use starlingmonkey_ng.Web.Url.Methods
use starlingmonkey_ng.Web.Url.Methods.{text_or_empty, change, refill}
use starlingmonkey_ng.Web.Url.Sync.{
  has_tab_or_newline, IsUrlCrate, InSync, After, change-InSync, new_params-InSync, new_url-InSync,
  initialize-InSync,
}
use starlingmonkey_ng.Web.Url.Sync.Updates.{update-InSync, set_href-InSync, set_search-InSync}

-- A call of a constructor that returned, or of a method on an object that was made.
pub data Call {c : UrlCrate} (s : Store c) : Store c → Type 0 where
  make_url :
      (created : Bool) (url : Text) (base : Option Text) {u : ℕ} {s' : Store c}
      → Methods.construct c created url base s ≡ ok (u, s')
      → Call s s'
  make_params :
      (init : Option SearchParams.ParamsInit) {p : ℕ} {s' : Store c}
      → SearchParams.construct c init s ≡ ok (p, s')
      → Call s s'
  append : (p : ℕ) (name value : Text) → Call s (SearchParams.append c p name value s)
  delete :
      (p : ℕ) (name : Text) (value : Option Text) → Call s (SearchParams.delete c p name value s)
  set : (p : ℕ) (name value : Text) → Call s (SearchParams.set c p name value s)
  sort : (p : ℕ) → Call s (SearchParams.sort c p s)
  set_href :
      (u : ℕ) (value : Text) {url : c.Url} {s' : Store c}
      → (s.urls u).url ≡ some url
      → Methods.set_href c u value s ≡ ok s'
      → Call s s'
  set_search :
      (u : ℕ) (value : Text) {url : c.Url}
      → (s.urls u).url ≡ some url
      → has_tab_or_newline value ≡ false
      → Call s (Methods.set_search c u value s)
  set_protocol : (u : ℕ) (value : Text) → Call s (Methods.set_protocol c u value s)
  set_username : (u : ℕ) (value : Text) → Call s (Methods.set_username c u value s)
  set_password : (u : ℕ) (value : Text) → Call s (Methods.set_password c u value s)
  set_host : (u : ℕ) (value : Text) → Call s (Methods.set_host c u value s)
  set_hostname : (u : ℕ) (value : Text) → Call s (Methods.set_hostname c u value s)
  set_port : (u : ℕ) (value : Text) → Call s (Methods.set_port c u value s)
  set_pathname : (u : ℕ) (value : Text) → Call s (Methods.set_pathname c u value s)
  set_hash : (u : ℕ) (value : Text) → Call s (Methods.set_hash c u value s)

abbrev pub no_objects : (c : UrlCrate) → Store c
no_objects c = record {
  urls = λ u. record { url = none; query_object = none };
  url_count = 0;
  params = λ p. record { list = []; url_object = none };
  params_count = 0;
}

-- The stores reached by calls from the one with no object.
pub data Reach (c : UrlCrate) : Store c → Type 0 where
  start : Reach c (no_objects c)
  call : {s s' : Store c} → Reach c s → Call s s' → Reach c s'

module _ {c : UrlCrate} (ax : IsUrlCrate c) where
  initial :
      (s : Store c) (created : Bool) (url : c.Url)
      → InSync s
      → After InSync (Methods.initialize_with_url_record c created s.url_count url (new_url s))
  initial s created url v =
      initialize-InSync ax created (new_url s) s.url_count url (new_url-InSync ax s v)
        (ground arith) (omega arith)

  placed :
      (u : ℕ) (r : Result (Store c) Thrown)
      → After InSync r
      → After (λ (p : ℕ × Store c). InSync p.1) (elim r [ ok s' ↦ ok (u, s') | err e ↦ err e ])
  placed u (ok s') v = v
  placed u (err e) v = tt

  construct_url-InSync :
      (created : Bool) (url : Text) (base : Option Text) (s : Store c)
      → InSync s
      → After (λ (r : ℕ × Store c). InSync r.1) (Methods.construct c created url base s)
  unfolding Methods.construct
  construct_url-InSync created url base s v = parsed (api_url_parser c url base)
    where
      parsed :
          (o : Option c.Url)
          → After
              (λ (r : ℕ × Store c). InSync r.1)
              (elim o [
                | none ↦ err type_error
                | some parsed_url ↦
                    elim (Methods.initialize_with_url_record c created s.url_count parsed_url
                      (new_url s)) [ ok s' ↦ ok (s.url_count, s') | err e ↦ err e ]
              ])
      parsed none = tt
      parsed (some parsed_url) = placed s.url_count _ (initial s created parsed_url v)

  construct_params-InSync :
      (init : Option SearchParams.ParamsInit) (s : Store c)
      → InSync s
      → After (λ (r : ℕ × Store c). InSync r.1) (SearchParams.construct c init s)
  unfolding SearchParams.construct
  construct_params-InSync init s v = listed (SearchParams.initial_list c init)
    where
      listed :
          (r : Result Pairs Thrown)
          → After
              (λ (r : ℕ × Store c). InSync r.1)
              (elim r [
                | ok list ↦
                    ok (s.params_count, new_params (record { list = list; url_object = none }) s)
                | err e ↦ err e
              ])
      listed (ok list) = new_params-InSync ax s list v
      listed (err e) = tt

  with_host-query :
      (f : c.Url → c.Url)
      → ((url : c.Url) → c.query (f url) ≡ c.query url)
      → (url : c.Url) → c.query (Methods.with_host c f url) ≡ c.query url
  unfolding Methods.with_host
  with_host-query f keeps url = ground (arith, keeps url)

  After-ok :
      {A : Type 0} (P : A → Type 0) {r : Result A Thrown} {a : A} → r ≡ ok a → After P r → P a
  After-ok P e h = subst (After P) e h

  Call-InSync : {s s' : Store c} → Call s s' → InSync s → InSync s'
  unfolding SearchParams.append SearchParams.delete SearchParams.set SearchParams.sort
      Methods.set_protocol Methods.set_username Methods.set_password Methods.set_host
      Methods.set_hostname Methods.set_port Methods.set_pathname Methods.set_hash
  Call-InSync (make_url created url base e) v =
      After-ok (λ (r : ℕ × Store c). InSync r.1) e (construct_url-InSync created url base _ v)
  Call-InSync (make_params init e) v =
      After-ok (λ (r : ℕ × Store c). InSync r.1) e (construct_params-InSync init _ v)
  Call-InSync (append p name value) v = update-InSync ax _ p _ v
  Call-InSync (delete p name value) v = update-InSync ax _ p _ v
  Call-InSync (set p name value) v = update-InSync ax _ p _ v
  Call-InSync (sort p) v = update-InSync ax _ p _ v
  Call-InSync (set_href u value here e) v =
      After-ok InSync e (set_href-InSync ax u value _ _ v here)
  Call-InSync (set_search u value here clean) v = set_search-InSync ax u value _ _ v here clean
  Call-InSync (set_protocol u value) v =
      change-InSync ax _ (λ url. ax.query-set_protocol url value) u _ v
  Call-InSync (set_host u value) v = change-InSync ax _ (λ url. ax.query-set_host url value) u _ v
  Call-InSync (set_hostname u value) v =
      change-InSync ax _ (λ url. ax.query-set_hostname url value) u _ v
  Call-InSync (set_port u value) v = change-InSync ax _ (λ url. ax.query-set_port url value) u _ v
  Call-InSync (set_pathname u value) v =
      change-InSync ax _ (λ url. ax.query-set_pathname url value) u _ v
  Call-InSync (set_hash u value) v = change-InSync ax _ (λ url. ax.query-set_hash url value) u _ v
  Call-InSync (set_username u value) v =
      change-InSync ax _ (with_host-query _ (λ url. ax.query-set_username url value)) u _ v
  Call-InSync (set_password u value) v =
      change-InSync ax _ (with_host-query _ (λ url. ax.query-set_password url value)) u _ v

-- After any calls of the constructors and methods of URL and URLSearchParams that start with no
-- object, where each value given to the `search` setter has no tab or newline, each URL and its
-- search parameters point at each other, no search parameters belong to two URLs, every URL has
-- search parameters, and their list is what parsing the URL's query gives.
pub Reach-InSync : {c : UrlCrate} {s : Store c} → IsUrlCrate c → Reach c s → InSync s
Reach-InSync ax start = record {
  forward = λ v' q' h. absurd (cc);
  back = λ v' q' h. absurd (cc);
  agree = λ v' q' url h. absurd (cc);
  has_query = λ v' url h. absurd (cc);
  known_url = λ v' q' h. absurd (cc);
  known_params = λ v' q' h. absurd (cc);
}
Reach-InSync ax (call r st) = Call-InSync ax st (Reach-InSync ax r)
