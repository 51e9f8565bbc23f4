-- ===== src/Events/Runs/Methods.antt =====
-- The methods that run no author code (events/ and signals/ of crates/builtins/web-globals/src) keep
-- the invariant.
use starlingmonkey_ng.Prelude.{
  ℕ, ◌+◌, ◌≡◌, refl, sym, subst, Bool, false, not, ◌&&◌, Option, none, some, [], arith, if_cases,
  option_cases, option_cases_eq,
}
use starlingmonkey_ng.Web.Text.{Text, codes, Result, ok, err}
use starlingmonkey_ng.Events.{Realm, flags_of}
use starlingmonkey_ng.Events.Flags.{
  EventInit, new_untrusted, stop_propagation, set_cancel_bubble, stop_immediate_propagation,
  cancel_event, set_return_value, initialize, init_event,
}
use starlingmonkey_ng.Events.Listeners.{
  CallbackArgument, OptionsArgument, Exn, find_id, is_same, nullish, primitive, object, aborted,
  add_listener_removal_algorithm, append_listener, add_an_event_listener, remove_an_event_listener,
  flatten_options, flatten_more_options, event_listener_argument, add_event_listener,
  remove_event_listener,
}
use starlingmonkey_ng.Events.Abort.{
  add_abort_algorithm, without_callback, remove_abort_algorithm, set_onabort,
}
use starlingmonkey_ng.Events.Listeners.Distinct.{append-gone, append-IsDistinct}
use starlingmonkey_ng.Events.Inv.{
  IsValid, Post, Post-refl, Post-trans, listeners-Post, discarded-Post, events-Grows,
  algorithms-Post, event-Post,
}
use starlingmonkey_ng.Events.Kept.{EventKept-same, any_event}

-- A property of both cases holds of a match on a result.
result_cases :
    {A E B : Type 0} (P : B → Type 0) (r : Result A E) {f : A → B} {g : E → B}
    → ((e : E) → P (g e))
    → ((a : A) → P (f a))
    → P (elim r [ err e ↦ g e | ok a ↦ f a ])
result_cases P (ok a) k h = h a
result_cases P (err e) k h = k e

-- Events.
pub new_untrusted-Post :
    (name : Text) (init : Option EventInit) (w : Realm)
    → IsValid w
    → Post w (new_untrusted name init w).0
unfolding new_untrusted
new_untrusted-Post name init w v =
    events-Grows any_event _ (w.next_event + 1) w (omega arith)
      (λ j l _. EventKept-same j w _ (ground (arith, l))) v

pub set_cancel_bubble-Post :
    (e : ℕ) (b : Bool) (w : Realm) → IsValid w → Post w (set_cancel_bubble e b w)
unfolding set_cancel_bubble stop_propagation
set_cancel_bubble-Post e b w v =
    if_cases (Post w) b (λ _. event-Post e _ w refl (λ _. refl) (λ _ _. refl) v)
      (λ _. Post-refl w v)

pub stop_immediate_propagation-Post :
    (e : ℕ) (w : Realm) → IsValid w → Post w (stop_immediate_propagation e w)
unfolding stop_immediate_propagation
stop_immediate_propagation-Post e w v = event-Post e _ w refl (λ _. refl) (λ _ _. refl) v

pub set_return_value-Post :
    (e : ℕ) (b : Bool) (w : Realm) → IsValid w → Post w (set_return_value e b w)
unfolding set_return_value cancel_event
set_return_value-Post e b w v =
    if_cases (Post w) b (λ _. Post-refl w v)
      (λ _.
        if_cases (Post w) ((flags_of e w).cancelable && not (flags_of e w).in_passive_listener)
          (λ h. event-Post e _ w refl (λ _. refl) (λ _ p. absurd (ground (arith, h, p))) v)
          (λ _. Post-refl w v))

pub init_event-Post :
    (e : ℕ) (name : Text) (b c : Bool) (w : Realm) → IsValid w → Post w (init_event e name b c w)
unfolding init_event initialize
init_event-Post e name b c w v =
    if_cases (Post w) (flags_of e w).dispatching (λ _. Post-refl w v)
      (λ idle. event-Post e _ w refl (λ _. refl) (λ d _. absurd (cc (idle, d))) v)

-- Listeners and algorithms.
append_listener-Post :
    (t : ℕ) (name : Text) (c : ℕ) (capture : Bool) (passive : Option Bool) (once : Bool) (w : Realm)
    → IsValid w
    → Post w (append_listener t name c capture passive once w).0
unfolding append_listener
append_listener-Post t name c capture passive once w v =
    option_cases_eq (λ (a : Realm × ℕ). Post w a.0)
      (find_id (is_same name c capture) (w.listeners t))
      (λ h.
        listeners-Post t _ (w.next_listener + 1) w (omega arith)
          (append-IsDistinct w.next_listener (w.listeners t) _ refl h (v.distinct t))
          (λ id b n. append-gone w.next_listener id (w.listeners t) _ refl b n) v)
      (λ id h. Post-refl w v)

add_listener_removal_algorithm-Post :
    (s t id : ℕ) (w : Realm) → IsValid w → Post w (add_listener_removal_algorithm s t id w)
unfolding add_listener_removal_algorithm aborted
add_listener_removal_algorithm-Post s t id w v =
    if_cases (Post w) (aborted s w) (λ _. Post-refl w v)
      (λ n.
        algorithms-Post s _ (w.signals s).onabort_handler w
          (λ set _. absurd (ground (arith, n, set))) v)

add_an_event_listener-Post :
    (t : ℕ) (name : Text) (c : ℕ) (capture : Bool) (passive : Option Bool) (once : Bool)
    (signal : Option ℕ) (w : Realm)
    → IsValid w
    → Post w (add_an_event_listener t name c capture passive once signal w)
unfolding add_an_event_listener
add_an_event_listener-Post t name c capture passive once none w v =
    append_listener-Post t name c capture passive once w v
add_an_event_listener-Post t name c capture passive once (some s) w v =
    let p = append_listener-Post t name c capture passive once w v in
    let a = append_listener t name c capture passive once w in
    if_cases (Post w) (aborted s w) (λ _. Post-refl w v)
      (λ _. Post-trans w a.0 _ p (add_listener_removal_algorithm-Post s t a.1 a.0 p.0))

pub add_event_listener-Post :
    (t : ℕ) (name : Text) (c : CallbackArgument) (o : OptionsArgument) (w : Realm)
    → IsValid w
    → Post w (add_event_listener t name c o w).0
unfolding add_event_listener event_listener_argument
add_event_listener-Post t name nullish o w v =
    result_cases (λ (a : Realm × Option Exn). Post w a.0) (flatten_more_options o)
      (λ x. Post-refl w v) (λ a. Post-refl w v)
add_event_listener-Post t name primitive o w v =
    result_cases (λ (a : Realm × Option Exn). Post w a.0) (flatten_more_options o)
      (λ x. Post-refl w v) (λ a. Post-refl w v)
add_event_listener-Post t name (object k) o w v =
    result_cases (λ (a : Realm × Option Exn). Post w a.0) (flatten_more_options o)
      (λ x. Post-refl w v)
      (λ a. add_an_event_listener-Post t name k a.capture a.passive a.once a.signal w v)

pub remove_event_listener-Post :
    (t : ℕ) (name : Text) (c : CallbackArgument) (o : OptionsArgument) (w : Realm)
    → IsValid w
    → Post w (remove_event_listener t name c o w).0
unfolding remove_event_listener remove_an_event_listener event_listener_argument
remove_event_listener-Post t name nullish o w v =
    result_cases (λ (a : Realm × Option Exn). Post w a.0) (flatten_options o) (λ x. Post-refl w v)
      (λ a. Post-refl w v)
remove_event_listener-Post t name primitive o w v =
    result_cases (λ (a : Realm × Option Exn). Post w a.0) (flatten_options o) (λ x. Post-refl w v)
      (λ a. Post-refl w v)
remove_event_listener-Post t name (object k) o w v =
    result_cases (λ (a : Realm × Option Exn). Post w a.0) (flatten_options o) (λ x. Post-refl w v)
      (λ a. discarded-Post t _ w v)

pub add_abort_algorithm-Post :
    (s c : ℕ) (w : Realm) → IsValid w → Post w (add_abort_algorithm s c w)
unfolding add_abort_algorithm aborted
add_abort_algorithm-Post s c w v =
    if_cases (Post w) (aborted s w) (λ _. Post-refl w v)
      (λ n.
        algorithms-Post s _ (w.signals s).onabort_handler w
          (λ set _. absurd (ground (arith, n, set))) v)

pub remove_abort_algorithm-Post :
    (s c : ℕ) (w : Realm) → IsValid w → Post w (remove_abort_algorithm s c w)
unfolding remove_abort_algorithm without_callback
remove_abort_algorithm-Post s c w v =
    algorithms-Post s _ (w.signals s).onabort_handler w
      (λ _ e. subst (λ as'. without_callback c as' ≡ []) (sym e) refl) v

pub set_onabort-Post : (s : ℕ) (h : Option ℕ) (w : Realm) → IsValid w → Post w (set_onabort s h w)
unfolding set_onabort remove_an_event_listener
set_onabort-Post s h w v =
    let p1 =
      option_cases (Post w) (w.signals s).onabort_handler (Post-refl w v)
        (λ old. discarded-Post s _ w v) in
    let p2 =
      option_cases (Post _) h (Post-refl _ p1.0)
        (λ new. add_an_event_listener-Post s (codes "abort") new false none false none _ p1.0) in
    Post-trans w _ _ p1 (Post-trans _ _ _ p2 (algorithms-Post s _ h _ (λ _ e. e) p2.0))
