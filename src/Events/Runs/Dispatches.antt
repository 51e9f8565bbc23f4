-- ===== src/Events/Runs/Dispatches.antt =====
-- What a dispatch by author code gives (events/ of crates/builtins/web-globals/src).
use starlingmonkey_ng.Prelude.{
  ℕ, ◌<◌, ◌≡◌, refl, subst, Bool, true, false, not, ◌||◌, some, arith, ◌⊎◌, if_cases,
}
use starlingmonkey_ng.Web.Text.{Result, ok}
use starlingmonkey_ng.Events.{Realm, done, panics, not_stopped, flags_of, set_flags, set_event}
use starlingmonkey_ng.Events.Flags.{start_dispatching, stop_dispatching}
use starlingmonkey_ng.Events.Dispatch.{
  Author, snapshots, invoke_listeners, dispatch, InvalidState, dispatch_event,
}
use starlingmonkey_ng.Events.Inv.{IsValid, Keeps, event-Post}
use starlingmonkey_ng.Events.Safety.{Safe, Safe-and_run}
use starlingmonkey_ng.Events.Inv.Dispatching.{AllPassive}
use starlingmonkey_ng.Events.Inv.Dispatched.{Dispatched, dispatch-Dispatched}
use starlingmonkey_ng.Events.Runs.{Calls, run_calls}
use starlingmonkey_ng.Events.Runs.Safe.{run_calls-Keeps, Safe-cases}

dispatch_event-quiet :
    (debug : Bool) (listeners : ℕ → Author) (e t : ℕ) (w : Realm)
    → ((id : ℕ) → Keeps debug (listeners id))
    → e < w.next_event
    → (flags_of e w).dispatching ≡ false
    → (flags_of e w).initialized ≡ true
    → (flags_of e w).canceled ≡ false
    → AllPassive (snapshots (w.events e).event_type (w.listeners t))
    → IsValid w
    → Safe debug
        (λ a. (a.1 ≡ ok true) × ((flags_of e a.0).dispatching ≡ false))
        (dispatch_event debug listeners e t w)
unfolding dispatch_event
dispatch_event-quiet debug listeners e t w k l idle ready uncanceled passive v =
    if_cases (Safe debug P) ((flags_of e w).dispatching || not (flags_of e w).initialized)
      (λ h. absurd (ground (arith, h, idle, ready)))
      (λ _.
        Safe-and_run debug (Dispatched e true u) P (dispatch debug listeners e t u) _
          (dispatch-Dispatched debug e t true listeners u k l (ground (arith, idle))
            (λ _. ground (arith, uncanceled))
            (λ _. subst (λ y. AllPassive (snapshots y (w.listeners t))) (ground arith) passive)
            (event-Post e
              (record (w.events e) { flags = record (flags_of e w) { trusted = false } }) w refl
              (λ _. refl) (λ _ _. refl) v).0)
          (λ a d. (cc (d.3 refl), d.1)))
  where
    u : Realm
    u = set_flags e (record (flags_of e w) { trusted = false }) w

    P : Realm × Result Bool InvalidState → Type 0
    P a = (a.1 ≡ ok true) × ((flags_of e a.0).dispatching ≡ false)

-- In a realm that satisfies the invariant, let an event be initialized, not dispatched and not
-- canceled, and let all listeners for its type on a target be passive. Then dispatching it there
-- answers `true`, and it is not dispatched afterwards, whatever the listeners call; or, where debug
-- assertions are on, the assertion of `start_dispatching` fails.
pub passive_listeners_do_not_cancel :
    (debug : Bool) (listeners : ℕ → Calls) (e t : ℕ) (w : Realm)
    → IsValid w
    → e < w.next_event
    → (flags_of e w).dispatching ≡ false
    → (flags_of e w).initialized ≡ true
    → (flags_of e w).canceled ≡ false
    → AllPassive (snapshots (w.events e).event_type (w.listeners t))
    → ((a : Realm × Result Bool InvalidState) × (dispatch_event debug
            (λ l v. run_calls debug (listeners l) v)
            e
            t
            w
          ≡ done a)
        × ((a.1 ≡ ok true) × ((flags_of e a.0).dispatching ≡ false)))
      ⊎ ((debug ≡ true)
          × (dispatch_event debug (λ l v. run_calls debug (listeners l) v) e t w
              ≡ panics not_stopped))
passive_listeners_do_not_cancel debug listeners e t w v l idle ready uncanceled passive =
    Safe-cases debug _ _ (
      dispatch_event-quiet debug (λ i x. run_calls debug (listeners i) x) e t w
        (λ i. run_calls-Keeps debug (listeners i)) l idle ready uncanceled passive v)

-- An event on which `stopPropagation` was called before it is dispatched, and which is initialized
-- and not dispatched: where debug assertions are on, `dispatchEvent` panics; where they are off, it
-- calls no listener, and answers whether the event is not canceled.
pub dispatch_event_stopped :
    (listeners : ℕ → Author) (e t : ℕ) (w : Realm)
    → (flags_of e w).dispatching ≡ false
    → (flags_of e w).initialized ≡ true
    → (flags_of e w).stop_propagation ≡ true
    → (dispatch_event true listeners e t w ≡ panics not_stopped)
      × ((w' : Realm) × (dispatch_event false listeners e t w
            ≡ done (w', ok (not (flags_of e w).canceled)))
          × (w'.listeners ≡ w.listeners)
          × ((flags_of e w').stop_propagation ≡ false))
unfolding dispatch_event dispatch start_dispatching invoke_listeners stop_dispatching
dispatch_event_stopped listeners e t w idle ready stopped =
    (ground arith, (stop_dispatching e started, ground arith, refl, ground arith))
  where
    u : Realm
    u = set_flags e (record (flags_of e w) { trusted = false }) w

    u1 : Realm
    u1 = set_flags e (record (flags_of e u) { dispatching = true }) u

    started : Realm
    started = set_event e (record (u1.events e) { target = some t }) u1
