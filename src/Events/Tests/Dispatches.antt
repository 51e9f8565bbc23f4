-- ===== src/Events/Tests/Dispatches.antt =====
-- Dispatch on a concrete run.
use starlingmonkey_ng.Prelude.{ℕ, ◌<◌, ◌≡◌, refl, Bool, true, false, not, some, arith, ◌⊎◌}
use starlingmonkey_ng.Web.Text.{Result, ok, codes, text_eq}
use starlingmonkey_ng.Events.{Realm, done, panics, not_stopped, flags_of}
use starlingmonkey_ng.Events.Listeners.{object, dictionary, Members, absent}
use starlingmonkey_ng.Events.Dispatch.{InvalidState, dispatch_event, snapshots}
use starlingmonkey_ng.Events.Inv.Dispatching.{AllPassive}
use starlingmonkey_ng.Events.Inv.{IsValid}
use starlingmonkey_ng.Events.Runs.{
  Calls, none_left, then_calls, makes_target, makes_event, adds_listener, sets_cancel_bubble,
  sets_return_value, run_calls,
}
use starlingmonkey_ng.Events.Runs.Safe.{empty_realm, empty_realm-IsValid, run_calls-Keeps}
use starlingmonkey_ng.Events.Runs.Dispatches.{
  passive_listeners_do_not_cancel, dispatch_event_stopped,
}
use starlingmonkey_ng.Events.Tests.{left_by}

-- A cancelable event 0, and a target 0 with a passive listener for its type.
abbrev passive_members : Members
passive_members = record {
  capture = ok false;
  once = ok false;
  passive = ok (some true);
  signal = ok absent;
}

abbrev event_calls : Calls
event_calls = then_calls makes_target (
    then_calls
      (makes_event (codes "x")
        (some (record { bubbles = false; cancelable = true; composed = false })))
      (then_calls (adds_listener 0 (codes "x") (object 3) (dictionary (some passive_members)))
        none_left))

abbrev event_realm : Realm
event_realm = left_by event_calls empty_realm

event_realm-IsValid : IsValid event_realm
unfolding run_calls
event_realm-IsValid = (run_calls-Keeps true event_calls empty_realm empty_realm-IsValid).0

-- Each listener tries to cancel the event.
abbrev cancels : ℕ → Calls
cancels l = then_calls (sets_return_value 0 false) none_left

event_there : 0 < event_realm.next_event
unfolding run_calls
event_there = omega arith

event_idle : (flags_of 0 event_realm).dispatching ≡ false
unfolding run_calls
event_idle = refl

event_ready : (flags_of 0 event_realm).initialized ≡ true
unfolding run_calls
event_ready = refl

event_uncanceled : (flags_of 0 event_realm).canceled ≡ false
unfolding run_calls
event_uncanceled = refl

event_passive : AllPassive (snapshots (event_realm.events 0).event_type (event_realm.listeners 0))
unfolding run_calls snapshots text_eq
event_passive = (refl, tt)

passive_listeners_do_not_cancel_example :
    ((a : Realm × Result Bool InvalidState) × (dispatch_event true
          (λ l v. run_calls true (cancels l) v)
          0
          0
          event_realm
        ≡ done a)
      × ((a.1 ≡ ok true) × ((flags_of 0 a.0).dispatching ≡ false)))
    ⊎ (◌≡◌ {A = Bool} true true
        × (dispatch_event true (λ l v. run_calls true (cancels l) v) 0 0 event_realm
            ≡ panics not_stopped))
passive_listeners_do_not_cancel_example =
    passive_listeners_do_not_cancel true cancels 0 0 event_realm event_realm-IsValid event_there
      event_idle event_ready event_uncanceled event_passive

-- The same event, stopped before its dispatch.
abbrev stopped_realm : Realm
stopped_realm = left_by (then_calls (sets_cancel_bubble 0 true) none_left) event_realm

stopped_idle : (flags_of 0 stopped_realm).dispatching ≡ false
unfolding run_calls
stopped_idle = refl

stopped_ready : (flags_of 0 stopped_realm).initialized ≡ true
unfolding run_calls
stopped_ready = refl

stopped_set : (flags_of 0 stopped_realm).stop_propagation ≡ true
unfolding run_calls
stopped_set = refl

dispatch_event_stopped_example :
    (dispatch_event true (λ l v. run_calls true (cancels l) v) 0 0 stopped_realm
      ≡ panics not_stopped)
    × ((w' : Realm) × (dispatch_event false (λ l v. run_calls true (cancels l) v) 0 0 stopped_realm
          ≡ done (w', ok (not (flags_of 0 stopped_realm).canceled)))
        × (w'.listeners ≡ stopped_realm.listeners)
        × ((flags_of 0 w').stop_propagation ≡ false))
dispatch_event_stopped_example =
    dispatch_event_stopped (λ l v. run_calls true (cancels l) v) 0 0 stopped_realm stopped_idle
      stopped_ready stopped_set
