-- ===== src/Events/Tests/Lists.antt =====
-- Listener lists on a concrete run.
use starlingmonkey_ng.Prelude.{ℕ, ◌≡◌, refl, true, false, none, some, arith}
use starlingmonkey_ng.Web.Text.{codes, text_eq, ok}
use starlingmonkey_ng.Events.{Realm, done, panics, flags_of, set_flags}
use starlingmonkey_ng.Events.Listeners.{object, dictionary, boolean, Members, absent}
use starlingmonkey_ng.Events.Dispatch.{has_id, invoke_listeners}
use starlingmonkey_ng.Events.Inv.{IsValid, events-IsValid}
use starlingmonkey_ng.Events.Inv.Once.{IsDispatched, once_listener}
use starlingmonkey_ng.Events.Runs.{
  Call, Calls, none_left, then_calls, makes_target, makes_event, adds_listener, run_calls,
}
use starlingmonkey_ng.Events.Runs.Safe.{empty_realm, empty_realm-IsValid, run_calls-Keeps}
use starlingmonkey_ng.Events.Runs.Lists.{once_listeners_are_gone}

abbrev once_members : Members
once_members = record { capture = ok true; once = ok true; passive = ok none; signal = ok absent }

abbrev adds_once : Call
adds_once = adds_listener 0 (codes "x") (object 3) (dictionary (some once_members))

-- A target 0 with a listener 0 that is called once, added twice, and one that is not capturing.
abbrev once_calls : Calls
once_calls = then_calls makes_target (
    then_calls (makes_event (codes "x") none) (
      then_calls adds_once (
        then_calls adds_once
          (then_calls (adds_listener 0 (codes "x") (object 3) (boolean false)) none_left))))

abbrev left_by : Calls → Realm → Realm
left_by cs w = elim (run_calls true cs w) [ done w' ↦ w' | panics x ↦ w ]

abbrev once_realm : Realm
once_realm = left_by once_calls empty_realm

once_realm-next_listener : once_realm.next_listener ≡ 2
unfolding run_calls text_eq
once_realm-next_listener = refl

once_ran : run_calls true once_calls empty_realm ≡ done once_realm
unfolding run_calls text_eq
once_ran = refl

once_realm-IsValid : IsValid once_realm
unfolding run_calls text_eq
once_realm-IsValid = (run_calls-Keeps true once_calls empty_realm empty_realm-IsValid).0

-- Event 0 is being dispatched.
abbrev during : Realm
during = set_flags 0 (record (flags_of 0 once_realm) { dispatching = true }) once_realm

during-IsDispatched : IsDispatched 0 during
unfolding run_calls text_eq
during-IsDispatched =
    (events-IsValid _ once_realm.next_event once_realm once_realm-IsValid, omega arith, refl)

-- Each listener adds the first again.
abbrev adds_again : ℕ → Calls
adds_again l = then_calls adds_once none_left

abbrev invoked : Realm
invoked = elim (invoke_listeners true (λ l v. run_calls true (adds_again l) v) 0 0 during) [
  | done w ↦ w
  | panics x ↦ during
]

during-propagates : (flags_of 0 during).stop_propagation ≡ false
unfolding run_calls text_eq
during-propagates = refl

during-once : once_listener (during.events 0).event_type 0 (during.listeners 0) ≡ true
unfolding run_calls text_eq
during-once = refl

during-invoked :
    invoke_listeners true (λ l v. run_calls true (adds_again l) v) 0 0 during ≡ done invoked
unfolding run_calls invoke_listeners text_eq
during-invoked = refl

invoked-goes_on : (flags_of 0 invoked).stop_immediate_propagation ≡ false
unfolding run_calls invoke_listeners text_eq
invoked-goes_on = refl

invoked_ran : run_calls true (adds_again 0) invoked ≡ done (left_by (adds_again 0) invoked)
unfolding run_calls invoke_listeners text_eq
invoked_ran = refl

once_listeners_are_gone_example : has_id 0 ((left_by (adds_again 0) invoked).listeners 0) ≡ false
once_listeners_are_gone_example =
    once_listeners_are_gone true adds_again (adds_again 0) 0 0 0 during invoked
      (left_by (adds_again 0) invoked) during-IsDispatched during-propagates during-once
      during-invoked invoked-goes_on invoked_ran
