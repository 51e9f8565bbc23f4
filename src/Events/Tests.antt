-- ===== src/Events/Tests.antt =====
-- Events and abort signals on a concrete run.
mod Lists
mod Dispatches
use starlingmonkey_ng.Prelude.{
  ℕ, ◌+◌, ◌<◌, ◌≡◌, refl, Bool, true, false, some, [], ◌∷◌, arith, mem, ◌⊎◌,
}
use starlingmonkey_ng.Events.{value, Realm, done, panics, not_stopped, is_undefined}
use starlingmonkey_ng.Events.Abort.{count, algorithm_count}
use starlingmonkey_ng.Events.Inv.{IsValid}
use starlingmonkey_ng.Events.Inv.Aborting.{IsReached, given_reason}
use starlingmonkey_ng.Events.Runs.{
  Calls, none_left, then_calls, makes_target, makes_any, aborts, adds_algorithm, run_calls,
}
use starlingmonkey_ng.Events.Runs.Safe.{
  empty_realm, empty_realm-IsValid, run_calls-Keeps, run_calls_safe_events, aborted_for_good,
  sources_are_live,
}
use starlingmonkey_ng.Events.Runs.Aborts.{
  abort_run, abort_reaches_dependents, algorithms_of, algorithm_count_ends,
}

-- Signal 1 depends on signal 0, and has an algorithm.
abbrev linked_calls : Calls
linked_calls =
    then_calls makes_target
      (then_calls (makes_any (0 ∷ [])) (then_calls (adds_algorithm 1 5) none_left))

abbrev pub left_by : Calls → Realm → Realm
left_by cs w = elim (run_calls true cs w) [ done w' ↦ w' | panics x ↦ w ]

abbrev linked_realm : Realm
linked_realm = left_by linked_calls empty_realm

linked_ran : run_calls true linked_calls empty_realm ≡ done linked_realm
unfolding run_calls
linked_ran = refl

linked_realm-IsValid : IsValid linked_realm
unfolding run_calls
linked_realm-IsValid = (run_calls-Keeps true linked_calls empty_realm empty_realm-IsValid).0

abbrev quiet_places : ℕ → ℕ → Calls
quiet_places s i = none_left

-- The callback of signal 1 tries to abort signal 0 again.
abbrev callbacks : ℕ → ℕ → Calls
callbacks s i = then_calls (aborts quiet_places quiet_places 0 (value 9)) none_left

abbrev aborting : Calls
aborting = then_calls (aborts callbacks quiet_places 0 (value 7)) none_left

abbrev aborted_realm : Realm
aborted_realm = left_by aborting linked_realm

-- Both are aborted for the one reason.
reasons_test :
    ((aborted_realm.signals 0).abort_reason ≡ value 7)
    × ((aborted_realm.signals 1).abort_reason ≡ value 7)
unfolding run_calls
reasons_test = (refl, refl)

run_calls_safe_events_example :
    ((w : Realm) × (run_calls true linked_calls empty_realm ≡ done w) × IsValid w)
    ⊎ (◌≡◌ {A = Bool} true true × (run_calls true linked_calls empty_realm ≡ panics not_stopped))
run_calls_safe_events_example = run_calls_safe_events true linked_calls

aborted_realm-IsValid : IsValid aborted_realm
unfolding run_calls
aborted_realm-IsValid = (run_calls-Keeps true aborting linked_realm linked_realm-IsValid).0

abbrev later_realm : Realm
later_realm = left_by aborting aborted_realm

later_ran : run_calls true aborting aborted_realm ≡ done later_realm
unfolding run_calls
later_ran = refl

aborted_set : is_undefined (aborted_realm.signals 1).abort_reason ≡ false
unfolding run_calls
aborted_set = refl

aborted_there : 1 < aborted_realm.next_target
unfolding run_calls
aborted_there = omega arith

aborted_for_good_example :
    ((later_realm.signals 1).abort_reason ≡ (aborted_realm.signals 1).abort_reason)
    × ((aborted_realm.signals 1).abort_algorithms ≡ []
        → (later_realm.signals 1).abort_algorithms ≡ [])
aborted_for_good_example =
    aborted_for_good true aborting aborted_realm later_realm 1 aborted_realm-IsValid later_ran
      aborted_there aborted_set

unset_0 : is_undefined (linked_realm.signals 0).abort_reason ≡ true
unfolding run_calls
unset_0 = refl

unset_1 : is_undefined (linked_realm.signals 1).abort_reason ≡ true
unfolding run_calls
unset_1 = refl

source_0 : mem 0 (linked_realm.signals 1).source_signals ≡ true
unfolding run_calls
source_0 = refl

there_0 : 0 < linked_realm.next_target
unfolding run_calls
there_0 = omega arith

sources_are_live_example :
    (is_undefined (linked_realm.signals 0).abort_reason ≡ true)
    × ((linked_realm.signals 0).dependent ≡ false)
    × (mem 1 (linked_realm.signals 0).dependent_signals ≡ true)
sources_are_live_example =
    sources_are_live true linked_calls linked_realm 1 0 linked_ran unset_1 source_0

abort_reaches_dependents_example :
    ((w' : Realm) × (abort_run true callbacks quiet_places 0 (value 7) linked_realm ≡ done w')
      × IsReached (given_reason (value 7)) 0 linked_realm w')
    ⊎ (◌≡◌ {A = Bool} true true
        × (abort_run true callbacks quiet_places 0 (value 7) linked_realm ≡ panics not_stopped))
abort_reaches_dependents_example =
    abort_reaches_dependents true callbacks quiet_places 0 (value 7) linked_realm
      linked_realm-IsValid there_0 unset_0

algorithm_count_ends_example :
    algorithm_count 2 0 linked_realm
    ≡ some (
        count (linked_realm.signals 0).abort_algorithms
        + algorithms_of (linked_realm.signals 0).dependent_signals linked_realm)
algorithm_count_ends_example = algorithm_count_ends 0 0 linked_realm linked_realm-IsValid
