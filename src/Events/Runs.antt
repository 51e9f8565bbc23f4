-- ===== src/Events/Runs.antt =====
-- Author code on events, targets and signals: what it calls in one go (the methods of events/ and
-- signals/ of crates/builtins/web-globals/src).
pub mod Methods
pub mod Safe
pub mod Aborts
pub mod Dispatches
pub mod Any
pub mod Lists
use starlingmonkey_ng.Prelude.{
  ℕ, Bool, true, false, ◌&&◌, Option, none, some, List, [], ◌∷◌, ltb, if◌then◌else◌,
}
use starlingmonkey_ng.Web.Text.{Text}
use starlingmonkey_ng.Events.{AbortReason, Realm, Run, done, panics, and_run}
use starlingmonkey_ng.Events.Flags.{
  EventInit, new_untrusted, set_cancel_bubble, stop_immediate_propagation, set_return_value,
  init_event,
}
use starlingmonkey_ng.Events.Listeners.{
  CallbackArgument, OptionsArgument, add_event_listener, remove_event_listener,
}
use starlingmonkey_ng.Events.Dispatch.{dispatch_event}
use starlingmonkey_ng.Events.Abort.{
  new_signal, abort, create_dependent_abort_signal, signal_abort, timeout_fires,
  add_abort_algorithm, remove_abort_algorithm, set_onabort,
}

-- A call, with the calls that the author code which it runs makes in turn: a listener's by its id,
-- a callback's by its signal and its place among the algorithms of that signal. A timeout of a signal
-- is the task of the event loop that aborts it, which author code waits for.
mutual
  pub data Call : Type 0 where
    makes_target : Call
    makes_event : Text → Option EventInit → Call
    adds_listener : ℕ → Text → CallbackArgument → OptionsArgument → Call
    removes_listener : ℕ → Text → CallbackArgument → OptionsArgument → Call
    dispatches : (ℕ → Calls) → ℕ → ℕ → Call
    sets_cancel_bubble : ℕ → Bool → Call
    stops_immediately : ℕ → Call
    sets_return_value : ℕ → Bool → Call
    inits_event : ℕ → Text → Bool → Bool → Call
    makes_aborted : Option AbortReason → Call
    makes_any : List ℕ → Call
    aborts : (ℕ → ℕ → Calls) → (ℕ → ℕ → Calls) → ℕ → AbortReason → Call
    times_out : (ℕ → ℕ → Calls) → (ℕ → ℕ → Calls) → ℕ → Call
    adds_algorithm : ℕ → ℕ → Call
    removes_algorithm : ℕ → ℕ → Call
    sets_onabort : ℕ → Option ℕ → Call

  pub data Calls : Type 0 where
    none_left : Calls
    then_calls : Call → Calls → Calls

-- Every one is below the bound.
abbrev pub all_below : ℕ → List ℕ → Bool
all_below n [] = true
all_below n (k ∷ ks) = ltb k n && all_below n ks

abbrev pub after : {A : Type 0} → Run (Realm × A) → Run Realm
after (done a) = done a.0
after (panics x) = panics x

-- A call on an object that there is not is no call.
abbrev pub on : Bool → Run Realm → Realm → Run Realm
on there run w = if there then run else done w

unfoldable mutual
  unfolding new_untrusted new_signal abort add_event_listener remove_event_listener
      set_cancel_bubble stop_immediate_propagation set_return_value init_event dispatch_event
      create_dependent_abort_signal signal_abort timeout_fires add_abort_algorithm
      remove_abort_algorithm set_onabort

  pub run_call : Bool → Call → Realm → Run Realm
  run_call debug makes_target w = done (new_signal w).0
  run_call debug (makes_event event_type init) w = done (new_untrusted event_type init w).0
  run_call debug (adds_listener t event_type callback options) w =
      on (ltb t w.next_target) (done (add_event_listener t event_type callback options w).0) w
  run_call debug (removes_listener t event_type callback options) w =
      on (ltb t w.next_target) (done (remove_event_listener t event_type callback options w).0) w
  run_call debug (dispatches listeners e t) w =
      on (ltb e w.next_event && ltb t w.next_target)
        (after (dispatch_event debug (λ l v. run_calls debug (listeners l) v) e t w)) w
  run_call debug (sets_cancel_bubble e b) w =
      on (ltb e w.next_event) (done (set_cancel_bubble e b w)) w
  run_call debug (stops_immediately e) w =
      on (ltb e w.next_event) (done (stop_immediate_propagation e w)) w
  run_call debug (sets_return_value e b) w =
      on (ltb e w.next_event) (done (set_return_value e b w)) w
  run_call debug (inits_event e event_type b c) w =
      on (ltb e w.next_event) (done (init_event e event_type b c w)) w
  run_call debug (makes_aborted reason) w = done (abort reason w).0
  run_call debug (makes_any signals) w =
      on (all_below w.next_target signals) (done (create_dependent_abort_signal signals w).0) w
  run_call debug (aborts callbacks listeners s reason) w =
      on (ltb s w.next_target)
        (signal_abort debug (λ k i v. run_calls debug (callbacks k i) v)
          (λ k l v. run_calls debug (listeners k l) v) s reason w)
        w
  run_call debug (times_out callbacks listeners s) w =
      on (ltb s w.next_target)
        (timeout_fires debug (λ k i v. run_calls debug (callbacks k i) v)
          (λ k l v. run_calls debug (listeners k l) v) s w)
        w
  run_call debug (adds_algorithm s callback) w =
      on (ltb s w.next_target) (done (add_abort_algorithm s callback w)) w
  run_call debug (removes_algorithm s callback) w =
      on (ltb s w.next_target) (done (remove_abort_algorithm s callback w)) w
  run_call debug (sets_onabort s handler) w =
      on (ltb s w.next_target) (done (set_onabort s handler w)) w

  pub run_calls : Bool → Calls → Realm → Run Realm
  run_calls debug none_left w = done w
  run_calls debug (then_calls c cs) w = and_run (run_call debug c w) (λ w'. run_calls debug cs w')
