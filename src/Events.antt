-- ===== src/Events.antt =====
-- Events and abort signals (events/ and signals/ of crates/builtins/web-globals/src): the events, the
-- event targets and the abort signals of a realm. An object is its number; an abort signal is an
-- event target, and is the number of both. A callback is a number too, by which it is compared.
pub mod Flags
pub mod Listeners
pub mod Dispatch
pub mod Abort
pub mod Runs
pub mod Safety
pub mod Kept
pub mod Inv
mod Tests
use starlingmonkey_ng.Prelude.{ℕ, Bool, true, false, Option, List, if◌then◌else◌, ◌==◌}
use starlingmonkey_ng.Web.Text.{Text}

-- `EventFlags`
pub record EventFlags : Type 0 where
  pub stop_propagation : Bool
  pub stop_immediate_propagation : Bool
  pub canceled : Bool
  pub in_passive_listener : Bool
  pub dispatching : Bool
  pub initialized : Bool
  pub bubbles : Bool
  pub cancelable : Bool
  pub composed : Bool
  pub trusted : Bool

pub record Event : Type 0 where
  pub event_type : Text
  pub target : Option ℕ
  pub flags : EventFlags

pub record EventListener : Type 0 where
  pub id : ℕ
  pub event_type : Text
  pub callback : ℕ
  pub capture : Bool
  pub passive : Option Bool
  pub once : Bool

pub data AbortAlgorithm : Type 0 where
  remove_listener : ℕ → ℕ → AbortAlgorithm
  run_steps : ℕ → AbortAlgorithm

-- A JS value, with the errors that the code makes.
pub data AbortReason : Type 0 where
  undefined abort_error timeout_error : AbortReason
  value : ℕ → AbortReason

pub record AbortSignal : Type 0 where
  pub abort_reason : AbortReason
  pub dependent : Bool
  pub source_signals : List ℕ
  pub dependent_signals : List ℕ
  pub abort_algorithms : List AbortAlgorithm
  pub onabort_handler : Option ℕ

-- The objects, with the number of the next of each kind, and `NEXT_LISTENER_ID`, a `u64`
-- that is taken to be unbounded: author code would have to add 2 ^ 64 listeners to exhaust it.
pub record Realm : Type 0 where
  pub events : ℕ → Event
  pub next_event : ℕ
  pub listeners : ℕ → List EventListener
  pub signals : ℕ → AbortSignal
  pub next_target : ℕ
  pub next_listener : ℕ

-- The debug assertions: of `start_dispatching` and of `set_in_passive_listener`.
pub data Assertion : Type 0 where
  not_stopped is_dispatching : Assertion

-- What a call leaves, or the debug assertion that fails.
pub data Run (A : Type 0) : Type 0 where
  done : A → Run A
  panics : Assertion → Run A

abbrev pub and_run : {A B : Type 0} → Run A → (A → Run B) → Run B
and_run (done a) f = f a
and_run (panics x) f = panics x

abbrev pub flags_of : ℕ → Realm → EventFlags
flags_of e w = (w.events e).flags

abbrev pub set_event : ℕ → Event → Realm → Realm
set_event e x w = record w { events = λ k. if k == e then x else w.events k }

abbrev pub set_flags : ℕ → EventFlags → Realm → Realm
set_flags e f w = set_event e (record (w.events e) { flags = f }) w

abbrev pub set_listeners : ℕ → List EventListener → Realm → Realm
set_listeners t ls w = record w { listeners = λ k. if k == t then ls else w.listeners k }

abbrev pub set_signal : ℕ → AbortSignal → Realm → Realm
set_signal s x w = record w { signals = λ k. if k == s then x else w.signals k }

abbrev pub is_undefined : AbortReason → Bool
is_undefined undefined = true
is_undefined _ = false
