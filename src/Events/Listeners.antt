-- ===== src/Events/Listeners.antt =====
-- The event listener list of an event target: events/event_target.rs and the part of
-- events/algorithms.rs of crates/builtins/web-globals/src that adds and removes listeners.
pub mod Distinct
use starlingmonkey_ng.Prelude.{
  ℕ, ◌+◌, Bool, true, false, not, ◌&&◌, Option, none, some, List, [], ◌∷◌, ◌++◌, is_some,
  if◌then◌else◌, ◌==◌,
}
use starlingmonkey_ng.Web.Text.{Text, text_eq, Result, ok, err}
use starlingmonkey_ng.Events.{
  EventListener, remove_listener, Realm, set_listeners, set_signal, is_undefined,
}

-- What is thrown: a `TypeError` of the code, or what author code threw.
pub data Exn : Type 0 where
  type_error by_author : Exn

-- `Result<A, ExnThrown>`
abbrev pub Throws : Type 0 → Type 0
Throws A = Result A Exn

abbrev pub and_ok : {A B : Type 0} → Throws A → (A → Throws B) → Throws B
and_ok (ok a) f = f a
and_ok (err x) f = err x

-- The `signal` member of the options.
pub data SignalMember : Type 0 where
  absent not_a_signal : SignalMember
  is_signal : ℕ → SignalMember

-- What reading each member of an options object gives. `passive` is `none` where it is undefined.
pub record Members : Type 0 where
  pub capture : Throws Bool
  pub once : Throws Bool
  pub passive : Throws (Option Bool)
  pub signal : Throws SignalMember

pub data OptionsArgument : Type 0 where
  boolean : Bool → OptionsArgument
  dictionary : Option Members → OptionsArgument

pub record ListenerOptions : Type 0 where
  pub capture : Bool
  pub passive : Option Bool
  pub once : Bool
  pub signal : Option ℕ

unfoldable pub read_bool_option : (Members → Throws Bool) → Option Members → Throws Bool
read_bool_option member none = ok false
read_bool_option member (some d) = member d

unfoldable pub flatten_options : OptionsArgument → Throws Bool
unfolding read_bool_option
flatten_options (boolean capture) = ok capture
flatten_options (dictionary d) = read_bool_option (λ m. m.capture) d

unfoldable pub read_signal_option : Members → Throws (Option ℕ)
read_signal_option m =
    and_ok m.signal
      λ s. elim s [ absent ↦ ok none | is_signal k ↦ ok (some k) | not_a_signal ↦ err type_error ]

unfoldable pub flatten_more_options : OptionsArgument → Throws ListenerOptions
unfolding read_bool_option read_signal_option
flatten_more_options (boolean capture) =
    ok (record { capture = capture; passive = none; once = false; signal = none })
flatten_more_options (dictionary d) = and_ok (read_bool_option (λ m. m.capture) d) λ capture.
    and_ok (read_bool_option (λ m. m.once) d) λ once.
      and_ok (elim d [ none ↦ ok none | some m ↦ m.passive ])
        λ passive.
          and_ok (elim d [ none ↦ ok none | some m ↦ read_signal_option m ])
            λ signal.
              ok (record { capture = capture; passive = passive; once = once; signal = signal })

abbrev pub same_bool : Bool → Bool → Bool
same_bool true b = b
same_bool false b = not b

-- Whether a listener is that of this type, callback and `capture`.
abbrev pub is_same : Text → ℕ → Bool → EventListener → Bool
is_same event_type callback capture l =
    text_eq l.event_type event_type && (same_bool l.capture capture && l.callback == callback)

abbrev pub find_id : (EventListener → Bool) → List EventListener → Option ℕ
find_id test [] = none
find_id test (l ∷ ls) = if test l then some l.id else find_id test ls

-- `retain`, of those that fail the test.
abbrev pub discard : (EventListener → Bool) → List EventListener → List EventListener
discard test [] = []
discard test (l ∷ ls) = let rest = discard test ls in if test l then rest else l ∷ rest

unfoldable pub aborted : ℕ → Realm → Bool
aborted s w = not (is_undefined (w.signals s).abort_reason)

unfoldable pub add_listener_removal_algorithm : ℕ → ℕ → ℕ → Realm → Realm
unfolding aborted
add_listener_removal_algorithm s t listener_id w =
    if aborted s w
    then w
    else set_signal s
        (record (w.signals s) {
          abort_algorithms = (w.signals s).abort_algorithms ++ remove_listener t listener_id ∷ [];
        })
        w

-- The listener is appended where there is none like it; the second answer is the id of either.
unfoldable pub append_listener : ℕ → Text → ℕ → Bool → Option Bool → Bool → Realm → Realm × ℕ
append_listener t event_type callback capture passive once w =
    let listener : EventListener = record {
      id = w.next_listener;
      event_type = event_type;
      callback = callback;
      capture = capture;
      passive = passive;
      once = once;
    } in
    elim (find_id (is_same event_type callback capture) (w.listeners t)) [
      | some id ↦ (w, id)
      | none ↦ (
        record (set_listeners t (w.listeners t ++ listener ∷ []) w) {
          next_listener = w.next_listener + 1;
        },
        w.next_listener,
      )
    ]

unfoldable pub add_an_event_listener :
    ℕ → Text → ℕ → Bool → Option Bool → Bool → Option ℕ → Realm → Realm
unfolding aborted append_listener add_listener_removal_algorithm
add_an_event_listener t event_type callback capture passive once none w =
    (append_listener t event_type callback capture passive once w).0
add_an_event_listener t event_type callback capture passive once (some s) w =
    let (w', id) = append_listener t event_type callback capture passive once w in
    if aborted s w then w else add_listener_removal_algorithm s t id w'

unfoldable pub remove_an_event_listener : ℕ → Text → ℕ → Bool → Realm → Realm
remove_an_event_listener t event_type callback capture w =
    set_listeners t (discard (is_same event_type callback capture) (w.listeners t)) w

unfoldable pub remove_an_event_listener_by_id : ℕ → ℕ → Realm → Realm
remove_an_event_listener_by_id t id w =
    set_listeners t (discard (λ l. l.id == id) (w.listeners t)) w

-- The `callback` argument of a method.
pub data CallbackArgument : Type 0 where
  nullish primitive : CallbackArgument
  object : ℕ → CallbackArgument

unfoldable pub event_listener_argument : CallbackArgument → Throws (Option ℕ)
event_listener_argument nullish = ok none
event_listener_argument (object c) = ok (some c)
event_listener_argument primitive = err type_error

-- The second answer of a method is what it throws, if it throws.
unfoldable pub add_event_listener :
    ℕ → Text → CallbackArgument → OptionsArgument → Realm → Realm × Option Exn
unfolding flatten_more_options event_listener_argument add_an_event_listener
add_event_listener t event_type callback options w = elim (flatten_more_options options) [
  | err x ↦ (w, some x)
  | ok o ↦ elim (event_listener_argument callback) [
    | err x ↦ (w, some x)
    | ok none ↦ (w, none)
    | ok (some c) ↦
        (add_an_event_listener t event_type c o.capture o.passive o.once o.signal w, none)
  ]
]

unfoldable pub remove_event_listener :
    ℕ → Text → CallbackArgument → OptionsArgument → Realm → Realm × Option Exn
unfolding flatten_options event_listener_argument remove_an_event_listener
remove_event_listener t event_type callback options w = elim (flatten_options options) [
  | err x ↦ (w, some x)
  | ok capture ↦ elim (event_listener_argument callback) [
    | err x ↦ (w, some x)
    | ok none ↦ (w, none)
    | ok (some c) ↦ (remove_an_event_listener t event_type c capture w, none)
  ]
]

unfoldable pub has_listener_for : ℕ → Text → Realm → Bool
has_listener_for t event_type w =
    is_some (find_id (λ l. text_eq l.event_type event_type) (w.listeners t))
