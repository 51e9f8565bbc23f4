-- ===== src/Events/Flags.antt =====
-- The methods of `Event` (events/event.rs of crates/builtins/web-globals/src) that change it.
use starlingmonkey_ng.Prelude.{
  ℕ, ◌+◌, Bool, true, false, not, ◌&&◌, ◌||◌, Option, none, some, if◌then◌else◌,
}
use starlingmonkey_ng.Web.Text.{Text}
use starlingmonkey_ng.Events.{
  EventFlags, Event, Realm, Run, done, panics, not_stopped, is_dispatching, flags_of, set_event,
  set_flags,
}

-- `EventInit`
pub record EventInit : Type 0 where
  pub bubbles : Bool
  pub cancelable : Bool
  pub composed : Bool

-- A new event; the second answer is its number.
unfoldable pub new_untrusted : Text → Option EventInit → Realm → Realm × ℕ
new_untrusted event_type init w =
    let plain : EventFlags = record {
      stop_propagation = false;
      stop_immediate_propagation = false;
      canceled = false;
      in_passive_listener = false;
      dispatching = false;
      initialized = true;
      bubbles = false;
      cancelable = false;
      composed = false;
      trusted = false;
    } in
    let flags : EventFlags = elim init [
      | none ↦ plain
      | some i ↦ record plain {
        bubbles = i.bubbles;
        cancelable = i.cancelable;
        composed = i.composed;
      }
    ] in
    let event : Event = record { event_type = event_type; target = none; flags = flags } in
    (record (set_event w.next_event event w) { next_event = w.next_event + 1 }, w.next_event)

unfoldable pub new_trusted : Text → Option EventInit → Realm → Realm × ℕ
unfolding new_untrusted
new_trusted event_type init w =
    let (w', e) = new_untrusted event_type init w in
    (set_flags e (record (flags_of e w') { trusted = true }) w', e)

unfoldable pub stop_propagation : ℕ → Realm → Realm
stop_propagation e w = set_flags e (record (flags_of e w) { stop_propagation = true }) w

unfoldable pub set_cancel_bubble : ℕ → Bool → Realm → Realm
unfolding stop_propagation
set_cancel_bubble e value w = if value then stop_propagation e w else w

unfoldable pub stop_immediate_propagation : ℕ → Realm → Realm
stop_immediate_propagation e w =
    set_flags e
      (record (flags_of e w) { stop_propagation = true; stop_immediate_propagation = true }) w

-- `cancel`, which is `prevent_default` too.
unfoldable pub cancel_event : ℕ → Realm → Realm
cancel_event e w =
    if (flags_of e w).cancelable && not (flags_of e w).in_passive_listener
    then set_flags e (record (flags_of e w) { canceled = true }) w
    else w

unfoldable pub set_return_value : ℕ → Bool → Realm → Realm
unfolding cancel_event
set_return_value e value w = if value then w else cancel_event e w

unfoldable pub initialize : ℕ → Text → Bool → Bool → Realm → Realm
initialize e event_type bubbles cancelable w =
    let flags = record (flags_of e w) {
      initialized = true;
      stop_propagation = false;
      stop_immediate_propagation = false;
      canceled = false;
      bubbles = bubbles;
      cancelable = cancelable;
    } in
    set_event e (record { event_type = event_type; target = none; flags = flags }) w

unfoldable pub init_event : ℕ → Text → Bool → Bool → Realm → Realm
unfolding initialize
init_event e event_type bubbles cancelable w =
    if (flags_of e w).dispatching then w else initialize e event_type bubbles cancelable w

-- `debug` says whether debug assertions are on.
unfoldable pub start_dispatching : Bool → ℕ → Realm → Run Realm
start_dispatching debug e w =
    let f = flags_of e w in
    if debug && (f.dispatching || f.stop_propagation || f.stop_immediate_propagation)
    then panics not_stopped
    else done (set_flags e (record f { dispatching = true }) w)

unfoldable pub stop_dispatching : ℕ → Realm → Realm
stop_dispatching e w =
    set_flags e
      (record (flags_of e w) {
        dispatching = false;
        stop_propagation = false;
        stop_immediate_propagation = false;
      })
      w

unfoldable pub set_in_passive_listener : Bool → ℕ → Bool → Realm → Run Realm
set_in_passive_listener debug e value w =
    if debug && not (flags_of e w).dispatching
    then panics is_dispatching
    else done (set_flags e (record (flags_of e w) { in_passive_listener = value }) w)
