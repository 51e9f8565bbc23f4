-- ===== src/Events/Dispatch.antt =====
-- Dispatch (events/algorithms.rs of crates/builtins/web-globals/src, and `dispatch_event` of
-- events/event_target.rs). What a listener does, by its id, is an argument: the call of its callback,
-- whose exception is only reported, and the microtasks that may run after it.
use starlingmonkey_ng.Prelude.{
  ℕ, Bool, true, false, not, ◌||◌, Option, none, some, List, [], ◌∷◌, if◌then◌else◌, ◌==◌,
}
use starlingmonkey_ng.Web.Text.{Text, text_eq, Result, ok, err}
use starlingmonkey_ng.Events.{
  EventListener, Realm, Run, done, and_run, flags_of, set_event, set_flags, set_listeners,
}
use starlingmonkey_ng.Events.Flags.{
  new_trusted, start_dispatching, stop_dispatching, set_in_passive_listener,
}

-- What a listener, or other author code, does.
abbrev pub Author : Type 0
Author = Realm → Run Realm

pub record ListenerSnapshot : Type 0 where
  pub id : ℕ
  pub passive : Option Bool
  pub once : Bool

unfoldable pub snapshots : Text → List EventListener → List ListenerSnapshot
snapshots event_type [] = []
snapshots event_type (l ∷ ls) =
    let rest = snapshots event_type ls in
    if text_eq l.event_type event_type
    then record { id = l.id; passive = l.passive; once = l.once } ∷ rest
    else rest

abbrev pub has_id : ℕ → List EventListener → Bool
has_id id [] = false
has_id id (l ∷ ls) = l.id == id || has_id id ls

-- `remove` at the position of the listener.
abbrev pub remove_at_id : ℕ → List EventListener → List EventListener
remove_at_id id [] = []
remove_at_id id (l ∷ ls) = if l.id == id then ls else l ∷ remove_at_id id ls

abbrev pub is_passive : Option Bool → Bool
is_passive (some b) = b
is_passive none = false

-- One round of the loop, up to the test that may end it.
unfoldable pub invoke_listener : Bool → (ℕ → Author) → ℕ → ℕ → ListenerSnapshot → Realm → Run Realm
unfolding set_in_passive_listener
invoke_listener debug listeners e t snap w =
    let w1 = (if snap.once then set_listeners t (remove_at_id snap.id (w.listeners t)) w else w) in
    and_run (if is_passive snap.passive then set_in_passive_listener debug e true w1 else done w1)
      λ w2. and_run (listeners snap.id w2) λ w3. set_in_passive_listener debug e false w3

unfoldable pub invoke_each : Bool → (ℕ → Author) → ℕ → ℕ → List ListenerSnapshot → Realm → Run Realm
unfolding invoke_listener
invoke_each debug listeners e t [] w = done w
invoke_each debug listeners e t (snap ∷ snaps) w =
    let skips = invoke_each debug listeners e t snaps w in
    let invokes = and_run (invoke_listener debug listeners e t snap w) (λ w'.
      let goes_on = invoke_each debug listeners e t snaps w' in
      if (flags_of e w').stop_immediate_propagation then done w' else goes_on) in
    if has_id snap.id (w.listeners t) then invokes else skips

unfoldable pub invoke_listeners : Bool → (ℕ → Author) → ℕ → ℕ → Realm → Run Realm
unfolding snapshots invoke_each
invoke_listeners debug listeners e t w =
    if (flags_of e w).stop_propagation
    then done w
    else invoke_each debug listeners e t (snapshots (w.events e).event_type (w.listeners t)) w

-- The second answer is that the event is not canceled.
unfoldable pub dispatch : Bool → (ℕ → Author) → ℕ → ℕ → Realm → Run (Realm × Bool)
unfolding start_dispatching invoke_listeners stop_dispatching
dispatch debug listeners e t w = and_run (start_dispatching debug e w) λ w1.
    let w2 = set_event e (record (w1.events e) { target = some t }) w1 in
    and_run (invoke_listeners debug listeners e t w2)
      λ w3. let w4 = stop_dispatching e w3 in done (w4, not (flags_of e w4).canceled)

-- `DOMExceptionError::new` of "InvalidStateError".
pub data InvalidState : Type 0 where
  invalid_state : InvalidState

unfoldable pub dispatch_event :
    Bool → (ℕ → Author) → ℕ → ℕ → Realm → Run (Realm × Result Bool InvalidState)
unfolding dispatch
dispatch_event debug listeners e t w =
    let untrusted = set_flags e (record (flags_of e w) { trusted = false }) w in
    let dispatches = and_run (dispatch debug listeners e t untrusted) (λ a. done (a.0, ok a.1)) in
    if (flags_of e w).dispatching || not (flags_of e w).initialized
    then done (w, err invalid_state)
    else dispatches

unfoldable pub fire_an_event : Bool → (ℕ → Author) → Text → ℕ → Realm → Run (Realm × Bool)
unfolding new_trusted dispatch
fire_an_event debug listeners name t w =
    let (w', e) = new_trusted name none w in dispatch debug listeners e t w'
