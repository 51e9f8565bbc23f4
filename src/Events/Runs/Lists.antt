-- ===== src/Events/Runs/Lists.antt =====
-- The listener lists of any run (events/ of crates/builtins/web-globals/src).
use starlingmonkey_ng.Prelude.{ℕ, ◌≡◌, arith, Bool, true, false}
use starlingmonkey_ng.Events.{Realm, done, flags_of}
use starlingmonkey_ng.Events.Dispatch.{has_id, invoke_listeners}
use starlingmonkey_ng.Events.Inv.{Post}
use starlingmonkey_ng.Events.Inv.Once.{IsDispatched, once_listener, once_listener-below}
use starlingmonkey_ng.Events.Inv.Once.Rounds.{AllGone, invoke_listeners-AllGone}
use starlingmonkey_ng.Events.Runs.{Calls, run_calls}
use starlingmonkey_ng.Events.Runs.Safe.{run_calls-Keeps, Safe-done}

-- In a realm that satisfies the invariant, let an event be dispatched, and its propagation not be
-- stopped, and let a target have a listener for its type that is to be called once. If its listeners
-- are then invoked, whatever they call, and none stops the others, that listener is gone, and after
-- any run of author code it is still gone.
pub once_listeners_are_gone :
    (debug : Bool) (listeners : ℕ → Calls) (cs : Calls) (e t id : ℕ) (w w1 w2 : Realm)
    → IsDispatched e w
    → (flags_of e w).stop_propagation ≡ false
    → once_listener (w.events e).event_type id (w.listeners t) ≡ true
    → invoke_listeners debug (λ l v. run_calls debug (listeners l) v) e t w ≡ done w1
    → (flags_of e w1).stop_immediate_propagation ≡ false
    → run_calls debug cs w1 ≡ done w2
    → has_id id (w2.listeners t) ≡ false
once_listeners_are_gone debug listeners cs e t id w w1 w2 i goes once invoked unstopped ran =
    let (i1, k1, gone) =
      Safe-done debug
        (AllGone debug e t (λ l v. run_calls debug (listeners l) v)
          (λ l. run_calls-Keeps debug (listeners l))
          (λ j. once_listener (w.events e).event_type j (w.listeners t)) w)
        _ w1 invoked
        (invoke_listeners-AllGone debug e t (λ l v. run_calls debug (listeners l) v)
          (λ l. run_calls-Keeps debug (listeners l)) w i goes) in
    let (_, g) = Safe-done debug (Post w1) _ w2 ran (run_calls-Keeps debug cs w1 i1.0) in
    g.lists.gone t id
      (omega (arith, k1.next, once_listener-below _ id (w.listeners t) _ (i.0.distinct t) once))
      (gone id once unstopped)
