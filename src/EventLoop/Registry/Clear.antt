-- ===== src/EventLoop/Registry/Clear.antt =====
-- What `EventLoop::clear_js_timer` does to the loop (crates/core-runtime/src/event_loop.rs).
use starlingmonkey_ng.Prelude.{
  ℕ, ◌≡◌, ◌≢◌, none, some, arith, inl, inr, Option-cases, if◌then◌else◌, ◌==◌,
}
use starlingmonkey_ng.Collections.HashMap
use starlingmonkey_ng.Collections.HashMap.{get-remove}
use starlingmonkey_ng.EventLoop.TaskQueue.Lookup.{lookup, lookup-remove}
use starlingmonkey_ng.EventLoop.Registry.{JsTimer, EventLoop, cancel_if_queued, clear_js_timer}
use starlingmonkey_ng.EventLoop.Registry.Inv.{IsValid}

module _ {T : Type 0} where
  clear_of_some :
      (t : ℕ) (el : EventLoop T) (r : JsTimer)
      → HashMap.get t el.js_timers ≡ some r
      → clear_js_timer t el
        ≡ (cancel_if_queued r.task (record el { js_timers = HashMap.remove t el.js_timers })).0
  unfolding clear_js_timer
  clear_of_some t el r h = rw (h, clear_js_timer)

  pub clear_of_none :
      (t : ℕ) (el : EventLoop T) → HashMap.get t el.js_timers ≡ none → clear_js_timer t el ≡ el
  unfolding clear_js_timer
  clear_of_none t el h = rw (h, clear_js_timer)

  pub get-clear_js_timer :
      (t u : ℕ) (el : EventLoop T)
      → HashMap.get u (clear_js_timer t el).js_timers
        ≡ (if u == t then none else HashMap.get u el.js_timers)
  unfolding clear_js_timer cancel_if_queued
  get-clear_js_timer t u el = elim (Option-cases (HashMap.get t el.js_timers)) [
    | inl e ↦ ground arith
    | inr (r, e) ↦ ground (arith, get-remove u t el.js_timers)
  ]

  -- Clearing a timer of a valid loop forgets its id and takes its task out of the queue. Every other
  -- timer id keeps its record, and the task of every other timer stays as it is.
  pub clear_js_timer_lem :
      (t : ℕ) (el : EventLoop T) (r : JsTimer)
      → IsValid el
      → HashMap.get t el.js_timers ≡ some r
      → (HashMap.get t (clear_js_timer t el).js_timers ≡ none)
        × (lookup r.task (clear_js_timer t el).tasks ≡ none)
        × ((u : ℕ) (s : JsTimer)
            → u ≢ t
            → HashMap.get u el.js_timers ≡ some s
            → (HashMap.get u (clear_js_timer t el).js_timers ≡ some s)
              × (lookup s.task (clear_js_timer t el).tasks ≡ lookup s.task el.tasks))
  unfolding cancel_if_queued
  clear_js_timer_lem t el r v h = (
    ground (arith, get-clear_js_timer t t el),
    ground (arith, clear_of_some t el r h, lookup-remove r.task r.task el.tasks),
    λ u s ne k. (
      ground (arith, get-clear_js_timer t u el),
      ground
          (arith, clear_of_some t el r h, lookup-remove s.task r.task el.tasks, v.distinct u t s r),
    ),
  )
