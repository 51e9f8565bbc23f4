-- ===== src/EventLoop/Timer/Repeat.antt =====
-- What becomes of a timer when it has fired: `TimerTask::run` of crates/core-
-- runtime/src/event_loop/timer.rs.
use starlingmonkey_ng.Prelude.{
  ℕ, ◌+◌, ◌<◌, ◌≡◌, ◌∙◌, true, none, some, List, [], ◌∷◌, ◌++◌, arith, inl, inr, Option-cases,
  length,
}
use starlingmonkey_ng.Collections.HashMap
use starlingmonkey_ng.EventLoop.TaskQueue.Lookup.{lookup}
use starlingmonkey_ng.EventLoop.Registry.{requeue_js_timer}
use starlingmonkey_ng.EventLoop.Registry.Clear.{get-clear_js_timer}
use starlingmonkey_ng.EventLoop.Timer.{
  World, TimerTask, Turn, leave, JsHost, Call, clears, after_handler, run_call, run_calls,
  run_timer,
}
use starlingmonkey_ng.EventLoop.Timer.Inv.{IsValid, Room}
use starlingmonkey_ng.EventLoop.Timer.Calls.{run_calls-Kept}

-- The calls of the handler, which runs at the nesting level of its task.
abbrev pub nested : TimerTask → World → World
nested task w = record w { nesting = task.nesting_level }

abbrev pub handler_calls : JsHost → TimerTask → World → List Call
handler_calls host task w = (host.invoke task.handler (nested task w)).calls

-- The world once the handler has run, with the nesting level that the caller had.
abbrev pub ended : JsHost → TimerTask → World → World → World
ended host task w w1 =
    let turn : Turn = host.invoke task.handler (nested task w) in
    leave turn.pending_jobs turn.pending_exception (record w1 { nesting = w.nesting })

pub run_timer_of :
    (host : JsHost) (task : TimerTask) (id : ℕ) (w w1 : World)
    → run_calls (handler_calls host task w) (nested task w) ≡ some w1
    → run_timer host task id w
      ≡ some (
        after_handler task id (host.invoke task.handler (nested task w)).now (ended host task w w1),
        (host.invoke task.handler (nested task w)).failed,
      )
unfolding run_timer
run_timer_of host task id w w1 h = rw (h, run_timer)

-- An interval whose timer id stands for nothing is not queued again.
after_handler-dropped :
    (task : TimerTask) (id interval now : ℕ) (w : World)
    → task.interval ≡ some interval
    → HashMap.get task.timer_id w.loop.js_timers ≡ none
    → (after_handler task id now w).loop ≡ w.loop
unfolding after_handler requeue_js_timer
after_handler-dropped task id interval now w i g = ground arith

run_calls-append :
    (cs ds : List Call) (w w1 : World)
    → run_calls cs w ≡ some w1
    → run_calls (cs ++ ds) w ≡ run_calls ds w1
unfolding run_calls
run_calls-append [] ds w w1 h = ground arith
run_calls-append (c ∷ cs) ds w w1 h = elim (Option-cases (run_call c w)) [
  | inl e ↦ absurd (ground arith)
  | inr (v, e) ↦ ground (arith, run_calls-append cs ds v w1)
]

after_clear :
    (timer_id : ℕ) (w w1 : World)
    → w.active ≡ true
    → run_calls (clears (some timer_id) ∷ []) w ≡ some w1
    → HashMap.get timer_id w1.loop.js_timers ≡ none
unfolding run_calls run_call
after_clear timer_id w w1 on h = ground (arith, get-clear_js_timer timer_id timer_id w.loop)

pub nested-IsValid : (task : TimerTask) (w : World) → IsValid w → IsValid (nested task w)
nested-IsValid task w v = record { loop_valid = v.loop_valid; keys_below = v.keys_below }

-- On a valid world whose loop is active, with ids left for the handler's calls, and with the
-- interval's task taken from the queue: an interval whose handler ends by clearing its own id is
-- gone. Whatever else the handler did, its task is not queued again, and its timer id stands for
-- nothing.
pub clear_stops_interval :
    (host : JsHost) (task : TimerTask) (id interval k : ℕ) (w : World) (cs : List Call)
    → task.interval ≡ some interval
    → handler_calls host task w ≡ cs ++ clears (some task.timer_id) ∷ []
    → IsValid w
    → Room (length cs + 1 + k) w
    → w.active ≡ true
    → id < w.loop.next_id
    → lookup id w.loop.tasks ≡ none
    → (w' : World) × (run_timer host task id w
        ≡ some (w', (host.invoke task.handler (nested task w)).failed))
      × (lookup id w'.loop.tasks ≡ none)
      × (HashMap.get task.timer_id w'.loop.js_timers ≡ none)
clear_stops_interval host task id interval k w cs i h v room on used gone =
    let clear : Call = clears (some task.timer_id) in
    let (w0, e0, k0) = run_calls-Kept cs (1 + k) (nested task w) (nested-IsValid task w v) (record {
      task_ids = omega (arith, room.task_ids);
      timer_ids = omega (arith, room.timer_ids);
      handles = omega (arith, room.handles);
    }) in
    let (w1, e1, k1) = run_calls-Kept (clear ∷ []) k w0 k0.valid (record {
      task_ids = omega (arith, k0.room.task_ids);
      timer_ids = omega (arith, k0.room.timer_ids);
      handles = omega (arith, k0.room.handles);
    }) in
    let made : run_calls (handler_calls host task w) (nested task w) ≡ some w1 =
      rw h (run_calls-append cs (clear ∷ []) (nested task w) w0 e0 ∙ e1) in
    let cleared = after_clear task.timer_id w0 w1 (k0.active_kept ∙ on) e1 in
    let now : ℕ = (host.invoke task.handler (nested task w)).now in
    let same = after_handler-dropped task id interval now (ended host task w w1) i cleared in
    (
      after_handler task id now (ended host task w w1),
      run_timer_of host task id w w1 made,
      rw same (k1.gone id (omega (arith, k0.later)) (k0.gone id used gone)),
      rw same cleared,
    )
