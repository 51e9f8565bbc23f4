-- ===== src/EventLoop/Step.antt =====
-- `EventLoop::step` of crates/core-runtime/src/event_loop.rs, and the drain of microtasks after each
-- task. `none` is a panic, of a call or of a debug assertion; what is printed is not modelled.
pub mod Total
pub mod Outcome
pub mod Batch
use starlingmonkey_ng.Prelude.{
  ℕ, Bool, true, false, Option, none, some, List, [], ◌∷◌, map, if◌then◌else◌, ◌||◌,
}
use starlingmonkey_ng.EventLoop.TaskQueue
use starlingmonkey_ng.EventLoop.TaskQueue.{TaskQueue, expire_timers}
use starlingmonkey_ng.EventLoop.Registry.{is_alive}
use starlingmonkey_ng.EventLoop.Timer.{
  World, LoopTask, timer, native, JsHost, leave, run_calls, run_timer,
}

pub data StepOutcome : Type 0 where
  done idle progressed : StepOutcome

-- The Boolean says that the task failed.
unfoldable pub run_task : JsHost → LoopTask → ℕ → World → Option (World × Bool)
unfolding run_timer
run_task host (timer task) id w = run_timer host task id w
run_task host (native kind n) id w =
    let turn = host.run_native kind n w in
    elim (run_calls turn.calls w) [
      | none ↦ none
      | some w' ↦ some (leave turn.pending_jobs turn.pending_exception w', turn.failed)
    ]

-- It asserts that no exception is pending.
unfoldable pub run_microtasks : JsHost → World → Option World
run_microtasks host w =
    let drain = host.microtasks w in
    if w.pending_exception then none else elim (run_calls drain.calls w) [
      | none ↦ none
      | some w' ↦ some (leave drain.pending_jobs drain.pending_exception w')
    ]

unfoldable pub handle_and_clear_exception : World → World
handle_and_clear_exception w =
    if w.pending_exception then record w { pending_exception = false } else w

-- After the task has run.
unfoldable pub after_task : JsHost → World × Bool → Option World
unfolding run_microtasks handle_and_clear_exception
after_task host (w, failed) =
    elim (run_microtasks host (if failed then handle_and_clear_exception w else w)) [
      | none ↦ none
      | some w' ↦ some (if w'.pending_exception then handle_and_clear_exception w' else w')
    ]

-- The world with the queue's tasks replaced.
abbrev pub with_tasks : TaskQueue LoopTask → World → World
with_tasks q w = record w { loop = record (w.loop) { tasks = q } }

-- The `for` over the batch: the Boolean is `ran_any`.
unfoldable pub run_batch : JsHost → List ℕ → Bool → World → Option (World × Bool)
unfolding run_task after_task
run_batch host [] ran_any w = some (w, ran_any)
run_batch host (id ∷ ids) ran_any w =
    let (q, found) = TaskQueue.remove id w.loop.tasks in
    elim found [
      | none ↦ run_batch host ids ran_any w
      | some entry ↦ elim (run_task host entry.task id (with_tasks q w)) [
        | none ↦ none
        | some r ↦ elim (after_task host r) [ none ↦ none | some w2 ↦ run_batch host ids true w2 ]
      ]
    ]

-- `advance_timers`, and the batch: the ids of the ready set, in its order.
unfoldable pub start_batch : ℕ → World → Option (World × List ℕ)
unfolding expire_timers
start_batch now w = elim (expire_timers now w.loop.tasks) [
  | none ↦ none
  | some (q, count) ↦ some (with_tasks q w, map (λ key. key.1) q.ready)
]

unfoldable pub outcome : JsHost → Bool → World → StepOutcome
unfolding is_alive
outcome host ran_any w =
    if ran_any then progressed else if is_alive (host.futures w) w.loop then idle else done

-- It asserts that no microtask is queued and no exception is pending.
unfoldable pub step : JsHost → ℕ → World → Option (World × StepOutcome)
unfolding start_batch run_batch outcome
step host now w = if w.pending_jobs || w.pending_exception then none else elim (start_batch now w) [
  | none ↦ none
  | some (w0, batch) ↦ elim (run_batch host batch false w0) [
    | none ↦ none
    | some (w', ran_any) ↦ some (w', outcome host ran_any w')
  ]
]
