-- ===== src/EventLoop/Step/Batch.antt =====
-- The invariant along the batch of `EventLoop::step` (crates/core-runtime/src/event_loop.rs).
use starlingmonkey_ng.Prelude.{
  ℕ, String, ◌+◌, ◌≤◌, ◌<◌, ◌≡◌, refl, ◌∙◌, Bool, true, false, none, some, List, [], ◌∷◌, arith,
  inl, inr, Option-cases, length, if_cases, if◌then◌else◌,
}
use starlingmonkey_ng.EventLoop.TaskQueue
use starlingmonkey_ng.EventLoop.TaskQueue.{TaskEntry, TaskQueue}
use starlingmonkey_ng.EventLoop.TaskQueue.Lookup.{lookup, lookup-remove, remove-found}
use starlingmonkey_ng.EventLoop.TaskQueue.Inv as Queue
use starlingmonkey_ng.EventLoop.Timer.{
  World, LoopTask, TimerHandler, timer, native, JsHost, Turn, leave, run_calls, run_timer,
  after_handler,
}
use starlingmonkey_ng.EventLoop.Timer.Run.{
  Sound, Sound-weaken, leave-Sound, calls-Sound, run_timer-Sound,
}
use starlingmonkey_ng.EventLoop.Step.{
  run_task, run_microtasks, handle_and_clear_exception, after_task, with_tasks, run_batch,
}

-- No run of JS code makes more than `c` calls.
pub record Bounded (c : ℕ) (host : JsHost) : Type 0 where
  pub handlers : (h : TimerHandler) (w : World) → length (host.invoke h w).calls ≤ c
  pub natives : (kind : String) (n : ℕ) (w : World) → length (host.run_native kind n w).calls ≤ c
  pub drains : (w : World) → length (host.microtasks w).calls ≤ c

-- What the code relies on of the JS engine: a run that does not fail leaves no exception pending, and
-- a drain leaves no microtask queued.
pub record IsEngine (host : JsHost) : Type 0 where
  pub handlers :
      (h : TimerHandler) (w : World)
      → (host.invoke h w).failed ≡ false
      → (host.invoke h w).pending_exception ≡ false
  pub natives :
      (kind : String) (n : ℕ) (w : World)
      → (host.run_native kind n w).failed ≡ false
      → (host.run_native kind n w).pending_exception ≡ false
  pub drains : (w : World) → (host.microtasks w).pending_jobs ≡ false

-- No microtask is queued, and no exception is pending.
abbrev pub AtRest : World → Type 0
AtRest w = (w.pending_jobs ≡ false) × (w.pending_exception ≡ false)

-- The calls that a batch can make: those of each task, and of the drain after it.
abbrev pub budget : ℕ → List ℕ → ℕ
budget c [] = 0
budget c (id ∷ ids) = c + (c + budget c ids)

run_task-Sound :
    (c k : ℕ) (host : JsHost) (task : LoopTask) (id : ℕ) (w : World)
    → Bounded c host
    → Sound (c + k) w
    → id < w.loop.next_id
    → lookup id w.loop.tasks ≡ none
    → (r : World × Bool) × (run_task host task id w ≡ some r) × Sound k r.0
unfolding run_task
run_task-Sound c k host (timer task) id w b s used gone =
    run_timer-Sound c k host task id w b.handlers s used gone
run_task-Sound c k host (native kind n) id w b s used gone =
    let turn : Turn = host.run_native kind n w in
    let (w', e, s', kept) = calls-Sound c k w turn.calls (b.natives kind n w) s in
    (
      (leave turn.pending_jobs turn.pending_exception w', turn.failed),
      rw (e, run_task) refl,
      leave-Sound k turn.pending_jobs turn.pending_exception w' s',
    )

-- What a run that does not fail leaves.
run_task_clean :
    (host : JsHost) (task : LoopTask) (id : ℕ) (w : World) (r : World × Bool)
    → IsEngine host
    → run_task host task id w ≡ some r
    → r.1 ≡ false
    → r.0.pending_exception ≡ false
unfolding run_task run_timer after_handler
run_task_clean host (timer task) id w r engine e f =
    let nested : World = record w { nesting = task.nesting_level } in
    let raises = engine.handlers task.handler nested in
    elim (Option-cases (run_calls (host.invoke task.handler nested).calls nested)) [
      | inl g ↦ absurd (ground (arith, e, g))
      | inr (v, g) ↦ ground (arith, e, g, f, raises)
    ]
run_task_clean host (native kind n) id w r engine e f =
    let raises = engine.natives kind n w in
    elim (Option-cases (run_calls (host.run_native kind n w).calls w)) [
      | inl g ↦ absurd (ground (arith, e, g))
      | inr (v, g) ↦ ground (arith, e, g, f, raises)
    ]

-- Taking a task out of the queue.
removed-Sound :
    (k id : ℕ) (w : World) → Sound k w → Sound k (with_tasks (TaskQueue.remove id w.loop.tasks).0 w)
removed-Sound k id w s = record {
  valid = record {
    loop_valid = record {
      queue_valid = Queue.remove-IsValid id s.valid.loop_valid.queue_valid;
      fresh =
          λ i x h. ground (arith, lookup-remove i id w.loop.tasks, s.valid.loop_valid.fresh i x);
      timers_fresh = s.valid.loop_valid.timers_fresh;
      distinct = s.valid.loop_valid.distinct;
    };
    keys_below = s.valid.keys_below;
  };
  room = record {
    task_ids = s.room.task_ids;
    timer_ids = s.room.timer_ids;
    handles = s.room.handles;
  };
}

pub run_batch_gone :
    (host : JsHost) (id : ℕ) (ids : List ℕ) (ran_any : Bool) (w : World)
    → lookup id w.loop.tasks ≡ none
    → run_batch host (id ∷ ids) ran_any w ≡ run_batch host ids ran_any w
unfolding run_batch
run_batch_gone host id ids ran_any w h = ground (arith, remove-found id w.loop.tasks)

-- The world in which the task of `id` runs.
abbrev pub taken : ℕ → World → World
taken id w = with_tasks (TaskQueue.remove id w.loop.tasks).0 w

pub run_batch_live :
    (host : JsHost) (id : ℕ) (ids : List ℕ) (ran_any : Bool) (w : World)
    (entry : TaskEntry LoopTask) (r : World × Bool) (w2 : World)
    → lookup id w.loop.tasks ≡ some entry
    → run_task host entry.task id (taken id w) ≡ some r
    → after_task host r ≡ some w2
    → run_batch host (id ∷ ids) ran_any w ≡ run_batch host ids true w2
unfolding run_batch
run_batch_live host id ids ran_any w entry r w2 h run drain =
    ground (arith, remove-found id w.loop.tasks)

handle-Sound :
    (k : ℕ) (b : Bool) (w : World)
    → Sound k w
    → Sound k (if b then handle_and_clear_exception w else w)
unfolding handle_and_clear_exception
handle-Sound k b w s =
    if_cases (Sound k) b
      (λ _.
        if_cases (Sound k) w.pending_exception (λ _. leave-Sound k w.pending_jobs false w s)
          (λ _. s))
      (λ _. s)

run_microtasks_of :
    (host : JsHost) (v w2 : World)
    → v.pending_exception ≡ false
    → run_calls (host.microtasks v).calls v ≡ some w2
    → run_microtasks host v
      ≡ some (leave (host.microtasks v).pending_jobs (host.microtasks v).pending_exception w2)
unfolding run_microtasks
run_microtasks_of host v w2 quiet e =
    if_cases (λ x. x ≡ some left) v.pending_exception (λ h. absurd (cc (h, quiet))) (λ _. rw e)
  where
    left : World
    left = leave (host.microtasks v).pending_jobs (host.microtasks v).pending_exception w2

-- The drain after a task, which finds no exception pending, and leaves none.
after_task-Sound :
    (c k : ℕ) (host : JsHost) (r : World × Bool)
    → Bounded c host
    → IsEngine host
    → (r.1 ≡ false → r.0.pending_exception ≡ false)
    → Sound (c + k) r.0
    → (w2 : World) × (after_task host r ≡ some w2) × Sound k w2 × AtRest w2
unfolding after_task handle_and_clear_exception
after_task-Sound c k host (w, failed) b engine clean s =
    let (w2, e, s2, kept) =
      calls-Sound c k v (host.microtasks v).calls (b.drains v) (handle-Sound (c + k) failed w s) in
    let drained = leave (host.microtasks v).pending_jobs (host.microtasks v).pending_exception w2 in
    let empty = engine.drains v in
    (
      if drained.pending_exception then handle_and_clear_exception drained else drained,
      drains w2 e,
      handle-Sound k drained.pending_exception drained (leave-Sound k _ _ w2 s2),
      (ground (arith, empty), ground arith),
    )
  where
    v : World
    v = if failed then handle_and_clear_exception w else w

    quiet : v.pending_exception ≡ false
    quiet = ground (arith, clean)

    drains :
        (w2 : World)
        → run_calls (host.microtasks v).calls v ≡ some w2
        → after_task host (w, failed)
          ≡ some (
              let drained =
                leave (host.microtasks v).pending_jobs (host.microtasks v).pending_exception w2 in
              if drained.pending_exception then handle_and_clear_exception drained else drained)
    drains w2 e = rw (run_microtasks_of host v w2 quiet e, after_task) refl

-- One task of the batch, and the drain after it.
run_one-Sound :
    (c k id : ℕ) (host : JsHost) (entry : TaskEntry LoopTask) (w : World)
    → Bounded c host
    → IsEngine host
    → Sound (c + (c + k)) w
    → lookup id w.loop.tasks ≡ some entry
    → (r : World × Bool) × (w2 : World) × (run_task host entry.task id (taken id w) ≡ some r)
      × (after_task host r ≡ some w2)
      × Sound k w2
      × AtRest w2
run_one-Sound c k id host entry w b engine s e =
    let out = removed-Sound (c + (c + k)) id w s in
    let (r, run, s1) =
      run_task-Sound c (c + k) host entry.task id (taken id w) b out
        (s.valid.loop_valid.fresh id entry e) (ground (arith, lookup-remove id id w.loop.tasks)) in
    let (w2, drain, s2, rest) =
      after_task-Sound c k host r b engine
        (run_task_clean host entry.task id (taken id w) r engine run) s1 in
    (r, w2, run, drain, s2, rest)

pub run_batch-Sound :
    (c k : ℕ) (host : JsHost) (ids : List ℕ) (ran_any : Bool) (w : World)
    → Bounded c host
    → IsEngine host
    → Sound (budget c ids + k) w
    → AtRest w
    → (r : World × Bool) × (run_batch host ids ran_any w ≡ some r) × Sound k r.0 × AtRest r.0
unfolding run_batch
run_batch-Sound c k host [] ran_any w b engine s rest =
    ((w, ran_any), refl, Sound-weaken k (0 + k) w (omega arith) s, rest)
run_batch-Sound c k host (id ∷ ids) ran_any w b engine s rest =
    elim (Option-cases (lookup id w.loop.tasks)) [
      | inl e ↦
          let (r, e', s', rest') =
            run_batch-Sound c k host ids ran_any w b engine
              (Sound-weaken (budget c ids + k) (c + (c + budget c ids) + k) w (omega arith) s)
              rest in
          (r, run_batch_gone host id ids ran_any w e ∙ e', s', rest')
      | inr (entry, e) ↦
          let (r, w2, run, drain, s2, rest2) =
            run_one-Sound c (budget c ids + k) id host entry w b engine
              (Sound-weaken (c + (c + (budget c ids + k))) (c + (c + budget c ids) + k) w
                (omega arith) s)
              e in
          let (r', e', s', rest') = run_batch-Sound c k host ids true w2 b engine s2 rest2 in
          (r', run_batch_live host id ids ran_any w entry r w2 e run drain ∙ e', s', rest')
    ]
