-- ===== src/EventLoop/Step/Total.antt =====
-- The invariant along `EventLoop::step` (crates/core-runtime/src/event_loop.rs).
use starlingmonkey_ng.Prelude.{
  ℕ, ◌+◌, ◌≡◌, Bool, false, some, List, map, arith, inl, inr, Option-cases,
}
use starlingmonkey_ng.EventLoop.TaskQueue.{TaskQueue}
use starlingmonkey_ng.EventLoop.TaskQueue.Lookup.{lookup}
use starlingmonkey_ng.EventLoop.TaskQueue.Expire.{expire_timers_lem, after_expiry}
use starlingmonkey_ng.EventLoop.Timer.{World, LoopTask, JsHost}
use starlingmonkey_ng.EventLoop.Timer.Inv.{IsValid, Room}
use starlingmonkey_ng.EventLoop.Timer.Run.{Sound}
use starlingmonkey_ng.EventLoop.Step.{
  StepOutcome, with_tasks, run_batch, start_batch, outcome, step,
}
use starlingmonkey_ng.EventLoop.Step.Batch.{AtRest, Bounded, IsEngine, budget, run_batch-Sound}

-- The timers that are due become ready; nothing else changes.
pub start_batch-IsValid :
    (now : ℕ) (w : World)
    → IsValid w
    → (q : TaskQueue LoopTask) × (start_batch now w
        ≡ some (with_tasks q w, map (λ key. key.1) q.ready))
      × IsValid (with_tasks q w)
      × ((j : ℕ) → lookup j q ≡ after_expiry now (lookup j w.loop.tasks))
unfolding start_batch
start_batch-IsValid now w v =
    let (r, e, valid, expiry, n) = expire_timers_lem now w.loop.tasks v.loop_valid.queue_valid in
    (
      r.0,
      rw (e, start_batch),
      record {
        loop_valid = record {
          queue_valid = valid;
          fresh = λ i x h. elim (Option-cases (lookup i w.loop.tasks)) [
            | inl g ↦ absurd (ground (arith, expiry i))
            | inr (y, g) ↦ v.loop_valid.fresh i y g
          ];
          timers_fresh = v.loop_valid.timers_fresh;
          distinct = v.loop_valid.distinct;
        };
        keys_below = v.keys_below;
      },
      expiry,
    )

step_of :
    (now : ℕ) (host : JsHost) (w w0 : World) (batch : List ℕ) (r : World × Bool)
    → AtRest w
    → start_batch now w ≡ some (w0, batch)
    → run_batch host batch false w0 ≡ some r
    → step host now w ≡ some (r.0, outcome host r.1 r.0)
unfolding step
step_of now host w w0 batch r rest e f = rw (rest.0, rest.1, e, step, f)

-- A step from a valid world in which no microtask is queued and no exception is pending does not
-- panic, at a debug assertion or elsewhere, and leaves such a world, with ids and interest handles
-- for `k` calls more, whichever calls of the loop its tasks and microtasks make. The conditions: each
-- run of JS code makes at most `c` calls, ids and handles last for those of two runs for each task of
-- the batch, and `k` more, a run that does not fail leaves no exception pending, and a drain of the
-- microtasks leaves none queued.
pub step-IsValid :
    (c k now : ℕ) (host : JsHost) (w : World)
    → Bounded c host
    → IsEngine host
    → IsValid w
    → AtRest w
    → ((w0 : World) (batch : List ℕ)
        → start_batch now w ≡ some (w0, batch)
        → Room (budget c batch + k) w)
    → (r : World × StepOutcome) × (step host now w ≡ some r) × IsValid r.0 × Room k r.0 × AtRest r.0
step-IsValid c k now host w b engine v rest enough =
    let (q, e, v0, expiry) = start_batch-IsValid now w v in
    let batch : List ℕ = map (λ key. key.1) q.ready in
    let room = enough (with_tasks q w) batch e in
    let s0 : Sound (budget c batch + k) (with_tasks q w) = record {
      valid = v0;
      room = record {
        task_ids = room.task_ids;
        timer_ids = room.timer_ids;
        handles = room.handles;
      };
    } in
    let (r, f, s, rest') = run_batch-Sound c k host batch false (with_tasks q w) b engine s0 rest in
    (
      (r.0, outcome host r.1 r.0),
      step_of now host w (with_tasks q w) batch r rest e f,
      s.valid,
      s.room,
      rest',
    )
