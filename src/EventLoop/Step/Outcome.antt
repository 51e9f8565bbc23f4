-- ===== src/EventLoop/Step/Outcome.antt =====
-- The outcome of `EventLoop::step` (crates/core-runtime/src/event_loop.rs).
use starlingmonkey_ng.Prelude.{
  ℕ, ◌≡◌, refl, ◌≢◌, ◌↔◌, ◌⊎◌, ◌∙◌, sym, subst, some_inj, Bool, true, false, Option, none, some,
  List, [], ◌∷◌, map, arith, inl, inr, Option-cases, Bool-cases, ◌||◌, option_cases,
}
use starlingmonkey_ng.EventLoop.TaskQueue
use starlingmonkey_ng.EventLoop.TaskQueue.{TaskEntry, TaskQueue}
use starlingmonkey_ng.EventLoop.TaskQueue.Lookup.{lookup, remove-found}
use starlingmonkey_ng.EventLoop.TaskQueue.Inv as Queue
use starlingmonkey_ng.EventLoop.TaskQueue.Dispatch.{first_ready_entry}
use starlingmonkey_ng.EventLoop.Interest.{has_interest}
use starlingmonkey_ng.EventLoop.Registry.{has_pending}
use starlingmonkey_ng.EventLoop.Timer.{World, LoopTask, JsHost}
use starlingmonkey_ng.EventLoop.Timer.Inv.{IsValid}
use starlingmonkey_ng.EventLoop.Step.{
  StepOutcome, done, idle, progressed, run_task, after_task, with_tasks, run_batch, start_batch,
  outcome, step,
}
use starlingmonkey_ng.EventLoop.Step.Total.{start_batch-IsValid}

abbrev Ran : Option (World × Bool) → Type 0
Ran none = Unit
Ran (some r) = r.1 ≡ true

-- Once a task has run, the flag stays set.
run_batch-Ran : (host : JsHost) (ids : List ℕ) (w : World) → Ran (run_batch host ids true w)
unfolding run_batch
run_batch-Ran host [] w = refl
run_batch-Ran host (id ∷ ids) w =
    option_cases Ran (TaskQueue.remove id w.loop.tasks).1 (run_batch-Ran host ids w) λ entry.
      option_cases Ran (run_task host entry.task id taken) tt
        λ r. option_cases Ran (after_task host r) tt λ w2. run_batch-Ran host ids w2
  where
    taken : World
    taken = with_tasks (TaskQueue.remove id w.loop.tasks).0 w

run_batch_first :
    (host : JsHost) (id : ℕ) (ids : List ℕ) (w : World) (entry : TaskEntry LoopTask)
    → lookup id w.loop.tasks ≡ some entry
    → Ran (run_batch host (id ∷ ids) false w)
unfolding run_batch
run_batch_first host id ids w entry h =
    rw (remove-found id w.loop.tasks, h, run_batch)
      (option_cases Ran (run_task host entry.task id taken) tt
        λ r. option_cases Ran (after_task host r) tt λ w2. run_batch-Ran host ids w2)
  where
    taken : World
    taken = with_tasks (TaskQueue.remove id w.loop.tasks).0 w

-- What an outcome says of the queue that the step advanced and of the world that it leaves.
pub record Explained (host : JsHost) (w : World) (q : TaskQueue LoopTask) (r : World × StepOutcome)
    : Type 0 where
  pub ran : (r.1 ≡ progressed) ↔ (q.ready ≢ [])
  pub unchanged : r.1 ≢ progressed → r.0 ≡ with_tasks q w
  pub at_rest :
      r.1 ≡ done
      → (r.0.loop.tasks.entries ≡ [])
        × (has_interest r.0.loop.interest ≡ false)
        × (host.futures r.0 ≡ false)
  pub waits :
      r.1 ≡ idle
      → (r.0.loop.tasks.entries ≢ [])
        ⊎ (has_interest r.0.loop.interest ≡ true)
        ⊎ (host.futures r.0 ≡ true)

Explained-idle :
    (host : JsHost) (w : World) (q : TaskQueue LoopTask)
    → q.ready ≡ []
    → Explained host w q (with_tasks q w, outcome host false (with_tasks q w))
unfolding outcome has_pending
Explained-idle host w q h = record {
  ran = (ground arith, λ ne. absurd (ne h));
  unchanged = λ ne. refl;
  at_rest = ground arith;
  waits = ground arith;
}

Explained-ran :
    (host : JsHost) (w : World) (q : TaskQueue LoopTask) (r : World × Bool)
    → q.ready ≢ []
    → r.1 ≡ true
    → Explained host w q (r.0, outcome host r.1 r.0)
unfolding outcome
Explained-ran host w q r h e = record {
  ran = (λ _. h, λ _. ground arith);
  unchanged = λ ne. absurd (ground (arith, ne));
  at_rest = λ d. absurd (ground arith);
  waits = λ d. absurd (ground arith);
}

explain_batch :
    (host : JsHost) (w : World) (q : TaskQueue LoopTask) (ready : List (Option ℕ × ℕ))
    (r : World × Bool)
    → q.ready ≡ ready
    → Queue.IsValid q
    → run_batch host (map (λ key. key.1) ready) false (with_tasks q w) ≡ some r
    → Explained host w q (r.0, outcome host r.1 r.0)
unfolding run_batch
explain_batch host w q [] r h v e =
    subst (λ x. Explained host w q (x.0, outcome host x.1 x.0)) (some_inj e)
      (Explained-idle host w q h)
explain_batch host w q ((k, i) ∷ ks) r h v e =
    let (entry, live, ready, at, same) = first_ready_entry q k i ks v h in
    Explained-ran host w q r (λ n. cc (sym h ∙ n))
      (subst Ran e (run_batch_first host i (map (λ key. key.1) ks) (with_tasks q w) entry live))

-- A step is the advance of the timers, the batch of what is ready then, and the outcome.
step_inv :
    (now : ℕ) (host : JsHost) (w : World) (q : TaskQueue LoopTask) {r : World × StepOutcome}
    → start_batch now w ≡ some (with_tasks q w, map (λ key. key.1) q.ready)
    → step host now w ≡ some r
    → (x : World × Bool) × (run_batch host (map (λ key. key.1) q.ready) false (with_tasks q w)
        ≡ some x)
      × ((x.0, outcome host x.1 x.0) ≡ r)
unfolding step
step_inv now host w q {r} e h =
    elim (Option-cases (run_batch host (map (λ key. key.1) q.ready) false (with_tasks q w))) [
      | inl f ↦ absurd (ground (arith, e))
      | inr (x, f) ↦ (x, f, some_inj (sym (stepped x f) ∙ h))
    ]
  where
    at_rest : (w.pending_jobs || w.pending_exception) ≡ false
    at_rest = elim (Bool-cases (w.pending_jobs || w.pending_exception)) [
      | inl panics ↦ absurd (ground (arith, panics, h))
      | inr rests ↦ rests
    ]

    stepped :
        (x : World × Bool)
        → run_batch host (map (λ key. key.1) q.ready) false (with_tasks q w) ≡ some x
        → step host now w ≡ some (x.0, outcome host x.1 x.0)
    stepped x f = rw (at_rest, e, step, f)

-- What a step from a valid world answers, `q` being the queue once the timers that are due are ready.
-- It is `progressed` just when some task of `q` is ready. Otherwise nothing runs, and the world
-- differs in its queue, now `q`, alone. `done` says that no task is left, no interest is held and no
-- future is in flight; `idle` that there is a task, an interest or a future.
pub step_outcome :
    (now : ℕ) (host : JsHost) (w : World) (r : World × StepOutcome)
    → IsValid w
    → step host now w ≡ some r
    → (q : TaskQueue LoopTask) × (start_batch now w
        ≡ some (with_tasks q w, map (λ key. key.1) q.ready))
      × Explained host w q r
step_outcome now host w r v h =
    let (q, e, v0, expiry) = start_batch-IsValid now w v in
    let (x, f, g) = step_inv now host w q e h in
    (
      q,
      e,
      subst (Explained host w q) g
          (explain_batch host w q q.ready x refl v0.loop_valid.queue_valid f),
    )
