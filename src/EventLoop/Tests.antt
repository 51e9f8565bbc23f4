-- ===== src/EventLoop/Tests.antt =====
-- The event loop on concrete inputs.
mod Entries
mod Handles
use starlingmonkey_ng.Prelude.{
  ℕ, ◌+◌, ◌*◌, ◌≤◌, ◌<◌, ◌≡◌, refl, ◌≢◌, ◌↔◌, true, false, none, some, List, [], ◌∷◌, map, arith,
  length,
}
use starlingmonkey_ng.Prelude.Int.{pos}
use starlingmonkey_ng.Collections.HashMap
use starlingmonkey_ng.Collections.BTreeSet
use starlingmonkey_ng.EventLoop.TaskQueue
use starlingmonkey_ng.EventLoop.TaskQueue.{TaskQueue, expire_timers}
use starlingmonkey_ng.EventLoop.TaskQueue.Lookup.{lookup}
use starlingmonkey_ng.EventLoop.TaskQueue.Inv as Queue
use starlingmonkey_ng.EventLoop.Registry
use starlingmonkey_ng.EventLoop.Registry.{
  EventLoop, JsTimer, insert_timer, insert_js_timer, cancel_if_queued, clear_js_timer,
  allocate_js_timer_id,
}
use starlingmonkey_ng.EventLoop.Registry.Inv as Loop
use starlingmonkey_ng.EventLoop.Registry.Ids.{allocate_js_timer_id_lem}
use starlingmonkey_ng.EventLoop.Registry.Clear.{clear_js_timer_lem}
use starlingmonkey_ng.EventLoop.Timer.{
  World, LoopTask, timer, TimerTask, callable, sets_timeout, timer_initialization_steps,
  timer_deadline, new_timer, ok, nanos_per_milli, min_nested, function, JsHost, Call, clears,
  run_calls, run_timer,
}
use starlingmonkey_ng.EventLoop.Timer.Inv as World
use starlingmonkey_ng.EventLoop.Timer.Inv.{Kept}
use starlingmonkey_ng.EventLoop.Timer.Calls.{run_calls-Kept}
use starlingmonkey_ng.EventLoop.Timer.Schedule.{
  Scheduled, timer_initialization_steps_lem, timer_deadline_bounds,
}
use starlingmonkey_ng.EventLoop.Step.{
  StepOutcome, idle, step, start_batch, run_batch, outcome, with_tasks,
}
use starlingmonkey_ng.EventLoop.Step.Batch.{Bounded, IsEngine, AtRest, budget}
use starlingmonkey_ng.EventLoop.Step.Total.{step-IsValid}
use starlingmonkey_ng.EventLoop.Step.Outcome.{Explained, step_outcome}
use starlingmonkey_ng.EventLoop.Registry.Snapshot.{
  SnapshotResult, ensure_idle_for_snapshot, ensure_idle_for_snapshot_lem,
}
use starlingmonkey_ng.EventLoop.Registry.{is_alive, has_pending}
use starlingmonkey_ng.EventLoop.Interest
use starlingmonkey_ng.EventLoop.Timer.Again.{IsRun, interval_repeats}
use starlingmonkey_ng.EventLoop.Timer.Repeat.{nested, handler_calls, clear_stops_interval}

abbrev interval_task : TimerTask
interval_task = record {
  handler = function 9 [];
  interval = some 100;
  nesting_level = 1;
  timer_id = 1;
}

-- A loop with one JS timer, of id 1 and task 0, and the same when the timer has been taken to run.
abbrev one_timer : EventLoop LoopTask
one_timer = insert_js_timer none 5 (λ t. timer interval_task) 1 (Registry.new 0)

one_timer-IsValid : Loop.IsValid one_timer
unfolding Registry.new
one_timer-IsValid =
    Loop.insert_js_timer-IsValid none 5 (λ t. timer interval_task) 1 (Registry.new 0)
      (Loop.new-IsValid 0) (omega arith)

abbrev timer_taken : EventLoop LoopTask
timer_taken = (cancel_if_queued 0 one_timer).0

abbrev world_of : EventLoop LoopTask → World
world_of el = record {
  loop = el;
  active = true;
  counter = 2;
  nesting = 0;
  pending_jobs = false;
  pending_exception = false;
}

abbrev taken_world : World
taken_world = world_of timer_taken

taken_world-IsValid : World.IsValid taken_world
unfolding Registry.new insert_timer cancel_if_queued TaskQueue.insert TaskQueue.remove
    TaskQueue.remove_entry TaskQueue.empty HashMap.insert
taken_world-IsValid = record {
  loop_valid = Loop.cancel_if_queued-IsValid 0 one_timer one_timer-IsValid;
  keys_below = refl;
}

clear_js_timer_example :
    (HashMap.get 1 (clear_js_timer 1 one_timer).js_timers ≡ none)
    × (lookup 0 (clear_js_timer 1 one_timer).tasks ≡ none)
    × ((u : ℕ) (s : JsTimer)
        → u ≢ 1
        → HashMap.get u one_timer.js_timers ≡ some s
        → (HashMap.get u (clear_js_timer 1 one_timer).js_timers ≡ some s)
          × (lookup s.task (clear_js_timer 1 one_timer).tasks ≡ lookup s.task one_timer.tasks))
unfolding Registry.new insert_timer HashMap.get HashMap.insert
clear_js_timer_example =
    clear_js_timer_lem 1 one_timer (record { task = 0; origin = none }) one_timer-IsValid refl

allocate_js_timer_id_example :
    (id : ℕ) × (allocate_js_timer_id 3 0 one_timer.js_timers ≡ some (id, id + 1))
    × (0 < id)
    × (HashMap.get id one_timer.js_timers ≡ none)
    × (0 ≤ id)
    × (id ≤ 2)
unfolding Registry.new insert_timer HashMap.insert
allocate_js_timer_id_example = allocate_js_timer_id_lem 0 one_timer.js_timers (omega arith)

-- JS code that makes the given calls in a timer's handler, which then throws, and none elsewhere.
abbrev host_of : List Call → JsHost
host_of cs = record {
  invoke = λ h w. record {
    calls = cs;
    failed = true;
    now = 10;
    pending_jobs = true;
    pending_exception = true;
  };
  run_native = λ kind n w. record {
    calls = [];
    failed = false;
    now = 10;
    pending_jobs = false;
    pending_exception = false;
  };
  microtasks = λ w. record { calls = []; pending_jobs = false; pending_exception = false };
  futures = λ w. false;
}

-- The handler of an interval of 100 ns sets a timeout and throws.
interval_repeats_example :
    (w1 : World) × (w' : World) × (run_calls
        (handler_calls
          (host_of (sets_timeout 7 none (callable 3) none [] ∷ []))
          interval_task
          taken_world)
        (nested interval_task taken_world)
      ≡ some w1)
    × (run_timer
          (host_of (sets_timeout 7 none (callable 3) none [] ∷ []))
          interval_task
          0
          taken_world
        ≡ some (w', true))
    × IsRun interval_task 0 10 w1 w'
    × (w'.nesting ≡ 0)
unfolding Registry.new insert_timer cancel_if_queued TaskQueue.insert TaskQueue.remove
    TaskQueue.remove_entry TaskQueue.empty HashMap.insert HashMap.get HashMap.remove
interval_repeats_example =
    interval_repeats (host_of (sets_timeout 7 none (callable 3) none [] ∷ [])) interval_task 0 0
      taken_world taken_world-IsValid
      (record { task_ids = omega arith; timer_ids = omega arith; handles = omega arith }) refl
      (omega arith) refl

clear_stops_interval_example :
    (w' : World) × (run_timer (host_of (clears (some 1) ∷ [])) interval_task 0 taken_world
      ≡ some (w', true))
    × (lookup 0 w'.loop.tasks ≡ none)
    × (HashMap.get 1 w'.loop.js_timers ≡ none)
unfolding Registry.new insert_timer cancel_if_queued TaskQueue.insert TaskQueue.remove
    TaskQueue.remove_entry TaskQueue.empty HashMap.insert HashMap.get HashMap.remove
clear_stops_interval_example =
    clear_stops_interval (host_of (clears (some 1) ∷ [])) interval_task 0 100 0 taken_world [] refl
      refl taken_world-IsValid
      (record { task_ids = omega arith; timer_ids = omega arith; handles = omega arith }) refl
      (omega arith) refl

-- The world of a loop with one JS timer in its queue.
abbrev queued_world : World
queued_world = world_of one_timer

queued_world-IsValid : World.IsValid queued_world
unfolding Registry.new insert_timer TaskQueue.insert TaskQueue.empty HashMap.insert
queued_world-IsValid = record { loop_valid = one_timer-IsValid; keys_below = refl }

run_calls_example :
    (w' : World) × (run_calls
        (clears (some 1) ∷ sets_timeout 7 none (callable 3) none [] ∷ [])
        queued_world
      ≡ some w')
    × Kept 0 queued_world w'
unfolding Registry.new insert_timer
run_calls_example =
    run_calls-Kept (clears (some 1) ∷ sets_timeout 7 none (callable 3) none [] ∷ []) 0 queued_world
      queued_world-IsValid
      (record { task_ids = omega arith; timer_ids = omega arith; handles = omega arith })

timer_initialization_steps_example :
    (timer_id : ℕ) × (w' : World) × (timer_initialization_steps 7 none
        (callable 3)
        (pos 20)
        []
        true
        queued_world
      ≡ some (w', ok timer_id))
    × Scheduled queued_world w' timer_id
        (new_timer (callable 3) (pos 20) [] true queued_world timer_id)
        (timer_deadline 7 (pos 20) queued_world)
        none
timer_initialization_steps_example =
    timer_initialization_steps_lem 7 none (callable 3) (pos 20) [] true queued_world
      queued_world-IsValid (omega arith) refl

timer_deadline_example :
    (7 + 20 * nanos_per_milli ≤ timer_deadline 7 (pos 20) queued_world)
    × (5 < 0 → 7 + min_nested ≤ timer_deadline 7 (pos 20) queued_world)
    × (0 ≤ 5 → timer_deadline 7 (pos 20) queued_world ≡ 7 + 20 * nanos_per_milli)
timer_deadline_example = timer_deadline_bounds 7 (pos 20) queued_world (omega arith)

host_of-Bounded : (cs : List Call) → Bounded (length cs) (host_of cs)
host_of-Bounded cs = record {
  handlers = λ h w. omega arith;
  natives = λ kind n w. omega arith;
  drains = λ w. omega arith;
}

host_of-IsEngine : (cs : List Call) → IsEngine (host_of cs)
host_of-IsEngine cs = record {
  handlers = λ h w fine. absurd (cc fine);
  natives = λ kind n w fine. refl;
  drains = λ w. refl;
}

budget_zero : (ids : List ℕ) → budget 0 ids ≡ 0
budget_zero [] = refl
budget_zero (i ∷ ids) = omega (arith, budget_zero ids)

start_batch-Room :
    (w0 : World) (batch : List ℕ)
    → start_batch 7 queued_world ≡ some (w0, batch)
    → World.Room (budget 0 batch + 0) queued_world
unfolding Registry.new insert_timer
start_batch-Room w0 batch h = record {
  task_ids = omega (arith, budget_zero batch);
  timer_ids = omega (arith, budget_zero batch);
  handles = omega (arith, budget_zero batch);
}

step-IsValid_example :
    (r : World × StepOutcome) × (step (host_of []) 7 queued_world ≡ some r)
    × World.IsValid r.0
    × World.Room 0 r.0
    × AtRest r.0
step-IsValid_example =
    step-IsValid 0 0 7 (host_of []) queued_world (host_of-Bounded []) (host_of-IsEngine [])
      queued_world-IsValid (refl, refl) start_batch-Room

after_step-step : step (host_of []) 3 queued_world ≡ some (queued_world, idle)
unfolding step start_batch expire_timers TaskQueue.expire_from Registry.new insert_timer
    TaskQueue.insert TaskQueue.empty HashMap.insert BTreeSet.insert BTreeSet.first run_batch outcome
    is_alive has_pending
after_step-step = refl

step_outcome_example :
    (q : TaskQueue LoopTask) × (start_batch 3 queued_world
      ≡ some (with_tasks q queued_world, map (λ key. key.1) q.ready))
    × Explained (host_of []) queued_world q (queued_world, idle)
step_outcome_example =
    step_outcome 3 (host_of []) queued_world (queued_world, idle) queued_world-IsValid
      after_step-step

ensure_idle_for_snapshot_example :
    (ensure_idle_for_snapshot (λ t. "timer") [] one_timer ≡ SnapshotResult.ok)
    ↔ ((is_alive false one_timer ≡ false) × (one_timer.pending_sends ≡ []))
unfolding Registry.new insert_timer Interest.new
ensure_idle_for_snapshot_example =
    ensure_idle_for_snapshot_lem (λ t. "timer") [] one_timer (omega arith)
