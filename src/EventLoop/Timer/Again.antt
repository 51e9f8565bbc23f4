-- ===== src/EventLoop/Timer/Again.antt =====
-- Whether a timer that has fired is queued again: `TimerTask::run` of crates/core-
-- runtime/src/event_loop/timer.rs.
use starlingmonkey_ng.Prelude.{
  ℕ, ◌+◌, ◌≤◌, ◌<◌, ◌≡◌, ◌≢◌, refl, Bool, true, false, ◌&&◌, Option, none, some, arith, inl, inr,
  some_inj, subst, ◌∙◌, Option-cases, Bool-cases, ◌==◌, length, is_some, String,
}
use starlingmonkey_ng.Collections.HashMap
use starlingmonkey_ng.Collections.HashMap.{get-remove}
use starlingmonkey_ng.EventLoop.TaskQueue.{TaskEntry}
use starlingmonkey_ng.EventLoop.TaskQueue.Lookup.{lookup, lookup-insert}
use starlingmonkey_ng.EventLoop.Registry.{
  u64_mod, JsTimer, add_instant, insert_timer, requeue_js_timer, js_timer_fired,
}
use starlingmonkey_ng.EventLoop.Timer.{
  World, LoopTask, TimerTask, timer, JsHost, min_nested, u32_max, clamp_nested_timeout, repeated,
  after_handler, run_calls, run_timer,
}
use starlingmonkey_ng.EventLoop.Timer.Inv.{IsValid, Room}
use starlingmonkey_ng.EventLoop.Timer.Calls.{run_calls-Kept}
use starlingmonkey_ng.EventLoop.Timer.Repeat.{
  nested, nested-IsValid, handler_calls, ended, run_timer_of,
}

-- The timer id still stands for this task.
abbrev pub stands_for : ℕ → ℕ → World → Bool
stands_for timer_id id w = elim (HashMap.get timer_id w.loop.js_timers) [
  | none ↦ false
  | some r ↦ r.task == id
]

-- The task that an interval is queued as again, `now` being the clock after its handler: the same
-- timer one level deeper, not due before its interval is over, nor before 4 ms are if it is nested
-- more than five levels deep.
pub record IsNext (task : TimerTask) (interval now : ℕ) (e : TaskEntry LoopTask) : Type 0 where
  pub next : TimerTask
  pub deadline : ℕ
  pub is_timer : e.task ≡ timer next
  pub waits : (e.ready ≡ false) × (e.deadline ≡ some deadline)
  pub same_handler : next.handler ≡ task.handler
  pub same_interval : next.interval ≡ some interval
  pub same_timer_id : next.timer_id ≡ task.timer_id
  pub deeper : task.nesting_level < u32_max → next.nesting_level ≡ task.nesting_level + 1
  pub not_early : now + interval < u64_mod → now + interval ≤ deadline
  pub throttled : 5 < task.nesting_level → now + min_nested < u64_mod → now + min_nested ≤ deadline

-- What a run leaves, `w1` being the world once the handler has made its calls.
pub record IsRun (task : TimerTask) (id now : ℕ) (w1 w' : World) : Type 0 where
  pub again :
      (interval : ℕ)
      → task.interval ≡ some interval
      → stands_for task.timer_id id w1 ≡ true
      → (e : TaskEntry LoopTask) × (lookup id w'.loop.tasks ≡ some e) × IsNext task interval now e
  pub only_then :
      (e : TaskEntry LoopTask)
      → lookup id w'.loop.tasks ≡ some e
      → (is_some task.interval && stands_for task.timer_id id w1) ≡ true
  pub tasks : (j : ℕ) → j ≢ id → lookup j w'.loop.tasks ≡ lookup j w1.loop.tasks
  pub timers :
      (u : ℕ)
      → u ≢ task.timer_id
      → HashMap.get u w'.loop.js_timers ≡ HashMap.get u w1.loop.js_timers

abbrev next_task : TimerTask → ℕ → ℕ → ℕ → Option String → TaskEntry LoopTask
next_task task id interval now origin = record {
  id = id;
  task = timer (repeated task);
  ready = false;
  deadline = some (add_instant now (clamp_nested_timeout task.nesting_level interval));
  origin = origin;
}

next_task-IsNext :
    (task : TimerTask) (id interval now : ℕ) (origin : Option String)
    → task.interval ≡ some interval
    → IsNext task interval now (next_task task id interval now origin)
unfolding clamp_nested_timeout
next_task-IsNext task id interval now origin i = record {
  next = repeated task;
  deadline = add_instant now (clamp_nested_timeout task.nesting_level interval);
  is_timer = refl;
  waits = (refl, refl);
  same_handler = refl;
  same_interval = i;
  same_timer_id = refl;
  deeper = λ h. ground (arith, h);
  not_early = λ h. ground (arith, h);
  throttled = λ d h. ground (arith, d, h);
}

module _ (task : TimerTask) (id now : ℕ) (w : World) (on : w.active ≡ true) where
  one_shot-IsRun :
      lookup id w.loop.tasks ≡ none
      → task.interval ≡ none
      → IsRun task id now w (after_handler task id now w)
  unfolding after_handler js_timer_fired
  one_shot-IsRun gone i = record {
    again = λ d h. absurd (cc (i, h));
    only_then = λ e h. absurd (ground (arith, i, on, gone, h));
    tasks = λ j ne. ground (arith, i, on);
    timers = λ u ne. ground (arith, i, on, get-remove u task.timer_id w.loop.js_timers, ne);
  }

  dropped-IsRun :
      lookup id w.loop.tasks ≡ none
      → (interval : ℕ) → task.interval ≡ some interval
      → stands_for task.timer_id id w ≡ false
      → IsRun task id now w (after_handler task id now w)
  unfolding after_handler requeue_js_timer
  dropped-IsRun gone interval i off = record {
    again = λ d h stands. absurd (cc (stands, off));
    only_then = λ e h. absurd (ground (arith, i, on, gone, h, off));
    tasks = λ j ne. ground (arith, i, on, off);
    timers = λ u ne. ground (arith, i, on, off);
  }

  requeued-IsRun :
      (interval : ℕ)
      → task.interval ≡ some interval
      → (r : JsTimer) → HashMap.get task.timer_id w.loop.js_timers ≡ some r
      → (r.task == id) ≡ true
      → IsRun task id now w (after_handler task id now w)
  unfolding after_handler requeue_js_timer insert_timer
  requeued-IsRun interval i r g same =
      let entry = next_task task id interval now r.origin in
      record {
        again = λ d h stands.
            let is_d : interval ≡ d = some_inj (cc (i, h)) in
            (
              entry,
              ground (arith, i, on, g, same, lookup-insert id entry w.loop.tasks),
              subst (λ x. IsNext task x now entry) is_d
                  (next_task-IsNext task id interval now r.origin i),
            );
        only_then = λ e h. ground (arith, i, g, same);
        tasks = λ j ne. ground (arith, i, on, g, same, lookup-insert j entry w.loop.tasks, ne);
        timers = λ u ne. ground (arith, i, on, g, same);
      }

  after_handler-IsRun :
      lookup id w.loop.tasks ≡ none → IsRun task id now w (after_handler task id now w)
  after_handler-IsRun gone = elim (Option-cases task.interval) [
    | inl i ↦ one_shot-IsRun gone i
    | inr (interval, i) ↦ elim (Option-cases (HashMap.get task.timer_id w.loop.js_timers)) [
      | inl g ↦ dropped-IsRun gone interval i (ground (arith, g))
      | inr (r, g) ↦ elim (Bool-cases (r.task == id)) [
        | inl same ↦ requeued-IsRun interval i r g same
        | inr other ↦ dropped-IsRun gone interval i (ground (arith, g, other))
      ]
    ]
  ]

-- On a valid world whose loop is active, with ids and interest handles left for the handler's calls,
-- and with the timer's task taken from the queue: running the timer does not panic, whatever calls
-- its handler makes and whether or not it fails. Once they are made, the timer is queued again, under
-- its task id, if and only if it is an interval and its timer id still stands for that task. Then it
-- is the same timer one level deeper, not due before its interval is over, nor before 4 ms are if it
-- is nested more than five levels deep. No other task and no other timer id is changed, and the
-- nesting level that the caller had is restored.
pub interval_repeats :
    (host : JsHost) (task : TimerTask) (id k : ℕ) (w : World)
    → IsValid w
    → Room (length (handler_calls host task w) + k) w
    → w.active ≡ true
    → id < w.loop.next_id
    → lookup id w.loop.tasks ≡ none
    → (w1 : World) × (w' : World) × (run_calls (handler_calls host task w) (nested task w)
        ≡ some w1)
      × (run_timer host task id w ≡ some (w', (host.invoke task.handler (nested task w)).failed))
      × IsRun task id (host.invoke task.handler (nested task w)).now w1 w'
      × (w'.nesting ≡ w.nesting)
unfolding after_handler
interval_repeats host task id k w v room on used gone =
    let (w1, e, kept) =
      run_calls-Kept (handler_calls host task w) k (nested task w) (nested-IsValid task w v)
        (record { task_ids = room.task_ids; timer_ids = room.timer_ids; handles = room.handles }) in
    let run =
      after_handler-IsRun task id (host.invoke task.handler (nested task w)).now
        (ended host task w w1) (kept.active_kept ∙ on) (kept.gone id used gone) in
    (
      w1,
      after_handler task id (host.invoke task.handler (nested task w)).now (ended host task w w1),
      e,
      run_timer_of host task id w w1 e,
      record {
        again = run.again;
        only_then = run.only_then;
        tasks = run.tasks;
        timers = run.timers;
      },
      ground arith,
    )
