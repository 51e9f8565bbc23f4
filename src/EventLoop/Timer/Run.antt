-- ===== src/EventLoop/Timer/Run.antt =====
-- `TimerTask::run`: the handler's calls, and the timer queued again or released.
use starlingmonkey_ng.Prelude.{
  ℕ, ◌+◌, ◌^◌, ◌≤◌, ◌<◌, ◌≡◌, refl, Bool, none, some, List, arith, inl, inr, Option-cases, length,
  if_cases,
}
use starlingmonkey_ng.EventLoop.TaskQueue.Lookup.{lookup}
use starlingmonkey_ng.EventLoop.Registry.{u64_mod, add_instant, requeue_js_timer, js_timer_fired}
use starlingmonkey_ng.EventLoop.Registry.Inv as Loop
use starlingmonkey_ng.EventLoop.Registry.Ids.{keys_from, keys_from-remove}
use starlingmonkey_ng.EventLoop.Timer.{
  World, LoopTask, TimerTask, TimerHandler, Call, timer, JsHost, Turn, on_active, leave, repeated,
  clamp_nested_timeout, after_handler, run_calls, run_timer,
}
use starlingmonkey_ng.EventLoop.Timer.Inv.{IsValid, Room, Kept}
use starlingmonkey_ng.EventLoop.Timer.Calls.{run_calls-Kept}

-- The invariant, with ids for `k` calls more.
pub record Sound (k : ℕ) (w : World) : Type 0 where
  pub valid : IsValid w
  pub room : Room k w

pub Sound-weaken : (j k : ℕ) (w : World) → j ≤ k → Sound k w → Sound j w
Sound-weaken j k w h s = record {
  valid = s.valid;
  room = record {
    task_ids = omega (arith, s.room.task_ids);
    timer_ids = omega (arith, s.room.timer_ids);
    handles = omega (arith, s.room.handles);
  };
}

pub calls-Sound :
    (c k : ℕ) (w : World) (cs : List Call)
    → length cs ≤ c
    → Sound (c + k) w
    → (w' : World) × (run_calls cs w ≡ some w') × Sound k w' × Kept k w w'
calls-Sound c k w cs h s =
    let s' = Sound-weaken (length cs + k) (c + k) w (omega arith) s in
    let (w', e, kept) = run_calls-Kept cs k w s'.valid s'.room in
    (w', e, record { valid = kept.valid; room = kept.room }, kept)

fired-keys :
    (timer_id : ℕ) (w : World)
    → keys_from w.counter w.loop.js_timers ≡ 0
    → keys_from w.counter (js_timer_fired timer_id w.loop).js_timers ≡ 0
unfolding js_timer_fired
fired-keys timer_id w h = omega (arith, keys_from-remove w.counter timer_id w.loop.js_timers)

requeue-keys :
    (timer_id id : ℕ) (task : LoopTask) (deadline : ℕ) (w : World)
    → keys_from w.counter w.loop.js_timers ≡ 0
    → keys_from w.counter (requeue_js_timer timer_id id task deadline w.loop).js_timers ≡ 0
unfolding requeue_js_timer
requeue-keys timer_id id task deadline w h = ground arith

requeue-ids :
    (k timer_id id : ℕ) (task : LoopTask) (deadline : ℕ) (w : World)
    → w.loop.next_id + k < u64_mod
    → (requeue_js_timer timer_id id task deadline w.loop).next_id + k < u64_mod
unfolding requeue_js_timer
requeue-ids k timer_id id task deadline w h = ground arith

requeue-handles :
    (k timer_id id : ℕ) (task : LoopTask) (deadline : ℕ) (w : World)
    → w.loop.interest.count + k < 2 ^ 32
    → (requeue_js_timer timer_id id task deadline w.loop).interest.count + k < 2 ^ 32
unfolding requeue_js_timer
requeue-handles k timer_id id task deadline w h = ground arith

-- The JS engine is no part of the invariant.
pub leave-Sound :
    (k : ℕ) (jobs exception : Bool) (w : World) → Sound k w → Sound k (leave jobs exception w)
leave-Sound k jobs exception w s = record {
  valid = record { loop_valid = s.valid.loop_valid; keys_below = s.valid.keys_below };
  room = record {
    task_ids = s.room.task_ids;
    timer_ids = s.room.timer_ids;
    handles = s.room.handles;
  };
}

fired-Sound :
    (k timer_id : ℕ) (w : World) → Sound k w → Sound k (on_active (js_timer_fired timer_id) w)
unfolding js_timer_fired
fired-Sound k timer_id w s = if_cases (Sound k) w.active (λ on. removed) (λ off. s)
  where
    removed : Sound k (record w { loop = js_timer_fired timer_id w.loop })
    removed = record {
      valid = record {
        loop_valid = Loop.js_timer_fired-IsValid timer_id w.loop s.valid.loop_valid;
        keys_below = fired-keys timer_id w s.valid.keys_below;
      };
      room = record {
        task_ids = s.room.task_ids;
        timer_ids = s.room.timer_ids;
        handles = s.room.handles;
      };
    }

requeued-Sound :
    (k timer_id id : ℕ) (task : LoopTask) (deadline : ℕ) (w : World)
    → Sound k w
    → id < w.loop.next_id
    → lookup id w.loop.tasks ≡ none
    → Sound k (on_active (requeue_js_timer timer_id id task deadline) w)
requeued-Sound k timer_id id task deadline w s used gone =
    if_cases (Sound k) w.active (λ on. requeued) (λ off. s)
  where
    requeued : Sound k (record w { loop = requeue_js_timer timer_id id task deadline w.loop })
    requeued = record {
      valid = record {
        loop_valid =
            Loop.requeue_js_timer-IsValid timer_id id task deadline w.loop s.valid.loop_valid used
              gone;
        keys_below = requeue-keys timer_id id task deadline w s.valid.keys_below;
      };
      room = record {
        task_ids = requeue-ids k timer_id id task deadline w s.room.task_ids;
        timer_ids = s.room.timer_ids;
        handles = requeue-handles k timer_id id task deadline w s.room.handles;
      };
    }

after_handler-Sound :
    (k : ℕ) (task : TimerTask) (id now : ℕ) (w : World)
    → Sound k w
    → id < w.loop.next_id
    → lookup id w.loop.tasks ≡ none
    → Sound k (after_handler task id now w)
unfolding after_handler
after_handler-Sound k task id now w s used gone = elim (Option-cases task.interval) [
  | inl e ↦ rw (e, after_handler) (fired-Sound k task.timer_id w s)
  | inr (d, e) ↦
      rw (e, after_handler)
        (requeued-Sound k task.timer_id id (timer (repeated task))
          (add_instant now (clamp_nested_timeout task.nesting_level d)) w s used gone)
]

-- `TimerTask::run` does not panic and keeps the invariant, if the task that runs is out of the queue.
pub run_timer-Sound :
    (c k : ℕ) (host : JsHost) (task : TimerTask) (id : ℕ) (w : World)
    → ((h : TimerHandler) (v : World) → length (host.invoke h v).calls ≤ c)
    → Sound (c + k) w
    → id < w.loop.next_id
    → lookup id w.loop.tasks ≡ none
    → (r : World × Bool) × (run_timer host task id w ≡ some r) × Sound k r.0
unfolding run_timer
run_timer-Sound c k host task id w few s used gone =
    let nested : World = record w { nesting = task.nesting_level } in
    let turn : Turn = host.invoke task.handler nested in
    let (w', e, s', kept) = calls-Sound c k nested turn.calls (few task.handler nested) (record {
      valid = record { loop_valid = s.valid.loop_valid; keys_below = s.valid.keys_below };
      room = record {
        task_ids = s.room.task_ids;
        timer_ids = s.room.timer_ids;
        handles = s.room.handles;
      };
    }) in
    let restored : World =
      leave turn.pending_jobs turn.pending_exception (record w' { nesting = w.nesting }) in
    (
      (after_handler task id turn.now restored, turn.failed),
      rw (e, run_timer) refl,
      after_handler-Sound k task id turn.now restored
          (record {
            valid = record { loop_valid = s'.valid.loop_valid; keys_below = s'.valid.keys_below };
            room = record {
              task_ids = s'.room.task_ids;
              timer_ids = s'.room.timer_ids;
              handles = s'.room.handles;
            };
          })
          (omega (arith, kept.later)) (kept.gone id used gone),
    )
