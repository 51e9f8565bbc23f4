-- ===== src/EventLoop/Timer/Calls.antt =====
-- The calls that JS code makes of the loop, one after another (crates/core-
-- runtime/src/event_loop/timer.rs).
use starlingmonkey_ng.Prelude.{
  ℕ, suc, ◌+◌, ◌≤◌, ◌<◌, ◌≡◌, refl, ◌∙◌, Bool, true, false, Option, none, some, List, [], ◌∷◌,
  String, arith, if_cases, length,
}
use starlingmonkey_ng.Prelude.Int.{ℤ}
use starlingmonkey_ng.Collections.HashMap
use starlingmonkey_ng.EventLoop.TaskQueue.Lookup.{lookup-insert}
use starlingmonkey_ng.EventLoop.Registry.{
  max_counter, queue, queue_ready, insert_timer, queue_timer, cancel_if_queued, insert_js_timer,
  queue_js_timer, clear_js_timer, allocation_fuel, signal_ready, request_stop,
  register_pending_send,
}
use starlingmonkey_ng.EventLoop.Registry.Inv as Loop
use starlingmonkey_ng.EventLoop.Registry.Ids.{
  keys_from, allocate-Allocated, keys_from_mono, keys_from-insert,
}
use starlingmonkey_ng.EventLoop.Timer.Inv.{
  IsValid, Room, Kept, same-Kept, on_active-Kept, queue-Plain, queue_ready-Plain, queue_timer-Plain,
  cancel_if_queued-Plain, clear_js_timer-Plain, signal_ready-Plain, request_stop-Plain,
  register_pending_send-Plain, acquire_interest-Kept, release_interest-Kept,
}
use starlingmonkey_ng.EventLoop.Timer.{
  World, LoopTask, native, Call, TimerHandlerArg, TimerResult, ok, no_event_loop, first_of_pair,
  id_or_zero, or_zero, sets_timeout, sets_interval, clears, queues, queues_ready, queues_timer,
  cancels, signals, acquires_interest, releases_interest, registers_send, stops, new_timer,
  timer_deadline, timer_initialization_steps, run_call, run_calls,
}

-- What `queue_js_timer` gives: its id, and the loop with the timer inserted.
pub record Queued (w : World) (timer_id : ℕ) : Type 0 where
  pub positive : 0 < timer_id
  pub unused : HashMap.get timer_id w.loop.js_timers ≡ none
  pub from : w.counter ≤ timer_id
  pub near : timer_id ≤ w.counter + 1

queue_js_timer-Queued :
    (origin : Option String) (deadline : ℕ) (make_task : ℕ → LoopTask) (w : World)
    → keys_from w.counter w.loop.js_timers ≡ 0
    → w.counter + 2 < max_counter
    → (timer_id : ℕ) × (queue_js_timer origin deadline make_task w.counter w.loop
        ≡ some (timer_id, timer_id + 1, insert_js_timer origin deadline make_task timer_id w.loop))
      × Queued w timer_id
unfolding queue_js_timer insert_timer
queue_js_timer-Queued origin deadline make_task w below room =
    let (id, e, a, le) =
      allocate-Allocated (allocation_fuel w.loop) w.counter w.loop.js_timers (ground (arith, below))
        (ground (arith, below)) in
    (
      id,
      ground (arith, e),
      record {
        positive = a.positive;
        unused = a.unused;
        from = a.from;
        near = ground (arith, le, below);
      },
    )

insert_js_timer-Kept :
    (k : ℕ) (origin : Option String) (deadline : ℕ) (make_task : ℕ → LoopTask) (timer_id : ℕ)
    (w : World)
    → IsValid w
    → Room (suc k) w
    → Queued w timer_id
    → Kept k w (record w {
      loop = insert_js_timer origin deadline make_task timer_id w.loop;
      counter = timer_id + 1;
    })
unfolding insert_timer
insert_js_timer-Kept k origin deadline make_task timer_id w v room q = record {
  valid = record {
    loop_valid =
        Loop.insert_js_timer-IsValid origin deadline make_task timer_id w.loop v.loop_valid
          (omega (arith, room.task_ids));
    keys_below = omega (
      arith,
      v.keys_below,
      q.from,
      keys_from-insert (timer_id + 1) timer_id (record { task = w.loop.next_id; origin = origin })
          w.loop.js_timers (omega arith),
      keys_from_mono w.counter (timer_id + 1) w.loop.js_timers (omega (arith, q.from)),
    );
  };
  room = record {
    task_ids = omega (arith, room.task_ids);
    timer_ids = omega (arith, room.timer_ids, q.near);
    handles = omega (arith, room.handles);
  };
  later = omega (arith, room.task_ids);
  gone = λ i h g. ground (
    arith,
    lookup-insert i
        (record {
          id = w.loop.next_id;
          task = make_task timer_id;
          ready = false;
          deadline = some deadline;
          origin = origin;
        })
        w.loop.tasks,
  );
  active_kept = refl;
}

-- A call, or several, gives a world that `Kept` relates to the one before.
abbrev Calls : ℕ → World → Option World → Type 0
Calls k w r = (w' : World) × (r ≡ some w') × Kept k w w'

-- What `timer_initialization_steps` answers: a timer inserted under a fresh id, or that there is no
-- active loop.
pub data Initialized (origin : Option String) (make_task : ℕ → LoopTask) (deadline : ℕ) (w : World)
    : Option (World × TimerResult) → Type 0 where
  inserted :
      (timer_id : ℕ)
      → w.active ≡ true
      → Queued w timer_id
      → Initialized origin make_task deadline w (
          some (
            record w {
              loop = insert_js_timer origin deadline make_task timer_id w.loop;
              counter = timer_id + 1;
            },
            ok timer_id,
          ))
  refused : w.active ≡ false → Initialized origin make_task deadline w (some (w, no_event_loop))

pub timer_initialization_steps-Initialized :
    (now : ℕ) (origin : Option String) (handler : TimerHandlerArg) (timeout : ℤ)
    (arguments : List ℕ) (repeat : Bool) (w : World)
    → keys_from w.counter w.loop.js_timers ≡ 0
    → w.counter + 2 < max_counter
    → Initialized origin
        (new_timer handler timeout arguments repeat w)
        (timer_deadline now timeout w)
        w
        (timer_initialization_steps now origin handler timeout arguments repeat w)
unfolding timer_initialization_steps
timer_initialization_steps-Initialized now origin handler timeout arguments repeat w below room =
    if_cases (Initialized origin make_task deadline w) w.active
      (λ on.
        let (id, e, q) = queue_js_timer-Queued origin deadline make_task w below room in
        rw e (inserted id on q))
      refused
  where
    make_task : ℕ → LoopTask
    make_task = new_timer handler timeout arguments repeat w

    deadline : ℕ
    deadline = timer_deadline now timeout w

Initialized-Calls :
    (k : ℕ) (origin : Option String) (make_task : ℕ → LoopTask) (deadline : ℕ) (w : World)
    (r : Option (World × TimerResult))
    → IsValid w
    → Room (suc k) w
    → Initialized origin make_task deadline w r
    → Calls k w (first_of_pair r)
Initialized-Calls k origin make_task deadline w r v room (inserted id on q) =
    (_, refl, insert_js_timer-Kept k origin deadline make_task id w v room q)
Initialized-Calls k origin make_task deadline w r v room (refused off) =
    (w, refl, same-Kept k w v room)

-- A call keeps the invariant and does not panic.
run_call-Calls :
    (k : ℕ) (c : Call) (w : World) → IsValid w → Room (suc k) w → Calls k w (run_call c w)
unfolding run_call
run_call-Calls k (sets_timeout now origin handler timeout arguments) w v room =
    Initialized-Calls k origin (new_timer handler (or_zero timeout) arguments false w)
      (timer_deadline now (or_zero timeout) w) w _ v room
      (timer_initialization_steps-Initialized now origin handler (or_zero timeout) arguments false w
        v.keys_below (omega (arith, room.timer_ids)))
run_call-Calls k (sets_interval now origin handler timeout arguments) w v room =
    Initialized-Calls k origin (new_timer handler (or_zero timeout) arguments true w)
      (timer_deadline now (or_zero timeout) w) w _ v room
      (timer_initialization_steps-Initialized now origin handler (or_zero timeout) arguments true w
        v.keys_below (omega (arith, room.timer_ids)))
run_call-Calls k (clears id) w v room = (
  _,
  refl,
  on_active-Kept k (clear_js_timer (id_or_zero id)) w v room
      (clear_js_timer-Plain (id_or_zero id) w.loop v.loop_valid),
)
run_call-Calls k (queues origin kind n) w v room = (
  _,
  refl,
  on_active-Kept k (λ el. (queue origin (native kind n) el).0) w v room
      (queue-Plain origin (native kind n) w.loop v.loop_valid (omega (arith, room.task_ids))),
)
run_call-Calls k (queues_ready origin kind n) w v room = (
  _,
  refl,
  on_active-Kept k (λ el. (queue_ready origin (native kind n) el).0) w v room
      (queue_ready-Plain origin (native kind n) w.loop v.loop_valid (omega (arith, room.task_ids))),
)
run_call-Calls k (queues_timer origin kind n deadline) w v room = (
  _,
  refl,
  on_active-Kept k (λ el. (queue_timer origin (native kind n) deadline el).0) w v room
      (queue_timer-Plain origin (native kind n) deadline w.loop v.loop_valid
        (omega (arith, room.task_ids))),
)
run_call-Calls k (cancels id) w v room = (
  _,
  refl,
  on_active-Kept k (λ el. (cancel_if_queued id el).0) w v room
      (cancel_if_queued-Plain id w.loop v.loop_valid),
)
run_call-Calls k (signals id) w v room = (
  _,
  refl,
  on_active-Kept k (signal_ready id) w v room (signal_ready-Plain id w.loop v.loop_valid),
)
run_call-Calls k (acquires_interest origin) w v room =
    if_cases (Calls k w) w.active (λ on. acquire_interest-Kept k origin w v room)
      (λ off. (w, refl, same-Kept k w v room))
run_call-Calls k (releases_interest key) w v room = (_, refl, release_interest-Kept k key w v room)
run_call-Calls k (registers_send origin send) w v room = (
  _,
  refl,
  on_active-Kept k (register_pending_send origin send) w v room
      (register_pending_send-Plain origin send w.loop v.loop_valid),
)
run_call-Calls k stops w v room =
    (_, refl, on_active-Kept k request_stop w v room (request_stop-Plain w.loop v.loop_valid))

Kept-trans : (j k : ℕ) (a b c : World) → Kept j a b → Kept k b c → Kept k a c
Kept-trans j k a b c p q = record {
  valid = q.valid;
  room = q.room;
  later = omega (arith, p.later, q.later);
  gone = λ i h g. q.gone i (omega (arith, p.later)) (p.gone i h g);
  active_kept = q.active_kept ∙ p.active_kept;
}

Kept-refl : (k : ℕ) (w : World) → IsValid w → Room k w → Kept k w w
Kept-refl k w v room = record {
  valid = v;
  room = room;
  later = omega arith;
  gone = λ i h g. g;
  active_kept = refl;
}

-- From a valid world, however many calls JS code makes, while the ids and the count of interest
-- handles last for them and `k` more: none panics, the world stays valid, ids and handles last for
-- `k` calls, and no task id that was handed out before and is not live becomes live again.
pub run_calls-Kept :
    (cs : List Call) (k : ℕ) (w : World)
    → IsValid w
    → Room (length cs + k) w
    → (w' : World) × (run_calls cs w ≡ some w') × Kept k w w'
unfolding run_calls
run_calls-Kept [] k w v room = (
  w,
  refl,
  Kept-refl k w v (record {
    task_ids = omega (arith, room.task_ids);
    timer_ids = omega (arith, room.timer_ids);
    handles = omega (arith, room.handles);
  }),
)
run_calls-Kept (c ∷ cs) k w v room =
    let (w1, e1, k1) = run_call-Calls (length cs + k) c w v (record {
      task_ids = omega (arith, room.task_ids);
      timer_ids = omega (arith, room.timer_ids);
      handles = omega (arith, room.handles);
    }) in
    let (w2, e2, k2) = run_calls-Kept cs k w1 k1.valid k1.room in
    (w2, ground (arith, e1, e2), Kept-trans (length cs + k) k w w1 w2 k1 k2)
