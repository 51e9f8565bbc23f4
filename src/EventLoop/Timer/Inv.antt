-- ===== src/EventLoop/Timer/Inv.antt =====
-- The invariant of the loop in its world, and the calls of JS code that are no timers'
-- (crates/core-runtime/src/event_loop.rs).
use starlingmonkey_ng.Prelude.{
  ℕ, suc, ◌+◌, ◌*◌, ◌^◌, ◌≤◌, ◌<◌, ◌≡◌, refl, true, false, Option, none, some, String, arith, inl,
  inr, if_cases, option_cases_eq, Option-cases,
}
use starlingmonkey_ng.Collections.HashMap
use starlingmonkey_ng.EventLoop.TaskQueue.Lookup.{
  lookup, lookup-insert, lookup-remove, live-mark_ready,
}
use starlingmonkey_ng.EventLoop.Registry.{
  EventLoop, u64_mod, max_counter, acquire_interest_handle, register_pending_send, queue,
  queue_ready, queue_timer, cancel_if_queued, clear_js_timer, signal_ready, request_stop,
}
use starlingmonkey_ng.EventLoop.Registry.Inv as Loop
use starlingmonkey_ng.EventLoop.Registry.Ids.{keys_from, keys_from-remove}
use starlingmonkey_ng.EventLoop.Interest.{
  InterestState, acquire_handle, record_origin, drop_handle, dropped,
}
use starlingmonkey_ng.EventLoop.Timer.{
  World, LoopTask, on_active, acquire_interest, release_interest,
}

pub record IsValid (w : World) : Type 0 where
  pub loop_valid : Loop.IsValid w.loop
  pub keys_below : keys_from w.counter w.loop.js_timers ≡ 0

-- Neither the task ids, nor the counter of timer ids, nor the count of interest handles run out
-- within `k` calls.
pub record Room (k : ℕ) (w : World) : Type 0 where
  pub task_ids : w.loop.next_id + k < u64_mod
  pub timer_ids : w.counter + 2 * k + 1 < max_counter
  pub handles : w.loop.interest.count + k < 2 ^ 32

-- What a call keeps: the invariant, room for `k` calls, and that an id that was handed out and is
-- not live stays so.
pub record Kept (k : ℕ) (w w' : World) : Type 0 where
  pub valid : IsValid w'
  pub room : Room k w'
  pub later : w.loop.next_id ≤ w'.loop.next_id
  pub gone :
      (i : ℕ) → i < w.loop.next_id → lookup i w.loop.tasks ≡ none → lookup i w'.loop.tasks ≡ none
  pub active_kept : w'.active ≡ w.active

-- An operation on the loop that hands out at most one task id and one interest handle, and no timer
-- id.
pub record Plain (a b : EventLoop LoopTask) : Type 0 where
  pub valid : Loop.IsValid b
  pub few : b.next_id ≤ a.next_id + 1
  pub held : b.interest.count ≤ a.interest.count + 1
  pub later : a.next_id ≤ b.next_id
  pub gone : (i : ℕ) → i < a.next_id → lookup i a.tasks ≡ none → lookup i b.tasks ≡ none
  pub keys : (c : ℕ) → keys_from c b.js_timers ≤ keys_from c a.js_timers

Plain-Kept :
    (k : ℕ) (w : World) (b : EventLoop LoopTask)
    → IsValid w
    → Room (suc k) w
    → Plain w.loop b
    → Kept k w (record w { loop = b })
Plain-Kept k w b v room p = record {
  valid = record {
    loop_valid = p.valid;
    keys_below = omega (arith, p.keys w.counter, v.keys_below);
  };
  room = record {
    task_ids = omega (arith, room.task_ids, p.few);
    timer_ids = omega (arith, room.timer_ids);
    handles = omega (arith, room.handles, p.held);
  };
  later = p.later;
  gone = p.gone;
  active_kept = refl;
}

pub same-Kept : (k : ℕ) (w : World) → IsValid w → Room (suc k) w → Kept k w w
same-Kept k w v room = record {
  valid = v;
  room = record {
    task_ids = omega (arith, room.task_ids);
    timer_ids = omega (arith, room.timer_ids);
    handles = omega (arith, room.handles);
  };
  later = omega arith;
  gone = λ i h g. g;
  active_kept = refl;
}

pub on_active-Kept :
    (k : ℕ) (f : EventLoop LoopTask → EventLoop LoopTask) (w : World)
    → IsValid w
    → Room (suc k) w
    → Plain w.loop (f w.loop)
    → Kept k w (on_active f w)
on_active-Kept k f w v room p =
    if_cases (Kept k w) w.active (λ on. Plain-Kept k w (f w.loop) v room p)
      (λ off. same-Kept k w v room)

pub queue-Plain :
    (origin : Option String) (task : LoopTask) (el : EventLoop LoopTask)
    → Loop.IsValid el
    → el.next_id + 1 < u64_mod
    → Plain el (queue origin task el).0
unfolding queue
queue-Plain origin task el v room = record {
  valid = unfold queue in Loop.queue-IsValid origin task el v room;
  few = omega arith;
  held = omega arith;
  later = omega arith;
  gone = λ i h g. ground (
    arith,
    lookup-insert i
        (record { id = el.next_id; task = task; ready = false; deadline = none; origin = origin })
        el.tasks,
  );
  keys = λ c. omega arith;
}

pub queue_ready-Plain :
    (origin : Option String) (task : LoopTask) (el : EventLoop LoopTask)
    → Loop.IsValid el
    → el.next_id + 1 < u64_mod
    → Plain el (queue_ready origin task el).0
unfolding queue_ready
queue_ready-Plain origin task el v room = record {
  valid = Loop.queue_ready-IsValid origin task el v room;
  few = omega arith;
  held = omega arith;
  later = omega arith;
  gone = λ i h g. ground (
    arith,
    lookup-insert i
        (record { id = el.next_id; task = task; ready = true; deadline = none; origin = origin })
        el.tasks,
  );
  keys = λ c. omega arith;
}

pub queue_timer-Plain :
    (origin : Option String) (task : LoopTask) (deadline : ℕ) (el : EventLoop LoopTask)
    → Loop.IsValid el
    → el.next_id + 1 < u64_mod
    → Plain el (queue_timer origin task deadline el).0
unfolding queue_timer
queue_timer-Plain origin task deadline el v room = record {
  valid = Loop.queue_timer-IsValid origin task deadline el v room;
  few = omega arith;
  held = omega arith;
  later = omega arith;
  gone = λ i h g. ground (
    arith,
    lookup-insert i
        (record {
          id = el.next_id;
          task = task;
          ready = false;
          deadline = some deadline;
          origin = origin;
        })
        el.tasks,
  );
  keys = λ c. omega arith;
}

pub cancel_if_queued-Plain :
    (id : ℕ) (el : EventLoop LoopTask) → Loop.IsValid el → Plain el (cancel_if_queued id el).0
unfolding cancel_if_queued
cancel_if_queued-Plain id el v = record {
  valid = Loop.cancel_if_queued-IsValid id el v;
  few = omega arith;
  held = omega arith;
  later = omega arith;
  gone = λ i h g. ground (arith, lookup-remove i id el.tasks);
  keys = λ c. omega arith;
}

pub clear_js_timer-Plain :
    (timer_id : ℕ) (el : EventLoop LoopTask)
    → Loop.IsValid el
    → Plain el (clear_js_timer timer_id el)
unfolding clear_js_timer cancel_if_queued
clear_js_timer-Plain timer_id el v = record {
  valid = Loop.clear_js_timer-IsValid timer_id el v;
  few = ground arith;
  held = ground arith;
  later = ground arith;
  gone = λ i h g. elim (Option-cases (HashMap.get timer_id el.js_timers)) [
    | inl e ↦ ground arith
    | inr (r, e) ↦ ground (arith, lookup-remove i r.task el.tasks)
  ];
  keys = λ c. ground (arith, keys_from-remove c timer_id el.js_timers);
}

pub signal_ready-Plain :
    (id : ℕ) (el : EventLoop LoopTask) → Loop.IsValid el → Plain el (signal_ready id el)
unfolding signal_ready
signal_ready-Plain id el v = record {
  valid = Loop.signal_ready-IsValid id el v;
  few = ground arith;
  held = ground arith;
  later = ground arith;
  gone = λ i h g. elim (Option-cases (lookup i (signal_ready id el).tasks)) [
    | inl e ↦ e
    | inr (y, e) ↦ absurd (ground (arith, live-mark_ready i id el.tasks))
  ];
  keys = λ c. ground arith;
}

pub request_stop-Plain : (el : EventLoop LoopTask) → Loop.IsValid el → Plain el (request_stop el)
unfolding request_stop
request_stop-Plain el v = record {
  valid = Loop.same-IsValid el _ v refl refl refl;
  few = omega arith;
  held = omega arith;
  later = omega arith;
  gone = λ i h g. g;
  keys = λ c. omega arith;
}

pub register_pending_send-Plain :
    (origin : Option String) (send : ℕ) (el : EventLoop LoopTask)
    → Loop.IsValid el
    → Plain el (register_pending_send origin send el)
unfolding register_pending_send
register_pending_send-Plain origin send el v = record {
  valid = Loop.same-IsValid el _ v refl refl refl;
  few = omega arith;
  held = omega arith;
  later = omega arith;
  gone = λ i h g. g;
  keys = λ c. omega arith;
}

-- Only the interest of the loop is another.
pub interest-Plain :
    (x : InterestState) (el : EventLoop LoopTask)
    → x.count ≤ el.interest.count + 1
    → Loop.IsValid el
    → Plain el (record el { interest = x })
interest-Plain x el h v = record {
  valid = Loop.same-IsValid el _ v refl refl refl;
  few = omega arith;
  held = omega (arith, h);
  later = omega arith;
  gone = λ i l g. g;
  keys = λ c. omega arith;
}

drop_handle-count :
    (key : Option ℕ) (s x : InterestState) → drop_handle key s ≡ some x → x.count ≤ s.count
unfolding drop_handle dropped
drop_handle-count key s x h = ground arith

acquire_handle-count :
    (origin : Option String) (s : InterestState)
    → s.count + 1 < 2 ^ 32
    → (x : InterestState) × (key : Option ℕ) × (acquire_handle origin s ≡ some (x, key))
      × (x.count ≡ s.count + 1)
unfolding acquire_handle record_origin
acquire_handle-count none s h = (record s { count = s.count + 1 }, none, ground (arith, h), refl)
acquire_handle-count (some o) s h =
    let (x, key) = record_origin (some o) (record s { count = s.count + 1 }) in
    (x, key, ground (arith, h), refl)

pub release_interest-Kept :
    (k : ℕ) (key : Option ℕ) (w : World)
    → IsValid w
    → Room (suc k) w
    → Kept k w (release_interest key w)
unfolding release_interest
release_interest-Kept k key w v room =
    option_cases_eq (Kept k w) (drop_handle key w.loop.interest) (λ _. same-Kept k w v room)
      (λ x e.
        Plain-Kept k w (record (w.loop) { interest = x }) v room
          (interest-Plain x w.loop (omega (arith, drop_handle-count key w.loop.interest x e))
            v.loop_valid))

pub acquire_interest-Kept :
    (k : ℕ) (origin : Option String) (w : World)
    → IsValid w
    → Room (suc k) w
    → (w' : World) × (acquire_interest origin w ≡ some w') × Kept k w w'
unfolding acquire_interest acquire_interest_handle
acquire_interest-Kept k origin w v room =
    let (x, key, e, h) =
      acquire_handle-count origin w.loop.interest (omega (arith, room.handles)) in
    (
      record w { loop = record (w.loop) { interest = x } },
      rw (e, acquire_interest, acquire_interest_handle) refl,
      Plain-Kept k w (record (w.loop) { interest = x }) v room
          (interest-Plain x w.loop (omega (arith, h)) v.loop_valid),
    )
