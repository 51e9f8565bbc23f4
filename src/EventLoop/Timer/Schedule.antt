-- ===== src/EventLoop/Timer/Schedule.antt =====
-- What `setTimeout` and `setInterval` leave in the loop (crates/core-
-- runtime/src/event_loop/timer.rs).
use starlingmonkey_ng.Prelude.{
  ℕ, ◌+◌, ◌*◌, ◌≤◌, ◌<◌, ◌≡◌, refl, Bool, true, false, Option, none, some, List, String, arith,
  if◌then◌else◌, ◌==◌,
}
use starlingmonkey_ng.Prelude.Int.{ℤ, max_zero}
use starlingmonkey_ng.Collections.HashMap
use starlingmonkey_ng.Collections.HashMap.{get-insert}
use starlingmonkey_ng.EventLoop.TaskQueue.Lookup.{lookup, lookup-insert}
use starlingmonkey_ng.EventLoop.Registry.{u64_mod, max_counter, insert_timer, insert_js_timer}
use starlingmonkey_ng.EventLoop.Timer.{
  World, LoopTask, TimerHandlerArg, TimerResult, ok, clamp_nested_timeout, min_nested,
  nanos_per_milli, new_timer, timer_deadline, timer_initialization_steps,
}
use starlingmonkey_ng.EventLoop.Timer.Inv.{IsValid}
use starlingmonkey_ng.EventLoop.Timer.Calls.{
  Queued, Initialized, inserted, refused, timer_initialization_steps-Initialized,
}

-- A new timer of the loop: `timer_id` stands for the task, which waits for its deadline.
pub record Scheduled (w w' : World) (timer_id : ℕ) (task : LoopTask) (deadline : ℕ)
    (origin : Option String) : Type 0 where
  pub positive : 0 < timer_id
  pub unused : HashMap.get timer_id w.loop.js_timers ≡ none
  pub mapped :
      (t : ℕ)
      → HashMap.get t w'.loop.js_timers ≡ (
          if t == timer_id
          then some (record { task = w.loop.next_id; origin = origin })
          else HashMap.get t w.loop.js_timers)
  pub queued :
      (i : ℕ)
      → lookup i w'.loop.tasks ≡ (
          if i == w.loop.next_id
          then some (record {
            id = w.loop.next_id;
            task = task;
            ready = false;
            deadline = some deadline;
            origin = origin;
          })
          else lookup i w.loop.tasks)
  pub woken : w'.loop.interest.notified ≡ w.loop.interest.notified + 1

inserted-Scheduled :
    (w : World) (timer_id : ℕ) (make_task : ℕ → LoopTask) (deadline : ℕ) (origin : Option String)
    → Queued w timer_id
    → Scheduled w
        (record w {
          loop = insert_js_timer origin deadline make_task timer_id w.loop;
          counter = timer_id + 1;
        })
        timer_id
        (make_task timer_id)
        deadline
        origin
unfolding insert_timer
inserted-Scheduled w timer_id make_task deadline origin q = record {
  positive = q.positive;
  unused = q.unused;
  mapped = λ t.
      get-insert t timer_id (record { task = w.loop.next_id; origin = origin }) w.loop.js_timers;
  queued = λ i.
      lookup-insert i
        (record {
          id = w.loop.next_id;
          task = make_task timer_id;
          ready = false;
          deadline = some deadline;
          origin = origin;
        })
        w.loop.tasks;
  woken = refl;
}

-- On a valid loop that is active, with a timer id left, `timer_initialization_steps` succeeds: under
-- a positive timer id that was not in use, the loop maps the next task id, and queues under it the
-- task with its deadline; every other timer and task is as before, and the driver is woken.
pub timer_initialization_steps_lem :
    (now : ℕ) (origin : Option String) (handler : TimerHandlerArg) (timeout : ℤ)
    (arguments : List ℕ) (repeat : Bool) (w : World)
    → IsValid w
    → w.counter + 2 < max_counter
    → w.active ≡ true
    → (timer_id : ℕ) × (w' : World) × (timer_initialization_steps now origin handler timeout
          arguments repeat w
        ≡ some (w', ok timer_id))
      × Scheduled w w' timer_id
          (new_timer handler timeout arguments repeat w timer_id)
          (timer_deadline now timeout w)
          origin
timer_initialization_steps_lem now origin handler timeout arguments repeat w v room on =
    answer _ refl (
      timer_initialization_steps-Initialized now origin handler timeout arguments repeat w
        v.keys_below room)
  where
    make_task : ℕ → LoopTask
    make_task = new_timer handler timeout arguments repeat w

    deadline : ℕ
    deadline = timer_deadline now timeout w

    answer :
        (r : Option (World × TimerResult))
        → timer_initialization_steps now origin handler timeout arguments repeat w ≡ r
        → Initialized origin make_task deadline w r
        → (timer_id : ℕ) × (w' : World) × (timer_initialization_steps now origin handler timeout
              arguments repeat w
            ≡ some (w', ok timer_id))
          × Scheduled w w' timer_id (make_task timer_id) deadline origin
    answer r e (inserted id _ q) = (id, _, e, inserted-Scheduled w id make_task deadline origin q)
    answer r e (refused off) = absurd (ground arith)

-- While the sum of the clock, the timeout and the four milliseconds fits in 64 bits: a timer set
-- from a timer that is itself nested deeper than five levels waits four milliseconds at least,
-- however short its timeout; one set elsewhere waits its timeout; and no timer becomes due before
-- its timeout is over.
pub timer_deadline_bounds :
    (now : ℕ) (timeout : ℤ) (w : World)
    → now + max_zero timeout * nanos_per_milli + min_nested < u64_mod
    → (now + max_zero timeout * nanos_per_milli ≤ timer_deadline now timeout w)
      × (5 < w.nesting → now + min_nested ≤ timer_deadline now timeout w)
      × (w.nesting ≤ 5 → timer_deadline now timeout w ≡ now + max_zero timeout * nanos_per_milli)
unfolding clamp_nested_timeout
timer_deadline_bounds now timeout w room = ground arith
