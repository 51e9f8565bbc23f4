-- ===== src/EventLoop/Registry/Inv.antt =====
-- The invariant of `EventLoop` (crates/core-runtime/src/event_loop.rs), operation by operation.
use starlingmonkey_ng.Prelude.{
  ℕ, ◌+◌, ◌%◌, ◌≤◌, ◌<◌, ◌≡◌, refl, true, false, Option, none, some, String, arith, inl, inr,
  Bool-cases, Option-cases, ◌==◌,
}
use starlingmonkey_ng.Collections.HashMap
use starlingmonkey_ng.Collections.HashMap.{get-insert, get-remove}
use starlingmonkey_ng.EventLoop.TaskQueue
use starlingmonkey_ng.EventLoop.TaskQueue.{TaskEntry, TaskQueue}
use starlingmonkey_ng.EventLoop.TaskQueue.Lookup.{
  lookup, lookup-insert, lookup-remove, live-mark_ready,
}
use starlingmonkey_ng.EventLoop.TaskQueue.Inv as Queue
use starlingmonkey_ng.EventLoop.Registry.{
  JsTimer, EventLoop, u64_mod, new, queue, queue_ready, insert_timer, queue_timer, cancel_if_queued,
  insert_js_timer, requeue_js_timer, clear_js_timer, js_timer_fired, signal_ready,
}

-- Ids of live tasks have been handed out, also those that timers control; and no task is controlled
-- by two timers.
pub record IsValid {T : Type 0} (el : EventLoop T) : Type 0 where
  pub queue_valid : Queue.IsValid el.tasks
  pub fresh : (i : ℕ) (e : TaskEntry T) → lookup i el.tasks ≡ some e → i < el.next_id
  pub timers_fresh :
      (t : ℕ) (r : JsTimer) → HashMap.get t el.js_timers ≡ some r → r.task < el.next_id
  pub distinct :
      (t u : ℕ) (r s : JsTimer)
      → HashMap.get t el.js_timers ≡ some r
      → HashMap.get u el.js_timers ≡ some s
      → r.task ≡ s.task
      → t ≡ u

module _ {T : Type 0} where
  pub new-IsValid : (loop_id : ℕ) → IsValid (new {T = T} loop_id)
  unfolding new TaskQueue.empty HashMap.get
  new-IsValid loop_id = record {
    queue_valid = Queue.empty-IsValid;
    fresh = λ i e h. cc;
    timers_fresh = λ t r h. cc;
    distinct = λ t u r s h k e. cc;
  }

  -- An id that has not been handed out is not live.
  pub fresh-none :
      (el : EventLoop T) → IsValid el → (i : ℕ) → el.next_id ≤ i → lookup i el.tasks ≡ none
  fresh-none el v i h = elim (Option-cases (lookup i el.tasks)) [
    | inl e ↦ e
    | inr (x, e) ↦ absurd (omega (arith, v.fresh i x e))
  ]

  -- A new entry under the next id.
  abbrev inserted : TaskEntry T → EventLoop T → EventLoop T
  inserted e el = record el {
    tasks = TaskQueue.insert e el.tasks;
    next_id = (el.next_id + 1) % u64_mod;
  }

  inserted-IsValid :
      (e : TaskEntry T) (el : EventLoop T)
      → IsValid el
      → e.id ≡ el.next_id
      → el.next_id + 1 < u64_mod
      → IsValid (inserted e el)
  inserted-IsValid e el v h room = record {
    queue_valid = Queue.insert-IsValid e v.queue_valid (fresh-none el v e.id (omega arith));
    fresh = λ i x k. ground (arith, lookup-insert i e el.tasks, v.fresh i x);
    timers_fresh = λ t r k. omega (arith, v.timers_fresh t r k);
    distinct = v.distinct;
  }

  -- The fields that the invariant reads.
  pub same-IsValid :
      (a b : EventLoop T)
      → IsValid a
      → b.tasks ≡ a.tasks
      → b.next_id ≡ a.next_id
      → b.js_timers ≡ a.js_timers
      → IsValid b
  same-IsValid a b v t n j = record {
    queue_valid = rw t v.queue_valid;
    fresh = λ i x k. ground (arith, v.fresh i x);
    timers_fresh = λ i x k. ground (arith, v.timers_fresh i x);
    distinct = λ i k r s p q e. ground (arith, v.distinct i k r s);
  }

  pub queue-IsValid :
      (origin : Option String) (task : T) (el : EventLoop T)
      → IsValid el
      → el.next_id + 1 < u64_mod
      → IsValid (queue origin task el).0
  unfolding queue
  queue-IsValid origin task el v room =
      inserted-IsValid
        (record { id = el.next_id; task = task; ready = false; deadline = none; origin = origin })
        el v refl room

  pub queue_ready-IsValid :
      (origin : Option String) (task : T) (el : EventLoop T)
      → IsValid el
      → el.next_id + 1 < u64_mod
      → IsValid (queue_ready origin task el).0
  unfolding queue_ready
  queue_ready-IsValid origin task el v room =
      let entry : TaskEntry T = record {
        id = el.next_id;
        task = task;
        ready = true;
        deadline = none;
        origin = origin;
      } in
      same-IsValid (inserted entry el) _ (inserted-IsValid entry el v refl room) refl refl refl

  pub queue_timer-IsValid :
      (origin : Option String) (task : T) (deadline : ℕ) (el : EventLoop T)
      → IsValid el
      → el.next_id + 1 < u64_mod
      → IsValid (queue_timer origin task deadline el).0
  unfolding queue_timer
  queue_timer-IsValid origin task deadline el v room =
      let entry : TaskEntry T = record {
        id = el.next_id;
        task = task;
        ready = false;
        deadline = some deadline;
        origin = origin;
      } in
      same-IsValid (inserted entry el) _ (inserted-IsValid entry el v refl room) refl refl refl

  pub cancel_if_queued-IsValid :
      (id : ℕ) (el : EventLoop T) → IsValid el → IsValid (cancel_if_queued id el).0
  unfolding cancel_if_queued
  cancel_if_queued-IsValid id el v = record {
    queue_valid = Queue.remove-IsValid id v.queue_valid;
    fresh = λ i x k. ground (arith, lookup-remove i id el.tasks, v.fresh i x);
    timers_fresh = v.timers_fresh;
    distinct = v.distinct;
  }

  -- Under a timer id that is not in use.
  pub insert_js_timer-IsValid :
      (origin : Option String) (deadline : ℕ) (make_task : ℕ → T) (timer_id : ℕ) (el : EventLoop T)
      → IsValid el
      → el.next_id + 1 < u64_mod
      → IsValid (insert_js_timer origin deadline make_task timer_id el)
  unfolding insert_timer
  insert_js_timer-IsValid origin deadline make_task timer_id el v room =
      let entry : TaskEntry T = record {
        id = el.next_id;
        task = make_task timer_id;
        ready = false;
        deadline = some deadline;
        origin = origin;
      } in
      let new_timer : JsTimer = record { task = el.next_id; origin = origin } in
      let w = inserted-IsValid entry el v refl room in
      record {
        queue_valid = w.queue_valid;
        fresh = w.fresh;
        timers_fresh = λ t r k.
            ground (arith, get-insert t timer_id new_timer el.js_timers, v.timers_fresh t r);
        distinct = λ t u r s p q e. ground (
          arith,
          get-insert t timer_id new_timer el.js_timers,
          get-insert u timer_id new_timer el.js_timers,
          v.distinct t u r s,
          v.timers_fresh t r,
          v.timers_fresh u s,
        );
      }

  js_timers_removed-IsValid :
      (timer_id : ℕ) (el : EventLoop T)
      → IsValid el
      → IsValid (record el { js_timers = HashMap.remove timer_id el.js_timers })
  js_timers_removed-IsValid timer_id el v = record {
    queue_valid = v.queue_valid;
    fresh = v.fresh;
    timers_fresh = λ t r k. ground (arith, get-remove t timer_id el.js_timers, v.timers_fresh t r);
    distinct = λ t u r s p q e. ground (
      arith,
      get-remove t timer_id el.js_timers,
      get-remove u timer_id el.js_timers,
      v.distinct t u r s,
    );
  }

  pub js_timer_fired-IsValid :
      (timer_id : ℕ) (el : EventLoop T) → IsValid el → IsValid (js_timer_fired timer_id el)
  unfolding js_timer_fired
  js_timer_fired-IsValid timer_id el v = js_timers_removed-IsValid timer_id el v

  pub clear_js_timer-IsValid :
      (timer_id : ℕ) (el : EventLoop T) → IsValid el → IsValid (clear_js_timer timer_id el)
  unfolding clear_js_timer
  clear_js_timer-IsValid timer_id el v = elim (Option-cases (HashMap.get timer_id el.js_timers)) [
    | inl e ↦ rw (e, clear_js_timer) v
    | inr (r, e) ↦
        rw (e, clear_js_timer)
          (cancel_if_queued-IsValid r.task _ (js_timers_removed-IsValid timer_id el v))
  ]

  -- The running task's id is handed out, and not live.
  pub requeue_js_timer-IsValid :
      (timer_id id : ℕ) (task : T) (deadline : ℕ) (el : EventLoop T)
      → IsValid el
      → id < el.next_id
      → lookup id el.tasks ≡ none
      → IsValid (requeue_js_timer timer_id id task deadline el)
  unfolding requeue_js_timer
  requeue_js_timer-IsValid timer_id id task deadline el v used gone =
      elim (Option-cases (HashMap.get timer_id el.js_timers)) [
        | inl e ↦ rw (e, requeue_js_timer) v
        | inr (r, e) ↦
            rw (e, requeue_js_timer)
              (elim (Bool-cases (r.task == id)) [
                | inl same ↦ rw same (inserted_again r)
                | inr other ↦ rw other v
              ])
      ]
    where
      inserted_again : (r : JsTimer) → IsValid (insert_timer id task deadline r.origin el)
      inserted_again r =
          let entry : TaskEntry T = record {
            id = id;
            task = task;
            ready = false;
            deadline = some deadline;
            origin = r.origin;
          } in
          record {
            queue_valid = Queue.insert-IsValid entry v.queue_valid gone;
            fresh = λ i x k. ground (arith, lookup-insert i entry el.tasks, v.fresh i x);
            timers_fresh = v.timers_fresh;
            distinct = v.distinct;
          }

  pub signal_ready-IsValid : (id : ℕ) (el : EventLoop T) → IsValid el → IsValid (signal_ready id el)
  unfolding signal_ready
  signal_ready-IsValid id el v = elim (Bool-cases (TaskQueue.mark_ready id el.tasks).1) [
    | inl e ↦ rw e (same-IsValid readied _ readied-IsValid refl refl refl)
    | inr e ↦ rw e readied-IsValid
  ]
    where
      readied : EventLoop T
      readied = record el { tasks = (TaskQueue.mark_ready id el.tasks).0 }

      readied-IsValid : IsValid readied
      readied-IsValid = record {
        queue_valid = Queue.mark_ready-IsValid id v.queue_valid;
        fresh = λ i x k. elim (Option-cases (lookup i el.tasks)) [
          | inl e ↦ absurd (ground (arith, live-mark_ready i id el.tasks))
          | inr (y, e) ↦ v.fresh i y e
        ];
        timers_fresh = v.timers_fresh;
        distinct = v.distinct;
      }
