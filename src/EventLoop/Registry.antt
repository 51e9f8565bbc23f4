-- ===== src/EventLoop/Registry.antt =====
-- `EventLoop` of crates/core-runtime/src/event_loop.rs: its state and the operations on it. What
-- `js::stack::current_origin` answers is the argument `origin` of the operations that record it, and
-- a clock reading the argument `now`. The loop's `notify` event is that of its interest count.
pub mod Ids
pub mod Inv
pub mod Clear
pub mod Snapshot
use starlingmonkey_ng.Prelude.{
  ℕ, zero, suc, ◌+◌, ◌-◌, ◌%◌, ◌^◌, Bool, true, false, not, ◌&&◌, ◌||◌, Option, none, some, List,
  [], ◌∷◌, ◌++◌, String, map, if◌then◌else◌, ltb, leb, ◌==◌, length, is_some, is_none,
}
use starlingmonkey_ng.Collections.HashMap
use starlingmonkey_ng.Collections.HashMap.{HashMap}
use starlingmonkey_ng.EventLoop.TaskQueue
use starlingmonkey_ng.EventLoop.TaskQueue.{TaskEntry, TaskQueue}
use starlingmonkey_ng.EventLoop.Interest
use starlingmonkey_ng.EventLoop.Interest.{InterestState, acquire_handle, has_interest}

pub record JsTimer : Type 0 where
  pub task : ℕ
  pub origin : Option String

-- `batch_buf` is empty between steps, and has no field here. A pending send is a number.
pub record EventLoop (T : Type 0) : Type 0 where
  pub loop_id : ℕ
  pub next_id : ℕ
  pub tasks : TaskQueue T
  pub js_timers : HashMap JsTimer
  pub stop_requested : Bool
  pub interest : InterestState
  pub pending_sends : List (ℕ × Option String)

abbrev pub u64_mod : ℕ
u64_mod = 2 ^ 64

-- `Instant + Duration`, in nanoseconds.
abbrev pub add_instant : ℕ → ℕ → ℕ
add_instant now delay = if ltb (now + delay) u64_mod then now + delay else u64_mod - 1

-- `(1 << 53) - 1`
abbrev pub max_counter : ℕ
max_counter = 2 ^ 53 - 1

-- `js::class::next_global_counter`: the value and the counter after it; `none` is its panic.
unfoldable pub next_global_counter : ℕ → Option (ℕ × ℕ)
next_global_counter counter =
    if ltb counter max_counter then some (counter, (counter + 1) % u64_mod) else none

-- The `loop` of `allocate_js_timer_id`, with fuel: the id, and the counter after it. `none` is the
-- panic of the counter, or that the fuel ran out.
unfoldable pub allocate_js_timer_id : ℕ → ℕ → HashMap JsTimer → Option (ℕ × ℕ)
allocate_js_timer_id zero counter js_timers = none
allocate_js_timer_id (suc fuel) counter js_timers = elim (next_global_counter counter) [
  | none ↦ none
  | some (id, counter') ↦
      let again = allocate_js_timer_id fuel counter' js_timers in
      if not (id == 0) && not (HashMap.contains_key id js_timers)
      then some (id, counter')
      else again
]

module _ {T : Type 0} where
  unfoldable pub new : ℕ → EventLoop T
  unfolding TaskQueue.empty Interest.new
  new loop_id = record {
    loop_id = loop_id;
    next_id = 0;
    tasks = TaskQueue.empty;
    js_timers = [];
    stop_requested = false;
    interest = Interest.new;
    pending_sends = [];
  }

  -- `self.notify.notify(1)`
  abbrev pub notify : EventLoop T → EventLoop T
  notify el = record el { interest = record (el.interest) { notified = el.interest.notified + 1 } }

  -- `next_task_id`: the id is `el.next_id`.
  abbrev pub bump_next_id : EventLoop T → EventLoop T
  bump_next_id el = record el { next_id = (el.next_id + 1) % u64_mod }

  abbrev insert_task : TaskEntry T → EventLoop T → EventLoop T
  insert_task entry el = record el { tasks = TaskQueue.insert entry el.tasks }

  unfoldable pub queue : Option String → T → EventLoop T → EventLoop T × ℕ
  queue origin task el = (
    insert_task
        (record { id = el.next_id; task = task; ready = false; deadline = none; origin = origin })
        (bump_next_id el),
    el.next_id,
  )

  unfoldable pub queue_ready : Option String → T → EventLoop T → EventLoop T × ℕ
  queue_ready origin task el = (
    notify (
        insert_task
          (record { id = el.next_id; task = task; ready = true; deadline = none; origin = origin })
          (bump_next_id el)),
    el.next_id,
  )

  unfoldable pub insert_timer : ℕ → T → ℕ → Option String → EventLoop T → EventLoop T
  insert_timer id task deadline origin el = notify (
      insert_task
        (record { id = id; task = task; ready = false; deadline = some deadline; origin = origin })
        el)

  unfoldable pub queue_timer : Option String → T → ℕ → EventLoop T → EventLoop T × ℕ
  unfolding insert_timer
  queue_timer origin task deadline el =
      (insert_timer el.next_id task deadline origin (bump_next_id el), el.next_id)

  unfoldable pub cancel_if_queued : ℕ → EventLoop T → EventLoop T × Bool
  cancel_if_queued id el =
      let (tasks', removed) = TaskQueue.remove id el.tasks in
      (record el { tasks = tasks' }, is_some removed)

  -- One round for id 0, one for each id that the map holds, and one that succeeds.
  abbrev pub allocation_fuel : EventLoop T → ℕ
  allocation_fuel el = length el.js_timers + 2

  -- The state after `queue_js_timer` once its timer id is known.
  abbrev pub insert_js_timer : Option String → ℕ → (ℕ → T) → ℕ → EventLoop T → EventLoop T
  insert_js_timer origin deadline make_task timer_id el =
      let el' = insert_timer el.next_id (make_task timer_id) deadline origin (bump_next_id el) in
      record el' {
        js_timers =
            HashMap.insert timer_id (record { task = el.next_id; origin = origin }) el'.js_timers;
      }

  -- The timer id, the counter and the loop; `none` is a panic of the counter.
  unfoldable pub queue_js_timer :
      Option String → ℕ → (ℕ → T) → ℕ → EventLoop T → Option (ℕ × ℕ × EventLoop T)
  unfolding insert_timer
  queue_js_timer origin deadline make_task counter el =
      elim (allocate_js_timer_id (allocation_fuel el) counter el.js_timers) [
        | none ↦ none
        | some (timer_id, counter') ↦
            some (timer_id, counter', insert_js_timer origin deadline make_task timer_id el)
      ]

  unfoldable pub requeue_js_timer : ℕ → ℕ → T → ℕ → EventLoop T → EventLoop T
  unfolding insert_timer
  requeue_js_timer timer_id id task deadline el = elim (HashMap.get timer_id el.js_timers) [
    | none ↦ el
    | some timer ↦ if timer.task == id then insert_timer id task deadline timer.origin el else el
  ]

  unfoldable pub clear_js_timer : ℕ → EventLoop T → EventLoop T
  unfolding cancel_if_queued
  clear_js_timer timer_id el = elim (HashMap.get timer_id el.js_timers) [
    | none ↦ el
    | some timer ↦
        (cancel_if_queued timer.task
          (record el { js_timers = HashMap.remove timer_id el.js_timers })).0
  ]

  unfoldable pub js_timer_fired : ℕ → EventLoop T → EventLoop T
  js_timer_fired timer_id el = record el { js_timers = HashMap.remove timer_id el.js_timers }

  unfoldable pub signal_ready : ℕ → EventLoop T → EventLoop T
  signal_ready id el =
      let (tasks', found) = TaskQueue.mark_ready id el.tasks in
      let el' = record el { tasks = tasks' } in if found then notify el' else el'

  unfoldable pub request_stop : EventLoop T → EventLoop T
  request_stop el = record el { stop_requested = true }

  -- The loop, and the key that the handle keeps; `none` is the panic of `acquire_handle`.
  unfoldable pub acquire_interest_handle :
      Option String → EventLoop T → Option (EventLoop T × Option ℕ)
  acquire_interest_handle origin el = elim (acquire_handle origin el.interest) [
    | none ↦ none
    | some (interest', key) ↦ some (record el { interest = interest' }, key)
  ]

  unfoldable pub register_pending_send : Option String → ℕ → EventLoop T → EventLoop T
  register_pending_send origin send el = record el {
    pending_sends = el.pending_sends ++ (send, origin) ∷ [];
  }

  unfoldable pub take_pending_sends : EventLoop T → EventLoop T × List ℕ
  take_pending_sends el = (record el { pending_sends = [] }, map (λ s. s.0) el.pending_sends)

  unfoldable pub has_pending : EventLoop T → Bool
  has_pending el = elim el.tasks.entries [ [] ↦ false | e ∷ es ↦ true ]

  -- Whether futures of the loop are in flight (`js::promise::has_pending_futures`) is an argument.
  unfoldable pub is_alive : Bool → EventLoop T → Bool
  unfolding has_pending has_interest
  is_alive futures el = has_pending el || has_interest el.interest || futures
