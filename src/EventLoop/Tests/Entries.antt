-- ===== src/EventLoop/Tests/Entries.antt =====
-- The task queue on concrete inputs.
use starlingmonkey_ng.Prelude.{ℕ, ◌+◌, ◌≡◌, refl, true, false, Option, none, some, String, length}
use starlingmonkey_ng.Collections.HashMap
use starlingmonkey_ng.EventLoop.TaskQueue
use starlingmonkey_ng.EventLoop.TaskQueue.{TaskEntry, TaskQueue, expire_timers, pop_ready}
use starlingmonkey_ng.EventLoop.TaskQueue.Inv as Queue
use starlingmonkey_ng.EventLoop.TaskQueue.Expire.{after_expiry, expire_timers_lem}
use starlingmonkey_ng.EventLoop.TaskQueue.Dispatch.{Popped, pop_ready_lem}

-- A ready task, and a timer that is due at 5.
abbrev ready_entry : TaskEntry String
ready_entry = record { id = 0; task = "a"; ready = true; deadline = none; origin = none }

abbrev timer_entry : TaskEntry String
timer_entry = record { id = 1; task = "b"; ready = false; deadline = some 5; origin = none }

abbrev one_ready : TaskQueue String
one_ready = TaskQueue.insert ready_entry TaskQueue.empty

one_ready-IsValid : Queue.IsValid one_ready
unfolding TaskQueue.empty HashMap.get
one_ready-IsValid = Queue.insert-IsValid ready_entry Queue.empty-IsValid refl

two_entries : TaskQueue String
two_entries = TaskQueue.insert timer_entry one_ready

two_entries-IsValid : Queue.IsValid two_entries
unfolding two_entries TaskQueue.empty TaskQueue.insert HashMap.get HashMap.insert
two_entries-IsValid = Queue.insert-IsValid timer_entry one_ready-IsValid refl

pop_ready_example :
    (r : TaskQueue String × Option (ℕ × String)) × (pop_ready two_entries ≡ some r)
    × Popped two_entries r
pop_ready_example = pop_ready_lem two_entries two_entries-IsValid

expire_timers_example :
    (r : TaskQueue String × ℕ) × (expire_timers 7 two_entries ≡ some r)
    × Queue.IsValid r.0
    × ((j : ℕ) → HashMap.get j r.0.entries ≡ after_expiry 7 (HashMap.get j two_entries.entries))
    × (r.1 + length r.0.timers ≡ length two_entries.timers)
expire_timers_example = expire_timers_lem 7 two_entries two_entries-IsValid

mark_ready_example : Queue.IsValid (TaskQueue.mark_ready 1 two_entries).0
mark_ready_example = Queue.mark_ready-IsValid 1 two_entries-IsValid

remove_example : Queue.IsValid (TaskQueue.remove 1 two_entries).0
remove_example = Queue.remove-IsValid 1 two_entries-IsValid

insert_example : Queue.IsValid (TaskQueue.insert timer_entry one_ready)
unfolding TaskQueue.empty TaskQueue.insert HashMap.get HashMap.insert
insert_example = Queue.insert-IsValid timer_entry one_ready-IsValid refl
