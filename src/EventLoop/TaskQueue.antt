-- ===== src/EventLoop/TaskQueue.antt =====
-- `TaskEntry` and `TaskQueue` of crates/core-runtime/src/event_loop.rs. A task is of any type `T`
-- (`Box<dyn Task>`), an instant is its number of nanoseconds, and a task id its `u64`.
pub mod Lookup
pub mod Inv
pub mod Expire
pub mod Dispatch
use starlingmonkey_ng.Prelude.{
  ℕ, zero, suc, ◌+◌, Bool, true, false, Option, none, some, List, [], String, if◌then◌else◌, ltb,
  length,
}
use starlingmonkey_ng.Collections.TotalOrder.{pair_order, key_order}
use starlingmonkey_ng.Collections.BTreeSet
use starlingmonkey_ng.Collections.HashMap
use starlingmonkey_ng.Collections.HashMap.{HashMap}

pub record TaskEntry (T : Type 0) : Type 0 where
  pub id : ℕ
  pub task : T
  pub ready : Bool
  pub deadline : Option ℕ
  pub origin : Option String

pub record TaskQueue (T : Type 0) : Type 0 where
  pub entries : HashMap (TaskEntry T)
  pub ready : List (Option ℕ × ℕ)
  pub timers : List (ℕ × ℕ)

-- The index of timers takes an entry only if it has a deadline.
abbrev pub insert_timer : Option ℕ → ℕ → List (ℕ × ℕ) → List (ℕ × ℕ)
insert_timer none id timers = timers
insert_timer (some deadline) id timers = BTreeSet.insert (deadline, id) timers

abbrev pub remove_timer : Option ℕ → ℕ → List (ℕ × ℕ) → List (ℕ × ℕ)
remove_timer none id timers = timers
remove_timer (some deadline) id timers = BTreeSet.remove (deadline, id) timers

module _ {T : Type 0} where
  -- `TaskQueue::default()`
  unfoldable pub empty : TaskQueue T
  empty = record { entries = []; ready = []; timers = [] }

  abbrev pub ready_key : TaskEntry T → Option ℕ × ℕ
  ready_key entry = (entry.deadline, entry.id)

  unfoldable pub insert : TaskEntry T → TaskQueue T → TaskQueue T
  insert entry q = record {
    entries = HashMap.insert entry.id entry q.entries;
    ready = if entry.ready then BTreeSet.insert (ready_key entry) q.ready else q.ready;
    timers = if entry.ready then q.timers else insert_timer entry.deadline entry.id q.timers;
  }

  unfoldable pub remove_entry : TaskEntry T → ℕ → TaskQueue T → TaskQueue T
  remove_entry entry id q = record {
    entries = HashMap.remove id q.entries;
    ready = if entry.ready then BTreeSet.remove (ready_key entry) q.ready else q.ready;
    timers = if entry.ready then q.timers else remove_timer entry.deadline id q.timers;
  }

  unfoldable pub remove : ℕ → TaskQueue T → TaskQueue T × Option (TaskEntry T)
  unfolding remove_entry
  remove id q = elim (HashMap.get id q.entries) [
    | none ↦ (q, none)
    | some entry ↦ (remove_entry entry id q, some entry)
  ]

  set_ready : TaskEntry T → ℕ → TaskQueue T → TaskQueue T
  set_ready entry id q = record {
    entries = HashMap.insert id (record entry { ready = true }) q.entries;
    ready = BTreeSet.insert (ready_key entry) q.ready;
    timers = remove_timer entry.deadline id q.timers;
  }

  -- The result says whether a task not yet ready was found.
  unfoldable pub mark_ready : ℕ → TaskQueue T → TaskQueue T × Bool
  unfolding set_ready
  mark_ready id q = elim (HashMap.get id q.entries) [
    | none ↦ (q, false)
    | some entry ↦ if entry.ready then (q, false) else (set_ready entry id q, true)
  ]

  -- The `while let` of `expire_timers`, with fuel; `none` means that the fuel ran out.
  unfoldable pub expire_from : ℕ → ℕ → ℕ → TaskQueue T → Option (TaskQueue T × ℕ)
  expire_from zero now count q = none
  expire_from (suc fuel) now count q = elim (BTreeSet.first q.timers) [
    | none ↦ some (q, count)
    | some (deadline, id) ↦
        let rest = expire_from fuel now (count + 1) (mark_ready id q).0 in
        if ltb now deadline then some (q, count) else rest
  ]

  -- At most one round for each timer, and the one that stops the loop.
  unfoldable pub expire_timers : ℕ → TaskQueue T → Option (TaskQueue T × ℕ)
  unfolding expire_from
  expire_timers now q = expire_from (suc (length q.timers)) now 0 q

  -- `EventLoop::pop_ready`, on the queue that it borrows; `none` is its panic, for a ready task that
  -- is not live.
  unfoldable pub pop_ready : TaskQueue T → Option (TaskQueue T × Option (ℕ × T))
  unfolding remove
  pop_ready q = elim (BTreeSet.first q.ready) [
    | none ↦ some (q, none)
    | some (deadline, id) ↦ elim (remove id q).1 [
      | none ↦ none
      | some entry ↦ some ((remove id q).0, some (entry.id, entry.task))
    ]
  ]
