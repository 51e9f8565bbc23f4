-- ===== src/EventLoop/TaskQueue/Lookup.antt =====
-- What the operations of `TaskQueue` do to the entry of one id.
use starlingmonkey_ng.Prelude.{
  ℕ, ◌≡◌, true, Option, none, some, arith, inl, inr, Option-cases, if◌then◌else◌, ◌==◌, is_some,
}
use starlingmonkey_ng.Collections.HashMap
use starlingmonkey_ng.Collections.HashMap.{get-insert, get-remove}
use starlingmonkey_ng.EventLoop.TaskQueue.{
  TaskEntry, TaskQueue, insert, remove_entry, remove, set_ready, mark_ready,
}

module _ {T : Type 0} where
  abbrev pub lookup : ℕ → TaskQueue T → Option (TaskEntry T)
  lookup id q = HashMap.get id q.entries

  pub lookup-insert :
      (j : ℕ) (e : TaskEntry T) (q : TaskQueue T)
      → lookup j (insert e q) ≡ (if j == e.id then some e else lookup j q)
  unfolding insert
  lookup-insert j e q = get-insert j e.id e q.entries

  pub lookup-remove :
      (j id : ℕ) (q : TaskQueue T)
      → lookup j (remove id q).0 ≡ (if j == id then none else lookup j q)
  unfolding remove remove_entry
  lookup-remove j id q = elim (Option-cases (lookup id q)) [
    | inl e ↦ ground arith
    | inr (x, e) ↦ ground (arith, get-remove j id q.entries)
  ]

  pub remove-found : (id : ℕ) (q : TaskQueue T) → (remove id q).1 ≡ lookup id q
  unfolding remove
  remove-found id q = ground arith

  pub live-mark_ready :
      (j id : ℕ) (q : TaskQueue T) → is_some (lookup j (mark_ready id q).0) ≡ is_some (lookup j q)
  unfolding mark_ready set_ready
  live-mark_ready j id q = elim (Option-cases (lookup id q)) [
    | inl e ↦ ground arith
    | inr (x, e) ↦ ground (arith, get-insert j id (record x { ready = true }) q.entries)
  ]
