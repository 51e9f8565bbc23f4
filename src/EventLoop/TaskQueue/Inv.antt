-- ===== src/EventLoop/TaskQueue/Inv.antt =====
-- The invariant of `TaskQueue`: the two indexes agree with the entries, and each is ascending.
use starlingmonkey_ng.Prelude.{
  ℕ, ◌≡◌, refl, Bool, true, false, not, ◌&&◌, Option, none, some, List, arith, inl, inr, Bool-cases,
  Option-cases, ◌==◌, if◌then◌else◌,
}
use starlingmonkey_ng.Collections.TotalOrder.{option_eq, pair_order, key_order}
use starlingmonkey_ng.Collections.BTreeSet
use starlingmonkey_ng.Collections.BTreeSet.{
  contains, contains-insert, contains-remove, insert-IsSorted, remove-IsSorted,
}
use starlingmonkey_ng.Collections.HashMap
use starlingmonkey_ng.Collections.HashMap.{get-insert, get-remove}
use starlingmonkey_ng.EventLoop.TaskQueue.{
  TaskEntry, TaskQueue, empty, ready_key, insert_timer, remove_timer, insert, remove_entry, remove,
  set_ready, mark_ready,
}

module _ {T : Type 0} where
  abbrev pub is_ready_at : Option ℕ → Option (TaskEntry T) → Bool
  is_ready_at k none = false
  is_ready_at k (some e) = e.ready && option_eq k e.deadline

  abbrev pub is_timer_at : ℕ → Option (TaskEntry T) → Bool
  is_timer_at d none = false
  is_timer_at d (some e) = not e.ready && option_eq (some d) e.deadline

contains-insert_timer :
    (d i : ℕ) (deadline : Option ℕ) (id : ℕ) (s : List (ℕ × ℕ))
    → contains (d, i) (insert_timer deadline id s)
      ≡ (if option_eq (some d) deadline && (i == id) then true else contains (d, i) s)
contains-insert_timer d i none id s = refl
contains-insert_timer d i (some e) id s = ground (arith, contains-insert (d, i) (e, id) s)

contains-remove_timer :
    (d i : ℕ) (deadline : Option ℕ) (id : ℕ) (s : List (ℕ × ℕ))
    → contains (d, i) (remove_timer deadline id s)
      ≡ (if option_eq (some d) deadline && (i == id) then false else contains (d, i) s)
contains-remove_timer d i none id s = refl
contains-remove_timer d i (some e) id s = ground (arith, contains-remove (d, i) (e, id) s)

insert_timer-IsSorted :
    (deadline : Option ℕ) (id : ℕ) (s : List (ℕ × ℕ))
    → BTreeSet.IsSorted s
    → BTreeSet.IsSorted (insert_timer deadline id s)
insert_timer-IsSorted none id s h = h
insert_timer-IsSorted (some d) id s h = insert-IsSorted (d, id) s h

remove_timer-IsSorted :
    (deadline : Option ℕ) (id : ℕ) (s : List (ℕ × ℕ))
    → BTreeSet.IsSorted s
    → BTreeSet.IsSorted (remove_timer deadline id s)
remove_timer-IsSorted none id s h = h
remove_timer-IsSorted (some d) id s h = remove-IsSorted (d, id) s h

pub record IsValid {T : Type 0} (q : TaskQueue T) : Type 0 where
  pub ready_sorted : BTreeSet.IsSorted q.ready
  pub timers_sorted : BTreeSet.IsSorted q.timers
  pub entry_id : (i : ℕ) (e : TaskEntry T) → HashMap.get i q.entries ≡ some e → e.id ≡ i
  pub ready_iff :
      (k : Option ℕ) (i : ℕ) → contains (k, i) q.ready ≡ is_ready_at k (HashMap.get i q.entries)
  pub timers_iff : (d i : ℕ) → contains (d, i) q.timers ≡ is_timer_at d (HashMap.get i q.entries)

module _ {T : Type 0} where
  pub empty-IsValid : IsValid (empty {T = T})
  unfolding empty BTreeSet.contains HashMap.get
  empty-IsValid = record {
    ready_sorted = tt;
    timers_sorted = tt;
    entry_id = λ i e h. cc;
    ready_iff = λ k i. refl;
    timers_iff = λ d i. refl;
  }

  -- Inserting a task under an id that no live task has keeps the two indexes of a valid queue in
  -- agreement with its entries.
  pub insert-IsValid :
      (e : TaskEntry T) {q : TaskQueue T}
      → IsValid q
      → HashMap.get e.id q.entries ≡ none
      → IsValid (insert e q)
  unfolding insert
  insert-IsValid e {q} v fresh = record {
    ready_sorted =
        ground (arith, insert-IsSorted (ready_key e) q.ready v.ready_sorted, v.ready_sorted);
    timers_sorted =
        ground
          (arith, insert_timer-IsSorted e.deadline e.id q.timers v.timers_sorted, v.timers_sorted);
    entry_id = λ i x h. ground (arith, get-insert i e.id e q.entries, v.entry_id i x);
    ready_iff = λ k i. ground (
      arith,
      get-insert i e.id e q.entries,
      v.ready_iff k i,
      contains-insert (k, i) (ready_key e) q.ready,
    );
    timers_iff = λ d i. ground (
      arith,
      get-insert i e.id e q.entries,
      v.timers_iff d i,
      contains-insert_timer d i e.deadline e.id q.timers,
    );
  }

  remove_entry-IsValid :
      (e : TaskEntry T) (id : ℕ) {q : TaskQueue T}
      → IsValid q
      → HashMap.get id q.entries ≡ some e
      → IsValid (remove_entry e id q)
  unfolding remove_entry
  remove_entry-IsValid e id {q} v found = record {
    ready_sorted =
        ground (arith, remove-IsSorted (ready_key e) q.ready v.ready_sorted, v.ready_sorted);
    timers_sorted =
        ground
          (arith, remove_timer-IsSorted e.deadline id q.timers v.timers_sorted, v.timers_sorted);
    entry_id = λ i x h. ground (arith, get-remove i id q.entries, v.entry_id i x);
    ready_iff = λ k i. ground (
      arith,
      get-remove i id q.entries,
      v.ready_iff k i,
      v.entry_id id e found,
      contains-remove (k, i) (ready_key e) q.ready,
    );
    timers_iff = λ d i. ground (
      arith,
      get-remove i id q.entries,
      v.timers_iff d i,
      contains-remove_timer d i e.deadline id q.timers,
    );
  }

  set_ready-IsValid :
      (e : TaskEntry T) (id : ℕ) {q : TaskQueue T}
      → IsValid q
      → HashMap.get id q.entries ≡ some e
      → e.ready ≡ false
      → IsValid (set_ready e id q)
  unfolding set_ready
  set_ready-IsValid e id {q} v found waits =
      let new : TaskEntry T = record e { ready = true } in
      record {
        ready_sorted = insert-IsSorted (ready_key e) q.ready v.ready_sorted;
        timers_sorted = remove_timer-IsSorted e.deadline id q.timers v.timers_sorted;
        entry_id = λ i x h.
            ground (arith, get-insert i id new q.entries, v.entry_id i x, v.entry_id id e found);
        ready_iff = λ k i. ground (
          arith,
          get-insert i id new q.entries,
          v.ready_iff k i,
          v.entry_id id e found,
          contains-insert (k, i) (ready_key e) q.ready,
        );
        timers_iff = λ d i. ground (
          arith,
          get-insert i id new q.entries,
          v.timers_iff d i,
          contains-remove_timer d i e.deadline id q.timers,
        );
      }

  pub remove-IsValid : (id : ℕ) {q : TaskQueue T} → IsValid q → IsValid (remove id q).0
  unfolding remove
  remove-IsValid id {q} v = elim (Option-cases (HashMap.get id q.entries)) [
    | inl e ↦ rw (e, remove) v
    | inr (x, e) ↦ rw (e, remove) (remove_entry-IsValid x id v e)
  ]

  -- Readying any id, live or not, keeps the two indexes of a valid queue in agreement with its entries.
  pub mark_ready-IsValid : (id : ℕ) {q : TaskQueue T} → IsValid q → IsValid (mark_ready id q).0
  unfolding mark_ready
  mark_ready-IsValid id {q} v = elim (Option-cases (HashMap.get id q.entries)) [
    | inl e ↦ rw (e, mark_ready) v
    | inr (x, e) ↦
        rw (e, mark_ready)
          (elim (Bool-cases x.ready) [
            | inl r ↦ rw r v
            | inr r ↦ rw r (set_ready-IsValid x id v e r)
          ])
  ]
