-- ===== src/EventLoop/TaskQueue/Dispatch.antt =====
-- The task that `EventLoop::pop_ready` takes (crates/core-runtime/src/event_loop.rs), and a scan
-- for it.
use starlingmonkey_ng.Prelude.{
  ℕ, ◌≡◌, refl, ◌⊎◌, inl, inr, true, Option, none, some, List, [], ◌∷◌, arith, Option-cases,
}
use starlingmonkey_ng.Collections.TotalOrder.{key_order, key_lt, pair_order}
use starlingmonkey_ng.Collections.BTreeSet
use starlingmonkey_ng.Collections.BTreeSet.{contains, contains-cons, contains-first, contains-nil}
use starlingmonkey_ng.Collections.HashMap
use starlingmonkey_ng.Collections.HashMap.{get-remove}
use starlingmonkey_ng.EventLoop.TaskQueue.{
  TaskEntry, TaskQueue, ready_key, remove_entry, remove, pop_ready,
}
use starlingmonkey_ng.EventLoop.TaskQueue.Inv.{IsValid, remove-IsValid}

module _ {T : Type 0} where
  -- A live task that is ready.
  pub record IsReady (q : TaskQueue T) (e : TaskEntry T) : Type 0 where
    pub live : HashMap.get e.id q.entries ≡ some e
    pub ready : e.ready ≡ true

  -- The answer of a scan over all entries for the ready task of least key.
  pub data Popped (q : TaskQueue T) : TaskQueue T × Option (ℕ × T) → Type 0 where
    idle : ((e : TaskEntry T) → ¬ IsReady q e) → Popped q (q, none)
    popped :
        (e : TaskEntry T) (q' : TaskQueue T)
        → IsReady q e
        → ((f : TaskEntry T) → IsReady q f → (f ≡ e) ⊎ (key_lt (ready_key e) (ready_key f) ≡ true))
        → IsValid q'
        → ((j : ℕ) → HashMap.get j q'.entries ≡ HashMap.get j (HashMap.remove e.id q.entries))
        → Popped q (q', some (e.id, e.task))

  IsReady-contains :
      (q : TaskQueue T) (e : TaskEntry T)
      → IsValid q
      → IsReady q e
      → contains (ready_key e) q.ready ≡ true
  IsReady-contains q e v r = ground (arith, v.ready_iff e.deadline e.id, r.live, r.ready)

  pub first_ready_entry :
      (q : TaskQueue T) (k : Option ℕ) (i : ℕ) (ks : List (Option ℕ × ℕ))
      → IsValid q
      → q.ready ≡ (k, i) ∷ ks
      → (e : TaskEntry T) × (HashMap.get i q.entries ≡ some e)
        × (e.ready ≡ true)
        × (e.deadline ≡ k)
        × (e.id ≡ i)
  first_ready_entry q k i ks v h = elim (Option-cases (HashMap.get i q.entries)) [
    | inl e ↦ absurd (ground (arith, v.ready_iff k i, contains-first (k, i) ks))
    | inr (x, e) ↦ (
      x,
      e,
      ground (arith, v.ready_iff k i, contains-first (k, i) ks),
      ground (arith, v.ready_iff k i, contains-first (k, i) ks),
      v.entry_id i x e,
    )
  ]

  -- No ready task has a key below the first one's.
  first_ready_least :
      (q : TaskQueue T) (ks : List (Option ℕ × ℕ)) (e f : TaskEntry T)
      → IsValid q
      → q.ready ≡ ready_key e ∷ ks
      → HashMap.get e.id q.entries ≡ some e
      → IsReady q f
      → (f ≡ e) ⊎ (key_lt (ready_key e) (ready_key f) ≡ true)
  first_ready_least q ks e f v h live r =
      elim (contains-cons (ready_key f) (ready_key e) ks (rw h at v.ready_sorted)
        (rw h at (IsReady-contains q f v r))) [
          | inl same ↦ inl (ground (arith, r.live))
          | inr above ↦ inr above
        ]

  get-remove_live :
      (q : TaskQueue T) (i : ℕ) (e : TaskEntry T)
      → HashMap.get i q.entries ≡ some e
      → remove i q ≡ (remove_entry e i q, some e)
  unfolding remove
  get-remove_live q i e h = rw (h, remove)

  pop_ready_of :
      (q : TaskQueue T) (ks : List (Option ℕ × ℕ))
      → q.ready ≡ ks
      → IsValid q
      → (r : TaskQueue T × Option (ℕ × T)) × (pop_ready q ≡ some r) × Popped q r
  unfolding pop_ready BTreeSet.first remove_entry
  pop_ready_of q [] h v = ((q, none), ground arith, idle none_ready)
    where
      none_ready : (e : TaskEntry T) → ¬ IsReady q e
      none_ready e r = ground (arith, IsReady-contains q e v r, contains-nil (ready_key e))
  pop_ready_of q ((k, i) ∷ ks) h v =
      let (e, found, ready, deadline, same) = first_ready_entry q k i ks v h in
      let live : HashMap.get e.id q.entries ≡ some e = rw same found in
      let key : q.ready ≡ ready_key e ∷ ks = rw (same, deadline) h in
      (
        ((remove i q).0, some (e.id, e.task)),
        ground (arith, get-remove_live q i e found),
        popped e (remove i q).0 (record { live = live; ready = ready })
            (λ f r. first_ready_least q ks e f v key live r) (remove-IsValid i v)
            (λ j. ground (arith, get-remove_live q i e found)),
      )

  -- From a valid queue `pop_ready` does not panic. It finds nothing only if no live task is ready.
  -- Otherwise it takes a ready task whose key (no deadline first, then the deadline, then the id) is
  -- below that of every other, and leaves a valid queue that lacks that task alone.
  pub pop_ready_lem :
      (q : TaskQueue T)
      → IsValid q
      → (r : TaskQueue T × Option (ℕ × T)) × (pop_ready q ≡ some r) × Popped q r
  pop_ready_lem q v = pop_ready_of q q.ready refl v
