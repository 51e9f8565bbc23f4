-- ===== src/EventLoop/TaskQueue/Expire.antt =====
-- The loop of `TaskQueue::expire_timers` (crates/core-runtime/src/event_loop.rs).
use starlingmonkey_ng.Prelude.{
  ℕ, zero, suc, ◌+◌, ◌<◌, ◌≡◌, refl, ◌∙◌, Bool, true, false, ◌||◌, Option, none, some, List, [],
  ◌∷◌, arith, inl, inr, Bool-cases, Option-cases, ltb, ltb→lt, leb, length,
}
use starlingmonkey_ng.Collections.TotalOrder.{pair_order}
use starlingmonkey_ng.Collections.BTreeSet
use starlingmonkey_ng.Collections.BTreeSet.{
  contains, contains-nil, contains-cons, contains-first, remove-first,
}
use starlingmonkey_ng.Collections.HashMap
use starlingmonkey_ng.Collections.HashMap.{get-insert}
use starlingmonkey_ng.EventLoop.TaskQueue.{
  TaskEntry, TaskQueue, mark_ready, expire_from, expire_timers,
}
use starlingmonkey_ng.EventLoop.TaskQueue.Inv.{IsValid, is_timer_at, mark_ready-IsValid}

abbrev pub is_due : ℕ → Option ℕ → Bool
is_due now none = false
is_due now (some deadline) = leb deadline now

module _ {T : Type 0} where
  -- What becomes of the entry of one id.
  abbrev pub after_expiry : ℕ → Option (TaskEntry T) → Option (TaskEntry T)
  after_expiry now none = none
  after_expiry now (some e) = some (record e { ready = e.ready || is_due now e.deadline })

  no_timer_due :
      (now : ℕ) (o : Option (TaskEntry T))
      → ((d : ℕ) → is_timer_at d o ≡ true → now < d)
      → o ≡ after_expiry now o
  no_timer_due now none h = refl
  no_timer_due now (some e) h = elim (Option-cases e.deadline) [
    | inl p ↦ ground arith
    | inr (d, p) ↦ ground (arith, h d)
  ]

  -- The first timer belongs to a task that waits for that deadline.
  first_timer_entry :
      (q : TaskQueue T) (d i : ℕ) (ts : List (ℕ × ℕ))
      → IsValid q
      → q.timers ≡ (d, i) ∷ ts
      → (e : TaskEntry T) × (HashMap.get i q.entries ≡ some e)
        × (e.ready ≡ false)
        × (e.deadline ≡ some d)
  first_timer_entry q d i ts v h = elim (Option-cases (HashMap.get i q.entries)) [
    | inl e ↦ absurd (ground (arith, v.timers_iff d i, contains-first (d, i) ts))
    | inr (x, e) ↦ (
      x,
      e,
      ground (arith, v.timers_iff d i, contains-first (d, i) ts),
      ground (arith, v.timers_iff d i, contains-first (d, i) ts),
    )
  ]

  -- One round of the loop.
  record Round (now d i : ℕ) (ts : List (ℕ × ℕ)) (q q' : TaskQueue T) : Type 0 where
    valid : IsValid q'
    timers : q'.timers ≡ ts
    expiry :
        (j : ℕ)
        → after_expiry now (HashMap.get j q'.entries) ≡ after_expiry now (HashMap.get j q.entries)

  mark_ready-Round :
      (q : TaskQueue T) (now d i : ℕ) (ts : List (ℕ × ℕ))
      → IsValid q
      → q.timers ≡ (d, i) ∷ ts
      → ltb now d ≡ false
      → Round now d i ts q (mark_ready i q).0
  unfolding mark_ready
  mark_ready-Round q now d i ts v h due =
      let (e, found, waits, deadline) = first_timer_entry q d i ts v h in
      record {
        valid = mark_ready-IsValid i v;
        timers = ground (arith, remove-first (d, i) ts (rw h at v.timers_sorted));
        expiry = λ j. ground (arith, get-insert j i (record e { ready = true }) q.entries);
      }

  -- What the loop answers when started at `q` with `count` timers expired.
  record Expired (now count : ℕ) (q : TaskQueue T) (r : TaskQueue T × ℕ) : Type 0 where
    valid : IsValid r.0
    expiry : (j : ℕ) → HashMap.get j r.0.entries ≡ after_expiry now (HashMap.get j q.entries)
    counted : r.1 + length r.0.timers ≡ count + length q.timers

  stop-Expired :
      (now count : ℕ) (q : TaskQueue T)
      → IsValid q
      → ((d i : ℕ) → contains (d, i) q.timers ≡ true → now < d)
      → Expired now count q (q, count)
  stop-Expired now count q v later = record {
    valid = v;
    expiry =
        λ j. no_timer_due now (HashMap.get j q.entries) (λ d h. later d j (v.timers_iff d j ∙ h));
    counted = refl;
  }

  timers_later :
      (q : TaskQueue T) (now d i : ℕ) (ts : List (ℕ × ℕ))
      → IsValid q
      → q.timers ≡ (d, i) ∷ ts
      → now < d
      → (e j : ℕ) → contains (e, j) q.timers ≡ true
      → now < e
  timers_later q now d i ts v h later e j c =
      ground (arith, contains-cons (e, j) (d, i) ts (rw h at v.timers_sorted) (rw h at c))

  expire_from-Expired :
      (fuel now count : ℕ) (q : TaskQueue T) (timers : List (ℕ × ℕ))
      → q.timers ≡ timers
      → IsValid q
      → length timers < fuel
      → (r : TaskQueue T × ℕ) × (expire_from fuel now count q ≡ some r) × Expired now count q r
  unfolding expire_from BTreeSet.first
  expire_from-Expired zero now count q timers e v h = absurd (omega arith)
  expire_from-Expired (suc fuel) now count q [] e v h =
      ((q, count), ground arith, stop-Expired now count q v (λ d i c. cc (no_member d i)))
    where
      no_member : (d i : ℕ) → contains (d, i) q.timers ≡ false
      no_member d i = rw e (contains-nil (d, i))
  expire_from-Expired (suc fuel) now count q ((d, i) ∷ ts) e v h = elim (Bool-cases (ltb now d)) [
    | inl later ↦ (
      (q, count),
      ground arith,
      stop-Expired now count q v (timers_later q now d i ts v e (ltb→lt now d later)),
    )
    | inr due ↦
        let round = mark_ready-Round q now d i ts v e due in
        let (r, eq, x) =
          expire_from-Expired fuel now (count + 1) (mark_ready i q).0 ts round.timers round.valid
            (omega arith) in
        (
          r,
          ground arith,
          record {
            valid = x.valid;
            expiry = λ j. x.expiry j ∙ round.expiry j;
            counted = ground (arith, x.counted, round.timers);
          },
        )
  ]

  -- From a valid queue the loop ends within its fuel, and the queue that it leaves is valid.
  -- Every entry keeps its task, deadline and origin; the ones that become ready are those whose
  -- deadline is at or before `now`; and the result counts the timers that left the index.
  pub expire_timers_lem :
      (now : ℕ) (q : TaskQueue T)
      → IsValid q
      → (r : TaskQueue T × ℕ) × (expire_timers now q ≡ some r)
        × IsValid r.0
        × ((j : ℕ) → HashMap.get j r.0.entries ≡ after_expiry now (HashMap.get j q.entries))
        × (r.1 + length r.0.timers ≡ length q.timers)
  unfolding expire_timers
  expire_timers_lem now q v =
      let (r, eq, x) =
        expire_from-Expired (suc (length q.timers)) now 0 q q.timers refl v (omega arith) in
      (r, eq, x.valid, x.expiry, omega (arith, x.counted))
