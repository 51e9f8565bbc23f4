-- ===== src/EventLoop/Registry/Snapshot.antt =====
-- `pending_work` and `ensure_idle_for_snapshot` of crates/core-runtime/src/event_loop.rs. The
-- message that `ensure_idle_for_snapshot` makes of the work is left as the list of its items.
use starlingmonkey_ng.Prelude.{
  ℕ, zero, suc, ◌+◌, ◌-◌, ◌≤◌, ◌≡◌, refl, ◌↔◌, Bool, true, false, Option, none, some, List, [], ◌∷◌,
  ◌++◌, String, map, arith, if◌then◌else◌, ltb, length, not, length-append,
}
use starlingmonkey_ng.EventLoop.TaskQueue.{TaskEntry}
use starlingmonkey_ng.EventLoop.Interest.{has_interest}
use starlingmonkey_ng.EventLoop.Registry.{EventLoop, is_alive, has_pending}

-- The text of a task's kind is that of `Task::kind`.
pub data PendingKind : Type 0 where
  pending_timer : String → PendingKind
  pending_task : String → PendingKind
  interest future send : PendingKind

pub record PendingWork : Type 0 where
  pub kind : PendingKind
  pub origin : Option String

abbrev of_origin : PendingKind → Option String → PendingWork
of_origin kind origin = record { kind = kind; origin = origin }

repeat_work : ℕ → PendingWork → List PendingWork
repeat_work zero w = []
repeat_work (suc n) w = w ∷ repeat_work n w

length-repeat_work : (n : ℕ) (w : PendingWork) → length (repeat_work n w) ≡ n
unfolding repeat_work
length-repeat_work zero w = refl
length-repeat_work (suc n) w = omega (arith, length-repeat_work n w)

length-map : {A B : Type 0} (f : A → B) (xs : List A) → length (map f xs) ≡ length xs
length-map f [] = refl
length-map f (x ∷ xs) = omega (arith, length-map f xs)

abbrev is_empty : {A : Type 0} → List A → Bool
is_empty [] = true
is_empty (x ∷ xs) = false

is_empty-length : {A : Type 0} (xs : List A) → (is_empty xs ≡ true) ↔ (length xs ≡ 0)
is_empty-length [] = ground arith
is_empty-length (x ∷ xs) = ground arith

is_nil-length : {A : Type 0} (xs : List A) → (xs ≡ []) ↔ (length xs ≡ 0)
is_nil-length [] = ground arith
is_nil-length (x ∷ xs) = ground arith

-- `Result<(), String>`, where the error carries the items of the message.
pub data SnapshotResult : Type 0 where
  ok : SnapshotResult
  err : List PendingWork → SnapshotResult

module _ {T : Type 0} where
  -- `sort_unstable_by_key`: the ids are distinct, so the order is determined.
  insert_by_id : TaskEntry T → List (TaskEntry T) → List (TaskEntry T)
  insert_by_id e [] = e ∷ []
  insert_by_id e (f ∷ fs) = if ltb f.id e.id then f ∷ insert_by_id e fs else e ∷ f ∷ fs

  sort_by_id : List (TaskEntry T) → List (TaskEntry T)
  unfolding insert_by_id
  sort_by_id [] = []
  sort_by_id (e ∷ es) = insert_by_id e (sort_by_id es)

  abbrev kind_of : (T → String) → TaskEntry T → PendingKind
  kind_of task_kind e = elim e.deadline [
    | none ↦ pending_task (task_kind e.task)
    | some d ↦ pending_timer (task_kind e.task)
  ]

  -- `task_kind` is `Task::kind`; the origins of the futures in flight are an argument
  -- (`js::promise::pending_future_origins`). The count of interest without an origin is a subtraction
  -- of `usize`, here one that stops at 0.
  pending_work : (T → String) → List (Option String) → EventLoop T → List PendingWork
  unfolding sort_by_id repeat_work
  pending_work task_kind futures el =
      map (λ e. of_origin (kind_of task_kind e) e.origin)
        (sort_by_id (map (λ p. p.1) el.tasks.entries))
      ++ (map (λ p. of_origin interest (some p.1)) el.interest.origins
          ++ (repeat_work (el.interest.count - length el.interest.origins) (of_origin interest none)
              ++ (map (of_origin future) futures
                  ++ map (λ s. of_origin send s.1) el.pending_sends)))

  unfoldable pub ensure_idle_for_snapshot :
      (T → String) → List (Option String) → EventLoop T → SnapshotResult
  unfolding pending_work
  ensure_idle_for_snapshot task_kind futures el =
      let work = pending_work task_kind futures el in if is_empty work then ok else err work

  length-insert_by_id :
      (e : TaskEntry T) (es : List (TaskEntry T)) → length (insert_by_id e es) ≡ suc (length es)
  unfolding insert_by_id
  length-insert_by_id e [] = refl
  length-insert_by_id e (f ∷ fs) = ground (arith, length-insert_by_id e fs)

  length-sort_by_id : (es : List (TaskEntry T)) → length (sort_by_id es) ≡ length es
  unfolding sort_by_id
  length-sort_by_id [] = refl
  length-sort_by_id (e ∷ es) =
      omega (arith, length-insert_by_id e (sort_by_id es), length-sort_by_id es)

  length-pending_work :
      (task_kind : T → String) (futures : List (Option String)) (el : EventLoop T)
      → length el.interest.origins ≤ el.interest.count
      → length (pending_work task_kind futures el)
        ≡ length el.tasks.entries + el.interest.count + length futures + length el.pending_sends
  unfolding pending_work
  length-pending_work task_kind futures el le =
      grind (arith, le, length-append, length-map, length-repeat_work, length-sort_by_id)

  ensure_idle-length :
      (task_kind : T → String) (futures : List (Option String)) (el : EventLoop T)
      → (ensure_idle_for_snapshot task_kind futures el ≡ ok)
        ↔ (length (pending_work task_kind futures el) ≡ 0)
  unfolding ensure_idle_for_snapshot
  ensure_idle-length task_kind futures el =
      ground (arith, is_empty-length (pending_work task_kind futures el))

  is_alive-length :
      (futures : List (Option String)) (el : EventLoop T)
      → (is_alive (not (is_empty futures)) el ≡ false)
        ↔ (length el.tasks.entries + el.interest.count + length futures ≡ 0)
  unfolding is_alive has_pending has_interest
  is_alive-length futures el = ground (arith, is_empty-length futures)

  -- With no more origins recorded than handles counted, the snapshot is allowed just when the loop is
  -- not alive (no task, no external interest, no future) and no send is pending.
  pub ensure_idle_for_snapshot_lem :
      (task_kind : T → String) (futures : List (Option String)) (el : EventLoop T)
      → length el.interest.origins ≤ el.interest.count
      → (ensure_idle_for_snapshot task_kind futures el ≡ ok)
        ↔ ((is_alive (not (is_empty futures)) el ≡ false) × (el.pending_sends ≡ []))
  ensure_idle_for_snapshot_lem task_kind futures el le = ground (
    arith,
    ensure_idle-length task_kind futures el,
    is_alive-length futures el,
    is_nil-length el.pending_sends,
    length-pending_work task_kind futures el le,
  )
