-- ===== src/EventLoop/Registry/Ids.antt =====
-- The ids of `EventLoop::allocate_js_timer_id` (crates/core-runtime/src/event_loop.rs).
use starlingmonkey_ng.Prelude.{
  ℕ, zero, suc, ◌+◌, ◌≤◌, ◌<◌, ◌≡◌, refl, ◌∙◌, true, false, not, ◌&&◌, none, some, [], ◌∷◌, arith,
  inl, inr, Bool-cases, if◌then◌else◌, leb, ◌==◌, length,
}
use starlingmonkey_ng.Collections.HashMap
use starlingmonkey_ng.Collections.HashMap.{HashMap}
use starlingmonkey_ng.EventLoop.Registry.{
  JsTimer, max_counter, next_global_counter, allocate_js_timer_id,
}

-- How many keys of the map the counter can still meet.
abbrev pub keys_from : ℕ → HashMap JsTimer → ℕ
keys_from c [] = 0
keys_from c ((k, t) ∷ m) = (if leb c k then 1 else 0) + keys_from c m

keys_from-suc-le : (c : ℕ) (m : HashMap JsTimer) → keys_from (c + 1) m ≤ keys_from c m
keys_from-suc-le c [] = omega arith
keys_from-suc-le c ((k, t) ∷ m) = ground (arith, keys_from-suc-le c m)

keys_from-suc-lt :
    (c : ℕ) (m : HashMap JsTimer)
    → HashMap.contains_key c m ≡ true
    → keys_from (c + 1) m < keys_from c m
unfolding HashMap.contains_key HashMap.get
keys_from-suc-lt c [] h = cc
keys_from-suc-lt c ((k, t) ∷ m) h = ground (arith, keys_from-suc-le c m, keys_from-suc-lt c m)

pub keys_from-le-length : (c : ℕ) (m : HashMap JsTimer) → keys_from c m ≤ length m
keys_from-le-length c [] = omega arith
keys_from-le-length c ((k, t) ∷ m) = ground (arith, keys_from-le-length c m)

-- The rounds that start at `c` skip 0 and the keys from `c` on.
abbrev pub rounds : ℕ → HashMap JsTimer → ℕ
rounds c m = keys_from c m + (if c == 0 then 1 else 0)

rounds-le : (c : ℕ) (m : HashMap JsTimer) → rounds c m ≤ length m + 1
rounds-le c m = ground (arith, keys_from-le-length c m)

next_global_counter-below : (c : ℕ) → c < max_counter → next_global_counter c ≡ some (c, c + 1)
unfolding next_global_counter
next_global_counter-below c h = ground arith

-- What a successful allocation gives.
pub record Allocated (c : ℕ) (m : HashMap JsTimer) (id c' : ℕ) : Type 0 where
  pub positive : 0 < id
  pub unused : HashMap.get id m ≡ none
  pub from : c ≤ id
  pub next : c' ≡ id + 1

retry :
    (fuel c : ℕ) (m : HashMap JsTimer)
    → c < max_counter
    → (not (c == 0) && not (HashMap.contains_key c m)) ≡ false
    → allocate_js_timer_id (suc fuel) c m ≡ allocate_js_timer_id fuel (c + 1) m
unfolding allocate_js_timer_id
retry fuel c m small used = ground (arith, next_global_counter-below c small)

found :
    (fuel c : ℕ) (m : HashMap JsTimer)
    → c < max_counter
    → (not (c == 0) && not (HashMap.contains_key c m)) ≡ true
    → allocate_js_timer_id (suc fuel) c m ≡ some (c, c + 1)
unfolding allocate_js_timer_id
found fuel c m small free = ground (arith, next_global_counter-below c small)

rounds-suc-lt :
    (c : ℕ) (m : HashMap JsTimer)
    → (not (c == 0) && not (HashMap.contains_key c m)) ≡ false
    → rounds (c + 1) m < rounds c m
rounds-suc-lt c m used = elim (Bool-cases (HashMap.contains_key c m)) [
  | inl h ↦ ground (arith, keys_from-suc-lt c m h)
  | inr h ↦ ground (arith, keys_from-suc-le c m)
]

free-Allocated :
    (c : ℕ) (m : HashMap JsTimer)
    → (not (c == 0) && not (HashMap.contains_key c m)) ≡ true
    → Allocated c m c (c + 1)
unfolding HashMap.contains_key
free-Allocated c m free = ground arith

pub allocate-Allocated :
    (fuel c : ℕ) (m : HashMap JsTimer)
    → rounds c m < fuel
    → c + rounds c m < max_counter
    → (id : ℕ) × (allocate_js_timer_id fuel c m ≡ some (id, id + 1))
      × Allocated c m id (id + 1)
      × (id ≤ c + rounds c m)
allocate-Allocated zero c m h room = absurd (omega arith)
allocate-Allocated (suc fuel) c m h room =
    elim (Bool-cases (not (c == 0) && not (HashMap.contains_key c m))) [
      | inl free ↦ (c, found fuel c m (omega arith) free, free-Allocated c m free, omega arith)
      | inr used ↦
          let less = rounds-suc-lt c m used in
          let (id, e, a, le) =
            allocate-Allocated fuel (c + 1) m (omega (arith, less)) (omega (arith, less)) in
          (
            id,
            retry fuel c m (omega arith) used ∙ e,
            record {
              positive = a.positive;
              unused = a.unused;
              from = omega (arith, a.from);
              next = refl;
            },
            omega (arith, le, less),
          )
    ]

-- While the counter of the global is below its limit by the number of live timers, the loop ends
-- within its fuel. It answers an id that is positive, that no timer of the map has, and that the
-- counter had not passed; the counter ends just above it.
pub allocate_js_timer_id_lem :
    (counter : ℕ) (m : HashMap JsTimer)
    → counter + length m + 1 < max_counter
    → (id : ℕ) × (allocate_js_timer_id (length m + 2) counter m ≡ some (id, id + 1))
      × (0 < id)
      × (HashMap.get id m ≡ none)
      × (counter ≤ id)
      × (id ≤ counter + length m + 1)
allocate_js_timer_id_lem c m room =
    let le = rounds-le c m in
    let (id, e, a, bound) =
      allocate-Allocated (length m + 2) c m (omega (arith, le)) (omega (arith, le)) in
    (id, e, a.positive, a.unused, a.from, omega (arith, bound, le))

-- The ids in use stay below a counter that only grows.
pub keys_from_mono : (c d : ℕ) (m : HashMap JsTimer) → c ≤ d → keys_from d m ≤ keys_from c m
keys_from_mono c d [] h = omega arith
keys_from_mono c d ((k, t) ∷ m) h = ground (arith, keys_from_mono c d m h)

pub keys_from-insert :
    (c k : ℕ) (t : JsTimer) (m : HashMap JsTimer)
    → k < c
    → keys_from c (HashMap.insert k t m) ≤ keys_from c m
unfolding HashMap.insert
keys_from-insert c k t [] h = ground arith
keys_from-insert c k t ((j, s) ∷ m) h = ground (arith, keys_from-insert c k t m h)

pub keys_from-remove :
    (c k : ℕ) (m : HashMap JsTimer) → keys_from c (HashMap.remove k m) ≤ keys_from c m
unfolding HashMap.remove
keys_from-remove c k [] = omega arith
keys_from-remove c k ((j, s) ∷ m) = ground (arith, keys_from-remove c k m)
