-- ===== src/EventLoop/Interest/Balance.antt =====
-- The counts of several loops and the handles held on them (crates/core-
-- runtime/src/event_loop/interest.rs).
use starlingmonkey_ng.Prelude.{
  ℕ, zero, suc, ◌+◌, ◌^◌, ◌≤◌, ◌<◌, ◌≡◌, refl, true, Option, none, some, List, [], ◌∷◌, String,
  arith, inl, inr, if◌then◌else◌, ◌==◌, length, Option-cases, lt→ltb, ◌↔◌,
}
use starlingmonkey_ng.EventLoop.Interest.{
  InterestState, new, record_origin, dropped, acquire_handle, drop_handle, has_interest,
}
use starlingmonkey_ng.EventLoop.Interest.Trackers.{
  InterestHandle, Trackers, Action, acquire, drop, update, take_at, act, act_all, start,
}

-- How many of the handles were acquired from a loop.
abbrev pub held_on : ℕ → List InterestHandle → ℕ
held_on l [] = 0
held_on l (h ∷ hs) = (if l == h.owner then 1 else 0) + held_on l hs

abbrev pub Balanced : Trackers → Type 0
Balanced t = (l : ℕ) → (t.states l).count ≡ held_on l t.held

held_on-take_at :
    (l i : ℕ) (hs : List InterestHandle) {h : InterestHandle} {rest : List InterestHandle}
    → take_at i hs ≡ some (h, rest)
    → held_on l hs ≡ (if l == h.owner then 1 else 0) + held_on l rest
held_on-take_at l i [] e = cc
held_on-take_at l zero (x ∷ hs) e = ground arith
held_on-take_at l (suc i) (x ∷ hs) e = elim (Option-cases (take_at i hs)) [
  | inl p ↦ ground arith
  | inr ((h, rest), p) ↦ ground (arith, held_on-take_at l i hs p)
]

length-take_at :
    (i : ℕ) (hs : List InterestHandle) {h : InterestHandle} {rest : List InterestHandle}
    → take_at i hs ≡ some (h, rest)
    → length rest + 1 ≡ length hs
length-take_at i [] e = cc
length-take_at zero (x ∷ hs) e = ground arith
length-take_at (suc i) (x ∷ hs) e = elim (Option-cases (take_at i hs)) [
  | inl p ↦ ground arith
  | inr ((h, rest), p) ↦ ground (arith, length-take_at i hs p)
]

held_on-le-length : (l : ℕ) (hs : List InterestHandle) → held_on l hs ≤ length hs
held_on-le-length l [] = omega arith
held_on-le-length l (h ∷ hs) = ground (arith, held_on-le-length l hs)

count-record_origin :
    (origin : Option String) (s : InterestState) → (record_origin origin s).0.count ≡ s.count
unfolding record_origin
count-record_origin none s = refl
count-record_origin (some o) s = refl

abbrev acquired : Option String → InterestState → InterestState × Option ℕ
acquired origin s = record_origin origin (record s { count = s.count + 1 })

acquire_handle-acquired :
    (origin : Option String) (s : InterestState)
    → s.count + 1 < 2 ^ 32
    → acquire_handle origin s ≡ some (acquired origin s)
unfolding acquire_handle
acquire_handle-acquired origin s h = rw (lt→ltb _ _ h)

drop_handle-dropped :
    (origin : Option ℕ) (s : InterestState)
    → 0 < s.count
    → drop_handle origin s ≡ some (dropped origin s)
unfolding drop_handle
drop_handle-dropped origin s h = ground arith

-- What one action does: it does not panic, and keeps the balance.
abbrev Kept : Action → Trackers → Type 0
Kept a t =
    (t' : Trackers) × (act a t ≡ some t') × Balanced t' × (length t'.held ≤ length t.held + 1)

act-acquire :
    (owner : ℕ) (origin : Option String) (t : Trackers)
    → Balanced t
    → length t.held + 1 < 2 ^ 32
    → Kept (acquire owner origin) t
unfolding act
act-acquire owner origin t b room = (
  record {
    states = update t.states owner (acquired origin (t.states owner)).0;
    held = record { owner = owner; origin = (acquired origin (t.states owner)).1 } ∷ t.held;
  },
  rw (acquire_handle-acquired origin (t.states owner) few, act),
  (λ l. ground (
    arith,
    b l,
    b owner,
    count-record_origin origin (record (t.states owner) { count = (t.states owner).count + 1 }),
  )),
  omega arith,
)
  where
    few : (t.states owner).count + 1 < 2 ^ 32
    few = omega (arith, b owner, held_on-le-length owner t.held)

abbrev after_drop : Trackers → InterestHandle → List InterestHandle → Trackers
after_drop t h rest = record {
  states = update t.states h.owner (dropped h.origin (t.states h.owner));
  held = rest;
}

act-after_drop :
    (i : ℕ) (t : Trackers) (h : InterestHandle) (rest : List InterestHandle)
    → Balanced t
    → take_at i t.held ≡ some (h, rest)
    → act (drop i) t ≡ some (after_drop t h rest)
unfolding act
act-after_drop i t h rest b e =
    rw (e, act, drop_handle-dropped h.origin (t.states h.owner) some_held)
  where
    some_held : 0 < (t.states h.owner).count
    some_held = ground (arith, b h.owner, held_on-take_at h.owner i t.held e)

act-drop :
    (i : ℕ) (t : Trackers) {h : InterestHandle} {rest : List InterestHandle}
    → Balanced t
    → take_at i t.held ≡ some (h, rest)
    → Kept (drop i) t
unfolding dropped
act-drop i t {h} {rest} b e = (
  after_drop t h rest,
  act-after_drop i t h rest b e,
  (λ l.
      ground
        (arith, b l, b h.owner, held_on-take_at l i t.held e, held_on-take_at h.owner i t.held e)),
  omega (arith, length-take_at i t.held e),
)

act-Kept : (a : Action) (t : Trackers) → Balanced t → length t.held + 1 < 2 ^ 32 → Kept a t
unfolding act
act-Kept (acquire owner origin) t b room = act-acquire owner origin t b room
act-Kept (drop i) t b room = elim (Option-cases (take_at i t.held)) [
  | inl e ↦ (t, rw (e, act), b, omega arith)
  | inr ((h, rest), e) ↦ act-drop i t b e
]

act_all-Balanced :
    (as' : List Action) (t : Trackers)
    → Balanced t
    → length t.held + length as' < 2 ^ 32
    → (t' : Trackers) × (act_all as' t ≡ some t') × Balanced t'
unfolding act_all
act_all-Balanced [] t b room = (t, refl, b)
act_all-Balanced (a ∷ as') t b room =
    let (t', e, b', le) = act-Kept a t b (omega arith) in
    let (t'', e', b'') = act_all-Balanced as' t' b' (omega arith) in (t'', rw (e, act_all) e', b'')

-- Whatever fewer than 2^32 acquisitions and drops are made, in any order and on any loops, none
-- panics. Afterwards a loop's count is the number of handles held on it, and the loop reports
-- interest just when such a handle is held.
pub act_all_balance :
    (actions : List Action)
    → length actions < 2 ^ 32
    → (t : Trackers) × (act_all actions start ≡ some t)
      × ((l : ℕ) → (t.states l).count ≡ held_on l t.held)
      × ((l : ℕ) → (has_interest (t.states l) ≡ true) ↔ (0 < held_on l t.held))
unfolding new has_interest
act_all_balance actions room =
    let (t, e, b) = act_all-Balanced actions start (λ l. refl) (omega arith) in
    (t, e, b, λ l. ground (arith, b l))
