-- ===== src/EventLoop/Interest/Trackers.antt =====
-- The handles of several loops, as `InterestHandle` of
-- crates/core-runtime/src/event_loop/interest.rs keeps them: a handle owns a reference to the
-- tracker of the loop that it was acquired from.
use starlingmonkey_ng.Prelude.{
  ℕ, zero, suc, Option, none, some, List, [], ◌∷◌, String, if◌then◌else◌, ◌==◌,
}
use starlingmonkey_ng.EventLoop.Interest.{InterestState, new, acquire_handle, drop_handle}

-- `InterestHandle`: its `state` is the tracker of loop `owner`.
pub record InterestHandle : Type 0 where
  pub owner : ℕ
  pub origin : Option ℕ

-- Every tracker, by its loop, and the handles that are held.
pub record Trackers : Type 0 where
  pub states : ℕ → InterestState
  pub held : List InterestHandle

-- Any code may acquire a handle from a loop, and drop the held handle of some position.
pub data Action : Type 0 where
  acquire : ℕ → Option String → Action
  drop : ℕ → Action

abbrev pub update : (ℕ → InterestState) → ℕ → InterestState → ℕ → InterestState
update f i s j = if j == i then s else f j

abbrev pub take_at : ℕ → List InterestHandle → Option (InterestHandle × List InterestHandle)
take_at i [] = none
take_at zero (h ∷ hs) = some (h, hs)
take_at (suc i) (h ∷ hs) = elim (take_at i hs) [ none ↦ none | some (x, rest) ↦ some (x, h ∷ rest) ]

-- `none` is a panic. Dropping at a position where no handle is held does nothing.
unfoldable pub act : Action → Trackers → Option Trackers
act (acquire owner origin) t = elim (acquire_handle origin (t.states owner)) [
  | none ↦ none
  | some (s, key) ↦ some (record {
    states = update t.states owner s;
    held = record { owner = owner; origin = key } ∷ t.held;
  })
]
act (drop i) t = elim (take_at i t.held) [
  | none ↦ some t
  | some (h, rest) ↦ elim (drop_handle h.origin (t.states h.owner)) [
    | none ↦ none
    | some s ↦ some (record { states = update t.states h.owner s; held = rest })
  ]
]

unfoldable pub act_all : List Action → Trackers → Option Trackers
act_all [] t = some t
act_all (a ∷ as') t = elim (act a t) [ none ↦ none | some t' ↦ act_all as' t' ]

abbrev pub start : Trackers
start = record { states = λ _. new; held = [] }
