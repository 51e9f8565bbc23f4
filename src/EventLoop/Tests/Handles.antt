-- ===== src/EventLoop/Tests/Handles.antt =====
-- Interest handles on concrete inputs.
use starlingmonkey_ng.Prelude.{
  ℕ, ◌<◌, ◌≡◌, ◌↔◌, true, none, some, [], ◌∷◌, arith, if◌then◌else◌, ◌==◌,
}
use starlingmonkey_ng.EventLoop.Interest
use starlingmonkey_ng.EventLoop.Interest.{has_interest}
use starlingmonkey_ng.EventLoop.Interest.Trackers.{
  InterestHandle, Trackers, acquire, drop, act_all, start,
}
use starlingmonkey_ng.EventLoop.Interest.Balance.{held_on, act_all_balance}

act_all_balance_example :
    (t : Trackers) × (act_all (acquire 0 (some "at f") ∷ acquire 1 none ∷ drop 1 ∷ []) start
      ≡ some t)
    × ((l : ℕ) → (t.states l).count ≡ held_on l t.held)
    × ((l : ℕ) → (has_interest (t.states l) ≡ true) ↔ (0 < held_on l t.held))
act_all_balance_example =
    act_all_balance (acquire 0 (some "at f") ∷ acquire 1 none ∷ drop 1 ∷ []) (omega arith)

-- One handle, held on loop 1.
abbrev one_handle : InterestHandle
one_handle = record { owner = 1; origin = none }

abbrev one_held : Trackers
one_held = record {
  states = λ l. record (Interest.new) { count = if l == 1 then 1 else 0 };
  held = one_handle ∷ [];
}
