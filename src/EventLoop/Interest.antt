-- ===== src/EventLoop/Interest.antt =====
-- crates/core-runtime/src/event_loop/interest.rs: the keep-alive count of a loop. A handle is the
-- loop that it was acquired from and its key in `origins`; `notified` counts the wake-ups of the
-- driver of that loop, whose notification the count shares.
pub mod Trackers
pub mod Balance
use starlingmonkey_ng.Prelude.{
  ℕ, zero, suc, ◌+◌, ◌-◌, ◌%◌, ◌^◌, Bool, Option, none, some, List, [], String, map, if◌then◌else◌,
  ltb, ◌==◌,
}
use starlingmonkey_ng.Collections.HashMap
use starlingmonkey_ng.Collections.HashMap.{HashMap}

pub record InterestState : Type 0 where
  pub count : ℕ
  pub origins : HashMap String
  pub next_origin_key : ℕ
  pub notified : ℕ

unfoldable pub new : InterestState
new = record { count = 0; origins = []; next_origin_key = 0; notified = 0 }

-- The entry that an acquisition leaves in `origins`, and the key that its handle keeps.
unfoldable pub record_origin : Option String → InterestState → InterestState × Option ℕ
record_origin none s = (s, none)
record_origin (some origin) s = (
  record s {
    next_origin_key = (s.next_origin_key + 1) % 2 ^ 64;
    origins = HashMap.insert s.next_origin_key origin s.origins;
  },
  some s.next_origin_key,
)

-- `none` is the panic of `checked_add` on a `u32`. The first argument is what
-- `js::stack::current_origin` answers.
unfoldable pub acquire_handle : Option String → InterestState → Option (InterestState × Option ℕ)
acquire_handle origin s =
    if ltb (s.count + 1) (2 ^ 32)
    then some (record_origin origin (record s { count = s.count + 1 }))
    else none

unfoldable pub forget_origin : Option ℕ → HashMap String → HashMap String
forget_origin none origins = origins
forget_origin (some key) origins = HashMap.remove key origins

unfoldable pub dropped : Option ℕ → InterestState → InterestState
unfolding forget_origin
dropped origin s = record s {
  count = s.count - 1;
  origins = forget_origin origin s.origins;
  notified = s.notified + 1;
}

-- Dropping a handle; `none` is the panic of `checked_sub`.
unfoldable pub drop_handle : Option ℕ → InterestState → Option InterestState
drop_handle origin s = if s.count == 0 then none else some (dropped origin s)

unfoldable pub has_interest : InterestState → Bool
has_interest s = ltb 0 s.count
