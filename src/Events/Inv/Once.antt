-- ===== src/Events/Inv/Once.antt =====
-- The listeners that are called once (`invoke_listeners` of events/algorithms.rs,
-- crates/builtins/web-globals/src) are gone after the round that calls them.
pub mod Rounds
use starlingmonkey_ng.Prelude.{
  ℕ, ◌≤◌, ◌<◌, ◌≡◌, Bool, true, false, ◌&&◌, ◌||◌, List, [], ◌∷◌, All, arith, ◌==◌, if_cases,
}
use starlingmonkey_ng.Web.Text.{Text, text_eq}
use starlingmonkey_ng.Events.{EventListener, Realm, flags_of}
use starlingmonkey_ng.Events.Listeners.Distinct.{IsDistinct}
use starlingmonkey_ng.Events.Dispatch.{ListenerSnapshot, snapshots}
use starlingmonkey_ng.Events.Inv.{IsValid}

-- A listener of this type and id is called once.
abbrev pub once_listener : Text → ℕ → List EventListener → Bool
once_listener event_type id [] = false
once_listener event_type id (l ∷ ls) =
    (text_eq l.event_type event_type && (l.once && l.id == id)) || once_listener event_type id ls

pub once_listener-below :
    (event_type : Text) (id : ℕ) (ls : List EventListener) (n : ℕ)
    → IsDistinct n ls
    → once_listener event_type id ls ≡ true
    → id < n
once_listener-below event_type id [] n d h = absurd (cc h)
once_listener-below event_type id (l ∷ ls) n (below, no_id, no_same, d) h =
    ground (arith, h, below, once_listener-below event_type id ls n d)

abbrev pub once_snapshot : ℕ → List ListenerSnapshot → Bool
once_snapshot id [] = false
once_snapshot id (s ∷ ss) = (s.once && s.id == id) || once_snapshot id ss

pub snapshots-once :
    (event_type : Text) (id : ℕ) (ls : List EventListener)
    → once_listener event_type id ls ≡ true
    → once_snapshot id (snapshots event_type ls) ≡ true
unfolding snapshots
snapshots-once event_type id [] h = absurd (cc h)
snapshots-once event_type id (l ∷ ls) h = ground (arith, h, snapshots-once event_type id ls)

abbrev pub AllBelow : ℕ → List ListenerSnapshot → Type 0
AllBelow n = All (λ s. s.id < n)

pub AllBelow-weaken : (n m : ℕ) (ss : List ListenerSnapshot) → n ≤ m → AllBelow n ss → AllBelow m ss
AllBelow-weaken n m [] l h = tt
AllBelow-weaken n m (s ∷ ss) l (below, h) = (omega (arith, l, below), AllBelow-weaken n m ss l h)

pub snapshots-AllBelow :
    (event_type : Text) (n : ℕ) (ls : List EventListener)
    → IsDistinct n ls
    → AllBelow n (snapshots event_type ls)
unfolding snapshots
snapshots-AllBelow event_type n [] d = tt
snapshots-AllBelow event_type n (l ∷ ls) (below, no_id, no_same, d) =
    if_cases (AllBelow n) (text_eq l.event_type event_type)
      (λ _. (below, snapshots-AllBelow event_type n ls d))
      (λ _. snapshots-AllBelow event_type n ls d)

-- The event is being dispatched.
abbrev pub IsDispatched : ℕ → Realm → Type 0
IsDispatched e w = IsValid w × (e < w.next_event) × ((flags_of e w).dispatching ≡ true)
