-- ===== src/Events/Listeners/Distinct.antt =====
-- Listener lists (events/algorithms.rs of crates/builtins/web-globals/src) without two listeners of
-- one id, and without two of one type, callback and `capture`.
use starlingmonkey_ng.Prelude.{
  ℕ, ◌+◌, ◌≤◌, ◌<◌, ◌≡◌, Bool, true, false, ◌||◌, none, List, [], ◌∷◌, ◌++◌, arith, ◌==◌, if_cases,
}
use starlingmonkey_ng.Web.Text.{text_eq_iff}
use starlingmonkey_ng.Events.{EventListener}
use starlingmonkey_ng.Events.Listeners.{is_same, find_id, discard}
use starlingmonkey_ng.Events.Dispatch.{has_id, remove_at_id}

-- Whether a listener is of the type, callback and `capture` of another.
abbrev pub same_as : EventListener → EventListener → Bool
same_as l = is_same l.event_type l.callback l.capture

abbrev pub has_same : EventListener → List EventListener → Bool
has_same l [] = false
has_same l (k ∷ ks) = same_as l k || has_same l ks

-- The ids are below `n`.
abbrev pub IsDistinct : ℕ → List EventListener → Type 0
IsDistinct n [] = Unit
IsDistinct n (l ∷ ls) =
    (l.id < n) × (has_id l.id ls ≡ false) × (has_same l ls ≡ false) × IsDistinct n ls

pub IsDistinct-weaken :
    (n m : ℕ) (ls : List EventListener) → n ≤ m → IsDistinct n ls → IsDistinct m ls
IsDistinct-weaken n m [] l d = tt
IsDistinct-weaken n m (k ∷ ks) l (below, no_id, no_same, d) =
    (omega (arith, l, below), no_id, no_same, IsDistinct-weaken n m ks l d)

pub has_id-below :
    (n id : ℕ) (ls : List EventListener) → IsDistinct n ls → has_id id ls ≡ true → id < n
has_id-below n id [] d h = absurd (cc h)
has_id-below n id (l ∷ ls) d h = ground (arith, h, d.0, has_id-below n id ls d.3)

pub has_id-discard :
    (test : EventListener → Bool) (id : ℕ) (ls : List EventListener)
    → has_id id ls ≡ false
    → has_id id (discard test ls) ≡ false
has_id-discard test id [] h = h
has_id-discard test id (l ∷ ls) h = ground (arith, h, has_id-discard test id ls)

has_same-discard :
    (test : EventListener → Bool) (k : EventListener) (ls : List EventListener)
    → has_same k ls ≡ false
    → has_same k (discard test ls) ≡ false
has_same-discard test k [] h = h
has_same-discard test k (l ∷ ls) h = ground (arith, h, has_same-discard test k ls)

pub discard-IsDistinct :
    (n : ℕ) (test : EventListener → Bool) (ls : List EventListener)
    → IsDistinct n ls
    → IsDistinct n (discard test ls)
discard-IsDistinct n test [] d = d
discard-IsDistinct n test (l ∷ ls) (below, no_id, no_same, d) =
    if_cases (IsDistinct n) (test l) (λ _. discard-IsDistinct n test ls d)
      (λ _. (
        below,
        has_id-discard test l.id ls no_id,
        has_same-discard test l ls no_same,
        discard-IsDistinct n test ls d,
      ))

pub has_id-remove_at_id :
    (i id : ℕ) (ls : List EventListener)
    → has_id id ls ≡ false
    → has_id id (remove_at_id i ls) ≡ false
has_id-remove_at_id i id [] h = h
has_id-remove_at_id i id (l ∷ ls) h = ground (arith, h, has_id-remove_at_id i id ls)

has_same-remove_at_id :
    (i : ℕ) (k : EventListener) (ls : List EventListener)
    → has_same k ls ≡ false
    → has_same k (remove_at_id i ls) ≡ false
has_same-remove_at_id i k [] h = h
has_same-remove_at_id i k (l ∷ ls) h = ground (arith, h, has_same-remove_at_id i k ls)

pub remove_at_id-IsDistinct :
    (n i : ℕ) (ls : List EventListener) → IsDistinct n ls → IsDistinct n (remove_at_id i ls)
remove_at_id-IsDistinct n i [] d = d
remove_at_id-IsDistinct n i (l ∷ ls) (below, no_id, no_same, d) =
    if_cases (IsDistinct n) (l.id == i) (λ _. d)
      (λ _. (
        below,
        has_id-remove_at_id i l.id ls no_id,
        has_same-remove_at_id i l ls no_same,
        remove_at_id-IsDistinct n i ls d,
      ))

-- The listener of an id is removed.
pub remove_at_id-gone :
    (n id : ℕ) (ls : List EventListener) → IsDistinct n ls → has_id id (remove_at_id id ls) ≡ false
remove_at_id-gone n id [] d = ground arith
remove_at_id-gone n id (l ∷ ls) d = ground (arith, d.1, remove_at_id-gone n id ls d.3)

has_id-append :
    (id : ℕ) (ls : List EventListener) (l : EventListener)
    → has_id id (ls ++ l ∷ []) ≡ (has_id id ls || l.id == id)
has_id-append id [] l = ground arith
has_id-append id (k ∷ ks) l = ground (arith, has_id-append id ks l)

pub append-gone :
    (n id : ℕ) (ls : List EventListener) (l : EventListener)
    → l.id ≡ n
    → id < n
    → has_id id ls ≡ false
    → has_id id (ls ++ l ∷ []) ≡ false
append-gone n id ls l e b h = ground (arith, has_id-append id ls l, e, b, h)

has_same-append :
    (k : EventListener) (ls : List EventListener) (l : EventListener)
    → has_same k (ls ++ l ∷ []) ≡ (has_same k ls || same_as k l)
has_same-append k [] l = ground arith
has_same-append k (j ∷ js) l = ground (arith, has_same-append k js l)

-- Of two listeners, neither is like the other.
same_as-sym : (k l : EventListener) → same_as l k ≡ false → same_as k l ≡ false
same_as-sym k l h =
    ground (arith, h, text_eq_iff k.event_type l.event_type, text_eq_iff l.event_type k.event_type)

pub append-IsDistinct :
    (n : ℕ) (ls : List EventListener) (l : EventListener)
    → l.id ≡ n
    → find_id (same_as l) ls ≡ none
    → IsDistinct n ls
    → IsDistinct (n + 1) (ls ++ l ∷ [])
append-IsDistinct n [] l e h d = (omega (arith, e), ground arith, ground arith, tt)
append-IsDistinct n (k ∷ ks) l e h (below, no_id, no_same, d) = (
  omega (arith, below),
  ground (arith, has_id-append k.id ks l, no_id, below, e),
  ground (arith, has_same-append k ks l, no_same, same_as-sym k l (ground (arith, h))),
  append-IsDistinct n ks l e (ground (arith, h)) d,
)
