-- ===== src/Events/Inv/Signals/Dependent.antt =====
-- The invariant through `create_dependent_abort_signal` (signals/algorithms.rs,
-- crates/builtins/web-globals/src).
use starlingmonkey_ng.Prelude.{
  ℕ, ◌+◌, ◌<◌, ◌≡◌, refl, true, none, List, [], ◌∷◌, All, arith, option_cases_eq,
}
use starlingmonkey_ng.Events.{Realm, set_signal, is_undefined}
use starlingmonkey_ng.Events.Abort.{new_signal, first_aborted, create_dependent_abort_signal}
use starlingmonkey_ng.Events.Runs.{all_below}
use starlingmonkey_ng.Events.Inv.{IsValid, Post, Post-trans}
use starlingmonkey_ng.Events.Inv.Signals.{added-Post}
use starlingmonkey_ng.Events.Inv.Signals.Linking.{
  IsLinking, IsLinking-Grows, MayBeGiven, link_signals-IsLinking,
}

pub first_aborted-none :
    (ss : List ℕ) (w : Realm)
    → first_aborted ss w ≡ none
    → All (λ s. is_undefined (w.signals s).abort_reason ≡ true) ss
unfolding first_aborted
first_aborted-none [] w h = tt
first_aborted-none (s ∷ ss) w h = (ground (arith, h), first_aborted-none ss w (ground (arith, h)))

pub may_be_given :
    (n : ℕ) (u v : Realm) (ss : List ℕ)
    → all_below n ss ≡ true
    → u.next_target ≡ n + 1
    → ((k : ℕ) → k < n → (u.signals k).abort_reason ≡ (v.signals k).abort_reason)
    → All (λ s. is_undefined (v.signals s).abort_reason ≡ true) ss
    → All (MayBeGiven n u) ss
may_be_given n u v [] b next e h = tt
may_be_given n u v (s ∷ ss) b next e h = (
  (omega (arith, next, below), cc (e s below, h.0)),
  may_be_given n u v ss (ground (arith, b)) next e h.1,
)
  where
    below : s < n
    below = ground (arith, b)

-- The realm in which the new signal is linked.
abbrev pub unlinked : Realm → Realm
unlinked w =
    let w1 = (new_signal w).0 in
    set_signal w.next_target (record (w1.signals w.next_target) { dependent = true }) w1

unlinked-Post : (w : Realm) → IsValid w → Post w (unlinked w)
unfolding new_signal
unlinked-Post w v = added-Post _ w (λ k h. ground (arith, h)) (ground arith) (ground arith) v

pub unlinked-IsLinking : (w : Realm) → IsValid w → IsLinking w.next_target (unlinked w) (unlinked w)
unfolding new_signal
unlinked-IsLinking w v = record {
  valid = (unlinked-Post w v).0;
  there = omega arith;
  result = ground arith;
  same = refl;
  dependents = λ k. refl;
  reasons = λ k. refl;
  algorithms = λ k. refl;
}

pub unlinked-MayBeGiven :
    (ss : List ℕ) (w : Realm)
    → all_below w.next_target ss ≡ true
    → first_aborted ss (new_signal w).0 ≡ none
    → All (MayBeGiven w.next_target (unlinked w)) ss
unfolding new_signal
unlinked-MayBeGiven ss w b h =
    may_be_given w.next_target (unlinked w) (new_signal w).0 ss b refl (λ k l. ground (arith, l))
      (first_aborted-none ss (new_signal w).0 h)

pub create_dependent_abort_signal-Post :
    (ss : List ℕ) (w : Realm)
    → all_below w.next_target ss ≡ true
    → IsValid w
    → Post w (create_dependent_abort_signal ss w).0
unfolding create_dependent_abort_signal new_signal
create_dependent_abort_signal-Post ss w b v =
    option_cases_eq (λ (x : Realm × ℕ). Post w x.0) (first_aborted ss (new_signal w).0)
      (λ none_aborted.
        let x =
          link_signals-IsLinking w.next_target (unlinked w) ss (unlinked w)
            (unlinked-MayBeGiven ss w b none_aborted) (unlinked-IsLinking w v) in
        Post-trans w (unlinked w) _ (unlinked-Post w v)
          (x.valid, IsLinking-Grows w.next_target (unlinked w) _ x))
      (λ s e. added-Post _ w (λ k h. ground (arith, h)) (ground arith) (ground arith) v)
