-- ===== src/Events/Runs/Aborts.antt =====
-- What an abort by author code gives, and what `AbortSignal.any` links (signals/ of
-- crates/builtins/web-globals/src).
use starlingmonkey_ng.Prelude.{
  ℕ, suc, ◌+◌, ◌<◌, ◌≡◌, refl, Bool, true, false, some, List, [], ◌∷◌, arith, mem, Bool-cases, ◌⊎◌,
  inl, inr,
}
use starlingmonkey_ng.Events.{AbortReason, Realm, Run, done, panics, not_stopped, is_undefined}
use starlingmonkey_ng.Events.Abort.{signal_abort, count, algorithm_sum, algorithm_count}
use starlingmonkey_ng.Events.Inv.{IsValid, Post}
use starlingmonkey_ng.Events.Safety.{Safe-map}
use starlingmonkey_ng.Events.Inv.Aborting.{IsReached, given_reason, signal_abort-IsEnded}
use starlingmonkey_ng.Events.Runs.{Calls, run_calls}
use starlingmonkey_ng.Events.Runs.Safe.{run_calls-Keeps, Safe-cases}

abbrev pub abort_run :
    Bool → (ℕ → ℕ → Calls) → (ℕ → ℕ → Calls) → ℕ → AbortReason → Realm → Run Realm
abort_run debug callbacks listeners s reason w =
    signal_abort debug (λ k i v. run_calls debug (callbacks k i) v)
      (λ k l v. run_calls debug (listeners k l) v) s reason w

-- In a realm that satisfies the invariant, let a signal not be aborted. Then aborting it leaves it,
-- and every signal that depends on it and was not aborted, aborted for the reason given, or for an
-- `AbortError` where that is undefined, and without abort algorithms, whatever the callbacks and
-- listeners call; or, where debug assertions are on, the assertion of `start_dispatching` fails.
pub abort_reaches_dependents :
    (debug : Bool) (callbacks listeners : ℕ → ℕ → Calls) (s : ℕ) (reason : AbortReason) (w : Realm)
    → IsValid w
    → s < w.next_target
    → is_undefined (w.signals s).abort_reason ≡ true
    → ((w' : Realm) × (abort_run debug callbacks listeners s reason w ≡ done w')
        × IsReached (given_reason reason) s w w')
      ⊎ ((debug ≡ true) × (abort_run debug callbacks listeners s reason w ≡ panics not_stopped))
abort_reaches_dependents debug callbacks listeners s reason w v l unset =
    Safe-cases debug (IsReached (given_reason reason) s w)
      (abort_run debug callbacks listeners s reason w)
      (Safe-map debug (λ w'. Post w w' × IsReached (given_reason reason) s w w')
        (IsReached (given_reason reason) s w) (abort_run debug callbacks listeners s reason w)
        (λ w' h. h.1)
        (signal_abort-IsEnded debug (λ k i x. run_calls debug (callbacks k i) x)
          (λ k i x. run_calls debug (listeners k i) x) s reason w
          (λ k i. run_calls-Keeps debug (callbacks k i))
          (λ k i. run_calls-Keeps debug (listeners k i)) l unset v))

-- The sum over a list of signals.
abbrev pub algorithms_of : List ℕ → Realm → ℕ
algorithms_of [] w = 0
algorithms_of (d ∷ ds) w = count (w.signals d).abort_algorithms + algorithms_of ds w

has_none : (xs : List ℕ) → ((k : ℕ) → mem k xs ≡ false) → xs ≡ []
has_none [] h = refl
has_none (x ∷ xs) h = absurd (ground (arith, h x))

-- A signal that depends on others has no dependent signals.
leaf :
    (d : ℕ) (w : Realm)
    → IsValid w
    → (w.signals d).dependent ≡ true
    → (w.signals d).dependent_signals ≡ []
leaf d w v dep = has_none _ λ k. elim (Bool-cases (mem k (w.signals d).dependent_signals)) [
  | inl m ↦ absurd (cc ((v.linked d k m).1, dep))
  | inr n ↦ n
]

algorithm_count-leaf :
    (n d : ℕ) (w : Realm)
    → (w.signals d).dependent_signals ≡ []
    → algorithm_count (suc n) d w ≡ some (count (w.signals d).abort_algorithms)
unfolding algorithm_count algorithm_sum
algorithm_count-leaf n d w e = ground (arith, e)

algorithm_sum-leaves :
    (n : ℕ) (ds : List ℕ) (w : Realm)
    → ((d : ℕ) → mem d ds ≡ true → (w.signals d).dependent_signals ≡ [])
    → algorithm_sum (λ d. algorithm_count (suc n) d w) ds ≡ some (algorithms_of ds w)
unfolding algorithm_sum
algorithm_sum-leaves n [] w h = refl
algorithm_sum-leaves n (d ∷ ds) w h = ground (
  arith,
  algorithm_count-leaf n d w (h d (ground arith)),
  algorithm_sum-leaves n ds w (λ k m. h k (ground (arith, m))),
)

-- In a realm that satisfies the invariant, counting the abort algorithms of a signal and of the
-- signals that depend on it ends: two levels are enough, and the count is the signal's own number
-- of algorithms with the sum of those of its dependent signals.
pub algorithm_count_ends :
    (n s : ℕ) (w : Realm)
    → IsValid w
    → algorithm_count (suc (suc n)) s w
      ≡ some
          (count (w.signals s).abort_algorithms + algorithms_of (w.signals s).dependent_signals w)
unfolding algorithm_count
algorithm_count_ends n s w v = ground (
  arith,
  algorithm_sum-leaves n (w.signals s).dependent_signals w (λ d m. leaf d w v (v.linked s d m).2),
)
