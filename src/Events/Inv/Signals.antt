-- ===== src/Events/Inv/Signals.antt =====
-- The invariant through the making of signals, and through the marking of those that are aborted
-- (signals/algorithms.rs of crates/builtins/web-globals/src).
pub mod Linking
pub mod Following
pub mod Dependent
use starlingmonkey_ng.Prelude.{
  ℕ, ◌+◌, ◌≡◌, refl, true, false, Option, [], arith, mem, ◌==◌, Bool-cases, if_cases, inl, inr,
}
use starlingmonkey_ng.Events.{AbortReason, AbortSignal, Realm, set_listeners}
use starlingmonkey_ng.Events.Abort.{new_signal, abort}
use starlingmonkey_ng.Events.Listeners.Distinct.{IsDistinct}
use starlingmonkey_ng.Events.Inv.{IsValid, Post}
use starlingmonkey_ng.Events.Kept.{EventKept-same}

-- A signal is added, with no links.
module _ (sig : ℕ → AbortSignal) (w : Realm)
    (old : (k : ℕ) → (k == w.next_target) ≡ false → sig k ≡ w.signals k)
    (no_dependents : (sig w.next_target).dependent_signals ≡ [])
    (no_sources : (sig w.next_target).source_signals ≡ []) (v : IsValid w) where
  added_dependents :
      (a d : ℕ)
      → mem d (sig a).dependent_signals ≡ true
      → (mem d (w.signals a).dependent_signals ≡ true)
        × (sig a ≡ w.signals a)
        × (sig d ≡ w.signals d)
  added_dependents a d m = elim (Bool-cases (a == w.next_target)) [
    | inl new ↦ let e : a ≡ w.next_target = ground arith in absurd (cc (m, e, no_dependents))
    | inr h ↦
        let e = old a h in
        let m' : mem d (w.signals a).dependent_signals ≡ true = cc (m, e) in
        (m', e, old d (ground (arith, (v.linked a d m').0)))
  ]

  added_sources :
      (d a : ℕ)
      → mem a (sig d).source_signals ≡ true
      → (mem a (w.signals d).source_signals ≡ true) × (sig d ≡ w.signals d) × (sig a ≡ w.signals a)
  added_sources d a m = elim (Bool-cases (d == w.next_target)) [
    | inl new ↦ let e : d ≡ w.next_target = ground arith in absurd (cc (m, e, no_sources))
    | inr h ↦
        let e = old d h in
        let m' : mem a (w.signals d).source_signals ≡ true = cc (m, e) in
        (m', e, old a (ground (arith, (v.sourced d a m').0)))
  ]

  pub added-Post :
      Post w (record (set_listeners w.next_target [] w) {
        signals = sig;
        next_target = w.next_target + 1;
      })
  added-Post = (
    record {
      linked = λ a d m.
          let (m', e, f) = added_dependents a d m in
          let (l, x, y) = v.linked a d m' in (omega (arith, l), cc (e, x), cc (f, y));
      sourced = λ d a m.
          let (m', e, f) = added_sources d a m in
          let (l, x) = v.sourced d a m' in (omega (arith, l), cc (f, x));
      spread =
          λ a d m u. let (m', e, f) = added_dependents a d m in cc (v.spread a d m' (cc (e, u)), f);
      distinct = λ k.
          if_cases (IsDistinct w.next_listener) (k == w.next_target) (λ _. tt) (λ _. v.distinct k);
    },
    record {
      event_bound = omega arith;
      target_bound = omega arith;
      events = λ e _ _. EventKept-same e w _ refl;
      signals = λ k l.
          let e = old k (ground (arith, l)) in
          record { reason = λ _. cc e; algorithms = λ u h. cc (e, h) };
      lists = record { next = omega arith; gone = λ k id b h. ground (arith, h) };
    },
  )

pub new_signal-Post : (w : Realm) → IsValid w → Post w (new_signal w).0
unfolding new_signal
new_signal-Post w v = added-Post _ w (λ k h. ground (arith, h)) (ground arith) (ground arith) v

pub abort-Post : (reason : Option AbortReason) (w : Realm) → IsValid w → Post w (abort reason w).0
unfolding abort new_signal
abort-Post reason w v = added-Post _ w (λ k h. ground (arith, h)) (ground arith) (ground arith) v
