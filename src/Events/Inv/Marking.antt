-- ===== src/Events/Inv/Marking.antt =====
-- The invariant through the marking of the signals that are aborted (`signal_abort` of
-- signals/algorithms.rs, crates/builtins/web-globals/src).
use starlingmonkey_ng.Prelude.{
  ℕ, ◌<◌, ◌≡◌, refl, sym, subst, ◌∙◌, Bool, true, false, ◌&&◌, ◌||◌, List, [], ◌∷◌, arith, mem,
  if◌then◌else◌, ◌==◌, Bool-cases, ◌⊎◌, inl, inr,
}
use starlingmonkey_ng.Events.{AbortReason, AbortSignal, Realm, is_undefined}
use starlingmonkey_ng.Events.Abort.{set_reason, abort_dependents}
use starlingmonkey_ng.Events.Inv.{IsValid, Post}
use starlingmonkey_ng.Events.Kept.{EventKept-same, ListsKept-same}

-- What marking the dependent signals leaves of each signal.
abbrev pub marked : AbortReason → List ℕ → Realm → ℕ → AbortSignal
marked reason ds w k =
    if is_undefined (w.signals k).abort_reason && mem k ds
    then record (w.signals k) { abort_reason = reason }
    else w.signals k

pub record IsMarked (reason : AbortReason) (ds : List ℕ) (w : Realm) (r : Realm × List ℕ)
    : Type 0 where
  pub same : r.0 ≡ record w { signals = r.0.signals }
  pub signals : (k : ℕ) → r.0.signals k ≡ marked reason ds w k
  pub listed :
      (k : ℕ)
      → mem k r.1 ≡ true
      → (mem k ds ≡ true) × (is_undefined (w.signals k).abort_reason ≡ true)
  pub complete :
      (k : ℕ) → mem k ds ≡ true → is_undefined (w.signals k).abort_reason ≡ true → mem k r.1 ≡ true

IsMarked-step :
    (reason : AbortReason) (d : ℕ) (ds : List ℕ) (w : Realm) (b : Bool)
    → is_undefined reason ≡ false
    → is_undefined (w.signals d).abort_reason ≡ b
    → (r : Realm × List ℕ) → IsMarked reason ds (if b then set_reason d reason w else w) r
    → IsMarked reason (d ∷ ds) w (r.0, if b then d ∷ r.1 else r.1)
IsMarked-step reason d ds w true h u r m = record {
  same = cc m.same;
  signals = λ k. ground (arith, m.signals k, u, h);
  listed = λ k. ground (arith, m.listed k, u, h);
  complete = λ k. ground (arith, m.complete k, u);
}
IsMarked-step reason d ds w false h u r m = record {
  same = m.same;
  signals = λ k. ground (arith, m.signals k, u, h);
  listed = λ k. ground (arith, m.listed k, u, h);
  complete = λ k. ground (arith, m.complete k, u);
}

pub abort_dependents-IsMarked :
    (reason : AbortReason) (ds : List ℕ) (w : Realm)
    → is_undefined reason ≡ false
    → IsMarked reason ds w (abort_dependents reason ds w)
unfolding abort_dependents
abort_dependents-IsMarked reason [] w h = record {
  same = refl;
  signals = λ k. ground arith;
  listed = λ k m. absurd (cc m);
  complete = λ k m. absurd (cc m);
}
abort_dependents-IsMarked reason (d ∷ ds) w h =
    IsMarked-step reason d ds w _ h refl _ (abort_dependents-IsMarked reason ds _ h)

-- The signal is aborted, and with it those that depend on it.
module _ (s : ℕ) (reason : AbortReason) (w : Realm) (given : is_undefined reason ≡ false)
    (unset : is_undefined (w.signals s).abort_reason ≡ true) (v : IsValid w) (sig : ℕ → AbortSignal)
    (each : (k : ℕ)
      → sig k ≡ marked reason (w.signals s).dependent_signals (set_reason s reason w) k) where
  links_same :
      (k : ℕ)
      → ((sig k).dependent_signals ≡ (w.signals k).dependent_signals)
        × ((sig k).source_signals ≡ (w.signals k).source_signals)
        × ((sig k).dependent ≡ (w.signals k).dependent)
        × ((sig k).abort_algorithms ≡ (w.signals k).abort_algorithms)
  links_same k = (
    ground (arith, each k),
    ground (arith, each k),
    ground (arith, each k),
    ground (arith, each k),
  )

  reason_same :
      (k : ℕ)
      → is_undefined (w.signals k).abort_reason ≡ false
      → (sig k).abort_reason ≡ (w.signals k).abort_reason
  reason_same k h = ground (arith, each k, unset)

  pub has_reason :
      (k : ℕ)
      → (k == s
          || (is_undefined (w.signals k).abort_reason && mem k (w.signals s).dependent_signals))
        ≡ true
      → (sig k).abort_reason ≡ reason
  has_reason k h = ground (arith, each k, given, unset)

  newly_aborted :
      (k : ℕ)
      → is_undefined (sig k).abort_reason ≡ false
      → (k == s) ≡ false
      → is_undefined (w.signals k).abort_reason ≡ true
      → mem k (w.signals s).dependent_signals ≡ true
  newly_aborted k h n u = ground (arith, each k)

  spreads :
      (a d : ℕ)
      → mem d (w.signals a).dependent_signals ≡ true
      → is_undefined (sig a).abort_reason ≡ false
      → is_undefined (sig d).abort_reason ≡ false
  spreads a d m u = elim (Bool-cases (is_undefined (w.signals d).abort_reason)) [
    | inr set ↦ cc (reason_same d set, set)
    | inl open_d ↦ elim (Bool-cases (is_undefined (w.signals a).abort_reason)) [
      | inr set ↦ absurd (cc (v.spread a d m set, open_d))
      | inl open_a ↦ elim (Bool-cases (a == s)) [
        | inl e ↦
            let e' : a ≡ s = ground (arith, e) in
            let m' : mem d (w.signals s).dependent_signals ≡ true = cc (m, e') in
            cc (has_reason d (ground (arith, open_d, m')), given)
        | inr n ↦
            let m' = newly_aborted a u n open_a in
            absurd (cc ((v.linked s a m').2, (v.linked a d m).1))
      ]
    ]
  ]

  pub marked-Post : Post w (record w { signals = sig })
  marked-Post = (
    record {
      linked = λ a d m.
          let (l, x, y) = v.linked a d (cc (m, (links_same a).0)) in
          (l, (links_same a).2 ∙ x, (links_same d).2 ∙ y);
      sourced = λ d a m.
          let (l, x) = v.sourced d a (cc (m, (links_same d).1)) in (l, cc (x, (links_same a).0));
      spread = λ a d m u. spreads a d (cc (m, (links_same a).0)) u;
      distinct = v.distinct;
    },
    record {
      event_bound = omega arith;
      target_bound = omega arith;
      events = λ e _ _. EventKept-same e w _ refl;
      signals =
          λ k l. record { reason = λ h. reason_same k h; algorithms = λ h e. (links_same k).3 ∙ e };
      lists = ListsKept-same w _ refl (λ t. refl);
    },
  )

-- The first part of `signal_abort`: what it leaves, and which signals it then runs the steps of.
pub signal_abort-marks :
    (s : ℕ) (reason : AbortReason) (w : Realm)
    → is_undefined reason ≡ false
    → is_undefined (w.signals s).abort_reason ≡ true
    → IsValid w
    → (r : Realm × List ℕ)
    → IsMarked reason (w.signals s).dependent_signals (set_reason s reason w) r
    → Post w r.0
      × ((r.0.signals s).abort_reason ≡ reason)
      × ((k : ℕ) → mem k r.1 ≡ true → (k < w.next_target) × ((r.0.signals k).abort_reason ≡ reason))
      × ((k : ℕ)
          → mem k (w.signals s).dependent_signals ≡ true
          → is_undefined (w.signals k).abort_reason ≡ true
          → (k ≡ s) ⊎ (mem k r.1 ≡ true))
signal_abort-marks s reason w given unset v r m = (
  subst (Post w) (sym m.same) (marked-Post s reason w given unset v r.0.signals m.signals),
  has_reason s reason w given unset v r.0.signals m.signals s (ground arith),
  λ k h.
      let (l, u) = m.listed k h in
      (
        (v.linked s k l).0,
        has_reason s reason w given unset v r.0.signals m.signals k (ground (arith, l, u)),
      ),
  λ k h u. elim (Bool-cases (k == s)) [
    | inl e ↦ inl (ground (arith, e))
    | inr e ↦ inr (m.complete k h (ground (arith, e, u)))
  ],
)
