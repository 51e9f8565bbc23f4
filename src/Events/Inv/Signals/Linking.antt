-- ===== src/Events/Inv/Signals/Linking.antt =====
-- The invariant through the making of a dependent signal (`create_dependent_abort_signal` of
-- signals/algorithms.rs, crates/builtins/web-globals/src).
use starlingmonkey_ng.Prelude.{
  ℕ, ◌<◌, ◌≡◌, refl, sym, subst, ◌∙◌, ap, true, false, ◌&&◌, ◌||◌, List, [], ◌∷◌, All, arith, mem,
  mem-append, ◌==◌, Bool-cases, inl, inr, if_cases,
}
use starlingmonkey_ng.Events.{Realm, is_undefined}
use starlingmonkey_ng.Events.Abort.{link_source, link_sources, link_signals}
use starlingmonkey_ng.Events.Inv.{IsValid}
use starlingmonkey_ng.Events.Kept.{Grows, any_event, EventKept-same, ListsKept-same}

-- From `u`, only the links are others, and the result `r` is a dependent signal.
pub record IsLinking (r : ℕ) (u w : Realm) : Type 0 where
  pub valid : IsValid w
  pub there : r < u.next_target
  pub result : (u.signals r).dependent ≡ true
  pub same : w ≡ record u { signals = w.signals }
  pub dependents : (k : ℕ) → (w.signals k).dependent ≡ (u.signals k).dependent
  pub reasons : (k : ℕ) → (w.signals k).abort_reason ≡ (u.signals k).abort_reason
  pub algorithms : (k : ℕ) → (w.signals k).abort_algorithms ≡ (u.signals k).abort_algorithms

-- What may be a source.
abbrev pub MayBeSource : Realm → ℕ → Type 0
MayBeSource u s =
    (s < u.next_target)
    × ((u.signals s).dependent ≡ false)
    × (is_undefined (u.signals s).abort_reason ≡ true)

module _ (r : ℕ) (u : Realm) where
  module _ (s : ℕ) (w : Realm) where
    pub link_source-dependents :
        (a d : ℕ)
        → mem d ((link_source r s w).signals a).dependent_signals
          ≡ (mem d (w.signals a).dependent_signals || (a == s && d == r))
    unfolding link_source
    link_source-dependents a d =
        ground (arith, mem-append d (w.signals a).dependent_signals (r ∷ []))

    pub link_source-sources :
        (d a : ℕ)
        → mem a ((link_source r s w).signals d).source_signals
          ≡ (mem a (w.signals d).source_signals || (d == r && a == s))
    unfolding link_source
    link_source-sources d a = ground (arith, mem-append a (w.signals d).source_signals (s ∷ []))

    link_source-kept :
        (k : ℕ)
        → (((link_source r s w).signals k).dependent ≡ (w.signals k).dependent)
          × (((link_source r s w).signals k).abort_reason ≡ (w.signals k).abort_reason)
          × (((link_source r s w).signals k).abort_algorithms ≡ (w.signals k).abort_algorithms)
    unfolding link_source
    link_source-kept k = (ground arith, ground arith, ground arith)

    link_source-linked :
        (a d : ℕ)
        → MayBeSource u s
        → IsLinking r u w
        → mem d ((link_source r s w).signals a).dependent_signals ≡ true
        → (d < w.next_target) × ((w.signals a).dependent ≡ false) × ((w.signals d).dependent ≡ true)
    link_source-linked a d (below, source, unset) v m =
        elim (Bool-cases (mem d (w.signals a).dependent_signals)) [
          | inl h ↦ v.valid.linked a d h
          | inr h ↦
              let e : a ≡ s = ground (arith, link_source-dependents a d, m, h) in
              let f : d ≡ r = ground (arith, link_source-dependents a d, m, h) in
              (
                omega (arith, f, v.there, ap (λ x. x.next_target) v.same),
                cc (e, v.dependents s, source),
                cc (f, v.dependents r, v.result),
              )
        ]

    link_source-sourced :
        (d a : ℕ)
        → MayBeSource u s
        → IsLinking r u w
        → mem a ((link_source r s w).signals d).source_signals ≡ true
        → (a < w.next_target) × (mem d ((link_source r s w).signals a).dependent_signals ≡ true)
    link_source-sourced d a (below, source, unset) v m =
        elim (Bool-cases (mem a (w.signals d).source_signals)) [
          | inl h ↦
              let (l, x) = v.valid.sourced d a h in
              (l, ground (arith, link_source-dependents a d, x))
          | inr h ↦
              let e : a ≡ s = ground (arith, link_source-sources d a, m, h) in
              let f : d ≡ r = ground (arith, link_source-sources d a, m, h) in
              (
                omega (arith, e, below, ap (λ x. x.next_target) v.same),
                ground (arith, link_source-dependents a d, e, f),
              )
        ]

    link_source-spread :
        (a d : ℕ)
        → MayBeSource u s
        → IsLinking r u w
        → mem d ((link_source r s w).signals a).dependent_signals ≡ true
        → is_undefined (w.signals a).abort_reason ≡ false
        → is_undefined (w.signals d).abort_reason ≡ false
    link_source-spread a d (below, source, unset) v m x =
        elim (Bool-cases (mem d (w.signals a).dependent_signals)) [
          | inl h ↦ v.valid.spread a d h x
          | inr h ↦
              let e : a ≡ s = ground (arith, link_source-dependents a d, m, h) in
              absurd (cc (e, v.reasons s, unset, x))
        ]

  pub link_source-IsLinking :
      (s : ℕ) (w : Realm) → MayBeSource u s → IsLinking r u w → IsLinking r u (link_source r s w)
  unfolding link_source
  link_source-IsLinking s w src v = record {
    valid = record {
      linked = λ a d m.
          let (l, x, y) = link_source-linked s w a d src v m in
          (l, (link_source-kept s w a).0 ∙ x, (link_source-kept s w d).0 ∙ y);
      sourced = λ d a m. link_source-sourced s w d a src v m;
      spread = λ a d m x. cc (
        link_source-spread s w a d src v m (cc ((link_source-kept s w a).1, x)),
        (link_source-kept s w d).1,
      );
      distinct = v.valid.distinct;
    };
    there = v.there;
    result = v.result;
    same = cc v.same;
    dependents = λ k. (link_source-kept s w k).0 ∙ v.dependents k;
    reasons = λ k. (link_source-kept s w k).1 ∙ v.reasons k;
    algorithms = λ k. (link_source-kept s w k).2 ∙ v.algorithms k;
  }

  pub link_sources-IsLinking :
      (ss : List ℕ) (w : Realm)
      → All (MayBeSource u) ss
      → IsLinking r u w
      → IsLinking r u (link_sources r ss w)
  unfolding link_sources
  link_sources-IsLinking [] w h v = v
  link_sources-IsLinking (s ∷ ss) w (x, h) v = link_sources-IsLinking ss _ h (
      if_cases (IsLinking r u) (mem s (w.signals r).source_signals) (λ _. v)
        (λ _. link_source-IsLinking s w x v))

  -- The sources of a signal that is not aborted are not, and do not depend on others.
  pub sources-MayBeSource :
      (k : ℕ) (w : Realm) (ss : List ℕ)
      → IsLinking r u w
      → is_undefined (u.signals k).abort_reason ≡ true
      → ((a : ℕ) → mem a ss ≡ true → mem a (w.signals k).source_signals ≡ true)
      → All (MayBeSource u) ss
  sources-MayBeSource k w [] v unset h = tt
  sources-MayBeSource k w (s ∷ ss) v unset h = (
    (
      omega (arith, (v.valid.sourced k s (h s (ground arith))).0, ap (λ x. x.next_target) v.same),
      sym (v.dependents s) ∙ (v.valid.linked s k (v.valid.sourced k s (h s (ground arith))).1).1,
      source_unset,
    ),
    sources-MayBeSource k w ss v unset (λ a m. h a (ground (arith, m))),
  )
    where
      in_sources : mem s (w.signals k).source_signals ≡ true
      in_sources = h s (ground arith)

      source_unset : is_undefined (u.signals s).abort_reason ≡ true
      source_unset = elim (Bool-cases (is_undefined (u.signals s).abort_reason)) [
        | inl e ↦ e
        | inr e ↦ absurd (
            cc (
              v.valid.spread s k (v.valid.sourced k s in_sources).1 (cc (v.reasons s, e)),
              v.reasons k,
              unset,
            ))
      ]

  -- A signal of the argument: it is not aborted.
  abbrev pub MayBeGiven : ℕ → Type 0
  MayBeGiven s = (s < u.next_target) × (is_undefined (u.signals s).abort_reason ≡ true)

  pub link_signals-IsLinking :
      (ss : List ℕ) (w : Realm)
      → All MayBeGiven ss
      → IsLinking r u w
      → IsLinking r u (link_signals r ss w)
  unfolding link_signals
  link_signals-IsLinking [] w h v = v
  link_signals-IsLinking (s ∷ ss) w ((below, unset), h) v = link_signals-IsLinking ss _ h (
      if_cases (IsLinking r u) (w.signals s).dependent
        (λ _.
          link_sources-IsLinking (w.signals s).source_signals w
            (sources-MayBeSource s w (w.signals s).source_signals v unset (λ a m. m)) v)
        (λ n. link_source-IsLinking s w (below, sym (v.dependents s) ∙ n, unset) v))

  pub IsLinking-Grows : (w : Realm) → IsLinking r u w → Grows any_event u w
  IsLinking-Grows w v = subst (Grows any_event u) (sym v.same) (record {
    event_bound = omega arith;
    target_bound = omega arith;
    events = λ e _ _. EventKept-same e u _ refl;
    signals = λ k _. record { reason = λ _. v.reasons k; algorithms = λ _ h. v.algorithms k ∙ h };
    lists = ListsKept-same u _ refl (λ t. refl);
  })
