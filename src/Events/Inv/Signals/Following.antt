-- ===== src/Events/Inv/Signals/Following.antt =====
-- What `AbortSignal.any` links (`create_dependent_abort_signal` of signals/algorithms.rs,
-- crates/builtins/web-globals/src).
use starlingmonkey_ng.Prelude.{
  ℕ, ◌≡◌, sym, subst, ◌∙◌, true, false, List, [], ◌∷◌, All, arith, mem, if◌then◌else◌, Bool-cases,
  inl, inr, if_cases,
}
use starlingmonkey_ng.Events.{Realm}
use starlingmonkey_ng.Events.Abort.{link_source, link_sources, link_signals}
use starlingmonkey_ng.Events.Inv.Signals.Linking.{
  IsLinking, MayBeSource, MayBeGiven, link_source-dependents, link_source-sources,
  link_source-IsLinking, link_sources-IsLinking, sources-MayBeSource,
}

-- No link is lost.
record Extends (v w : Realm) : Type 0 where
  dependents :
      (a d : ℕ)
      → mem d (v.signals a).dependent_signals ≡ true
      → mem d (w.signals a).dependent_signals ≡ true
  sources :
      (d a : ℕ)
      → mem a (v.signals d).source_signals ≡ true
      → mem a (w.signals d).source_signals ≡ true

Extends-refl : (w : Realm) → Extends w w
Extends-refl w = record { dependents = λ a d m. m; sources = λ d a m. m }

Extends-trans : (u v w : Realm) → Extends u v → Extends v w → Extends u w
Extends-trans u v w x y = record {
  dependents = λ a d m. y.dependents a d (x.dependents a d m);
  sources = λ d a m. y.sources d a (x.sources d a m);
}

module _ (r : ℕ) where
  link_source-Extends : (s : ℕ) (w : Realm) → Extends w (link_source r s w)
  link_source-Extends s w = record {
    dependents = λ a d m. ground (arith, m, link_source-dependents r w s w a d);
    sources = λ d a m. ground (arith, m, link_source-sources r w s w d a);
  }

  link_sources-Extends : (ss : List ℕ) (w : Realm) → Extends w (link_sources r ss w)
  unfolding link_sources
  link_sources-Extends [] w = Extends-refl w
  link_sources-Extends (s ∷ ss) w =
      Extends-trans w _ _
        (if_cases (Extends w) (mem s (w.signals r).source_signals) (λ _. Extends-refl w)
          (λ _. link_source-Extends s w))
        (link_sources-Extends ss _)

  link_signals-Extends : (ss : List ℕ) (w : Realm) → Extends w (link_signals r ss w)
  unfolding link_signals
  link_signals-Extends [] w = Extends-refl w
  link_signals-Extends (s ∷ ss) w =
      Extends-trans w _ _
        (if_cases (Extends w) (w.signals s).dependent
          (λ _. link_sources-Extends (w.signals s).source_signals w) (λ _. link_source-Extends s w))
        (link_signals-Extends ss _)

  link_source-links :
      (s : ℕ) (w : Realm) → mem r ((link_source r s w).signals s).dependent_signals ≡ true
  link_source-links s w = ground (arith, link_source-dependents r w s w s r)

  module _ (u : Realm) where
    link_sources-links :
        (ss : List ℕ) (w : Realm)
        → All (MayBeSource u) ss
        → IsLinking r u w
        → (a : ℕ) → mem a ss ≡ true
        → mem r ((link_sources r ss w).signals a).dependent_signals ≡ true
    unfolding link_sources
    link_sources-links [] w h v a m = absurd (cc m)
    link_sources-links (s ∷ ss) w (x, h) v a m = elim (Bool-cases (mem a ss)) [
      | inl later ↦ link_sources-links ss _ h head.0 a later
      | inr not_later ↦
          subst (λ k. mem r ((link_sources r ss next).signals k).dependent_signals ≡ true)
            (ground (arith, m, not_later)) ((link_sources-Extends ss next).dependents s r head.1)
    ]
      where
        next : Realm
        next = if mem s (w.signals r).source_signals then w else link_source r s w

        head : IsLinking r u next × (mem r (next.signals s).dependent_signals ≡ true)
        head =
            if_cases (λ y. IsLinking r u y × (mem r (y.signals s).dependent_signals ≡ true))
              (mem s (w.signals r).source_signals) (λ known. (v, (v.valid.sourced r s known).1))
              (λ _. (link_source-IsLinking r u s w x v, link_source-links s w))

    -- The result depends on the signal, or on its sources.
    abbrev pub Follows : Realm → ℕ → Realm → Type 0
    Follows w s w' =
        ((u.signals s).dependent ≡ false → mem r (w'.signals s).dependent_signals ≡ true)
        × ((u.signals s).dependent ≡ true
            → (a : ℕ) → mem a (w.signals s).source_signals ≡ true
            → mem r (w'.signals a).dependent_signals ≡ true)

    pub link_signals-Follows :
        (ss : List ℕ) (w : Realm)
        → All (MayBeGiven r u) ss
        → IsLinking r u w
        → (s : ℕ) → mem s ss ≡ true
        → Follows w s (link_signals r ss w)
    unfolding link_signals
    link_signals-Follows [] w h v s m = absurd (cc m)
    link_signals-Follows (k ∷ ss) w ((below, unset), h) v s m = elim (Bool-cases (mem s ss)) [
      | inl later ↦
          let (one, each) = link_signals-Follows ss next h head.0 s later in
          (one, λ dep a b. each dep a (head.2.sources s a b))
      | inr not_later ↦
          let same : k ≡ s = ground (arith, m, not_later) in
          subst (λ j. Follows w j (link_signals r ss next)) same
            (
              λ plain. (link_signals-Extends ss next).dependents k r (head.1.0 plain),
              λ dep a b. (link_signals-Extends ss next).dependents a r (head.1.1 dep a b),
            )
    ]
      where
        next : Realm
        next =
            if (w.signals k).dependent
            then link_sources r (w.signals k).source_signals w
            else link_source r k w

        P : Realm → Type 0
        P y = IsLinking r u y × Follows w k y × Extends w y

        head : P next
        head =
            if_cases P (w.signals k).dependent
              (λ d.
                let srcs =
                  sources-MayBeSource r u k w (w.signals k).source_signals v unset (λ a b. b) in
                (
                  link_sources-IsLinking r u (w.signals k).source_signals w srcs v,
                  (
                    λ plain. absurd (cc (plain, d, v.dependents k)),
                    λ _ a b. link_sources-links (w.signals k).source_signals w srcs v a b,
                  ),
                  link_sources-Extends (w.signals k).source_signals w,
                ))
              (λ n. (
                link_source-IsLinking r u k w (below, sym (v.dependents k) ∙ n, unset) v,
                (λ _. link_source-links k w, λ dep a b. absurd (cc (dep, n, v.dependents k))),
                link_source-Extends k w,
              ))
