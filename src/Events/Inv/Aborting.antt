-- ===== src/Events/Inv/Aborting.antt =====
-- The invariant through the abort of a signal (signals/algorithms.rs of
-- crates/builtins/web-globals/src), whatever the callbacks and the listeners do.
use starlingmonkey_ng.Prelude.{
  ◌==◌, ℕ, suc, ◌<◌, ◌≡◌, refl, sym, subst, ◌∙◌, Bool, true, false, List, [], ◌∷◌, arith, mem,
  if◌then◌else◌, Bool-cases, ◌⊎◌, inl, inr, if_cases,
}
use starlingmonkey_ng.Web.Text.{codes}
use starlingmonkey_ng.Events.{
  AbortAlgorithm, remove_listener, run_steps, AbortReason, abort_error, Realm, done, set_signal,
  is_undefined,
}
use starlingmonkey_ng.Events.Listeners.{remove_an_event_listener_by_id}
use starlingmonkey_ng.Events.Dispatch.{Author, fire_an_event}
use starlingmonkey_ng.Events.Abort.{
  set_reason, abort_dependents, run_algorithms, run_the_abort_steps, run_each, signal_abort,
}
use starlingmonkey_ng.Events.Inv.{
  IsValid, Post, Post-refl, Post-trans, Keeps, discarded-Post, algorithms-Post,
}
use starlingmonkey_ng.Events.Safety.{Safe, Safe-and_run, Safe-map}
use starlingmonkey_ng.Events.Inv.Dispatched.{fire_an_event-Answers}
use starlingmonkey_ng.Events.Inv.Marking.{signal_abort-marks, IsMarked, abort_dependents-IsMarked}

-- Kept by what follows: the signal is aborted for this reason, and has no algorithms.
pub record IsEnded (reason : AbortReason) (s : ℕ) (w : Realm) : Type 0 where
  pub there : s < w.next_target
  pub because : (w.signals s).abort_reason ≡ reason
  pub emptied : (w.signals s).abort_algorithms ≡ []

IsEnded-Post :
    (reason : AbortReason) (s : ℕ) (v w : Realm)
    → is_undefined reason ≡ false
    → Post v w
    → IsEnded reason s v
    → IsEnded reason s w
IsEnded-Post reason s v w given (ok_valid, g) e = record {
  there = omega (arith, e.there, g.target_bound);
  because = (g.signals s e.there).reason (cc (e.because, given)) ∙ e.because;
  emptied = (g.signals s e.there).algorithms (cc (e.because, given)) e.emptied;
}

abbrev pub given_reason : AbortReason → AbortReason
given_reason reason = if is_undefined reason then abort_error else reason

-- From `v` to `w`, the signal was aborted for this reason, with those that depend on it.
abbrev pub IsReached : AbortReason → ℕ → Realm → Realm → Type 0
IsReached reason s v w =
    IsEnded reason s w
    × ((d : ℕ)
        → mem d (v.signals s).dependent_signals ≡ true
        → is_undefined (v.signals d).abort_reason ≡ true
        → IsEnded reason d w)

carried :
    (v w : Realm) (reason : AbortReason) (s : ℕ)
    → is_undefined reason ≡ false
    → Post v w
    → (s < v.next_target) × ((v.signals s).abort_reason ≡ reason)
    → (s < w.next_target) × ((w.signals s).abort_reason ≡ reason)
carried v w reason s given (ok_valid, g) (l, e) =
    (omega (arith, l, g.target_bound), (g.signals s l).reason (cc (e, given)) ∙ e)

module _ (debug : Bool) where
  run_algorithms-Keeps :
      (callbacks : ℕ → Author) (i : ℕ) (rest : List AbortAlgorithm)
      → ((j : ℕ) → Keeps debug (callbacks j))
      → Keeps debug (run_algorithms callbacks i rest)
  unfolding run_algorithms remove_an_event_listener_by_id
  run_algorithms-Keeps callbacks i [] k w v = Post-refl w v
  run_algorithms-Keeps callbacks i (remove_listener t id ∷ rest) k w v =
      let x = discarded-Post t (λ l. l.id == id) w v in
      Safe-map debug (Post _) (Post w) (run_algorithms callbacks (suc i) rest _)
        (λ w' p. Post-trans w _ w' x p) (run_algorithms-Keeps callbacks (suc i) rest k _ x.0)
  run_algorithms-Keeps callbacks i (run_steps c ∷ rest) k w v =
      Safe-and_run debug (Post w) (Post w) (callbacks i w) _ (k i w v) (λ w1 p.
        Safe-map debug (Post w1) (Post w) (run_algorithms callbacks (suc i) rest w1)
          (λ w' q. Post-trans w w1 w' p q) (run_algorithms-Keeps callbacks (suc i) rest k w1 p.0))

  -- The steps of an aborted signal leave it without algorithms.
  run_the_abort_steps-IsEnded :
      (callbacks listeners : ℕ → Author) (s : ℕ) (reason : AbortReason) (w : Realm)
      → ((j : ℕ) → Keeps debug (callbacks j))
      → ((j : ℕ) → Keeps debug (listeners j))
      → is_undefined reason ≡ false
      → s < w.next_target
      → (w.signals s).abort_reason ≡ reason
      → IsValid w
      → Safe debug
          (λ w'. Post w w' × IsEnded reason s w')
          (run_the_abort_steps debug callbacks listeners s w)
  unfolding run_the_abort_steps
  run_the_abort_steps-IsEnded callbacks listeners s reason w k l given below e v =
      let emptied = algorithms-Post s [] (w.signals s).onabort_handler w (λ _ _. refl) v in
      let ended : IsEnded reason s
          (set_signal s (record (w.signals s) { abort_algorithms = [] }) w) =
        record { there = below; because = ground (arith, e); emptied = ground arith } in
      let start = set_signal s (record (w.signals s) { abort_algorithms = [] }) w in
      Safe-and_run debug (Post start) (λ w'. Post w w' × IsEnded reason s w')
        (run_algorithms callbacks 0 (w.signals s).abort_algorithms start) _
        (run_algorithms-Keeps callbacks 0 (w.signals s).abort_algorithms k start emptied.0)
        (λ w1 p.
          Safe-and_run debug (λ a. Post w1 a.0) (λ w'. Post w w' × IsEnded reason s w')
            (fire_an_event debug listeners (codes "abort") s w1) _
            (fire_an_event-Answers debug listeners (codes "abort") s w1 l p.0)
            (λ a q.
              let whole = Post-trans start w1 a.0 p q in
              (
                Post-trans w start a.0 emptied whole,
                IsEnded-Post reason s start a.0 given whole ended,
              )))

  run_each-IsEnded :
      (callbacks listeners : ℕ → ℕ → Author) (ss : List ℕ) (reason : AbortReason) (w : Realm)
      → ((s j : ℕ) → Keeps debug (callbacks s j))
      → ((s j : ℕ) → Keeps debug (listeners s j))
      → is_undefined reason ≡ false
      → ((s : ℕ) → mem s ss ≡ true → (s < w.next_target) × ((w.signals s).abort_reason ≡ reason))
      → IsValid w
      → Safe debug
          (λ w'. Post w w' × ((s : ℕ) → mem s ss ≡ true → IsEnded reason s w'))
          (run_each debug callbacks listeners ss w)
  unfolding run_each
  run_each-IsEnded callbacks listeners [] reason w k l given h v =
      (Post-refl w v, λ s m. absurd (cc m))
  run_each-IsEnded callbacks listeners (s ∷ ss) reason w k l given h v =
      let here = h s (ground arith) in
      Safe-and_run debug (λ w1. Post w w1 × IsEnded reason s w1) _
        (run_the_abort_steps debug (callbacks s) (listeners s) s w) _
        (run_the_abort_steps-IsEnded (callbacks s) (listeners s) s reason w (k s) (l s) given here.0
          here.1 v)
        (λ w1 (p, ended).
          Safe-map debug (λ w2. Post w1 w2 × ((j : ℕ) → mem j ss ≡ true → IsEnded reason j w2)) _
            (run_each debug callbacks listeners ss w1)
            (λ w2 (q, rest). (
              Post-trans w w1 w2 p q,
              λ j m. elim (Bool-cases (mem j ss)) [
                | inl later ↦ rest j later
                | inr not_later ↦
                    subst (λ i. IsEnded reason i w2) (ground (arith, m, not_later))
                      (IsEnded-Post reason s w1 w2 given q ended)
              ],
            ))
            (run_each-IsEnded callbacks listeners ss reason w1 k l given
              (λ j m. carried w w1 reason j given p (h j (ground (arith, m)))) p.0))

  -- Aborting an aborted signal does nothing.
  pub signal_abort-again :
      (callbacks listeners : ℕ → ℕ → Author) (s : ℕ) (reason : AbortReason) (w : Realm)
      → is_undefined (w.signals s).abort_reason ≡ false
      → signal_abort debug callbacks listeners s reason w ≡ done w
  unfolding signal_abort
  signal_abort-again callbacks listeners s reason w set =
      if_cases (λ x. x ≡ done w) (is_undefined (w.signals s).abort_reason)
        (λ unset. absurd (cc (set, unset))) (λ _. refl)

  -- Aborting a signal that is not aborted ends it, and every signal that depends on it and is not
  -- aborted, for the reason given.
  pub signal_abort-IsEnded :
      (callbacks listeners : ℕ → ℕ → Author) (s : ℕ) (reason : AbortReason) (w : Realm)
      → ((s j : ℕ) → Keeps debug (callbacks s j))
      → ((s j : ℕ) → Keeps debug (listeners s j))
      → s < w.next_target
      → is_undefined (w.signals s).abort_reason ≡ true
      → IsValid w
      → Safe debug
          (λ w'. Post w w' × IsReached (given_reason reason) s w w')
          (signal_abort debug callbacks listeners s reason w)
  unfolding signal_abort
  signal_abort-IsEnded callbacks listeners s reason w k l below unset v =
      if_cases (Safe debug P) (is_undefined (w.signals s).abort_reason)
        (λ _.
          Safe-and_run debug (λ w3. Post r.0 w3 × IsEnded given s w3) P
            (run_the_abort_steps debug (callbacks s) (listeners s) s r.0) _
            (run_the_abort_steps-IsEnded (callbacks s) (listeners s) s given r.0 (k s) (l s)
              is_given (omega (arith, below, marks.0.1.target_bound)) marks.1 marks.0.0)
            (λ w3 (p, ended).
              Safe-map debug (λ w4. Post w3 w4 × ((j : ℕ) → mem j r.1 ≡ true → IsEnded given j w4))
                P (run_each debug callbacks listeners r.1 w3)
                (λ w4 (q, rest). (
                  Post-trans w r.0 w4 marks.0 (Post-trans r.0 w3 w4 p q),
                  (
                    IsEnded-Post given s w3 w4 is_given q ended,
                    λ d m open_d. elim (marks.3 d m open_d) [
                      | inl same ↦
                          subst (λ i. IsEnded given i w4) (sym same)
                            (IsEnded-Post given s w3 w4 is_given q ended)
                      | inr later ↦ rest d later
                    ],
                  ),
                ))
                (run_each-IsEnded callbacks listeners r.1 given w3 k l is_given
                  (λ j m.
                    let (b, e) = marks.2 j m in
                    carried r.0 w3 given j is_given p (omega (arith, b, marks.0.1.target_bound), e))
                  p.0)))
        (λ set. absurd (cc (set, unset)))
    where
      given : AbortReason
      given = given_reason reason

      is_given : is_undefined given ≡ false
      is_given = ground arith

      w1 : Realm
      w1 = set_reason s given w

      r : Realm × List ℕ
      r = abort_dependents given (w1.signals s).dependent_signals w1

      marked : IsMarked given (w.signals s).dependent_signals w1 r
      marked =
          subst (λ ds. IsMarked given ds w1 r) (ground arith)
            (abort_dependents-IsMarked given (w1.signals s).dependent_signals w1 is_given)

      marks :
          Post w r.0
          × ((r.0.signals s).abort_reason ≡ given)
          × ((j : ℕ)
              → mem j r.1 ≡ true
              → (j < w.next_target) × ((r.0.signals j).abort_reason ≡ given))
          × ((j : ℕ)
              → mem j (w.signals s).dependent_signals ≡ true
              → is_undefined (w.signals j).abort_reason ≡ true
              → (j ≡ s) ⊎ (mem j r.1 ≡ true))
      marks = signal_abort-marks s given w is_given unset v r marked

      P : Realm → Type 0
      P w' = Post w w' × IsReached given s w w'

  pub signal_abort-Keeps :
      (callbacks listeners : ℕ → ℕ → Author) (s : ℕ) (reason : AbortReason) (w : Realm)
      → ((s j : ℕ) → Keeps debug (callbacks s j))
      → ((s j : ℕ) → Keeps debug (listeners s j))
      → s < w.next_target
      → IsValid w
      → Safe debug (Post w) (signal_abort debug callbacks listeners s reason w)
  signal_abort-Keeps callbacks listeners s reason w k l below v =
      elim (Bool-cases (is_undefined (w.signals s).abort_reason)) [
        | inl unset ↦
            Safe-map debug (λ w'. Post w w' × IsReached (given_reason reason) s w w') (Post w)
              (signal_abort debug callbacks listeners s reason w) (λ w' h. h.0)
              (signal_abort-IsEnded callbacks listeners s reason w k l below unset v)
        | inr set ↦
            subst (Safe debug (Post w))
              (sym (signal_abort-again callbacks listeners s reason w set)) (Post-refl w v)
      ]
