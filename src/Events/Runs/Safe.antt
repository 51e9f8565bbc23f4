-- ===== src/Events/Runs/Safe.antt =====
-- Any run of author code on events, targets and signals (events/ and signals/ of
-- crates/builtins/web-globals/src), from a realm that has none yet.
use starlingmonkey_ng.Prelude.{
  ℕ, ◌<◌, ◌≡◌, ◌⊎◌, refl, subst, Bool, true, false, none, [], arith, mem, ltb, Bool-cases, inl, inr,
  if_cases,
}
use starlingmonkey_ng.Events.{
  undefined, Realm, Run, done, panics, not_stopped, is_dispatching, timeout_error, is_undefined,
}
use starlingmonkey_ng.Events.Flags.{
  set_cancel_bubble, stop_immediate_propagation, set_return_value, init_event,
}
use starlingmonkey_ng.Events.Listeners.{add_event_listener, remove_event_listener}
use starlingmonkey_ng.Events.Abort.{
  timeout_fires, add_abort_algorithm, remove_abort_algorithm, set_onabort,
}
use starlingmonkey_ng.Events.Inv.{IsValid, Post, Post-refl, Post-trans, Keeps}
use starlingmonkey_ng.Events.Safety.{Safe, Safe-and_run, Safe-map}
use starlingmonkey_ng.Events.Inv.Signals.{new_signal-Post, abort-Post}
use starlingmonkey_ng.Events.Inv.Signals.Dependent.{create_dependent_abort_signal-Post}
use starlingmonkey_ng.Events.Inv.Dispatched.{Answers, dispatch_event-Answers}
use starlingmonkey_ng.Events.Inv.Aborting.{signal_abort-Keeps}
use starlingmonkey_ng.Events.Runs.{
  Call, makes_target, makes_event, adds_listener, removes_listener, dispatches, sets_cancel_bubble,
  stops_immediately, sets_return_value, inits_event, makes_aborted, makes_any, aborts, times_out,
  adds_algorithm, removes_algorithm, sets_onabort, Calls, none_left, then_calls, after, on,
  run_call, run_calls,
}
use starlingmonkey_ng.Events.Runs.Methods.{
  new_untrusted-Post, set_cancel_bubble-Post, stop_immediate_propagation-Post,
  set_return_value-Post, init_event-Post, add_event_listener-Post, remove_event_listener-Post,
  add_abort_algorithm-Post, remove_abort_algorithm-Post, set_onabort-Post,
}

after-Safe :
    {A : Type 0} (debug : Bool) (w : Realm) (run : Run (Realm × A))
    → Answers debug w run
    → Safe debug (Post w) (after run)
after-Safe debug w (done a) h = h
after-Safe debug w (panics not_stopped) h = h
after-Safe debug w (panics is_dispatching) h = h

on-Safe :
    (debug there : Bool) (w : Realm) (run : Run Realm)
    → IsValid w
    → (there ≡ true → Safe debug (Post w) run)
    → Safe debug (Post w) (on there run w)
on-Safe debug there w run v h = if_cases (Safe debug (Post w)) there h (λ _. Post-refl w v)

module _ (debug : Bool) where
  mutual
    unfolding run_call run_calls timeout_fires

    run_call-Keeps : (c : Call) → Keeps debug (run_call debug c)
    run_call-Keeps makes_target w v = new_signal-Post w v
    run_call-Keeps (makes_event name init) w v = new_untrusted-Post name init w v
    run_call-Keeps (adds_listener t name c o) w v =
        on-Safe debug (ltb t w.next_target) w (done (add_event_listener t name c o w).0) v
          (λ _. add_event_listener-Post t name c o w v)
    run_call-Keeps (removes_listener t name c o) w v =
        on-Safe debug (ltb t w.next_target) w (done (remove_event_listener t name c o w).0) v
          (λ _. remove_event_listener-Post t name c o w v)
    run_call-Keeps (dispatches listeners e t) w v = on-Safe debug _ w _ v (λ h.
        after-Safe debug w _ (
          dispatch_event-Answers debug (λ l x. run_calls debug (listeners l) x) e t w
            (λ l. run_calls-Keeps (listeners l)) (ground (arith, h)) v))
    run_call-Keeps (sets_cancel_bubble e b) w v =
        on-Safe debug (ltb e w.next_event) w (done (set_cancel_bubble e b w)) v
          (λ _. set_cancel_bubble-Post e b w v)
    run_call-Keeps (stops_immediately e) w v =
        on-Safe debug (ltb e w.next_event) w (done (stop_immediate_propagation e w)) v
          (λ _. stop_immediate_propagation-Post e w v)
    run_call-Keeps (sets_return_value e b) w v =
        on-Safe debug (ltb e w.next_event) w (done (set_return_value e b w)) v
          (λ _. set_return_value-Post e b w v)
    run_call-Keeps (inits_event e name b c) w v =
        on-Safe debug (ltb e w.next_event) w (done (init_event e name b c w)) v
          (λ _. init_event-Post e name b c w v)
    run_call-Keeps (makes_aborted reason) w v = abort-Post reason w v
    run_call-Keeps (makes_any ss) w v =
        on-Safe debug _ w _ v (λ h. create_dependent_abort_signal-Post ss w h v)
    run_call-Keeps (aborts callbacks listeners s reason) w v = on-Safe debug _ w _ v (λ h.
        signal_abort-Keeps debug (λ k i x. run_calls debug (callbacks k i) x)
          (λ k l x. run_calls debug (listeners k l) x) s reason w
          (λ k i. run_calls-Keeps (callbacks k i)) (λ k l. run_calls-Keeps (listeners k l))
          (ground (arith, h)) v)
    run_call-Keeps (times_out callbacks listeners s) w v = on-Safe debug _ w _ v (λ h.
        signal_abort-Keeps debug (λ k i x. run_calls debug (callbacks k i) x)
          (λ k l x. run_calls debug (listeners k l) x) s timeout_error w
          (λ k i. run_calls-Keeps (callbacks k i)) (λ k l. run_calls-Keeps (listeners k l))
          (ground (arith, h)) v)
    run_call-Keeps (adds_algorithm s c) w v =
        on-Safe debug (ltb s w.next_target) w (done (add_abort_algorithm s c w)) v
          (λ _. add_abort_algorithm-Post s c w v)
    run_call-Keeps (removes_algorithm s c) w v =
        on-Safe debug (ltb s w.next_target) w (done (remove_abort_algorithm s c w)) v
          (λ _. remove_abort_algorithm-Post s c w v)
    run_call-Keeps (sets_onabort s h) w v =
        on-Safe debug (ltb s w.next_target) w (done (set_onabort s h w)) v
          (λ _. set_onabort-Post s h w v)

    pub run_calls-Keeps : (cs : Calls) → Keeps debug (run_calls debug cs)
    run_calls-Keeps none_left w v = Post-refl w v
    run_calls-Keeps (then_calls c cs) w v =
        Safe-and_run debug (Post w) (Post w) (run_call debug c w) _ (run_call-Keeps c w v) (λ w1 p.
          Safe-map debug (Post w1) (Post w) (run_calls debug cs w1) (λ w2 q. Post-trans w w1 w2 p q)
            (run_calls-Keeps cs w1 p.0))

-- A realm without objects.
abbrev pub empty_realm : Realm
empty_realm = record {
  events = λ e. record {
    event_type = [];
    target = none;
    flags = record {
      stop_propagation = false;
      stop_immediate_propagation = false;
      canceled = false;
      in_passive_listener = false;
      dispatching = false;
      initialized = false;
      bubbles = false;
      cancelable = false;
      composed = false;
      trusted = false;
    };
  };
  next_event = 0;
  listeners = λ t. [];
  signals = λ s. record {
    abort_reason = undefined;
    dependent = false;
    source_signals = [];
    dependent_signals = [];
    abort_algorithms = [];
    onabort_handler = none;
  };
  next_target = 0;
  next_listener = 0;
}

pub empty_realm-IsValid : IsValid empty_realm
empty_realm-IsValid = record {
  linked = λ s d m. absurd (cc m);
  sourced = λ d s m. absurd (cc m);
  spread = λ s d m u. absurd (cc m);
  distinct = λ t. tt;
}

-- What a safe run gives.
pub Safe-cases :
    {A : Type 0} (debug : Bool) (P : A → Type 0) (run : Run A)
    → Safe debug P run
    → ((a : A) × (run ≡ done a) × P a) ⊎ ((debug ≡ true) × (run ≡ panics not_stopped))
Safe-cases debug P (done a) h = inl (a, refl, h)
Safe-cases debug P (panics not_stopped) h = inr (h, refl)
Safe-cases debug P (panics is_dispatching) h = absurd h

-- From a realm without events, targets and signals, whatever methods author code calls, at whatever
-- depth: the run ends in a realm that satisfies the invariant, or, only where debug assertions are on,
-- at the assertion of `start_dispatching`; that of `set_in_passive_listener` never fails.
pub run_calls_safe_events :
    (debug : Bool) (cs : Calls)
    → ((w : Realm) × (run_calls debug cs empty_realm ≡ done w) × IsValid w)
      ⊎ ((debug ≡ true) × (run_calls debug cs empty_realm ≡ panics not_stopped))
run_calls_safe_events debug cs = Safe-cases debug IsValid _ (
    Safe-map debug (Post empty_realm) IsValid _ (λ w p. p.0)
      (run_calls-Keeps debug cs empty_realm empty_realm-IsValid))

done_inj : {A : Type 0} {a b : A} → done a ≡ done b → a ≡ b
done_inj h = cc

pub Safe-done :
    {A : Type 0} (debug : Bool) (P : A → Type 0) (run : Run A) (a : A)
    → run ≡ done a
    → Safe debug P run
    → P a
Safe-done debug P run a e h = subst (Safe debug P) e h

-- In a realm that satisfies the invariant, let a signal be aborted. Then no run of author code changes
-- its reason; and if it has no abort algorithms, none are added.
pub aborted_for_good :
    (debug : Bool) (cs : Calls) (v w : Realm) (s : ℕ)
    → IsValid v
    → run_calls debug cs v ≡ done w
    → s < v.next_target
    → is_undefined (v.signals s).abort_reason ≡ false
    → ((w.signals s).abort_reason ≡ (v.signals s).abort_reason)
      × ((v.signals s).abort_algorithms ≡ [] → (w.signals s).abort_algorithms ≡ [])
aborted_for_good debug cs v w s ok_valid e l set =
    let (_, g) = Safe-done debug (Post v) _ w e (run_calls-Keeps debug cs v ok_valid) in
    ((g.signals s l).reason set, (g.signals s l).algorithms set)

-- In the realm that any run from one without objects leaves, let a signal not be aborted. Then each
-- of its source signals is not aborted and does not depend on others, and has it among its dependent
-- signals.
pub sources_are_live :
    (debug : Bool) (cs : Calls) (w : Realm) (d s : ℕ)
    → run_calls debug cs empty_realm ≡ done w
    → is_undefined (w.signals d).abort_reason ≡ true
    → mem s (w.signals d).source_signals ≡ true
    → (is_undefined (w.signals s).abort_reason ≡ true)
      × ((w.signals s).dependent ≡ false)
      × (mem d (w.signals s).dependent_signals ≡ true)
sources_are_live debug cs w d s e unset m =
    let (v, g) =
      Safe-done debug (Post empty_realm) _ w e
        (run_calls-Keeps debug cs empty_realm empty_realm-IsValid) in
    let (l, link) = v.sourced d s m in
    (
      elim (Bool-cases (is_undefined (w.signals s).abort_reason)) [
        | inl x ↦ x
        | inr x ↦ absurd (cc (v.spread s d link x, unset))
      ],
      (v.linked s d link).1,
      link,
    )
