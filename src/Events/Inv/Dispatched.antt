-- ===== src/Events/Inv/Dispatched.antt =====
-- What a whole dispatch leaves (events/ of crates/builtins/web-globals/src), whatever the listeners
-- do.
use starlingmonkey_ng.Prelude.{
  ℕ, ◌+◌, ◌<◌, ◌≡◌, refl, sym, subst, Bool, true, false, not, ◌&&◌, ◌||◌, none, some, arith, ◌==◌,
  Bool-cases, inl, inr, if_cases,
}
use starlingmonkey_ng.Web.Text.{Text}
use starlingmonkey_ng.Events.{Realm, Run, done, and_run, flags_of, set_event, set_flags}
use starlingmonkey_ng.Events.Flags.{new_trusted, new_untrusted, start_dispatching, stop_dispatching}
use starlingmonkey_ng.Events.Dispatch.{
  Author, snapshots, invoke_listeners, dispatch, dispatch_event, fire_an_event,
}
use starlingmonkey_ng.Events.Inv.{
  IsValid, events-IsValid, Post, Post-refl, Post-trans, Keeps, events-Grows, event-Post,
}
use starlingmonkey_ng.Events.Kept.{
  EventKept, EventKept-same, EventKept-trans, Grows-refl, any_event,
}
use starlingmonkey_ng.Events.Safety.{Safe, Safe-and_run, Safe-map}
use starlingmonkey_ng.Events.Inv.Dispatching.{IsUnderWay, AllPassive, invoke_listeners-IsUnderWay}

-- What a dispatch leaves, with its answer.
abbrev pub Dispatched : ℕ → Bool → Realm → Realm × Bool → Type 0
Dispatched e quiet w a =
    Post w a.0
    × ((flags_of e a.0).dispatching ≡ false)
    × ((flags_of e a.0).stop_propagation ≡ false)
    × (quiet ≡ true → a.1 ≡ true)

module _ (debug : Bool) (e t : ℕ) (quiet : Bool) where
  -- The state in which the listeners are invoked.
  abbrev started : Realm → Realm
  started w =
      let w1 = set_flags e (record (flags_of e w) { dispatching = true }) w in
      set_event e (record (w1.events e) { target = some t }) w1

  started-IsUnderWay :
      (w : Realm)
      → e < w.next_event
      → (quiet ≡ true → (flags_of e w).canceled ≡ false)
      → IsValid w
      → IsUnderWay e quiet (started w) (started w)
  started-IsUnderWay w l uncanceled v = record {
    valid = events-IsValid _ w.next_event w v;
    grows = Grows-refl (λ k. k == e) _;
    there = l;
    dispatching = ground arith;
    uncanceled = λ q. ground (arith, uncanceled q);
  }

  stop_dispatching-Dispatched :
      (w w' : Realm)
      → e < w.next_event
      → (flags_of e w).dispatching ≡ false
      → IsUnderWay e quiet (started w) w'
      → Dispatched e quiet w
          (stop_dispatching e w', not (flags_of e (stop_dispatching e w')).canceled)
  unfolding stop_dispatching
  stop_dispatching-Dispatched w w' l idle u = (
    (
      events-IsValid _ w'.next_event w' u.valid,
      record {
        event_bound = u.grows.event_bound;
        lists = record { next = u.grows.lists.next; gone = u.grows.lists.gone };
        target_bound = u.grows.target_bound;
        events = λ k b _. kept k b;
        signals = λ s b. record {
          reason = (u.grows.signals s b).reason;
          algorithms = (u.grows.signals s b).algorithms;
        };
      },
    ),
    ground arith,
    ground arith,
    λ q. ground (arith, u.uncanceled q),
  )
    where
      kept : (k : ℕ) → k < w.next_event → EventKept k w (stop_dispatching e w')
      kept k b = elim (Bool-cases (k == e)) [
        | inl same ↦
            let same' : k ≡ e = ground (arith, same) in
            subst (λ j. EventKept j w (stop_dispatching e w')) (sym same')
              (record {
                dispatching = ground (arith, idle);
                passive = λ h. absurd (cc (h, idle));
                canceled = λ h _. absurd (cc (h, idle));
              })
        | inr other ↦
            EventKept-trans k w w' _
              (EventKept-trans k w (started w) w'
                (EventKept-same k w (started w) (ground (arith, other))) (u.grows.events k b other))
              (EventKept-same k w' _ (ground (arith, other)))
      ]

  start_dispatching-Safe :
      (w : Realm)
      → Safe debug
          (λ w1. w1 ≡ set_flags e (record (flags_of e w) { dispatching = true }) w)
          (start_dispatching debug e w)
  unfolding start_dispatching
  start_dispatching-Safe w =
      if_cases (Safe debug _)
        (debug
          && ((flags_of e w).dispatching
              || (flags_of e w).stop_propagation
              || (flags_of e w).stop_immediate_propagation))
        (λ h. ground (arith, h)) (λ _. refl)

  pub dispatch-Dispatched :
      (listeners : ℕ → Author) (w : Realm)
      → ((id : ℕ) → Keeps debug (listeners id))
      → e < w.next_event
      → (flags_of e w).dispatching ≡ false
      → (quiet ≡ true → (flags_of e w).canceled ≡ false)
      → (quiet ≡ true → AllPassive (snapshots (w.events e).event_type (w.listeners t)))
      → IsValid w
      → Safe debug (Dispatched e quiet w) (dispatch debug listeners e t w)
  unfolding dispatch
  dispatch-Dispatched listeners w k l idle uncanceled passive v =
      Safe-and_run debug (λ w1. w1 ≡ set_flags e (record (flags_of e w) { dispatching = true }) w)
        (Dispatched e quiet w) (start_dispatching debug e w) rest (start_dispatching-Safe w)
        (λ w1 same.
          subst (λ x. Safe debug (Dispatched e quiet w) (rest x)) (sym same)
            (Safe-and_run debug (IsUnderWay e quiet (started w)) (Dispatched e quiet w)
              (invoke_listeners debug listeners e t (started w)) _
              (invoke_listeners-IsUnderWay debug e t quiet (started w) listeners (started w) k
                (λ q.
                  subst (λ y. AllPassive (snapshots y (w.listeners t))) (ground arith) (passive q))
                (started-IsUnderWay w l uncanceled v))
              (λ w3 u. stop_dispatching-Dispatched w w3 l idle u)))
    where
      rest : Realm → Run (Realm × Bool)
      rest w1 =
          and_run
            (invoke_listeners debug listeners e t
              (set_event e (record (w1.events e) { target = some t }) w1))
            (λ w3. done (stop_dispatching e w3, not (flags_of e (stop_dispatching e w3)).canceled))

-- A method that answers.
abbrev pub Answers : {A : Type 0} → Bool → Realm → Run (Realm × A) → Type 0
Answers debug w = Safe debug (λ a. Post w a.0)

pub dispatch_event-Answers :
    (debug : Bool) (listeners : ℕ → Author) (e t : ℕ) (w : Realm)
    → ((id : ℕ) → Keeps debug (listeners id))
    → e < w.next_event
    → IsValid w
    → Answers debug w (dispatch_event debug listeners e t w)
unfolding dispatch_event
dispatch_event-Answers debug listeners e t w k l v =
    if_cases (Answers debug w) ((flags_of e w).dispatching || not (flags_of e w).initialized)
      (λ _. Post-refl w v)
      (λ h.
        let u = set_flags e (record (flags_of e w) { trusted = false }) w in
        let (u_valid, g) =
          event-Post e (record (w.events e) { flags = record (flags_of e w) { trusted = false } }) w
            refl (λ _. refl) (λ _ _. refl) v in
        Safe-and_run debug (Dispatched e false u) (λ a. Post w a.0) (dispatch debug listeners e t u)
          _
          (dispatch-Dispatched debug e t false listeners u k l (ground (arith, h))
            (λ q. absurd (cc q)) (λ q. absurd (cc q)) u_valid)
          (λ a d. Post-trans w u a.0 (u_valid, g) d.0))

new_trusted-Post : (name : Text) (w : Realm) → IsValid w → Post w (new_trusted name none w).0
unfolding new_trusted new_untrusted
new_trusted-Post name w v =
    events-Grows any_event _ (w.next_event + 1) w (omega arith)
      (λ j l _. EventKept-same j w _ (ground (arith, l))) v

new_trusted_lem :
    (name : Text) (w : Realm)
    → (w.next_event < (new_trusted name none w).0.next_event)
      × ((flags_of w.next_event (new_trusted name none w).0).dispatching ≡ false)
unfolding new_trusted new_untrusted
new_trusted_lem name w = (omega arith, ground arith)

pub fire_an_event-Answers :
    (debug : Bool) (listeners : ℕ → Author) (name : Text) (t : ℕ) (w : Realm)
    → ((id : ℕ) → Keeps debug (listeners id))
    → IsValid w
    → Answers debug w (fire_an_event debug listeners name t w)
unfolding fire_an_event
fire_an_event-Answers debug listeners name t w k v =
    let (u_valid, g) = new_trusted-Post name w v in
    Safe-map debug (Dispatched w.next_event false (new_trusted name none w).0) (λ a. Post w a.0) _
      (λ a d. Post-trans w (new_trusted name none w).0 a.0 (u_valid, g) d.0)
      (dispatch-Dispatched debug w.next_event t false listeners (new_trusted name none w).0 k
        (new_trusted_lem name w).0 (new_trusted_lem name w).1 (λ q. absurd (cc q))
        (λ q. absurd (cc q)) u_valid)
