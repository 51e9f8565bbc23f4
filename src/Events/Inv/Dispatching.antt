-- ===== src/Events/Inv/Dispatching.antt =====
-- The invariant through a dispatch (events/ of crates/builtins/web-globals/src), whatever the
-- listeners do.
use starlingmonkey_ng.Prelude.{
  ℕ, ◌<◌, ◌≡◌, refl, ◌∙◌, Bool, true, false, not, ◌&&◌, List, [], ◌∷◌, All, arith, if◌then◌else◌,
  ◌==◌, if_cases,
}
use starlingmonkey_ng.Events.{Realm, done, flags_of, set_listeners}
use starlingmonkey_ng.Events.Flags.{set_in_passive_listener}
use starlingmonkey_ng.Events.Listeners.Distinct.{has_id-remove_at_id, remove_at_id-IsDistinct}
use starlingmonkey_ng.Events.Dispatch.{
  Author, ListenerSnapshot, snapshots, has_id, remove_at_id, is_passive, invoke_listener,
  invoke_each, invoke_listeners,
}
use starlingmonkey_ng.Events.Inv.{IsValid, Keeps, Post, listeners-Post, events-Grows}
use starlingmonkey_ng.Events.Kept.{EventKept-same, Grows, Grows-trans, Grows-weaken}
use starlingmonkey_ng.Events.Safety.{Safe, Safe-and_run, Safe-map}

-- While `e` is dispatched, from `v`: where `quiet`, it has not been canceled.
pub record IsUnderWay (e : ℕ) (quiet : Bool) (v w : Realm) : Type 0 where
  pub valid : IsValid w
  pub grows : Grows (λ k. k == e) v w
  pub there : e < w.next_event
  pub dispatching : (flags_of e w).dispatching ≡ true
  pub uncanceled : quiet ≡ true → (flags_of e w).canceled ≡ false

abbrev pub AllPassive : List ListenerSnapshot → Type 0
AllPassive = All (λ s. is_passive s.passive ≡ true)

-- The removal of a listener that is called once.
pub once_removed-Post :
    (t id : ℕ) (w : Realm)
    → IsValid w
    → Post w (set_listeners t (remove_at_id id (w.listeners t)) w)
once_removed-Post t id w v =
    listeners-Post t _ w.next_listener w (omega arith)
      (remove_at_id-IsDistinct w.next_listener id (w.listeners t) (v.distinct t))
      (λ i _ h. has_id-remove_at_id id i (w.listeners t) h) v

module _ (debug : Bool) (e t : ℕ) (quiet : Bool) (v : Realm) where
  -- The passive flag is set or unset.
  set_in_passive_listener-IsUnderWay :
      (value : Bool) (w : Realm)
      → IsUnderWay e quiet v w
      → Safe debug
          (λ w'. IsUnderWay e quiet v w' × ((flags_of e w').in_passive_listener ≡ value))
          (set_in_passive_listener debug e value w)
  unfolding set_in_passive_listener
  set_in_passive_listener-IsUnderWay value w u =
      if_cases (Safe debug _) (debug && not (flags_of e w).dispatching)
        (λ h. absurd (ground (arith, h, u.dispatching)))
        (λ _.
          let (ok_valid, g) =
            events-Grows (λ k. k == e) _ w.next_event w (omega arith)
              (λ k l h. EventKept-same k w _ (ground (arith, h))) u.valid in
          (
            record {
              valid = ok_valid;
              grows = Grows-trans (λ k. k == e) v w _ u.grows g;
              there = u.there;
              dispatching = ground (arith, u.dispatching);
              uncanceled = λ q. ground (arith, u.uncanceled q);
            },
            ground arith,
          ))

  -- Author code runs, whether or not in a passive listener.
  author-IsUnderWay :
      (author : Author) (w : Realm)
      → Keeps debug author
      → IsUnderWay e quiet v w
      → (quiet ≡ true → (flags_of e w).in_passive_listener ≡ true)
      → Safe debug (IsUnderWay e quiet v) (author w)
  author-IsUnderWay author w k u passive =
      Safe-map debug _ (IsUnderWay e quiet v) (author w)
        (λ w' (ok_valid, g).
          let kept = g.events e u.there refl in
          record {
            valid = ok_valid;
            grows = Grows-trans (λ j. j == e) v w w' u.grows (Grows-weaken (λ j. j == e) w w' g);
            there = omega (arith, u.there, g.event_bound);
            dispatching = kept.dispatching ∙ u.dispatching;
            uncanceled = λ q. kept.canceled u.dispatching (passive q) ∙ u.uncanceled q;
          })
        (k w u.valid)

  removed-IsUnderWay :
      (snap : ListenerSnapshot) (w : Realm)
      → IsUnderWay e quiet v w
      → IsUnderWay e quiet v
          (if snap.once then set_listeners t (remove_at_id snap.id (w.listeners t)) w else w)
  removed-IsUnderWay snap w u =
      if_cases (IsUnderWay e quiet v) snap.once
        (λ _.
          let (ok_valid, g) = once_removed-Post t snap.id w u.valid in
          record {
            valid = ok_valid;
            grows = Grows-trans (λ j. j == e) v w _ u.grows (Grows-weaken (λ j. j == e) w _ g);
            there = u.there;
            dispatching = u.dispatching;
            uncanceled = u.uncanceled;
          })
        (λ _. u)

  -- In a passive listener, where it matters.
  abbrev InListener : Realm → Type 0
  InListener w = IsUnderWay e quiet v w × (quiet ≡ true → (flags_of e w).in_passive_listener ≡ true)

  marks-InListener :
      (passive : Bool) (w : Realm)
      → (quiet ≡ true → passive ≡ true)
      → IsUnderWay e quiet v w
      → Safe debug InListener (if passive then set_in_passive_listener debug e true w else done w)
  marks-InListener passive w h u =
      if_cases (Safe debug InListener) passive
        (λ _.
          Safe-map debug
            (λ w'. IsUnderWay e quiet v w' × ((flags_of e w').in_passive_listener ≡ true))
            InListener (set_in_passive_listener debug e true w) (λ w' (u', p). (u', λ _. p))
            (set_in_passive_listener-IsUnderWay true w u))
        (λ n. (u, λ q. absurd (cc (n, h q))))

  pub invoke_listener-IsUnderWay :
      (listeners : ℕ → Author) (snap : ListenerSnapshot) (w : Realm)
      → ((id : ℕ) → Keeps debug (listeners id))
      → (quiet ≡ true → is_passive snap.passive ≡ true)
      → IsUnderWay e quiet v w
      → Safe debug (IsUnderWay e quiet v) (invoke_listener debug listeners e t snap w)
  unfolding invoke_listener
  invoke_listener-IsUnderWay listeners snap w k passive u =
      Safe-and_run debug InListener (IsUnderWay e quiet v) _ _
        (marks-InListener (is_passive snap.passive) _ passive (removed-IsUnderWay snap w u))
        (λ w2 (u2, p2).
          Safe-and_run debug (IsUnderWay e quiet v) (IsUnderWay e quiet v) (listeners snap.id w2) _
            (author-IsUnderWay (listeners snap.id) w2 (k snap.id) u2 p2)
            (λ w3 u3.
              Safe-map debug
                (λ w'. IsUnderWay e quiet v w' × ((flags_of e w').in_passive_listener ≡ false))
                (IsUnderWay e quiet v) (set_in_passive_listener debug e false w3) (λ w4 h. h.0)
                (set_in_passive_listener-IsUnderWay false w3 u3)))

  invoke_each-IsUnderWay :
      (listeners : ℕ → Author) (snaps : List ListenerSnapshot) (w : Realm)
      → ((id : ℕ) → Keeps debug (listeners id))
      → (quiet ≡ true → AllPassive snaps)
      → IsUnderWay e quiet v w
      → Safe debug (IsUnderWay e quiet v) (invoke_each debug listeners e t snaps w)
  unfolding invoke_each
  invoke_each-IsUnderWay listeners [] w k passive u = u
  invoke_each-IsUnderWay listeners (snap ∷ snaps) w k passive u =
      if_cases (Safe debug (IsUnderWay e quiet v)) (has_id snap.id (w.listeners t))
        (λ _.
          Safe-and_run debug (IsUnderWay e quiet v) (IsUnderWay e quiet v)
            (invoke_listener debug listeners e t snap w) _
            (invoke_listener-IsUnderWay listeners snap w k (λ q. (passive q).0) u)
            (λ w' u'.
              if_cases (Safe debug (IsUnderWay e quiet v))
                (flags_of e w').stop_immediate_propagation (λ _. u')
                (λ _. invoke_each-IsUnderWay listeners snaps w' k (λ q. (passive q).1) u')))
        (λ _. invoke_each-IsUnderWay listeners snaps w k (λ q. (passive q).1) u)

  pub invoke_listeners-IsUnderWay :
      (listeners : ℕ → Author) (w : Realm)
      → ((id : ℕ) → Keeps debug (listeners id))
      → (quiet ≡ true → AllPassive (snapshots (w.events e).event_type (w.listeners t)))
      → IsUnderWay e quiet v w
      → Safe debug (IsUnderWay e quiet v) (invoke_listeners debug listeners e t w)
  unfolding invoke_listeners
  invoke_listeners-IsUnderWay listeners w k passive u =
      if_cases (Safe debug (IsUnderWay e quiet v)) (flags_of e w).stop_propagation (λ _. u)
        (λ _. invoke_each-IsUnderWay listeners _ w k passive u)
