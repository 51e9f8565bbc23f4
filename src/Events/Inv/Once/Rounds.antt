-- ===== src/Events/Inv/Once/Rounds.antt =====
-- The rounds of `invoke_listeners` (events/algorithms.rs, crates/builtins/web-globals/src), and the
-- listeners that are called once.
use starlingmonkey_ng.Prelude.{
  ℕ, ◌<◌, ◌≡◌, refl, sym, subst, Bool, true, false, List, [], ◌∷◌, arith, ◌==◌, if_cases,
  Bool-cases, inl, inr,
}
use starlingmonkey_ng.Events.{Realm, flags_of, set_listeners}
use starlingmonkey_ng.Events.Listeners.Distinct.{remove_at_id-gone}
use starlingmonkey_ng.Events.Dispatch.{
  Author, ListenerSnapshot, snapshots, has_id, remove_at_id, invoke_listener, invoke_each,
  invoke_listeners,
}
use starlingmonkey_ng.Events.Inv.{Keeps}
use starlingmonkey_ng.Events.Kept.{Grows-refl, ListsKept, ListsKept-same, ListsKept-trans}
use starlingmonkey_ng.Events.Safety.{Safe, Safe-and_run, Safe-map}
use starlingmonkey_ng.Events.Inv.Dispatching.{
  IsUnderWay, once_removed-Post, invoke_listener-IsUnderWay,
}
use starlingmonkey_ng.Events.Inv.Once.{
  AllBelow, AllBelow-weaken, IsDispatched, once_listener, once_snapshot, snapshots-AllBelow,
  snapshots-once,
}

module _ (debug : Bool) (e t : ℕ) (listeners : ℕ → Author)
    (keeps : (id : ℕ) → Keeps debug (listeners id)) where
  -- What a round leaves of the lists.
  abbrev RoundKept : ListenerSnapshot → Realm → Realm → Type 0
  RoundKept snap w w' =
      IsDispatched e w'
      × ListsKept w w'
      × (snap.once ≡ true → has_id snap.id (w'.listeners t) ≡ false)

  -- A listener that is not removed first is called.
  called-RoundKept :
      (snap : ListenerSnapshot) (w : Realm)
      → IsDispatched e w
      → Safe debug
          (λ w'. IsDispatched e w' × ListsKept w w')
          (invoke_listener debug listeners e t snap w)
  called-RoundKept snap w (v, there, d) =
      Safe-map debug (IsUnderWay e false w) _ (invoke_listener debug listeners e t snap w)
        (λ w' u. ((u.valid, u.there, u.dispatching), u.grows.lists))
        (invoke_listener-IsUnderWay debug e t false w listeners snap w keeps (λ q. absurd (cc q))
          (record {
            valid = v;
            grows = Grows-refl (λ k. k == e) w;
            there = there;
            dispatching = d;
            uncanceled = λ q. absurd (cc q);
          }))

  invoke_listener-RoundKept :
      (snap : ListenerSnapshot) (w : Realm)
      → IsDispatched e w
      → snap.id < w.next_listener
      → Safe debug (RoundKept snap w) (invoke_listener debug listeners e t snap w)
  unfolding invoke_listener
  invoke_listener-RoundKept snap w (v, there, d) below = elim (Bool-cases snap.once) [
    | inr stays ↦
        Safe-map debug _ (RoundKept snap w) (invoke_listener debug listeners e t snap w)
          (λ w' (i, k). (i, k, λ once. absurd (cc (once, stays))))
          (called-RoundKept snap w (v, there, d))
    | inl once ↦
        let (v1, g) = once_removed-Post t snap.id w v in
        subst (Safe debug (RoundKept snap w)) (sym (removed_first once)) (
          Safe-map debug _ (RoundKept snap w)
            (invoke_listener debug listeners e t (record snap { once = false }) removed)
            (λ w' (i, k).
              (i, ListsKept-trans w removed w' g.lists k, λ _. k.gone t snap.id below gone))
            (called-RoundKept (record snap { once = false }) removed (v1, there, d)))
  ]
    where
      removed : Realm
      removed = set_listeners t (remove_at_id snap.id (w.listeners t)) w

      gone : has_id snap.id (removed.listeners t) ≡ false
      gone =
          ground (arith, remove_at_id-gone w.next_listener snap.id (w.listeners t) (v.distinct t))

      removed_first :
          snap.once ≡ true
          → invoke_listener debug listeners e t snap w
            ≡ invoke_listener debug listeners e t (record snap { once = false }) removed
      removed_first once = cc once

  -- What the rounds leave, where none stops the others.
  abbrev pub AllGone : (ℕ → Bool) → Realm → Realm → Type 0
  AllGone once w w' =
      IsDispatched e w'
      × ListsKept w w'
      × ((id : ℕ)
          → once id ≡ true
          → (flags_of e w').stop_immediate_propagation ≡ false
          → has_id id (w'.listeners t) ≡ false)

  invoke_each-AllGone :
      (snaps : List ListenerSnapshot) (w : Realm)
      → IsDispatched e w
      → AllBelow w.next_listener snaps
      → Safe debug
          (AllGone (λ id. once_snapshot id snaps) w)
          (invoke_each debug listeners e t snaps w)
  unfolding invoke_each
  invoke_each-AllGone [] w i b = (i, ListsKept-same w w refl (λ _. refl), λ id h. absurd (cc h))
  invoke_each-AllGone (snap ∷ snaps) w i (below, b) =
      if_cases (Safe debug Q) (has_id snap.id (w.listeners t))
        (λ _.
          Safe-and_run debug (RoundKept snap w) Q (invoke_listener debug listeners e t snap w) _
            (invoke_listener-RoundKept snap w i below)
            (λ w1 (i1, k1, gone1).
              if_cases (Safe debug Q) (flags_of e w1).stop_immediate_propagation
                (λ stops. (i1, k1, λ id h goes_on. absurd (cc (stops, goes_on))))
                (λ _.
                  Safe-map debug _ Q (invoke_each debug listeners e t snaps w1)
                    (λ w' (i2, k, gone). (
                      i2,
                      ListsKept-trans w w1 w' k1 k,
                      λ id h f. elim (Bool-cases (once_snapshot id snaps)) [
                        | inl later ↦ gone id later f
                        | inr not_later ↦
                            let (once, same) = this id h not_later in
                            k.gone t id (omega (arith, same, below, k1.next))
                              (subst (λ j. has_id j (w1.listeners t) ≡ false) same (gone1 once))
                      ],
                    ))
                    (invoke_each-AllGone snaps w1 i1
                      (AllBelow-weaken w.next_listener w1.next_listener snaps k1.next b)))))
        (λ missing.
          Safe-map debug _ Q (invoke_each debug listeners e t snaps w)
            (λ w' (i2, k, gone). (
              i2,
              k,
              λ id h f. elim (Bool-cases (once_snapshot id snaps)) [
                | inl later ↦ gone id later f
                | inr not_later ↦
                    let (once, same) = this id h not_later in
                    k.gone t id (omega (arith, same, below))
                      (subst (λ j. has_id j (w.listeners t) ≡ false) same missing)
              ],
            ))
            (invoke_each-AllGone snaps w i b))
    where
      Q : Realm → Type 0
      Q = AllGone (λ id. once_snapshot id (snap ∷ snaps)) w

      this :
          (id : ℕ)
          → once_snapshot id (snap ∷ snaps) ≡ true
          → once_snapshot id snaps ≡ false
          → (snap.once ≡ true) × (snap.id ≡ id)
      this id h n = (ground (arith, h, n), ground (arith, h, n))

  pub invoke_listeners-AllGone :
      (w : Realm)
      → IsDispatched e w
      → (flags_of e w).stop_propagation ≡ false
      → Safe debug
          (AllGone (λ id. once_listener (w.events e).event_type id (w.listeners t)) w)
          (invoke_listeners debug listeners e t w)
  unfolding invoke_listeners
  invoke_listeners-AllGone w i goes =
      let snaps = snapshots (w.events e).event_type (w.listeners t) in
      if_cases
        (Safe debug (AllGone (λ id. once_listener (w.events e).event_type id (w.listeners t)) w))
        (flags_of e w).stop_propagation (λ stops. absurd (cc (stops, goes)))
        (λ _.
          Safe-map debug (AllGone (λ id. once_snapshot id snaps) w) _
            (invoke_each debug listeners e t snaps w)
            (λ w' (i', k, gone). (
              i',
              k,
              λ id h f. gone id (snapshots-once (w.events e).event_type id (w.listeners t) h) f,
            ))
            (invoke_each-AllGone snaps w i (
              snapshots-AllBelow (w.events e).event_type w.next_listener (w.listeners t)
                (i.0.distinct t))))
