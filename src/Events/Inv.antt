-- ===== src/Events/Inv.antt =====
-- The invariant of the abort signals and of the listener lists: of events/ and signals/ of
-- crates/builtins/web-globals/src.
pub mod Signals
pub mod Dispatching
pub mod Dispatched
pub mod Aborting
pub mod Once
pub mod Marking
use starlingmonkey_ng.Prelude.{
  ℕ, ◌≤◌, ◌<◌, ◌≡◌, refl, sym, subst, if_cases, Bool-cases, inl, inr, Bool, true, false, Option,
  List, [], arith, mem, ◌==◌,
}
use starlingmonkey_ng.Events.{
  Event, EventListener, AbortAlgorithm, Realm, flags_of, set_event, set_listeners, set_signal,
  is_undefined,
}
use starlingmonkey_ng.Events.Listeners.{discard}
use starlingmonkey_ng.Events.Listeners.Distinct.{
  IsDistinct, IsDistinct-weaken, has_id-discard, discard-IsDistinct,
}
use starlingmonkey_ng.Events.Dispatch.{Author, has_id}
use starlingmonkey_ng.Events.Kept.{
  EventKept, Grows, any_event, EventKept-same, ListsKept-same, Grows-refl, Grows-trans,
}
use starlingmonkey_ng.Events.Safety.{Safe}

-- A dependent signal depends on signals that do not depend on others; it is aborted when one is. No
-- two listeners of a target are the same.
pub record IsValid (w : Realm) : Type 0 where
  pub linked :
      (s d : ℕ)
      → mem d (w.signals s).dependent_signals ≡ true
      → (d < w.next_target) × ((w.signals s).dependent ≡ false) × ((w.signals d).dependent ≡ true)
  pub sourced :
      (d s : ℕ)
      → mem s (w.signals d).source_signals ≡ true
      → (s < w.next_target) × (mem d (w.signals s).dependent_signals ≡ true)
  pub spread :
      (s d : ℕ)
      → mem d (w.signals s).dependent_signals ≡ true
      → is_undefined (w.signals s).abort_reason ≡ false
      → is_undefined (w.signals d).abort_reason ≡ false
  pub distinct : (t : ℕ) → IsDistinct w.next_listener (w.listeners t)

abbrev pub Post : Realm → Realm → Type 0
Post v w = IsValid w × Grows any_event v w

-- Author code keeps the invariant, and what it must of each object.
abbrev pub Keeps : Bool → Author → Type 0
Keeps debug author = (w : Realm) → IsValid w → Safe debug (Post w) (author w)

pub Post-refl : (w : Realm) → IsValid w → Post w w
Post-refl w v = (v, Grows-refl any_event w)

pub Post-trans : (u v w : Realm) → Post u v → Post v w → Post u w
Post-trans u v w a b = (b.0, Grows-trans any_event u v w a.1 b.1)

-- Only the listeners of one target are others.
pub listeners-Post :
    (t : ℕ) (ls : List EventListener) (n : ℕ) (w : Realm)
    → w.next_listener ≤ n
    → IsDistinct n ls
    → ((id : ℕ) → id < w.next_listener → has_id id (w.listeners t) ≡ false → has_id id ls ≡ false)
    → IsValid w
    → Post w (record (set_listeners t ls w) { next_listener = n })
listeners-Post t ls n w l d gone v = (
  record {
    linked = v.linked;
    sourced = v.sourced;
    spread = v.spread;
    distinct = λ k.
        if_cases (IsDistinct n) (k == t) (λ _. d)
          (λ _. IsDistinct-weaken w.next_listener n (w.listeners k) l (v.distinct k));
  },
  record {
    event_bound = omega arith;
    target_bound = omega arith;
    events = λ e _ _. EventKept-same e w _ refl;
    signals = λ s _. record { reason = λ _. refl; algorithms = λ _ h. h };
    lists = record { next = l; gone = λ k id b h. ground (arith, gone id b, h) };
  },
)

-- Some listeners of a target are removed.
pub discarded-Post :
    (t : ℕ) (test : EventListener → Bool) (w : Realm)
    → IsValid w
    → Post w (set_listeners t (discard test (w.listeners t)) w)
discarded-Post t test w v =
    listeners-Post t _ w.next_listener w (omega arith)
      (discard-IsDistinct w.next_listener test (w.listeners t) (v.distinct t))
      (λ id _ h. has_id-discard test id (w.listeners t) h) v

pub events-IsValid :
    (es : ℕ → Event) (n : ℕ) (w : Realm)
    → IsValid w
    → IsValid (record w { events = es; next_event = n })
events-IsValid es n w v = record {
  linked = v.linked;
  sourced = v.sourced;
  spread = v.spread;
  distinct = v.distinct;
}

-- Only the events are others.
pub events-Grows :
    (but : ℕ → Bool) (es : ℕ → Event) (n : ℕ) (w : Realm)
    → w.next_event ≤ n
    → ((e : ℕ)
        → e < w.next_event
        → but e ≡ false
        → EventKept e w (record w { events = es; next_event = n }))
    → IsValid w
    → IsValid (record w { events = es; next_event = n })
      × Grows but w (record w { events = es; next_event = n })
events-Grows but es n w l h v = (
  events-IsValid es n w v,
  record {
    event_bound = l;
    target_bound = omega arith;
    events = h;
    signals = λ s _. record { reason = λ _. refl; algorithms = λ _ e. e };
    lists = ListsKept-same w _ refl (λ t. refl);
  },
)

-- Only the algorithms and the handler of a signal are others.
pub algorithms-Post :
    (s : ℕ) (rest : List AbortAlgorithm) (handler : Option ℕ) (w : Realm)
    → (is_undefined (w.signals s).abort_reason ≡ false
        → (w.signals s).abort_algorithms ≡ []
        → rest ≡ [])
    → IsValid w
    → Post w (
        set_signal s
          (record (w.signals s) { abort_algorithms = rest; onabort_handler = handler })
          w)
algorithms-Post s rest handler w h v = (
  record {
    linked = λ a d. ground (arith, v.linked a d);
    sourced = λ d a. ground (arith, v.sourced d a);
    spread = λ a d. ground (arith, v.spread a d);
    distinct = v.distinct;
  },
  record {
    event_bound = omega arith;
    target_bound = omega arith;
    events = λ e _ _. EventKept-same e w _ refl;
    signals = λ k _. record { reason = λ _. ground arith; algorithms = λ u e. ground (arith, h) };
    lists = ListsKept-same w _ refl (λ t. refl);
  },
)

-- One event is another.
pub event-Post :
    (e : ℕ) (x : Event) (w : Realm)
    → x.flags.dispatching ≡ (flags_of e w).dispatching
    → ((flags_of e w).dispatching ≡ true
        → x.flags.in_passive_listener ≡ (flags_of e w).in_passive_listener)
    → ((flags_of e w).dispatching ≡ true
        → (flags_of e w).in_passive_listener ≡ true
        → x.flags.canceled ≡ (flags_of e w).canceled)
    → IsValid w
    → Post w (set_event e x w)
event-Post e x w d p c v = events-Grows any_event _ w.next_event w (omega arith) (λ k _ _. kept k) v
  where
    kept : (k : ℕ) → EventKept k w (set_event e x w)
    kept k = elim (Bool-cases (k == e)) [
      | inr other ↦ EventKept-same k w _ (ground (arith, other))
      | inl same ↦
          let same' : k ≡ e = ground (arith, same) in
          subst (λ j. EventKept j w (set_event e x w)) (sym same')
            (record {
              dispatching = ground (arith, d);
              passive = λ h. ground (arith, p h);
              canceled = λ h i. ground (arith, c h i);
            })
    ]
