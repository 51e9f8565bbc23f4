-- ===== src/Events/Kept.antt =====
-- What any call leaves of the objects that there are: of events/ and signals/ of
-- crates/builtins/web-globals/src.
use starlingmonkey_ng.Prelude.{ℕ, ◌≤◌, ◌<◌, ◌≡◌, refl, ◌∙◌, ap, Bool, true, false, [], arith}
use starlingmonkey_ng.Events.{Realm, flags_of, is_undefined}
use starlingmonkey_ng.Events.Dispatch.{has_id}

-- The event is being dispatched afterwards if it was before; then a passive listener stays one, and
-- does not cancel the event.
pub record EventKept (e : ℕ) (v w : Realm) : Type 0 where
  pub dispatching : (flags_of e w).dispatching ≡ (flags_of e v).dispatching
  pub passive :
      (flags_of e v).dispatching ≡ true
      → (flags_of e w).in_passive_listener ≡ (flags_of e v).in_passive_listener
  pub canceled :
      (flags_of e v).dispatching ≡ true
      → (flags_of e v).in_passive_listener ≡ true
      → (flags_of e w).canceled ≡ (flags_of e v).canceled

-- An aborted signal keeps its reason, and gets no algorithms.
pub record SignalKept (s : ℕ) (v w : Realm) : Type 0 where
  pub reason :
      is_undefined (v.signals s).abort_reason ≡ false
      → (w.signals s).abort_reason ≡ (v.signals s).abort_reason
  pub algorithms :
      is_undefined (v.signals s).abort_reason ≡ false
      → (v.signals s).abort_algorithms ≡ []
      → (w.signals s).abort_algorithms ≡ []

-- A listener that is gone does not come back.
pub record ListsKept (v w : Realm) : Type 0 where
  pub next : v.next_listener ≤ w.next_listener
  pub gone :
      (t id : ℕ)
      → id < v.next_listener
      → has_id id (v.listeners t) ≡ false
      → has_id id (w.listeners t) ≡ false

-- From `v` to `w`, of every event but those of `but`.
pub record Grows (but : ℕ → Bool) (v w : Realm) : Type 0 where
  pub event_bound : v.next_event ≤ w.next_event
  pub target_bound : v.next_target ≤ w.next_target
  pub events : (e : ℕ) → e < v.next_event → but e ≡ false → EventKept e v w
  pub signals : (s : ℕ) → s < v.next_target → SignalKept s v w
  pub lists : ListsKept v w

abbrev pub any_event : ℕ → Bool
any_event e = false

pub EventKept-same : (e : ℕ) (v w : Realm) → flags_of e w ≡ flags_of e v → EventKept e v w
EventKept-same e v w h = record { dispatching = cc h; passive = λ _. cc h; canceled = λ _ _. cc h }

pub EventKept-trans : (e : ℕ) (u v w : Realm) → EventKept e u v → EventKept e v w → EventKept e u w
EventKept-trans e u v w a b = record {
  dispatching = b.dispatching ∙ a.dispatching;
  passive = λ d. b.passive (a.dispatching ∙ d) ∙ a.passive d;
  canceled = λ d p. b.canceled (a.dispatching ∙ d) (a.passive d ∙ p) ∙ a.canceled d p;
}

SignalKept-trans : (s : ℕ) (u v w : Realm) → SignalKept s u v → SignalKept s v w → SignalKept s u w
SignalKept-trans s u v w a b = record {
  reason = λ h. b.reason (cc (a.reason h, h)) ∙ a.reason h;
  algorithms = λ h e. b.algorithms (cc (a.reason h, h)) (a.algorithms h e);
}

pub ListsKept-same :
    (v w : Realm)
    → w.next_listener ≡ v.next_listener
    → ((t : ℕ) → w.listeners t ≡ v.listeners t)
    → ListsKept v w
ListsKept-same v w n e = record {
  next = omega (arith, n);
  gone = λ t id _ h. cc (ap (has_id id) (e t), h);
}

pub ListsKept-trans : (u v w : Realm) → ListsKept u v → ListsKept v w → ListsKept u w
ListsKept-trans u v w a b = record {
  next = omega (arith, a.next, b.next);
  gone = λ t id l h. b.gone t id (omega (arith, a.next, l)) (a.gone t id l h);
}

pub Grows-refl : (but : ℕ → Bool) (w : Realm) → Grows but w w
Grows-refl but w = record {
  event_bound = omega arith;
  target_bound = omega arith;
  events = λ e _ _. EventKept-same e w w refl;
  signals = λ s _. record { reason = λ _. refl; algorithms = λ _ h. h };
  lists = ListsKept-same w w refl (λ t. refl);
}

pub Grows-trans : (but : ℕ → Bool) (u v w : Realm) → Grows but u v → Grows but v w → Grows but u w
Grows-trans but u v w a b = record {
  event_bound = omega (arith, a.event_bound, b.event_bound);
  target_bound = omega (arith, a.target_bound, b.target_bound);
  events = λ e l h.
      EventKept-trans e u v w (a.events e l h) (b.events e (omega (arith, a.event_bound)) h);
  signals =
      λ s l. SignalKept-trans s u v w (a.signals s l) (b.signals s (omega (arith, a.target_bound)));
  lists = ListsKept-trans u v w a.lists b.lists;
}

pub Grows-weaken : (but : ℕ → Bool) (v w : Realm) → Grows any_event v w → Grows but v w
Grows-weaken but v w g = record {
  event_bound = g.event_bound;
  target_bound = g.target_bound;
  events = λ e l _. g.events e l refl;
  signals = g.signals;
  lists = g.lists;
}
