-- ===== src/Streams/Writable/Api/Locking.antt =====
-- Lemmas on `get_writer` and `release_lock` of a writable stream (writable/ of
-- crates/builtins/web-streams/src), for the invariant.
use starlingmonkey_ng.Prelude.{
  ℕ, ◌≡◌, ◌∙◌, true, false, not, ◌&&◌, Option, none, some, arith, if◌then◌else◌, if_cases, ◌==◌,
}
use starlingmonkey_ng.Streams.Float.{Float}
use starlingmonkey_ng.Streams.QueueWithSizes.{type_error}
use starlingmonkey_ng.Streams.Writable.{
  Stream, Writer, Promise, close_queued_or_in_flight, has_operation_marked_in_flight, set_writer,
  is_locked,
}
use starlingmonkey_ng.Streams.Writable.Cases.{state_cases_eq}
use starlingmonkey_ng.Streams.Writable.Inv.{IsValid, Ok}
use starlingmonkey_ng.Streams.Writable.Erroring.Starting.{
  with_promises, SameBinding, ensure_ready_promise_rejected_cases,
  ensure_closed_promise_rejected_cases,
}
use starlingmonkey_ng.Streams.Writable.Erroring.{ensure_ready_promise_rejected}
use starlingmonkey_ng.Streams.Writable.Controller.{get_backpressure, get_desired_size}
use starlingmonkey_ng.Streams.Writable.Api.{
  Answer, set_up_default_writer, get_writer, release, release_lock,
}

-- An answer after which the invariant holds.
abbrev pub Answers : {F : Type 0} → ⦃fl : Float F⦄ → Answer F → Type 0
Answers = Ok (λ r. IsValid r.0)

module _ {F : Type 0} ⦃fl : Float F⦄ where
  -- The stream with other writers and promises.
  abbrev rebound : (ℕ → Promise) → ℕ → (ℕ → Writer) → Option ℕ → ℕ → Stream F → Stream F
  rebound ps n ws writer count s = record (with_promises ps n ws s) {
    writer = writer;
    next_writer = count;
  }

  rebound-IsValid :
      (ps : ℕ → Promise) (n : ℕ) (ws : ℕ → Writer) (writer : Option ℕ) (count : ℕ) (s : Stream F)
      → ((w : ℕ) → (ws w).stream ≡ true → writer ≡ some w)
      → IsValid s
      → IsValid (rebound ps n ws writer count s)
  unfolding has_operation_marked_in_flight close_queued_or_in_flight get_backpressure
      get_desired_size
  rebound-IsValid ps n ws writer count s owned u =
      let v = u.coherent in
      record {
        coherent = record {
          calm = v.calm;
          pending_abort = v.pending_abort;
          one_in_flight = v.one_in_flight;
          started_first = v.started_first;
          starts_open = v.starts_open;
          in_flight_open = v.in_flight_open;
          shape = v.shape;
          front = v.front;
          closing = v.closing;
          finished = v.finished;
          start_reacts = v.start_reacts;
          write_reacts = v.write_reacts;
          close_reacts = v.close_reacts;
          abort_reacts = v.abort_reacts;
          pressed = v.pressed;
          owned = owned;
        };
        erroring_waits = u.erroring_waits;
      }

  -- The writer that is bound is the only one.
  bound-IsValid :
      (ps : ℕ → Promise) (n count : ℕ) (x : Writer) (s : Stream F)
      → is_locked s ≡ false
      → IsValid s
      → IsValid (
          rebound ps n
            (λ v. if v == s.next_writer then x else s.writers v)
            (some s.next_writer)
            count
            s)
  unfolding is_locked
  bound-IsValid ps n count x s free v =
      rebound-IsValid ps n _ _ count s (λ w h. ground (arith, v.coherent.owned w)) v

  set_up_default_writer-IsValid :
      (s : Stream F) → is_locked s ≡ false → IsValid s → IsValid (set_up_default_writer s)
  unfolding set_up_default_writer
  set_up_default_writer-IsValid s free v =
      state_cases_eq IsValid s.state (λ e. bound-IsValid _ _ _ _ s free v)
        (λ e. bound-IsValid _ _ _ _ s free v) (λ e. bound-IsValid _ _ _ _ s free v)
        (λ e.
          if_cases IsValid (not (close_queued_or_in_flight s) && s.backpressure)
            (λ h. bound-IsValid _ _ _ _ s free v) (λ h. bound-IsValid _ _ _ _ s free v))

  pub get_writer-Answers : (s : Stream F) → IsValid s → Answers (get_writer s)
  unfolding get_writer
  get_writer-Answers s v =
      if_cases Answers (is_locked s) (λ h. v) (λ h. set_up_default_writer-IsValid s h v)

  -- The writer without its stream, and the stream without a writer.
  abbrev unbound : ℕ → Stream F → Stream F
  unbound w t = set_writer w (record (t.writers w) { stream = false }) (record t { writer = none })

  unbound-IsValid :
      (w : ℕ) (s : Stream F) (ps : ℕ → Promise) (n : ℕ) (ws : ℕ → Writer)
      → (s.writers w).stream ≡ true
      → SameBinding ws s
      → IsValid s
      → IsValid (unbound w (with_promises ps n ws s))
  unbound-IsValid w s ps n ws bound same v =
      rebound-IsValid ps n _ none s.next_writer s
        (λ u h. ground (arith, same u, v.coherent.owned u, v.coherent.owned w bound)) v

  release-IsValid :
      (w : ℕ) (s : Stream F) → (s.writers w).stream ≡ true → IsValid s → IsValid (release w s)
  unfolding release
  release-IsValid w s bound v =
      ensure_closed_promise_rejected_cases (λ t. IsValid (unbound w t)) w type_error
        (ensure_ready_promise_rejected w type_error s)
        (ensure_ready_promise_rejected_cases
          (λ t.
            (ps : ℕ → Promise) (n : ℕ) (ws : ℕ → Writer)
            → SameBinding ws t
            → IsValid (unbound w (with_promises ps n ws t)))
          w type_error s
          (λ ps n ws same qs m us same'.
            unbound-IsValid w s qs m us bound (λ u. same' u ∙ same u) v))

  pub release_lock-IsValid : (w : ℕ) (s : Stream F) → IsValid s → IsValid (release_lock w s)
  unfolding release_lock
  release_lock-IsValid w s v =
      if_cases IsValid (s.writers w).stream (λ h. release-IsValid w s h v) (λ h. v)
