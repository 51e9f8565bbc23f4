-- ===== src/Streams/Writable/Controller/Pressure.antt =====
-- Lemmas on the backpressure of a writable stream and on its controller's errors
-- (writable/algorithms.rs), for the invariant.
use starlingmonkey_ng.Prelude.{
  ℕ, ◌≡◌, refl, sym, ◌∙◌, Bool, true, false, not, ◌&&◌, Option, arith, if_cases, option_cases,
}
use starlingmonkey_ng.Streams.Float.{Float}
use starlingmonkey_ng.Streams.QueueWithSizes.{Value}
use starlingmonkey_ng.Streams.Writable.{
  Stream, Writer, Promise, is_undefined, is_writable, close_queued_or_in_flight,
  has_operation_marked_in_flight, clear_algorithms,
}
use starlingmonkey_ng.Streams.Writable.Inv.{IsCoherent, IsValid, Ok, Keeps}
use starlingmonkey_ng.Streams.Writable.Erroring.Starting.{
  with_promises, SameBinding, CanErr, start_erroring-IsValid,
}
use starlingmonkey_ng.Streams.Writable.Controller.{
  update_ready_promise, update_backpressure, refresh_backpressure, controller_error,
  error_if_needed, get_backpressure, get_desired_size,
}

module _ {F : Type 0} where
  update_ready_promise_cases :
      (P : Stream F → Type 0) (b : Bool) (s : Stream F)
      → ((ps : ℕ → Promise) (n : ℕ) (ws : ℕ → Writer)
          → SameBinding ws s
          → P (with_promises ps n ws s))
      → P (update_ready_promise b s)
  unfolding update_ready_promise
  update_ready_promise_cases P b s k =
      option_cases P s.writer (k s.promises s.next_promise s.writers (λ w. refl)) λ w.
        if_cases P b
          (λ h.
            if_cases P s.backpressure (λ i. k s.promises s.next_promise s.writers (λ v. refl))
              (λ i. k _ _ _ (λ v. ground arith)))
          (λ h.
            if_cases P s.backpressure (λ i. k _ s.next_promise s.writers (λ v. refl))
              (λ i. k s.promises s.next_promise s.writers (λ v. refl)))

module _ {F : Type 0} ⦃fl : Float F⦄ where
  pub with_promises-IsCoherent :
      (s : Stream F) (ps : ℕ → Promise) (n : ℕ) (ws : ℕ → Writer)
      → SameBinding ws s
      → IsCoherent s
      → IsCoherent (with_promises ps n ws s)
  unfolding has_operation_marked_in_flight close_queued_or_in_flight get_backpressure
      get_desired_size
  with_promises-IsCoherent s ps n ws same v = record {
    calm = v.calm;
    pending_abort = v.pending_abort;
    one_in_flight = v.one_in_flight;
    started_first = v.started_first;
    starts_open = v.starts_open;
    in_flight_open = v.in_flight_open;
    shape = v.shape;
    front = v.front;
    closing = v.closing;
    finished = v.finished;
    start_reacts = v.start_reacts;
    write_reacts = v.write_reacts;
    close_reacts = v.close_reacts;
    abort_reacts = v.abort_reacts;
    pressed = v.pressed;
    owned = λ w h. v.owned w (sym (same w) ∙ h);
  }

  pub with_promises-IsValid :
      (s : Stream F) (ps : ℕ → Promise) (n : ℕ) (ws : ℕ → Writer)
      → SameBinding ws s
      → IsValid s
      → IsValid (with_promises ps n ws s)
  unfolding has_operation_marked_in_flight
  with_promises-IsValid s ps n ws same v = record {
    coherent = with_promises-IsCoherent s ps n ws same v.coherent;
    erroring_waits = v.erroring_waits;
  }

  -- The stream, were its backpressure up to date.
  abbrev pub repressed : Stream F → Stream F
  repressed s = record s { backpressure = get_backpressure s }

  repressed-IsCoherent :
      (s : Stream F)
      → not (close_queued_or_in_flight s) && is_writable s.state ≡ false
      → IsCoherent (repressed s)
      → IsCoherent s
  unfolding has_operation_marked_in_flight close_queued_or_in_flight get_backpressure
      get_desired_size
  repressed-IsCoherent s h v = record {
    calm = v.calm;
    pending_abort = v.pending_abort;
    one_in_flight = v.one_in_flight;
    started_first = v.started_first;
    starts_open = v.starts_open;
    in_flight_open = v.in_flight_open;
    shape = v.shape;
    front = v.front;
    closing = v.closing;
    finished = v.finished;
    start_reacts = v.start_reacts;
    write_reacts = v.write_reacts;
    close_reacts = v.close_reacts;
    abort_reacts = v.abort_reacts;
    pressed = λ a b. ground arith;
    owned = v.owned;
  }

  -- What the steps after a refresh may use.
  abbrev pub Refreshed : Stream F → Stream F → Type 0
  Refreshed s t =
      IsCoherent t × (t.state ≡ s.state) × (t.in_flight_close_request ≡ s.in_flight_close_request)

  pub refresh_backpressure-IsCoherent :
      (s : Stream F) → IsCoherent (repressed s) → Ok (Refreshed s) (refresh_backpressure s)
  unfolding refresh_backpressure update_backpressure
  refresh_backpressure-IsCoherent s v =
      let b = get_backpressure s in
      if_cases (Ok (Refreshed s)) (not (close_queued_or_in_flight s) && is_writable s.state)
        (λ h.
          if_cases (Ok (Refreshed s)) (is_writable s.state && not (close_queued_or_in_flight s))
            (λ i.
              update_ready_promise_cases (λ t. Refreshed s (record t { backpressure = b })) b s
                (λ ps n ws same.
                  (with_promises-IsCoherent (repressed s) ps n ws same v, refl, refl)))
            (λ i. absurd (ground arith)))
        (λ h. (repressed-IsCoherent s h v, refl, refl))

  pub error_if_needed-IsValid :
      (author : Stream F → Option (Stream F)) (e : Value) (s : Stream F)
      → Keeps author
      → (is_writable s.state ≡ true → CanErr s × (is_undefined s.stored_error ≡ true))
      → (is_writable s.state ≡ false → IsValid s)
      → Ok IsValid (error_if_needed author e s)
  unfolding error_if_needed controller_error clear_algorithms has_operation_marked_in_flight
  error_if_needed-IsValid author e s keeps c v =
      if_cases (Ok IsValid) (is_writable s.state)
        (λ h.
          if_cases (Ok IsValid) (is_writable s.state)
            (λ i.
              start_erroring-IsValid author e (clear_algorithms s) keeps i (c i).1
                (cleared (c i).0))
            (λ i. absurd (ground arith)))
        v
    where
      cleared : CanErr s → CanErr (clear_algorithms s)
      cleared a = record {
        one_in_flight = a.one_in_flight;
        started_first = a.started_first;
        front = a.front;
        closing = a.closing;
        start_reacts = a.start_reacts;
        write_reacts = a.write_reacts;
        close_reacts = a.close_reacts;
        no_abort_reaction = a.no_abort_reaction;
        owned = a.owned;
      }
