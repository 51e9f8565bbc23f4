-- ===== src/Streams/Writable/Jobs/Reacting.antt =====
-- Lemmas on the reactions to the start promise and to the promises of writes
-- (writable/algorithms.rs), for the invariant.
use starlingmonkey_ng.Prelude.{
  ℕ, suc, ◌+◌, ◌≡◌, refl, subst, Bool, true, false, Option, none, some, List, ◌∷◌, arith,
  if◌then◌else◌, is_some, if_cases, option_cases_eq, length,
}
use starlingmonkey_ng.Streams.Float.{Float}
use starlingmonkey_ng.Streams.QueueWithSizes.{Value, ValueWithSize, chunk, close_sentinel}
use starlingmonkey_ng.Streams.Writable.{
  Stream, is_writable, is_open, close_queued_or_in_flight, has_operation_marked_in_flight,
  clear_algorithms, resolve,
}
use starlingmonkey_ng.Streams.Writable.Inv.{
  IsCoherent, IsValid, Ok, Ok-and_then, Ok-then, Keeps, starts_with_chunk, has_shape, chunks,
}
use starlingmonkey_ng.Streams.Writable.Erroring.Starting.{calm-CanErr, deal_with_rejection-IsValid}
use starlingmonkey_ng.Streams.Writable.Controller.{
  get_backpressure, get_desired_size, finish_in_flight_write, finish_in_flight_write_with_error,
  dequeue, refresh_backpressure,
}
use starlingmonkey_ng.Streams.Writable.Controller.Advancing.{
  advance_queue_if_needed-IsValid, dequeue_cases, dequeued,
}
use starlingmonkey_ng.Streams.Writable.Controller.Pressure.{
  repressed, refresh_backpressure-IsCoherent,
}
use starlingmonkey_ng.Streams.Writable.Jobs.{
  start_promise_fulfilled, start_promise_rejected, write_promise_fulfilled, write_promise_rejected,
}

module _ {F : Type 0} ⦃fl : Float F⦄ where
  -- The reaction to the start promise is taken, and the controller has started.
  abbrev start_taken : Stream F → Stream F
  start_taken s = record s { start_reaction = false; started = true }

  start_taken-IsCoherent : (s : Stream F) → IsCoherent s → IsCoherent (start_taken s)
  unfolding has_operation_marked_in_flight close_queued_or_in_flight get_backpressure
      get_desired_size
  start_taken-IsCoherent s v = record {
    calm = v.calm;
    pending_abort = v.pending_abort;
    one_in_flight = v.one_in_flight;
    started_first = λ h. refl;
    starts_open = λ h. absurd (ground arith);
    in_flight_open = v.in_flight_open;
    shape = v.shape;
    front = v.front;
    closing = v.closing;
    finished = v.finished;
    start_reacts = λ h. absurd (ground arith);
    write_reacts = v.write_reacts;
    close_reacts = v.close_reacts;
    abort_reacts = v.abort_reacts;
    pressed = v.pressed;
    owned = v.owned;
  }

  pub start_promise_fulfilled-IsValid :
      (author : Stream F → Option (Stream F)) (s : Stream F)
      → Keeps author
      → s.start_reaction ≡ true
      → IsValid s
      → Ok IsValid (start_promise_fulfilled author (record s { start_reaction = false }))
  unfolding start_promise_fulfilled has_operation_marked_in_flight
  start_promise_fulfilled-IsValid author s k reacts u =
      let v = u.coherent in
      if_cases (Ok IsValid) (is_open s.state)
        (λ h.
          advance_queue_if_needed-IsValid author (start_taken s) k (start_taken-IsCoherent s v) h
            (ground (arith, v.start_reacts, v.started_first)))
        (λ h. absurd (ground (arith, v.start_reacts, v.starts_open)))

  pub start_promise_rejected-IsValid :
      (author : Stream F → Option (Stream F)) (e : Value) (s : Stream F)
      → Keeps author
      → s.start_reaction ≡ true
      → IsValid s
      → Ok IsValid (start_promise_rejected author e (record s { start_reaction = false }))
  unfolding start_promise_rejected has_operation_marked_in_flight
  start_promise_rejected-IsValid author e s k reacts u =
      let v = u.coherent in
      let no_write : s.in_flight_write_request ≡ none =
        ground (arith, v.start_reacts, v.started_first) in
      let no_close : s.in_flight_close_request ≡ none =
        ground (arith, v.start_reacts, v.started_first) in
      if_cases (Ok IsValid) (is_open s.state)
        (λ h.
          deal_with_rejection-IsValid author e (start_taken s) k h v.calm
            (calm-CanErr (start_taken s) h no_write no_close refl (ground (arith, v.write_reacts))
              (ground (arith, v.close_reacts)) v.abort_reacts v.owned)
            (ground arith))
        (λ h. absurd (ground (arith, v.start_reacts, v.starts_open)))

  -- The write is over, and its chunk is gone from the queue.
  abbrev write_over : ℕ → Stream F → Stream F
  write_over p s = resolve p (record s { write_reaction = false; in_flight_write_request = none })

  has_shape-tail :
      (k : ℕ) (c : Bool) (w : ValueWithSize F) (vs : List (ValueWithSize F))
      → starts_with_chunk (w ∷ vs) ≡ true
      → has_shape (suc k) c (w ∷ vs) ≡ true
      → has_shape k c vs ≡ true
  has_shape-tail k c (chunk v n) vs h i = i
  has_shape-tail k c close_sentinel vs h i = absurd (ground arith)

  write_over-IsCoherent :
      (s : Stream F) (p : ℕ) (v : ValueWithSize F) (vs : List (ValueWithSize F))
      → s.in_flight_write_request ≡ some p
      → s.container.queue ≡ v ∷ vs
      → IsValid s
      → IsCoherent (repressed (dequeued v vs (write_over p s)))
  unfolding has_operation_marked_in_flight close_queued_or_in_flight get_backpressure
      get_desired_size
  write_over-IsCoherent s p w vs f q u =
      let v = u.coherent in
      record {
        calm = v.calm;
        pending_abort = v.pending_abort;
        one_in_flight = λ h. absurd (ground arith);
        started_first = λ h. absurd (ground (arith, v.one_in_flight));
        starts_open = v.starts_open;
        in_flight_open = λ h. absurd (ground (arith, v.one_in_flight));
        shape = λ h.
            has_shape-tail (0 + length s.write_requests) (is_some s.close_request) w vs
              (subst (λ xs. starts_with_chunk xs ≡ true) q (v.front (ground arith)))
              (subst
                (λ xs.
                  has_shape (suc (0 + length s.write_requests)) (is_some s.close_request) xs ≡ true)
                q
                (subst (λ k. has_shape k (is_some s.close_request) s.container.queue ≡ true)
                  one_more (v.shape h)));
        front = λ h. absurd (ground arith);
        closing = v.closing;
        finished = λ h. absurd (ground (arith, v.in_flight_open));
        start_reacts = v.start_reacts;
        write_reacts = refl;
        close_reacts = v.close_reacts;
        abort_reacts = v.abort_reacts;
        pressed = λ h i. refl;
        owned = v.owned;
      }
    where
      one_more : chunks s ≡ suc (0 + length s.write_requests)
      one_more = ground arith

  pub write_promise_fulfilled-IsValid :
      (author : Stream F → Option (Stream F)) (s : Stream F)
      → Keeps author
      → s.write_reaction ≡ true
      → IsValid s
      → Ok IsValid (write_promise_fulfilled author (record s { write_reaction = false }))
  unfolding write_promise_fulfilled finish_in_flight_write has_operation_marked_in_flight
  write_promise_fulfilled-IsValid author s k reacts u =
      let v = u.coherent in
      Ok-then IsValid (finish_in_flight_write (record s { write_reaction = false })) _ (
        option_cases_eq (Ok _) s.in_flight_write_request
          (λ e. absurd (ground (arith, v.write_reacts)))
          (λ p e. Ok-then IsValid (if is_open s.state then dequeue (write_over p s) else none) _ (
            if_cases (Ok _) (is_open s.state)
              (λ on.
                dequeue_cases (Ok _) (write_over p s) (λ q. absurd (ground (arith, v.front)))
                  (λ w ws q.
                    Ok-and_then IsValid (refresh_backpressure (dequeued w ws (write_over p s))) _
                      (refresh_backpressure-IsCoherent _ (write_over-IsCoherent s p w ws e q u))
                      (λ t r.
                        advance_queue_if_needed-IsValid author t k r.0 (ground (arith, r.1, on))
                          (ground (arith, r.2, v.one_in_flight)))))
              (λ h. absurd (ground (arith, v.in_flight_open))))))

  -- The write failed, whichever algorithms are left.
  write_failed-IsValid :
      (author : Stream F → Option (Stream F)) (e : Value) (s : Stream F) (a b c d : Bool)
      → Keeps author
      → s.write_reaction ≡ true
      → IsValid s
      → Ok IsValid (
          finish_in_flight_write_with_error author e (record s {
            write_reaction = false;
            write_algorithm = a;
            close_algorithm = b;
            abort_algorithm = c;
            strategy_size_algorithm = d;
          }))
  unfolding finish_in_flight_write_with_error has_operation_marked_in_flight
  write_failed-IsValid author e s a b c d k reacts u =
      let v = u.coherent in
      option_cases_eq (Ok IsValid) s.in_flight_write_request
        (λ q. absurd (ground (arith, v.write_reacts)))
        (λ p q.
          if_cases (Ok IsValid) (is_open s.state)
            (λ on.
              deal_with_rejection-IsValid author e _ k on v.calm
                (calm-CanErr _ on refl (ground (arith, v.one_in_flight))
                  (ground (arith, v.start_reacts, v.started_first)) refl
                  (ground (arith, v.close_reacts, v.one_in_flight)) v.abort_reacts v.owned)
                (ground (arith, v.one_in_flight, v.started_first)))
            (λ h. absurd (ground (arith, v.in_flight_open))))

  pub write_promise_rejected-IsValid :
      (author : Stream F → Option (Stream F)) (e : Value) (s : Stream F)
      → Keeps author
      → s.write_reaction ≡ true
      → IsValid s
      → Ok IsValid (write_promise_rejected author e (record s { write_reaction = false }))
  unfolding write_promise_rejected clear_algorithms
  write_promise_rejected-IsValid author e s k reacts u =
      if_cases (λ t. Ok IsValid (finish_in_flight_write_with_error author e t))
        (is_writable s.state)
        (λ h. write_failed-IsValid author e s false false false false k reacts u)
        (λ h.
          write_failed-IsValid author e s s.write_algorithm s.close_algorithm s.abort_algorithm
            s.strategy_size_algorithm k reacts u)
