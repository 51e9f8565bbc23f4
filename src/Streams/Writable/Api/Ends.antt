-- ===== src/Streams/Writable/Api/Ends.antt =====
-- Lemmas on the methods that close or abort a writable stream (writable/ of
-- crates/builtins/web-streams/src), for the invariant.
use starlingmonkey_ng.Prelude.{
  ℕ, zero, suc, ◌≡◌, refl, subst, true, false, ◌&&◌, Option, some, List, [], ◌∷◌, ◌++◌, arith,
  is_some, if_cases, option_cases,
}
use starlingmonkey_ng.Streams.Float.{Float}
use starlingmonkey_ng.Streams.QueueWithSizes.{Value, ValueWithSize, chunk, close_sentinel}
use starlingmonkey_ng.Streams.Writable.{
  Stream, Promise, is_writable, is_open, close_queued_or_in_flight, has_operation_marked_in_flight,
  is_locked,
}
use starlingmonkey_ng.Streams.Writable.Cases.{state_cases_eq}
use starlingmonkey_ng.Streams.Writable.Inv.{
  IsCoherent, IsValid, Ok, Keeps, starts_with_chunk, has_shape, chunks,
}
use starlingmonkey_ng.Streams.Writable.Erroring.Starting.{with_promises}
use starlingmonkey_ng.Streams.Writable.Controller.{
  get_backpressure, get_desired_size, controller_close,
}
use starlingmonkey_ng.Streams.Writable.Controller.Advancing.{advance_queue_if_needed-IsValid}
use starlingmonkey_ng.Streams.Writable.Controller.Pressure.{with_promises-IsCoherent}
use starlingmonkey_ng.Streams.Writable.Api.{
  close_requested, stream_close, abort, close, writer_abort, writer_close,
  close_with_error_propagation,
}
use starlingmonkey_ng.Streams.Writable.Api.Locking.{Answers}
use starlingmonkey_ng.Streams.Writable.Api.Closing.{
  answered-Answers, add_promise-IsValid, stream_abort-Answers,
}

module _ {F : Type 0} ⦃fl : Float F⦄ where
  -- The close request is made, and the close sentinel is queued.
  abbrev sentinel_queued : ℕ → Stream F → Stream F
  sentinel_queued p s = record s {
    close_request = some p;
    container = record (s.container) { queue = s.container.queue ++ close_sentinel ∷ [] };
  }

  has_shape-sentinel :
      (k : ℕ) (vs : List (ValueWithSize F))
      → has_shape k false vs ≡ true
      → has_shape k true (vs ++ close_sentinel ∷ []) ≡ true
  has_shape-sentinel zero [] h = refl
  has_shape-sentinel zero (x ∷ vs) h = absurd (ground arith)
  has_shape-sentinel (suc k) [] h = absurd (ground arith)
  has_shape-sentinel (suc k) (chunk w m ∷ vs) h = has_shape-sentinel k vs h
  has_shape-sentinel (suc k) (close_sentinel ∷ vs) h = absurd (ground arith)

  starts_with_chunk-append :
      (vs ws : List (ValueWithSize F))
      → starts_with_chunk vs ≡ true
      → starts_with_chunk (vs ++ ws) ≡ true
  starts_with_chunk-append [] ws h = absurd (ground arith)
  starts_with_chunk-append (chunk v n ∷ vs) ws h = refl
  starts_with_chunk-append (close_sentinel ∷ vs) ws h = absurd (ground arith)

  sentinel_queued-IsCoherent :
      (p : ℕ) (s : Stream F)
      → is_open s.state ≡ true
      → close_queued_or_in_flight s ≡ false
      → IsCoherent s
      → IsCoherent (sentinel_queued p s)
  unfolding has_operation_marked_in_flight close_queued_or_in_flight get_backpressure
      get_desired_size
  sentinel_queued-IsCoherent p s on not_closing v = record {
    calm = v.calm;
    pending_abort = v.pending_abort;
    one_in_flight = v.one_in_flight;
    started_first = v.started_first;
    starts_open = v.starts_open;
    in_flight_open = v.in_flight_open;
    shape = λ h.
        has_shape-sentinel (chunks s) s.container.queue
          (subst (λ b. has_shape (chunks s) b s.container.queue ≡ true) no_request (v.shape h));
    front = λ h. starts_with_chunk-append s.container.queue _ (v.front h);
    closing = λ h. absurd (ground arith);
    finished = λ h. absurd (ground arith);
    start_reacts = v.start_reacts;
    write_reacts = v.write_reacts;
    close_reacts = v.close_reacts;
    abort_reacts = v.abort_reacts;
    pressed = λ h i. absurd (ground arith);
    owned = v.owned;
  }
    where
      no_request : is_some s.close_request ≡ false
      no_request = ground arith

  closed_by-IsValid :
      (author : Stream F → Option (Stream F)) (s : Stream F)
      → Keeps author
      → is_open s.state ≡ true
      → close_queued_or_in_flight s ≡ false
      → IsValid s
      → Ok IsValid (controller_close author (close_requested s))
  unfolding controller_close close_requested close_queued_or_in_flight
  closed_by-IsValid author s keeps on not_closing v =
      option_cases Closes s.writer (with_rest _ _) (λ w.
        if_cases Closes (s.backpressure && is_writable s.state) (λ h. with_rest _ _)
          (λ h. with_rest _ _))
    where
      Closes : Stream F → Type 0
      Closes t = Ok IsValid (controller_close author t)

      with_rest :
          (ps : ℕ → Promise) (n : ℕ)
          → Closes
              (record s { promises = ps; next_promise = n; close_request = some s.next_promise })
      with_rest ps n =
          advance_queue_if_needed-IsValid author
            (sentinel_queued s.next_promise (with_promises ps n s.writers s)) keeps
            (sentinel_queued-IsCoherent _ _ on not_closing
              (with_promises-IsCoherent s ps n s.writers (λ w. refl) v.coherent))
            on (ground arith)

  pub stream_close-Answers :
      (author : Stream F → Option (Stream F)) (s : Stream F)
      → Keeps author
      → close_queued_or_in_flight s ≡ false
      → IsValid s
      → Answers (stream_close author s)
  unfolding stream_close
  stream_close-Answers author s keeps not_closing v =
      if_cases Answers (is_open s.state)
        (λ on.
          if_cases Answers (close_queued_or_in_flight s) (λ h. absurd (ground arith))
            (λ h. answered-Answers s.next_promise _ (closed_by-IsValid author s keeps on h v)))
        (λ h. add_promise-IsValid _ s v)

  pub abort-Answers :
      (e : Value) (listeners author : Stream F → Option (Stream F)) (s : Stream F)
      → Keeps listeners
      → Keeps author
      → IsValid s
      → Answers (abort e listeners author s)
  unfolding abort
  abort-Answers e listeners author s k k' v =
      if_cases Answers (is_locked s) (λ h. v)
        (λ h. stream_abort-Answers e listeners author s k k' v)

  pub writer_abort-Answers :
      (w : ℕ) (e : Value) (listeners author : Stream F → Option (Stream F)) (s : Stream F)
      → Keeps listeners
      → Keeps author
      → IsValid s
      → Answers (writer_abort w e listeners author s)
  unfolding writer_abort
  writer_abort-Answers w e listeners author s k k' v =
      if_cases Answers (s.writers w).stream (λ h. stream_abort-Answers e listeners author s k k' v)
        (λ h. v)

  pub close-Answers :
      (author : Stream F → Option (Stream F)) (s : Stream F)
      → Keeps author
      → IsValid s
      → Answers (close author s)
  unfolding close
  close-Answers author s k v =
      if_cases Answers (is_locked s) (λ h. v)
        (λ h.
          if_cases Answers (close_queued_or_in_flight s) (λ i. v)
            (λ i. stream_close-Answers author s k i v))

  pub writer_close-Answers :
      (w : ℕ) (author : Stream F → Option (Stream F)) (s : Stream F)
      → Keeps author
      → IsValid s
      → Answers (writer_close w author s)
  unfolding writer_close
  writer_close-Answers w author s k v =
      if_cases Answers (s.writers w).stream
        (λ h.
          if_cases Answers (close_queued_or_in_flight s) (λ i. v)
            (λ i. stream_close-Answers author s k i v))
        (λ h. v)

  -- On a valid stream, asked of a writer that has it, and with a sink whose code keeps the invariant:
  -- closing with error propagation does not panic, and leaves a valid stream, in each state.
  pub close_with_error_propagation-Answers :
      (w : ℕ) (author : Stream F → Option (Stream F)) (s : Stream F)
      → Keeps author
      → (s.writers w).stream ≡ true
      → IsValid s
      → Answers (close_with_error_propagation w author s)
  unfolding close_with_error_propagation
  close_with_error_propagation-Answers w author s k bound v =
      if_cases Answers (s.writers w).stream
        (λ h.
          if_cases Answers (close_queued_or_in_flight s) (λ i. add_promise-IsValid _ s v)
            (λ i.
              state_cases_eq Answers s.state (λ e. add_promise-IsValid _ s v)
                (λ e. add_promise-IsValid _ s v) (λ e. stream_close-Answers author s k i v)
                (λ e. stream_close-Answers author s k i v)))
        (λ h. absurd (ground arith))
