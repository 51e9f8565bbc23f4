-- ===== src/Streams/Writable/Api/Closing.antt =====
-- Lemmas on aborting a writable stream (`writable_stream_abort` of writable/algorithms.rs), for
-- the invariant.
use starlingmonkey_ng.Prelude.{
  ℕ, ◌≡◌, refl, true, Option, none, some, arith, if_cases, option_cases_eq,
}
use starlingmonkey_ng.Streams.Float.{Float}
use starlingmonkey_ng.Streams.QueueWithSizes.{Value}
use starlingmonkey_ng.Streams.Writable.{
  Stream, PromiseState, PendingAbortRequest, is_erroring, is_open, close_queued_or_in_flight,
  has_operation_marked_in_flight, add_promise, pending,
}
use starlingmonkey_ng.Streams.Writable.Cases.{state_cases_eq}
use starlingmonkey_ng.Streams.Writable.Inv.{IsValid, Ok, Keeps}
use starlingmonkey_ng.Streams.Writable.Erroring.Starting.{
  CanErr, IsCoherent-CanErr, start_erroring-IsValid,
}
use starlingmonkey_ng.Streams.Writable.Controller.{get_backpressure, get_desired_size}
use starlingmonkey_ng.Streams.Writable.Controller.Pressure.{with_promises-IsValid}
use starlingmonkey_ng.Streams.Writable.Api.{Answer, answered, abort_signalled, stream_abort}
use starlingmonkey_ng.Streams.Writable.Api.Locking.{Answers}

module _ {F : Type 0} ⦃fl : Float F⦄ where
  pub answered-Answers : (p : ℕ) (o : Option (Stream F)) → Ok IsValid o → Answers (answered p o)
  answered-Answers p none h = absurd h
  answered-Answers p (some s) h = h

  pub add_promise-IsValid :
      (st : PromiseState) (s : Stream F) → IsValid s → IsValid (add_promise st s)
  add_promise-IsValid st s v = with_promises-IsValid s _ _ s.writers (λ w. refl) v

  -- The request to abort is recorded.
  abbrev asked : PendingAbortRequest → Stream F → Stream F
  asked r s = record (add_promise pending s) { pending_abort_request = some r }

  asked-IsValid :
      (r : PendingAbortRequest) (s : Stream F)
      → is_erroring s.state ≡ true
      → IsValid s
      → IsValid (asked r s)
  unfolding has_operation_marked_in_flight close_queued_or_in_flight get_backpressure
      get_desired_size
  asked-IsValid r s on u =
      let v = u.coherent in
      record {
        coherent = record {
          calm = v.calm;
          pending_abort = λ h. on;
          one_in_flight = v.one_in_flight;
          started_first = v.started_first;
          starts_open = v.starts_open;
          in_flight_open = v.in_flight_open;
          shape = v.shape;
          front = v.front;
          closing = v.closing;
          finished = v.finished;
          start_reacts = v.start_reacts;
          write_reacts = v.write_reacts;
          close_reacts = v.close_reacts;
          abort_reacts = v.abort_reacts;
          pressed = v.pressed;
          owned = v.owned;
        };
        erroring_waits = u.erroring_waits;
      }

  asked-CanErr : (r : PendingAbortRequest) (s : Stream F) → CanErr s → CanErr (asked r s)
  unfolding has_operation_marked_in_flight
  asked-CanErr r s a = record {
    one_in_flight = a.one_in_flight;
    started_first = a.started_first;
    front = a.front;
    closing = a.closing;
    start_reacts = a.start_reacts;
    write_reacts = a.write_reacts;
    close_reacts = a.close_reacts;
    no_abort_reaction = a.no_abort_reaction;
    owned = a.owned;
  }

  abort_signalled-Answers :
      (reason : Value) (author : Stream F → Option (Stream F)) (s : Stream F)
      → Keeps author
      → IsValid s
      → Answers (abort_signalled reason author s)
  unfolding abort_signalled
  abort_signalled-Answers reason author s keeps v =
      option_cases_eq Answers s.pending_abort_request
        (λ h.
          state_cases_eq Answers s.state (λ e. add_promise-IsValid _ s v)
            (λ e. add_promise-IsValid _ s v) (λ e. asked-IsValid _ s (ground arith) v)
            (λ e. answered-Answers s.next_promise _ (
              start_erroring-IsValid author reason (asked _ s) keeps (ground arith)
                (v.coherent.calm (ground arith))
                (asked-CanErr _ s (IsCoherent-CanErr s (ground arith) v.coherent)))))
        (λ r h. if_cases Answers (is_open s.state) (λ i. v) (λ i. add_promise-IsValid _ s v))

  pub stream_abort-Answers :
      (reason : Value) (listeners author : Stream F → Option (Stream F)) (s : Stream F)
      → Keeps listeners
      → Keeps author
      → IsValid s
      → Answers (stream_abort reason listeners author s)
  unfolding stream_abort
  stream_abort-Answers reason listeners author s keeps keeps' v =
      if_cases Answers (is_open s.state) (λ h. signalled (listeners s) (keeps s v))
        (λ h. add_promise-IsValid _ s v)
    where
      signalled :
          (o : Option (Stream F))
          → Ok IsValid o
          → Answers (elim o as (λ _. Answer F) [
            | none ↦ none
            | some s' ↦ abort_signalled reason author s'
          ])
      signalled none h = absurd h
      signalled (some s') h = abort_signalled-Answers reason author s' keeps' h
