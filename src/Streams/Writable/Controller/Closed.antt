-- ===== src/Streams/Writable/Controller/Closed.antt =====
-- Lemmas on the end of a close in flight (writable/algorithms.rs), for the invariant.
use starlingmonkey_ng.Prelude.{
  ℕ, ◌≡◌, refl, true, false, ◌&&◌, Option, none, some, arith, if◌then◌else◌, is_some, is_none,
  if_cases, option_cases, option_cases_eq,
}
use starlingmonkey_ng.Streams.Float.{Float}
use starlingmonkey_ng.Streams.QueueWithSizes.{Value, undefined}
use starlingmonkey_ng.Streams.Writable.{
  Stream, Promise, PendingAbortRequest, closed, is_undefined, is_erroring, is_open,
  close_queued_or_in_flight, has_operation_marked_in_flight,
}
use starlingmonkey_ng.Streams.Writable.Inv.{IsValid, Ok, Keeps}
use starlingmonkey_ng.Streams.Writable.Erroring.{deal_with_rejection}
use starlingmonkey_ng.Streams.Writable.Erroring.Starting.{calm-CanErr, deal_with_rejection-IsValid}
use starlingmonkey_ng.Streams.Writable.Controller.{
  calmed, resolve_pending_abort, reject_pending_abort, resolve_closed_promise, close_stream,
  finish_in_flight_close, finish_in_flight_close_with_error,
}

module _ {F : Type 0} ⦃fl : Float F⦄ where
  -- The stream has closed.
  abbrev closed_with : Value → Option PendingAbortRequest → (ℕ → Promise) → Stream F → Stream F
  closed_with x r ps s = record s {
    close_reaction = false;
    in_flight_close_request = none;
    state = closed;
    stored_error = x;
    pending_abort_request = r;
    promises = ps;
  }

  closed_with-IsValid :
      (x : Value) (r : Option PendingAbortRequest) (ps : ℕ → Promise) (s : Stream F)
      → r ≡ none
      → is_some s.in_flight_close_request ≡ true
      → IsValid s
      → IsValid (closed_with x r ps s)
  unfolding has_operation_marked_in_flight close_queued_or_in_flight
  closed_with-IsValid x r ps s q f u =
      let v = u.coherent in
      record {
        coherent = record {
          calm = λ h. absurd (ground arith);
          pending_abort = λ h. absurd (ground arith);
          one_in_flight = λ h. refl;
          started_first = λ h. ground (arith, v.started_first);
          starts_open = λ h. absurd (ground (arith, v.started_first));
          in_flight_open = λ h. absurd (ground (arith, v.one_in_flight));
          shape = λ h. absurd (ground arith);
          front = v.front;
          closing = λ h. absurd (ground arith);
          finished = λ h. absurd (ground arith);
          start_reacts = v.start_reacts;
          write_reacts = v.write_reacts;
          close_reacts = refl;
          abort_reacts = λ h. absurd (ground (arith, v.abort_reacts, v.in_flight_open));
          pressed = λ h i. absurd (ground arith);
          owned = v.owned;
        };
        erroring_waits = λ h i. absurd (ground arith);
      }

  -- The last steps, which assert that no request to abort and no error are left.
  abbrev Told : Stream F → Stream F → Type 0
  Told s t = Ok IsValid (
      if is_open s.state && is_none t.pending_abort_request && is_undefined t.stored_error
      then some t
      else none)

  resolve_closed_promise-Told :
      (x : Value) (r : Option PendingAbortRequest) (ps : ℕ → Promise) (s : Stream F)
      → r ≡ none
      → is_undefined x ≡ true
      → is_some s.in_flight_close_request ≡ true
      → IsValid s
      → Told s (resolve_closed_promise (closed_with x r ps s))
  unfolding resolve_closed_promise has_operation_marked_in_flight
  resolve_closed_promise-Told x r ps s q y f u =
      option_cases (Told s) s.writer (finish ps) (λ w. finish _)
    where
      finish : (qs : ℕ → Promise) → Told s (closed_with x r qs s)
      finish qs =
          if_cases (Ok IsValid) (is_open s.state && is_none r && is_undefined x)
            (λ h. closed_with-IsValid x r qs s q f u)
            (λ h. absurd (ground (arith, u.coherent.in_flight_open)))

  pub finish_in_flight_close-IsValid :
      (s : Stream F)
      → s.close_reaction ≡ true
      → IsValid s
      → Ok IsValid (finish_in_flight_close (record s { close_reaction = false }))
  unfolding finish_in_flight_close close_stream calmed resolve_pending_abort
      has_operation_marked_in_flight
  finish_in_flight_close-IsValid s reacts u =
      let v = u.coherent in
      let f : is_some s.in_flight_close_request ≡ true = ground (arith, v.close_reacts) in
      option_cases_eq (Ok IsValid) s.in_flight_close_request (λ e. absurd (ground arith))
        (λ p e.
          if_cases (λ t. Told s (resolve_closed_promise (record t { state = closed })))
            (is_erroring s.state)
            (λ h.
              option_cases_eq (λ t. Told s (resolve_closed_promise (record t { state = closed })))
                s.pending_abort_request
                (λ q. resolve_closed_promise-Told undefined s.pending_abort_request _ s q refl f u)
                (λ r q. resolve_closed_promise-Told undefined none _ s refl refl f u))
            (λ h.
              resolve_closed_promise-Told s.stored_error s.pending_abort_request _ s
                (ground (arith, v.pending_abort)) (ground (arith, v.calm, v.in_flight_open)) f u))

  pub finish_in_flight_close_with_error-IsValid :
      (author : Stream F → Option (Stream F)) (e : Value) (s : Stream F)
      → Keeps author
      → s.close_reaction ≡ true
      → IsValid s
      → Ok IsValid
          (finish_in_flight_close_with_error author e (record s { close_reaction = false }))
  unfolding finish_in_flight_close_with_error reject_pending_abort has_operation_marked_in_flight
  finish_in_flight_close_with_error-IsValid author e s k reacts u =
      let v = u.coherent in
      option_cases_eq (Ok IsValid) s.in_flight_close_request
        (λ q. absurd (ground (arith, v.close_reacts)))
        (λ p q.
          if_cases (Ok IsValid) (is_open s.state)
            (λ on.
              option_cases (λ t. Ok IsValid (deal_with_rejection author e t))
                s.pending_abort_request (fails s.pending_abort_request _ on (ground arith))
                (λ r. fails none _ on (ground arith)))
            (λ h. absurd (ground (arith, v.in_flight_open))))
    where
      fails :
          (r : Option PendingAbortRequest) (ps : ℕ → Promise)
          → is_open s.state ≡ true
          → is_some s.in_flight_close_request ≡ true
          → Ok IsValid (
              deal_with_rejection author e (record s {
                close_reaction = false;
                in_flight_close_request = none;
                pending_abort_request = r;
                promises = ps;
              }))
      fails r ps on f =
          let v = u.coherent in
          deal_with_rejection-IsValid author e _ k on v.calm
            (calm-CanErr _ on (ground (arith, v.one_in_flight)) refl
              (ground (arith, v.start_reacts, v.started_first))
              (ground (arith, v.write_reacts, v.one_in_flight)) refl v.abort_reacts v.owned)
            (ground (arith, v.one_in_flight, v.started_first))
