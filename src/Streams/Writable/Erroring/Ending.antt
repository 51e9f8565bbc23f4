-- ===== src/Streams/Writable/Erroring/Ending.antt =====
-- Lemmas on `writable_stream_finish_erroring` and what it calls (writable/algorithms.rs), for the
-- invariant.
use starlingmonkey_ng.Prelude.{
  ℕ, ◌≡◌, refl, sym, ap, subst, true, false, not, ◌&&◌, Option, none, some, List, [], ◌∷◌, arith,
  is_some, if_cases, option_cases, option_cases_eq,
}
use starlingmonkey_ng.Streams.Float.{Float}
use starlingmonkey_ng.Streams.QueueWithSizes.{Value, reset_queue}
use starlingmonkey_ng.Streams.Writable.{
  Stream, Promise, errored, is_erroring, is_errored, close_queued_or_in_flight,
  has_operation_marked_in_flight, invoke, reject, error_steps,
}
use starlingmonkey_ng.Streams.Writable.Erroring.{
  reject_close_request, reject_closed_promise, reject_close_and_closed_promise_if_needed,
  reject_each, reject_write_requests, abort_steps, finish_abort, finish_erroring,
}
use starlingmonkey_ng.Streams.Writable.Inv.{
  IsValid, Ok, Ok-and_then, Keeps, clear_algorithms-IsValid,
}

-- The stream has errored: nothing is queued and nothing in flight.
pub record IsEnded {F : Type 0} (s : Stream F) : Type 0 where
  pub state : s.state ≡ errored
  pub started : s.started ≡ true
  pub no_write : s.in_flight_write_request ≡ none
  pub no_close : s.in_flight_close_request ≡ none
  pub no_abort : s.pending_abort_request ≡ none
  pub no_requests : s.write_requests ≡ []
  pub no_queue : s.container.queue ≡ []
  pub no_start_reaction : s.start_reaction ≡ false
  pub no_write_reaction : s.write_reaction ≡ false
  pub no_close_reaction : s.close_reaction ≡ false
  pub owned : (w : ℕ) → (s.writers w).stream ≡ true → s.writer ≡ some w

-- The stream is erroring, and no operation is in flight.
pub record IsEnding {F : Type 0} (s : Stream F) : Type 0 where
  pub state : is_erroring s.state ≡ true
  pub started : s.started ≡ true
  pub no_write : s.in_flight_write_request ≡ none
  pub no_close : s.in_flight_close_request ≡ none
  pub no_start_reaction : s.start_reaction ≡ false
  pub no_write_reaction : s.write_reaction ≡ false
  pub no_close_reaction : s.close_reaction ≡ false
  pub owned : (w : ℕ) → (s.writers w).stream ≡ true → s.writer ≡ some w

module _ {F : Type 0} ⦃fl : Float F⦄ where
  IsEnded-IsValid : (s : Stream F) → IsEnded s → IsValid s
  unfolding has_operation_marked_in_flight close_queued_or_in_flight
  IsEnded-IsValid s e = record {
    coherent = record {
      calm = λ h. ground (arith, e.state);
      pending_abort = λ h. ground (arith, e.no_abort);
      one_in_flight = λ h. ground (arith, e.no_write);
      started_first = λ h. e.started;
      starts_open = λ h. ground (arith, e.started);
      in_flight_open = λ h. ground (arith, e.no_write, e.no_close);
      shape = λ h. ground (arith, e.state);
      front = λ h. ground (arith, e.no_write);
      closing = λ h. ground (arith, e.no_close);
      finished = λ h. (e.no_requests, e.no_queue);
      start_reacts = λ h. ground (arith, e.no_start_reaction);
      write_reacts = ground (arith, e.no_write, e.no_write_reaction);
      close_reacts = ground (arith, e.no_close, e.no_close_reaction);
      abort_reacts = λ h. ground (arith, e.state);
      pressed = λ h. ground (arith, e.state);
      owned = e.owned;
    };
    erroring_waits = λ h. ground (arith, e.state);
  }

  -- `IsEnded` says nothing of promises, close requests and pending reactions to an abort.
  IsEnded-rest :
      (s : Stream F) (ps : ℕ → Promise) (c a : Option ℕ)
      → IsEnded s
      → IsEnded (record s { promises = ps; close_request = c; abort_reaction = a })
  IsEnded-rest s ps c a e = record {
    state = e.state;
    started = e.started;
    no_write = e.no_write;
    no_close = e.no_close;
    no_abort = e.no_abort;
    no_requests = e.no_requests;
    no_queue = e.no_queue;
    no_start_reaction = e.no_start_reaction;
    no_write_reaction = e.no_write_reaction;
    no_close_reaction = e.no_close_reaction;
    owned = e.owned;
  }

  reject_closed_promise-IsEnded : (s : Stream F) → IsEnded s → IsEnded (reject_closed_promise s)
  unfolding reject_closed_promise
  reject_closed_promise-IsEnded s e =
      option_cases IsEnded s.writer e (λ w. IsEnded-rest s _ s.close_request s.abort_reaction e)

  reject_close_request-IsEnded : (s : Stream F) → IsEnded s → Ok IsEnded (reject_close_request s)
  unfolding reject_close_request
  reject_close_request-IsEnded s e = option_cases (Ok IsEnded) s.close_request e λ p.
      if_cases (Ok IsEnded) (is_some s.in_flight_close_request) (λ h. ground (arith, e.no_close))
        (λ h. IsEnded-rest s _ none s.abort_reaction e)

  pub reject_close_and_closed_promise_if_needed-IsEnded :
      (s : Stream F) → IsEnded s → Ok IsValid (reject_close_and_closed_promise_if_needed s)
  unfolding reject_close_and_closed_promise_if_needed
  reject_close_and_closed_promise_if_needed-IsEnded s e =
      if_cases (Ok IsValid) (is_errored s.state)
        (λ h.
          Ok-and_then IsValid (reject_close_request s) _ (reject_close_request-IsEnded s e)
            (λ s' e'. IsEnded-IsValid _ (reject_closed_promise-IsEnded s' e')))
        (λ h. ground (arith, e.state))

  abort_steps-IsEnded :
      (author : Stream F → Option (Stream F)) (p : ℕ) (s : Stream F)
      → Keeps author
      → IsEnded s
      → Ok IsValid (abort_steps author p s)
  unfolding abort_steps invoke
  abort_steps-IsEnded author p s keeps e =
      let v = IsEnded-IsValid _ (IsEnded-rest s s.promises s.close_request (some p) e) in
      Ok-and_then IsValid (invoke s.abort_algorithm author (record s { abort_reaction = some p })) _
        (if_cases (Ok IsValid) s.abort_algorithm (λ h. keeps _ v) (λ h. v))
        (λ s' v'. clear_algorithms-IsValid s' v')

  no_abort-IsEnded :
      (s : Stream F)
      → s.pending_abort_request ≡ none
      → IsEnded (record s { pending_abort_request = none })
      → IsEnded s
  no_abort-IsEnded s h e = record {
    state = e.state;
    started = e.started;
    no_write = e.no_write;
    no_close = e.no_close;
    no_abort = h;
    no_requests = e.no_requests;
    no_queue = e.no_queue;
    no_start_reaction = e.no_start_reaction;
    no_write_reaction = e.no_write_reaction;
    no_close_reaction = e.no_close_reaction;
    owned = e.owned;
  }

  -- The stream has errored, but for a request to abort.
  IsEnded-finish_abort :
      (author : Stream F → Option (Stream F)) (s : Stream F)
      → Keeps author
      → IsEnded (record s { pending_abort_request = none })
      → Ok IsValid (finish_abort author s)
  unfolding finish_abort
  IsEnded-finish_abort author s keeps e =
      option_cases_eq (Ok IsValid) s.pending_abort_request
        (λ h. reject_close_and_closed_promise_if_needed-IsEnded s (no_abort-IsEnded s h e))
        (λ r h.
          if_cases (Ok IsValid) r.was_already_erroring
            (λ b. reject_close_and_closed_promise_if_needed-IsEnded _ (
              IsEnded-rest (record s { pending_abort_request = none }) _ s.close_request
                s.abort_reaction e))
            (λ b. abort_steps-IsEnded author r.promise _ keeps e))

  -- Rejecting promises changes the promises alone.
  reject_each-promises :
      (e : Value) (ps : List ℕ) (s : Stream F)
      → reject_each e ps s ≡ record s { promises = (reject_each e ps s).promises }
  unfolding reject_each
  reject_each-promises e [] s = refl
  reject_each-promises e (p ∷ ps) s = reject_each-promises e ps (reject e p s)

  drained_with : (ℕ → Promise) → Stream F → Stream F
  drained_with ps s = record s {
    state = errored;
    container = reset_queue;
    write_requests = [];
    promises = ps;
  }

  reject_write_requests-drained :
      (s : Stream F)
      → (ps : ℕ → Promise) × (reject_write_requests (error_steps (record s { state = errored }))
          ≡ drained_with ps s)
  unfolding reject_write_requests error_steps drained_with
  reject_write_requests-drained s =
      let s' : Stream F = record s { state = errored; container = reset_queue } in
      (
        _,
        ap {A = Stream F} (λ t. record t { write_requests = [] })
            (reject_each-promises s.stored_error s.write_requests s'),
      )

  drained_with-IsEnded :
      (ps : ℕ → Promise) (s : Stream F)
      → IsEnding s
      → IsEnded (record (drained_with ps s) { pending_abort_request = none })
  unfolding drained_with reset_queue
  drained_with-IsEnded ps s e = record {
    state = refl;
    started = e.started;
    no_write = e.no_write;
    no_close = e.no_close;
    no_abort = refl;
    no_requests = refl;
    no_queue = refl;
    no_start_reaction = e.no_start_reaction;
    no_write_reaction = e.no_write_reaction;
    no_close_reaction = e.no_close_reaction;
    owned = e.owned;
  }

  pub finish_erroring-IsValid :
      (author : Stream F → Option (Stream F)) (s : Stream F)
      → Keeps author
      → IsEnding s
      → Ok IsValid (finish_erroring author s)
  unfolding finish_erroring has_operation_marked_in_flight
  finish_erroring-IsValid author s keeps e =
      if_cases (Ok IsValid) (is_erroring s.state && not (has_operation_marked_in_flight s))
        (λ h.
          let (ps, q) = reject_write_requests-drained s in
          subst (λ t. Ok IsValid (finish_abort author t)) (sym q)
            (IsEnded-finish_abort author _ keeps (drained_with-IsEnded ps s e)))
        (λ h. absurd (ground (arith, e.state, e.no_write, e.no_close)))
