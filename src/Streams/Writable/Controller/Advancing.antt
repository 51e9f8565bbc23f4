-- ===== src/Streams/Writable/Controller/Advancing.antt =====
-- Lemmas on `writable_stream_default_controller_advance_queue_if_needed` and what it calls
-- (writable/algorithms.rs), for the invariant.
use starlingmonkey_ng.Prelude.{
  ℕ, zero, suc, ◌≡◌, refl, subst, Bool, true, false, not, ◌&&◌, Option, none, some, List, [], ◌∷◌,
  arith, is_some, is_none, if_cases,
}
use starlingmonkey_ng.Streams.Float.{Float}
use starlingmonkey_ng.Streams.QueueWithSizes.{
  Value, QueueWithSizes, ValueWithSize, chunk, close_sentinel, dequeue_value, total_without, size,
}
use starlingmonkey_ng.Streams.Writable.{
  Stream, erroring, and_then, is_writable, is_open, close_queued_or_in_flight,
  has_operation_marked_in_flight, invoke,
}
use starlingmonkey_ng.Streams.Writable.Cases.{list_cases_eq, queue_cases_eq, state_cases_eq}
use starlingmonkey_ng.Streams.Writable.Erroring.Ending.{IsEnding, finish_erroring-IsValid}
use starlingmonkey_ng.Streams.Writable.Controller.{
  mark_first_write_request_in_flight, mark_close_request_in_flight, dequeue, process_write,
  process_close, process_front, advance_queue_if_needed, get_backpressure, get_desired_size,
}
use starlingmonkey_ng.Streams.Writable.Inv.{
  IsCoherent, IsValid, Ok, Ok-and_then, Ok-then, Keeps, has_shape, chunks, clear_algorithms-IsValid,
}

module _ {F : Type 0} ⦃fl : Float F⦄ where
  -- The stream is writable and has started, and no operation is in flight.
  pub record IsReady (s : Stream F) : Type 0 where
    pub coherent : IsCoherent s
    pub state : is_writable s.state ≡ true
    pub started : s.started ≡ true
    pub no_write : s.in_flight_write_request ≡ none
    pub no_close : s.in_flight_close_request ≡ none

  written : ℕ → List ℕ → Stream F → Stream F
  written p ps s = record s {
    in_flight_write_request = some p;
    write_requests = ps;
    write_reaction = true;
  }

  written-IsValid :
      (s : Stream F) (v : Value) (n : F) (vs : List (ValueWithSize F)) (p : ℕ) (ps : List ℕ)
      → IsReady s
      → s.container.queue ≡ chunk v n ∷ vs
      → s.write_requests ≡ p ∷ ps
      → IsValid (written p ps s)
  unfolding written has_operation_marked_in_flight close_queued_or_in_flight get_backpressure
      get_desired_size
  written-IsValid s v n vs p ps r q e = record {
    coherent = record {
      calm = r.coherent.calm;
      pending_abort = r.coherent.pending_abort;
      one_in_flight = λ h. ground (arith, r.no_close);
      started_first = λ h. r.started;
      starts_open = r.coherent.starts_open;
      in_flight_open = λ h. ground (arith, r.state);
      shape = λ h. ground (arith, r.coherent.shape, r.no_write, e);
      front = λ h. ground (arith, q);
      closing = r.coherent.closing;
      finished = λ h. ground (arith, r.state);
      start_reacts = r.coherent.start_reacts;
      write_reacts = refl;
      close_reacts = r.coherent.close_reacts;
      abort_reacts = r.coherent.abort_reacts;
      pressed = r.coherent.pressed;
      owned = r.coherent.owned;
    };
    erroring_waits = λ h i. ground (arith, r.state);
  }

  -- The first write request is marked, and the reactions to its write are attached.
  abbrev Marked : Stream F → Type 0
  Marked t = IsValid (record t { write_reaction = true })

  process_write-IsValid :
      (author : Stream F → Option (Stream F)) (s : Stream F) (v : Value) (n : F)
      (vs : List (ValueWithSize F))
      → Keeps author
      → IsReady s
      → s.container.queue ≡ chunk v n ∷ vs
      → Ok IsValid (process_write author s)
  unfolding process_write mark_first_write_request_in_flight invoke written
  process_write-IsValid author s v n vs keeps r q =
      Ok-and_then {P = Marked} IsValid (mark_first_write_request_in_flight s) _
        (list_cases_eq (Ok Marked) s.write_requests
          (λ e. absurd (ground (arith, r.coherent.shape, r.state, r.no_write)))
          (λ p ps e.
            if_cases (Ok Marked) (is_none s.in_flight_write_request)
              (λ h. written-IsValid s v n vs p ps r q e)
              (λ h. absurd (ground (arith, r.no_write)))))
        (λ t m. if_cases (Ok IsValid) t.write_algorithm (λ h. keeps _ m) (λ h. m))

  abbrev closing_with : QueueWithSizes F → Stream F → Stream F
  closing_with c s = record s {
    in_flight_close_request = s.close_request;
    close_request = none;
    container = c;
    close_reaction = true;
  }

  -- A close sentinel at the front is all of the queue.
  sentinel_shape :
      (n : ℕ) (c : Bool) (vs : List (ValueWithSize F))
      → has_shape n c (close_sentinel ∷ vs) ≡ true
      → (n ≡ 0) × (c ≡ true) × (vs ≡ [])
  sentinel_shape zero false vs h = absurd (ground arith)
  sentinel_shape zero true [] h = (refl, refl, refl)
  sentinel_shape zero true (v ∷ vs) h = absurd (ground arith)
  sentinel_shape (suc n) c vs h = absurd (ground arith)

  sentinel_last :
      (s : Stream F) (vs : List (ValueWithSize F))
      → IsReady s
      → s.container.queue ≡ close_sentinel ∷ vs
      → (s.write_requests ≡ []) × (is_some s.close_request ≡ true) × (vs ≡ [])
  sentinel_last s vs r q =
      let (n, c, e) = sentinel_shape (chunks s) (is_some s.close_request) vs (
        subst (λ xs. has_shape (chunks s) (is_some s.close_request) xs ≡ true) q
          (r.coherent.shape r.state)) in
      (ground arith, c, e)

  closing_with-IsValid :
      (s : Stream F) (vs : List (ValueWithSize F)) (c : QueueWithSizes F)
      → IsReady s
      → s.container.queue ≡ close_sentinel ∷ vs
      → c.queue ≡ []
      → IsValid (closing_with c s)
  unfolding has_operation_marked_in_flight close_queued_or_in_flight
  closing_with-IsValid s vs c r q e =
      let last = sentinel_last s vs r q in
      record {
        coherent = record {
          calm = r.coherent.calm;
          pending_abort = r.coherent.pending_abort;
          one_in_flight = λ h. ground (arith, r.no_write);
          started_first = λ h. r.started;
          starts_open = r.coherent.starts_open;
          in_flight_open = λ h. ground (arith, r.state);
          shape = λ h. ground (arith, last.0, r.no_write);
          front = λ h. ground (arith, r.no_write);
          closing = λ h. refl;
          finished = λ h. ground (arith, r.state);
          start_reacts = r.coherent.start_reacts;
          write_reacts = r.coherent.write_reacts;
          close_reacts = ground (arith, last.1);
          abort_reacts = r.coherent.abort_reacts;
          pressed = λ h i. ground (arith, last.1);
          owned = r.coherent.owned;
        };
        erroring_waits = λ h i. ground (arith, r.state);
      }

  -- The stream without the front of its queue.
  abbrev pub dequeued : ValueWithSize F → List (ValueWithSize F) → Stream F → Stream F
  dequeued v vs s = record s {
    container = record {
      queue = vs;
      queue_total_size = total_without s.container.queue_total_size (size v);
    };
  }

  pub dequeue_cases :
      (P : Option (Stream F) → Type 0) (s : Stream F)
      → (s.container.queue ≡ [] → P none)
      → ((v : ValueWithSize F) (vs : List (ValueWithSize F))
          → s.container.queue ≡ v ∷ vs
          → P (some (dequeued v vs s)))
      → P (dequeue s)
  unfolding dequeue dequeue_value
  dequeue_cases P s =
      list_cases_eq (λ o. P (and_then o (λ c. some (record s { container = c })))) s.container.queue

  abbrev marked_closing : Stream F → Stream F
  marked_closing s = record s { in_flight_close_request = s.close_request; close_request = none }

  process_close-IsValid :
      (author : Stream F → Option (Stream F)) (s : Stream F) (vs : List (ValueWithSize F))
      → Keeps author
      → IsReady s
      → s.container.queue ≡ close_sentinel ∷ vs
      → Ok IsValid (process_close author s)
  unfolding process_close mark_close_request_in_flight invoke
  process_close-IsValid author s vs keeps r q =
      let last = sentinel_last s vs r q in
      Ok-then IsValid (mark_close_request_in_flight s) _ (
        if_cases (Ok _) (is_none s.in_flight_close_request && is_some s.close_request)
          (λ h. Ok-then IsValid (dequeue (marked_closing s)) _ (
            dequeue_cases (Ok _) (marked_closing s) (λ e. absurd (ground (arith, q)))
              (λ w ws e.
                list_cases_eq (Ok IsValid) ws
                  (λ n.
                    let v = closing_with-IsValid s vs _ r q n in
                    Ok-and_then IsValid (invoke s.close_algorithm author (closing_with _ s)) _
                      (if_cases (Ok IsValid) s.close_algorithm (λ b. keeps _ v) (λ b. v))
                      (λ t v'. clear_algorithms-IsValid t v'))
                  (λ x xs n. absurd (ground (arith, q, e, n, last.2))))))
          (λ h. absurd (ground (arith, r.no_close, last.1))))

  IsReady-IsValid : (s : Stream F) → IsReady s → IsValid s
  IsReady-IsValid s r = record {
    coherent = r.coherent;
    erroring_waits = λ h i. ground (arith, r.state);
  }

  process_front-IsValid :
      (author : Stream F → Option (Stream F)) (s : Stream F)
      → Keeps author
      → IsReady s
      → Ok IsValid (process_front author s)
  unfolding process_front
  process_front-IsValid author s keeps r =
      queue_cases_eq (Ok IsValid) s.container.queue (λ e. IsReady-IsValid s r)
        (λ v n vs e. process_write-IsValid author s v n vs keeps r e)
        (λ vs e. process_close-IsValid author s vs keeps r e)

  -- The operation that was in flight is over, or none was: the stream goes on, whatever its state.
  pub advance_queue_if_needed-IsValid :
      (author : Stream F → Option (Stream F)) (s : Stream F)
      → Keeps author
      → IsCoherent s
      → is_open s.state ≡ true
      → s.in_flight_close_request ≡ none
      → Ok IsValid (advance_queue_if_needed author s)
  unfolding advance_queue_if_needed has_operation_marked_in_flight
  advance_queue_if_needed-IsValid author s keeps v on no_close =
      if_cases (Ok IsValid) (not s.started)
        (λ h. record { coherent = v; erroring_waits = λ e i. ground arith })
        (λ h.
          if_cases (Ok IsValid) (is_some s.in_flight_write_request)
            (λ i. record { coherent = v; erroring_waits = λ e j. ground arith })
            (λ i.
              state_cases_eq (Ok IsValid) s.state (λ e. ground arith) (λ e. ground arith)
                (λ e. finish_erroring-IsValid author s keeps (ending h i e))
                (λ e. process_front-IsValid author s keeps (record {
                  coherent = v;
                  state = ground arith;
                  started = ground arith;
                  no_write = ground arith;
                  no_close = no_close;
                }))))
    where
      ending :
          not s.started ≡ false
          → is_some s.in_flight_write_request ≡ false
          → s.state ≡ erroring
          → IsEnding s
      ending h i e = record {
        state = ground arith;
        started = ground arith;
        no_write = ground arith;
        no_close = no_close;
        no_start_reaction = ground (arith, v.start_reacts);
        no_write_reaction = ground (arith, v.write_reacts);
        no_close_reaction = ground (arith, v.close_reacts);
        owned = v.owned;
      }
