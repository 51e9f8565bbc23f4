-- ===== src/Streams/Writable/Erroring/Starting.antt =====
-- Lemmas on `writable_stream_start_erroring` and `writable_stream_deal_with_rejection`
-- (writable/algorithms.rs), for the invariant.
use starlingmonkey_ng.Prelude.{
  ℕ, ◌≡◌, refl, sym, ◌∙◌, true, false, not, ◌&&◌, Option, none, some, arith, is_some, if_cases,
  option_cases,
}
use starlingmonkey_ng.Streams.Float.{Float}
use starlingmonkey_ng.Streams.QueueWithSizes.{Value}
use starlingmonkey_ng.Streams.Writable.{
  Stream, Writer, Promise, erroring, is_undefined, is_writable, is_erroring, is_errored, is_open,
  has_operation_marked_in_flight, is_pending,
}
use starlingmonkey_ng.Streams.Writable.Erroring.{
  start_erroring, marked_erroring, deal_with_rejection, ensure_ready_promise_rejected,
  ensure_closed_promise_rejected,
}
use starlingmonkey_ng.Streams.Writable.Inv.{IsCoherent, IsValid, Ok, Keeps, starts_with_chunk}
use starlingmonkey_ng.Streams.Writable.Erroring.Ending.{IsEnding, finish_erroring-IsValid}

module _ {F : Type 0} where
  -- A stream with other promises, and writers that have other promises.
  abbrev pub with_promises : (ℕ → Promise) → ℕ → (ℕ → Writer) → Stream F → Stream F
  with_promises ps n ws s = record s { promises = ps; next_promise = n; writers = ws }

  -- The writers are bound to the stream as before.
  abbrev pub SameBinding : (ℕ → Writer) → Stream F → Type 0
  SameBinding ws s = (w : ℕ) → (ws w).stream ≡ (s.writers w).stream

  pub ensure_ready_promise_rejected_cases :
      (P : Stream F → Type 0) (w : ℕ) (e : Value) (s : Stream F)
      → ((ps : ℕ → Promise) (n : ℕ) (ws : ℕ → Writer)
          → SameBinding ws s
          → P (with_promises ps n ws s))
      → P (ensure_ready_promise_rejected w e s)
  unfolding ensure_ready_promise_rejected
  ensure_ready_promise_rejected_cases P w e s k =
      if_cases P (is_pending (s.writers w).ready_promise s) (λ h. k _ _ s.writers (λ v. refl))
        (λ h. k _ _ _ (λ v. ground arith))

  pub ensure_closed_promise_rejected_cases :
      (P : Stream F → Type 0) (w : ℕ) (e : Value) (s : Stream F)
      → ((ps : ℕ → Promise) (n : ℕ) (ws : ℕ → Writer)
          → SameBinding ws s
          → P (with_promises ps n ws s))
      → P (ensure_closed_promise_rejected w e s)
  unfolding ensure_closed_promise_rejected
  ensure_closed_promise_rejected_cases P w e s k =
      if_cases P (is_pending (s.writers w).closed_promise s) (λ h. k _ _ s.writers (λ v. refl))
        (λ h. k _ _ _ (λ v. ground arith))

-- What a stream needs to start erroring, but for its state.
pub record CanErr {F : Type 0} (s : Stream F) : Type 0 where
  pub one_in_flight :
      is_some s.in_flight_write_request ≡ true → is_some s.in_flight_close_request ≡ false
  pub started_first : has_operation_marked_in_flight s ≡ true → s.started ≡ true
  pub front : is_some s.in_flight_write_request ≡ true → starts_with_chunk s.container.queue ≡ true
  pub closing : is_some s.in_flight_close_request ≡ true → is_some s.close_request ≡ false
  pub start_reacts : s.start_reaction ≡ true → s.started ≡ false
  pub write_reacts : s.write_reaction ≡ is_some s.in_flight_write_request
  pub close_reacts : s.close_reaction ≡ is_some s.in_flight_close_request
  pub no_abort_reaction : s.abort_reaction ≡ none
  pub owned : (w : ℕ) → (s.writers w).stream ≡ true → s.writer ≡ some w

module _ {F : Type 0} ⦃fl : Float F⦄ where
  pub IsCoherent-CanErr : (s : Stream F) → is_writable s.state ≡ true → IsCoherent s → CanErr s
  IsCoherent-CanErr s on v = record {
    one_in_flight = v.one_in_flight;
    started_first = v.started_first;
    front = v.front;
    closing = v.closing;
    start_reacts = v.start_reacts;
    write_reacts = v.write_reacts;
    close_reacts = v.close_reacts;
    no_abort_reaction = ground (arith, v.abort_reacts);
    owned = v.owned;
  }

  erroring-CanErr :
      (s : Stream F) (e : Value)
      → CanErr s
      → CanErr (record s { state = erroring; stored_error = e })
  unfolding has_operation_marked_in_flight
  erroring-CanErr s e c = record {
    one_in_flight = c.one_in_flight;
    started_first = c.started_first;
    front = c.front;
    closing = c.closing;
    start_reacts = c.start_reacts;
    write_reacts = c.write_reacts;
    close_reacts = c.close_reacts;
    no_abort_reaction = c.no_abort_reaction;
    owned = c.owned;
  }

  with_promises-CanErr :
      (s : Stream F) (ps : ℕ → Promise) (n : ℕ) (ws : ℕ → Writer)
      → SameBinding ws s
      → CanErr s
      → CanErr (with_promises ps n ws s)
  unfolding has_operation_marked_in_flight
  with_promises-CanErr s ps n ws same c = record {
    one_in_flight = c.one_in_flight;
    started_first = c.started_first;
    front = c.front;
    closing = c.closing;
    start_reacts = c.start_reacts;
    write_reacts = c.write_reacts;
    close_reacts = c.close_reacts;
    no_abort_reaction = c.no_abort_reaction;
    owned = λ w h. c.owned w (sym (same w) ∙ h);
  }

  -- Erroring, with an operation to wait for.
  waiting-IsValid :
      (s : Stream F)
      → is_erroring s.state ≡ true
      → CanErr s
      → not (has_operation_marked_in_flight s) && s.started ≡ false
      → IsValid s
  unfolding has_operation_marked_in_flight
  waiting-IsValid s on c waits = record {
    coherent = record {
      calm = λ h. ground arith;
      pending_abort = λ h. on;
      one_in_flight = c.one_in_flight;
      started_first = c.started_first;
      starts_open = λ h. ground arith;
      in_flight_open = λ h. ground arith;
      shape = λ h. ground arith;
      front = c.front;
      closing = c.closing;
      finished = λ h. ground arith;
      start_reacts = c.start_reacts;
      write_reacts = c.write_reacts;
      close_reacts = c.close_reacts;
      abort_reacts = λ h. ground (arith, c.no_abort_reaction);
      pressed = λ h. ground arith;
      owned = c.owned;
    };
    erroring_waits = λ h i. ground arith;
  }

  CanErr-IsEnding :
      (s : Stream F)
      → is_erroring s.state ≡ true
      → CanErr s
      → not (has_operation_marked_in_flight s) && s.started ≡ true
      → IsEnding s
  unfolding has_operation_marked_in_flight
  CanErr-IsEnding s on c ends = record {
    state = on;
    started = ground arith;
    no_write = ground arith;
    no_close = ground arith;
    no_start_reaction = ground (arith, c.start_reacts);
    no_write_reaction = ground (arith, c.write_reacts);
    no_close_reaction = ground (arith, c.close_reacts);
    owned = c.owned;
  }

  abbrev Marked : Stream F → Type 0
  Marked s = (is_erroring s.state ≡ true) × CanErr s

  marked_erroring-Marked : (e : Value) (s : Stream F) → CanErr s → Marked (marked_erroring e s)
  unfolding marked_erroring
  marked_erroring-Marked e s c =
      let s' : Stream F = record s { state = erroring; stored_error = e } in
      let c' = erroring-CanErr s e c in
      option_cases Marked s.writer (refl, c')
        λ w.
          ensure_ready_promise_rejected_cases Marked w e s'
            (λ ps n ws same. (refl, with_promises-CanErr s' ps n ws same c'))

  pub start_erroring-IsValid :
      (author : Stream F → Option (Stream F)) (e : Value) (s : Stream F)
      → Keeps author
      → is_writable s.state ≡ true
      → is_undefined s.stored_error ≡ true
      → CanErr s
      → Ok IsValid (start_erroring author e s)
  unfolding start_erroring
  start_erroring-IsValid author e s keeps on calm c =
      let (still', c') = marked_erroring-Marked e s c in
      let t = marked_erroring e s in
      if_cases (Ok IsValid) (is_undefined s.stored_error && is_writable s.state)
        (λ h.
          if_cases (Ok IsValid) (not (has_operation_marked_in_flight t) && t.started)
            (λ ends. finish_erroring-IsValid author t keeps (CanErr-IsEnding t still' c' ends))
            (λ waits. waiting-IsValid t still' c' waits))
        (λ h. absurd (ground arith))

  pub deal_with_rejection-IsValid :
      (author : Stream F → Option (Stream F)) (e : Value) (s : Stream F)
      → Keeps author
      → is_open s.state ≡ true
      → (is_writable s.state ≡ true → is_undefined s.stored_error ≡ true)
      → CanErr s
      → not (has_operation_marked_in_flight s) && s.started ≡ true
      → Ok IsValid (deal_with_rejection author e s)
  unfolding deal_with_rejection
  deal_with_rejection-IsValid author e s keeps on calm c ends =
      if_cases (Ok IsValid) (is_writable s.state)
        (λ h. start_erroring-IsValid author e s keeps h (calm h) c)
        (λ h. finish_erroring-IsValid author s keeps (CanErr-IsEnding s (ground arith) c ends))

  -- With no operation in flight and no reaction left, a coherent stream may err.
  pub calm-CanErr :
      (s : Stream F)
      → is_open s.state ≡ true
      → s.in_flight_write_request ≡ none
      → s.in_flight_close_request ≡ none
      → s.start_reaction ≡ false
      → s.write_reaction ≡ false
      → s.close_reaction ≡ false
      → (is_some s.abort_reaction ≡ true → is_errored s.state ≡ true)
      → ((w : ℕ) → (s.writers w).stream ≡ true → s.writer ≡ some w)
      → CanErr s
  unfolding has_operation_marked_in_flight
  calm-CanErr s on no_write no_close a b c d owned = record {
    one_in_flight = λ h. ground arith;
    started_first = λ h. absurd (ground arith);
    front = λ h. absurd (ground arith);
    closing = λ h. absurd (ground arith);
    start_reacts = λ h. absurd (ground arith);
    write_reacts = ground arith;
    close_reacts = ground arith;
    no_abort_reaction = ground arith;
    owned = owned;
  }
