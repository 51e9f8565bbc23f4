-- ===== src/Streams/Writable/Controller.antt =====
-- The default controller of a writable stream and the operations in flight: writable/algorithms.rs.
pub mod Advancing
pub mod Pressure
pub mod Writing
pub mod Closed
use starlingmonkey_ng.Prelude.{
  ℕ, ◌+◌, Bool, true, false, not, ◌&&◌, ◌||◌, Option, none, some, List, [], ◌∷◌, ◌++◌,
  if◌then◌else◌, is_some, is_none,
}
use starlingmonkey_ng.Streams.Float.{Float}
use starlingmonkey_ng.Streams.QueueWithSizes.{
  Value, QueueWithSizes, chunk, close_sentinel, dequeue_value, enqueue_value_with_size, ok, err,
  Throws,
}
use starlingmonkey_ng.Streams.Writable.{
  Stream, Writer, PendingAbortRequest, writable, closed, erroring, errored, pending, and_then,
  is_undefined, is_writable, is_erroring, is_open, add_promise, resolve, reject, set_writer,
  close_queued_or_in_flight, has_operation_marked_in_flight, clear_algorithms, invoke,
}
use starlingmonkey_ng.Streams.Writable.Erroring.{
  finish_erroring, start_erroring, deal_with_rejection, reject_close_and_closed_promise_if_needed,
}
use starlingmonkey_ng.Streams.QueueWithSizes.{undefined}

module _ {F : Type 0} where
  -- Both JS values, the close sentinel's and the chunk's, go to the algorithms, which are arguments.
  unfoldable pub mark_close_request_in_flight : Stream F → Option (Stream F)
  mark_close_request_in_flight s =
      if is_none s.in_flight_close_request && is_some s.close_request
      then some (record s { in_flight_close_request = s.close_request; close_request = none })
      else none

  unfoldable pub mark_first_write_request_in_flight : Stream F → Option (Stream F)
  mark_first_write_request_in_flight s = elim s.write_requests [
    | [] ↦ none
    | p ∷ ps ↦
        if is_none s.in_flight_write_request
        then some (record s { in_flight_write_request = some p; write_requests = ps })
        else none
  ]

  -- The writer's part of `update_backpressure`.
  update_ready_promise : Bool → Stream F → Stream F
  update_ready_promise backpressure s = elim s.writer [
    | none ↦ s
    | some w ↦
        let waits =
          set_writer w (record (s.writers w) { ready_promise = s.next_promise })
            (add_promise pending s) in
        let goes_on = resolve (s.writers w).ready_promise s in
        if backpressure
        then (if s.backpressure then s else waits)
        else (if s.backpressure then goes_on else s)
  ]

  unfoldable pub update_backpressure : Bool → Stream F → Option (Stream F)
  unfolding update_ready_promise close_queued_or_in_flight
  update_backpressure backpressure s =
      if is_writable s.state && not (close_queued_or_in_flight s)
      then some (record (update_ready_promise backpressure s) { backpressure = backpressure })
      else none

  unfoldable pub finish_in_flight_write : Stream F → Option (Stream F)
  finish_in_flight_write s = elim s.in_flight_write_request [
    | none ↦ none
    | some p ↦ some (resolve p (record s { in_flight_write_request = none }))
  ]

  resolve_pending_abort : Stream F → Stream F
  resolve_pending_abort s = elim s.pending_abort_request [
    | none ↦ s
    | some request ↦ resolve request.promise (record s { pending_abort_request = none })
  ]

  reject_pending_abort : Value → Stream F → Stream F
  reject_pending_abort e s = elim s.pending_abort_request [
    | none ↦ s
    | some request ↦ reject e request.promise (record s { pending_abort_request = none })
  ]

  -- The error of a stream that is erroring is forgotten, with a request to abort it.
  calmed : Stream F → Stream F
  unfolding resolve_pending_abort
  calmed s =
      if is_erroring s.state
      then resolve_pending_abort (record s { stored_error = undefined })
      else s

  resolve_closed_promise : Stream F → Stream F
  resolve_closed_promise s = elim s.writer [
    | none ↦ s
    | some w ↦ resolve (s.writers w).closed_promise s
  ]

  -- The steps of `finish_in_flight_close` once its promise is resolved.
  close_stream : Stream F → Option (Stream F)
  unfolding calmed resolve_closed_promise
  close_stream s =
      let told = resolve_closed_promise (record (calmed s) { state = closed }) in
      if is_open s.state && is_none told.pending_abort_request && is_undefined told.stored_error
      then some told
      else none

  unfoldable pub finish_in_flight_close : Stream F → Option (Stream F)
  unfolding close_stream
  finish_in_flight_close s = elim s.in_flight_close_request [
    | none ↦ none
    | some p ↦ close_stream (resolve p (record s { in_flight_close_request = none }))
  ]

  module _ ⦃fl : Float F⦄ where
    unfoldable pub get_desired_size : Stream F → F
    get_desired_size s = fl.sub s.strategy_hwm s.container.queue_total_size

    unfoldable pub get_backpressure : Stream F → Bool
    unfolding get_desired_size
    get_backpressure s = fl.le (get_desired_size s) fl.zero

    unfoldable pub dequeue : Stream F → Option (Stream F)
    unfolding dequeue_value
    dequeue s = and_then (dequeue_value s.container) (λ c. some (record s { container = c }))

    unfoldable pub finish_in_flight_write_with_error :
        (Stream F → Option (Stream F)) → Value → Stream F → Option (Stream F)
    unfolding deal_with_rejection
    finish_in_flight_write_with_error author e s = elim s.in_flight_write_request [
      | none ↦ none
      | some p ↦
          let deals =
            deal_with_rejection author e
              (reject e p (record s { in_flight_write_request = none })) in
          if is_open s.state then deals else none
    ]

    unfoldable pub finish_in_flight_close_with_error :
        (Stream F → Option (Stream F)) → Value → Stream F → Option (Stream F)
    unfolding deal_with_rejection reject_pending_abort
    finish_in_flight_close_with_error author e s = elim s.in_flight_close_request [
      | none ↦ none
      | some p ↦
          let deals =
            deal_with_rejection author e
              (reject_pending_abort e (reject e p (record s { in_flight_close_request = none }))) in
          if is_open s.state then deals else none
    ]

    -- The reactions to the sink's promise are recorded before the algorithm runs: they run in a later
    -- job. The chunk goes to the algorithm, which is an argument.
    unfoldable pub process_write : (Stream F → Option (Stream F)) → Stream F → Option (Stream F)
    unfolding mark_first_write_request_in_flight invoke
    process_write author s =
        and_then (mark_first_write_request_in_flight s)
          (λ s'. invoke s'.write_algorithm author (record s' { write_reaction = true }))

    unfoldable pub process_close : (Stream F → Option (Stream F)) → Stream F → Option (Stream F)
    unfolding mark_close_request_in_flight dequeue invoke clear_algorithms
    process_close author s = and_then (mark_close_request_in_flight s) λ s1.
        and_then (dequeue s1) λ s2. elim s2.container.queue [
          | v ∷ vs ↦ none
          | [] ↦
              and_then (invoke s2.close_algorithm author (record s2 { close_reaction = true }))
                (λ s3. some (clear_algorithms s3))
        ]

    -- What the front of the queue asks for.
    process_front : (Stream F → Option (Stream F)) → Stream F → Option (Stream F)
    unfolding process_write process_close
    process_front author s = elim s.container.queue [
      | [] ↦ some s
      | chunk v n ∷ vs ↦ process_write author s
      | close_sentinel ∷ vs ↦ process_close author s
    ]

    unfoldable pub advance_queue_if_needed :
        (Stream F → Option (Stream F)) → Stream F → Option (Stream F)
    unfolding process_front finish_erroring
    advance_queue_if_needed author s =
        let advances : Option (Stream F) = elim s.state [
          | closed ↦ none
          | errored ↦ none
          | erroring ↦ finish_erroring author s
          | writable ↦ process_front author s
        ] in
        if not s.started
        then some s
        else if is_some s.in_flight_write_request
        then some s
        else advances

    unfoldable pub controller_close : (Stream F → Option (Stream F)) → Stream F → Option (Stream F)
    unfolding advance_queue_if_needed
    controller_close author s = advance_queue_if_needed author (record s {
      container = record (s.container) { queue = s.container.queue ++ close_sentinel ∷ [] };
    })

    unfoldable pub controller_error :
        (Stream F → Option (Stream F)) → Value → Stream F → Option (Stream F)
    unfolding clear_algorithms start_erroring
    controller_error author e s =
        let starts = start_erroring author e (clear_algorithms s) in
        if is_writable s.state then starts else none

    unfoldable pub error_if_needed :
        (Stream F → Option (Stream F)) → Value → Stream F → Option (Stream F)
    unfolding controller_error
    error_if_needed author e s =
        let errors = controller_error author e s in if is_writable s.state then errors else some s

    -- What the size algorithm answers or throws is an argument, and what its JS code does.
    unfoldable pub get_chunk_size :
        (Stream F → Option (Stream F))
        → Throws F
        → (Stream F → Option (Stream F))
        → Stream F
        → Option (Stream F × F)
    unfolding error_if_needed
    get_chunk_size sizing answer author s =
        let asks = and_then (sizing s) λ s'. elim answer [
          | ok n ↦ some (s', n)
          | err e ↦ and_then (error_if_needed author e s') (λ s''. some (s'', fl.one))
        ] in
        if s.strategy_size_algorithm then asks else some (s, fl.one)

    -- The backpressure after a chunk has come or gone.
    unfoldable pub refresh_backpressure : Stream F → Option (Stream F)
    unfolding close_queued_or_in_flight update_backpressure get_backpressure
    refresh_backpressure s =
        if not (close_queued_or_in_flight s) && is_writable s.state
        then update_backpressure (get_backpressure s) s
        else some s

    unfoldable pub controller_write :
        Value → F → (Stream F → Option (Stream F)) → Stream F → Option (Stream F)
    unfolding enqueue_value_with_size error_if_needed refresh_backpressure advance_queue_if_needed
    controller_write v n author s = elim (enqueue_value_with_size v n s.container) [
      | err e ↦ error_if_needed author e s
      | ok c ↦
          and_then (refresh_backpressure (record s { container = c }))
            (λ s'. advance_queue_if_needed author s')
    ]
