-- ===== src/Streams/Writable/Api.antt =====
-- The methods of the writable stream, of its writers and of its controller: writable/ of
-- crates/builtins/web-streams/src. The code that a method calls back is an argument: `author` what
-- an algorithm of the sink does to the stream, `listeners` what those of the abort signal do, and
-- `sizing` what the size algorithm does.
pub mod Locking
pub mod Closing
pub mod Ends
pub mod Writes
pub mod Refusals
use starlingmonkey_ng.Prelude.{
  ℕ, ◌+◌, Bool, true, false, not, ◌&&◌, ◌||◌, Option, none, some, List, [], ◌∷◌, ◌++◌,
  if◌then◌else◌, is_some, is_none,
}
use starlingmonkey_ng.Streams.Float.{Float}
use starlingmonkey_ng.Streams.QueueWithSizes.{
  Value, undefined, type_error, QueueWithSizes, reset_queue, ok, err, Throws,
}
use starlingmonkey_ng.Streams.Writable.{
  Stream, Writer, PendingAbortRequest, writable, closed, erroring, errored, pending, fulfilled,
  rejected, and_then, is_undefined, is_writable, is_erroring, is_open, add_promise, resolve, reject,
  set_settled_is_handled, set_writer, close_queued_or_in_flight, has_operation_marked_in_flight,
  is_locked, clear_algorithms, invoke,
}
use starlingmonkey_ng.Streams.Writable.Erroring.{
  start_erroring, deal_with_rejection, ensure_ready_promise_rejected,
  ensure_closed_promise_rejected, reject_close_and_closed_promise_if_needed,
}
use starlingmonkey_ng.Streams.Writable.Controller.{
  get_desired_size, get_backpressure, update_backpressure, get_chunk_size, controller_write,
  controller_close, controller_error, advance_queue_if_needed, finish_in_flight_write,
  finish_in_flight_write_with_error, finish_in_flight_close, finish_in_flight_close_with_error,
  dequeue, refresh_backpressure,
}

-- A promise that a method answers, by its number, with the stream after the method; or what it
-- throws, the stream being as it was.
abbrev pub Answer : Type 0 → Type 0
Answer F = Option (Stream F × Throws ℕ)

abbrev pub answered : {F : Type 0} → ℕ → Option (Stream F) → Answer F
answered p none = none
answered p (some s) = some (s, ok p)

module _ {F : Type 0} ⦃fl : Float F⦄ where
  -- A new promise, already settled.
  abbrev pub answer_settled : Value → Stream F → Answer F
  answer_settled e s = some (add_promise (rejected e) s, ok s.next_promise)

  abbrev pub answer_resolved : Stream F → Answer F
  answer_resolved s = some (add_promise fulfilled s, ok s.next_promise)

  -- The promises that `set_up_writable_stream_default_writer` gives to a writer: its ready promise is
  -- the first that is made, and its closed promise the second.
  abbrev pub with_promises : (Stream F → Stream F) → (Stream F → Stream F) → Stream F → Stream F
  with_promises ready closed_promise s =
      set_writer s.next_writer
        (record {
          closed_promise = s.next_promise + 1;
          ready_promise = s.next_promise;
          stream = true;
        })
        (record (closed_promise (ready s)) {
          writer = some s.next_writer;
          next_writer = s.next_writer + 1;
        })

  abbrev rejected_and_handled : Stream F → Stream F
  rejected_and_handled s =
      set_settled_is_handled s.next_promise (add_promise (rejected s.stored_error) s)

  unfoldable pub set_up_default_writer : Stream F → Stream F
  unfolding close_queued_or_in_flight
  set_up_default_writer s = elim s.state [
    | writable ↦
        if not (close_queued_or_in_flight s) && s.backpressure
        then with_promises (add_promise pending) (add_promise pending) s
        else with_promises (add_promise fulfilled) (add_promise pending) s
    | erroring ↦ with_promises rejected_and_handled (add_promise pending) s
    | closed ↦ with_promises (add_promise fulfilled) (add_promise fulfilled) s
    | errored ↦ with_promises rejected_and_handled rejected_and_handled s
  ]

  -- `get_writer`, and `new WritableStreamDefaultWriter(stream)`.
  unfoldable pub get_writer : Stream F → Answer F
  unfolding is_locked set_up_default_writer
  get_writer s =
      if is_locked s
      then some (s, err type_error)
      else some (set_up_default_writer s, ok s.next_writer)

  -- The steps of `writable_stream_abort` once the abort is signalled.
  abort_signalled : Value → (Stream F → Option (Stream F)) → Stream F → Answer F
  unfolding start_erroring
  abort_signalled reason author s =
      let promise = s.next_promise in
      let fresh = add_promise pending s in
      elim s.pending_abort_request [
        | some request ↦ if is_open s.state then some (s, ok request.promise) else answer_resolved s
        | none ↦ elim s.state [
          | closed ↦ answer_resolved s
          | errored ↦ answer_resolved s
          | erroring ↦ some (
            record fresh {
              pending_abort_request =
                  some
                    (record { promise = promise; reason = undefined; was_already_erroring = true });
            },
            ok promise,
          )
          | writable ↦ answered promise (
              start_erroring author reason (record fresh {
                pending_abort_request =
                    some
                      (record { promise = promise; reason = reason; was_already_erroring = false });
              }))
        ]
      ]

  -- What the listeners of the abort signal do is an argument.
  unfoldable pub stream_abort :
      Value → (Stream F → Option (Stream F)) → (Stream F → Option (Stream F)) → Stream F → Answer F
  unfolding abort_signalled
  stream_abort reason listeners author s =
      let signals = elim (listeners s) as (λ _. Answer F) [
        | none ↦ none
        | some s' ↦ abort_signalled reason author s'
      ] in
      if is_open s.state then signals else answer_resolved s

  -- The close request is made, and a writer that waits for backpressure goes on.
  close_requested : Stream F → Stream F
  close_requested s =
      let s' = record (add_promise pending s) { close_request = some s.next_promise } in
      elim s.writer [
        | none ↦ s'
        | some w ↦
            if s.backpressure && is_writable s.state
            then resolve (s.writers w).ready_promise s'
            else s'
      ]

  unfoldable pub stream_close : (Stream F → Option (Stream F)) → Stream F → Answer F
  unfolding close_queued_or_in_flight close_requested controller_close
  stream_close author s =
      let closes = answered s.next_promise (controller_close author (close_requested s)) in
      if is_open s.state
      then (if close_queued_or_in_flight s then none else closes)
      else answer_settled type_error s

  -- `WritableStream::abort`
  unfoldable pub abort :
      Value → (Stream F → Option (Stream F)) → (Stream F → Option (Stream F)) → Stream F → Answer F
  unfolding is_locked stream_abort
  abort reason listeners author s =
      let aborts = stream_abort reason listeners author s in
      if is_locked s then some (s, err type_error) else aborts

  -- `WritableStream::close`
  unfoldable pub close : (Stream F → Option (Stream F)) → Stream F → Answer F
  unfolding is_locked close_queued_or_in_flight stream_close
  close author s =
      let closes = stream_close author s in
      if is_locked s
      then some (s, err type_error)
      else if close_queued_or_in_flight s
      then some (s, err type_error)
      else closes

  -- `WritableStreamDefaultWriter::abort`
  unfoldable pub writer_abort :
      ℕ
      → Value
      → (Stream F → Option (Stream F))
      → (Stream F → Option (Stream F))
      → Stream F
      → Answer F
  unfolding stream_abort
  writer_abort w reason listeners author s =
      let aborts = stream_abort reason listeners author s in
      if (s.writers w).stream then aborts else some (s, err type_error)

  -- `WritableStreamDefaultWriter::close`
  unfoldable pub writer_close : ℕ → (Stream F → Option (Stream F)) → Stream F → Answer F
  unfolding close_queued_or_in_flight stream_close
  writer_close w author s =
      let closes = stream_close author s in
      if (s.writers w).stream
      then (if close_queued_or_in_flight s then some (s, err type_error) else closes)
      else some (s, err type_error)

  -- Asked of a writer that has a stream, as piping does.
  unfoldable pub close_with_error_propagation :
      ℕ → (Stream F → Option (Stream F)) → Stream F → Answer F
  unfolding close_queued_or_in_flight stream_close
  close_with_error_propagation w author s =
      let closes = stream_close author s in
      let propagates : Answer F = elim s.state [
        | closed ↦ answer_resolved s
        | errored ↦ answer_settled s.stored_error s
        | writable ↦ closes
        | erroring ↦ closes
      ] in
      if (s.writers w).stream
      then (if close_queued_or_in_flight s then answer_resolved s else propagates)
      else none

  unfoldable pub release : ℕ → Stream F → Stream F
  unfolding ensure_ready_promise_rejected ensure_closed_promise_rejected
  release w s =
      let s' =
        ensure_closed_promise_rejected w type_error
          (ensure_ready_promise_rejected w type_error s) in
      set_writer w (record (s'.writers w) { stream = false }) (record s' { writer = none })

  -- `WritableStreamDefaultWriter::release_lock`
  unfoldable pub release_lock : ℕ → Stream F → Stream F
  unfolding release
  release_lock w s = if (s.writers w).stream then release w s else s

  unfoldable pub add_write_request : Stream F → Option (Stream F)
  unfolding is_locked
  add_write_request s =
      if is_locked s && is_writable s.state
      then some (record (add_promise pending s) {
        write_requests = s.write_requests ++ s.next_promise ∷ [];
      })
      else none

  -- The steps of `writable_stream_default_writer_write` once the chunk has a size.
  write_sized : ℕ → Value → F → (Stream F → Option (Stream F)) → Stream F → Answer F
  unfolding close_queued_or_in_flight add_write_request controller_write
  write_sized w v n author s =
      let writes =
        answered s.next_promise
          (and_then (add_write_request s) (λ s'. controller_write v n author s')) in
      let by_state : Answer F = elim s.state [
        | closed ↦ answer_settled type_error s
        | erroring ↦ answer_settled s.stored_error s
        | writable ↦ writes
        | errored ↦ answer_settled s.stored_error s
      ] in
      let unless_closing : Answer F = elim s.state [
        | errored ↦ answer_settled s.stored_error s
        | _ ↦ if close_queued_or_in_flight s then answer_settled type_error s else by_state
      ] in
      if (s.writers w).stream then unless_closing else answer_settled type_error s

  -- `WritableStreamDefaultWriter::write`
  unfoldable pub write :
      ℕ
      → Value
      → (Stream F → Option (Stream F))
      → Throws F
      → (Stream F → Option (Stream F))
      → Stream F
      → Answer F
  unfolding get_chunk_size write_sized
  write w v sizing answer author s =
      let writes = elim (get_chunk_size sizing answer author s) as (λ _. Answer F) [
        | none ↦ none
        | some (s', n) ↦ write_sized w v n author s'
      ] in
      if (s.writers w).stream then writes else some (s, err type_error)

  -- `WritableStreamDefaultController::error`
  unfoldable pub error : Value → (Stream F → Option (Stream F)) → Stream F → Option (Stream F)
  unfolding controller_error
  error e author s =
      let errors = controller_error author e s in if is_writable s.state then errors else some s

  -- `WritableStreamDefaultWriter::desired_size`; its inner option is the JS null.
  unfoldable pub desired_size : ℕ → Stream F → Throws (Option F)
  unfolding get_desired_size
  desired_size w s =
      let by_state : Throws (Option F) = elim s.state [
        | errored ↦ ok none
        | erroring ↦ ok none
        | closed ↦ ok (some fl.zero)
        | writable ↦ ok (some (get_desired_size s))
      ] in
      if (s.writers w).stream then by_state else err type_error
