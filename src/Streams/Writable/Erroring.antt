-- ===== src/Streams/Writable/Erroring.antt =====
-- How a writable stream becomes erroring and errored: writable/algorithms.rs.
pub mod Ending
pub mod Starting
use starlingmonkey_ng.Prelude.{
  ℕ, ◌+◌, Bool, true, false, not, ◌&&◌, ◌||◌, Option, none, some, List, [], ◌∷◌, if◌then◌else◌,
  ◌==◌, is_some, is_none,
}
use starlingmonkey_ng.Streams.Float.{Float}
use starlingmonkey_ng.Streams.QueueWithSizes.{Value, QueueWithSizes}
use starlingmonkey_ng.Streams.Writable.{
  Stream, Writer, PendingAbortRequest, writable, closed, erroring, errored, rejected, and_then,
  is_undefined, is_writable, is_erroring, is_errored, add_promise, resolve, reject,
  set_settled_is_handled, is_pending, set_writer, has_operation_marked_in_flight, clear_algorithms,
  invoke, error_steps,
}

module _ {F : Type 0} where
  -- The code of a promise that is pending is rejected; another takes the place of a settled one.
  unfoldable pub ensure_ready_promise_rejected : ℕ → Value → Stream F → Stream F
  ensure_ready_promise_rejected w e s =
      let ready = (s.writers w).ready_promise in
      if is_pending ready s
      then set_settled_is_handled ready (reject e ready s)
      else set_settled_is_handled s.next_promise (
          set_writer w (record (s.writers w) { ready_promise = s.next_promise })
            (add_promise (rejected e) s))

  unfoldable pub ensure_closed_promise_rejected : ℕ → Value → Stream F → Stream F
  ensure_closed_promise_rejected w e s =
      let closed_promise = (s.writers w).closed_promise in
      if is_pending closed_promise s
      then set_settled_is_handled closed_promise (reject e closed_promise s)
      else set_settled_is_handled s.next_promise (
          set_writer w (record (s.writers w) { closed_promise = s.next_promise })
            (add_promise (rejected e) s))

  reject_close_request : Stream F → Option (Stream F)
  reject_close_request s = elim s.close_request [
    | none ↦ some s
    | some p ↦
        if is_some s.in_flight_close_request
        then none
        else some (reject s.stored_error p (record s { close_request = none }))
  ]

  reject_closed_promise : Stream F → Stream F
  reject_closed_promise s = elim s.writer [
    | none ↦ s
    | some w ↦
        let p = (s.writers w).closed_promise in set_settled_is_handled p (reject s.stored_error p s)
  ]

  unfoldable pub reject_close_and_closed_promise_if_needed : Stream F → Option (Stream F)
  unfolding reject_close_request reject_closed_promise
  reject_close_and_closed_promise_if_needed s =
      let rejects = and_then (reject_close_request s) (λ s'. some (reject_closed_promise s')) in
      if is_errored s.state then rejects else none

  reject_each : Value → List ℕ → Stream F → Stream F
  reject_each e [] s = s
  reject_each e (p ∷ ps) s = reject_each e ps (reject e p s)

  -- The `while` that drains the write requests.
  reject_write_requests : Stream F → Stream F
  unfolding reject_each
  reject_write_requests s = record (reject_each s.stored_error s.write_requests s) {
    write_requests = [];
  }

  -- `abort_steps`, with the reactions that `finish_erroring` attaches to its promise. They run in a
  -- later job, so they are recorded before the algorithm runs.
  unfoldable pub abort_steps : (Stream F → Option (Stream F)) → ℕ → Stream F → Option (Stream F)
  unfolding invoke clear_algorithms
  abort_steps author promise s =
      and_then (invoke s.abort_algorithm author (record s { abort_reaction = some promise }))
        (λ s'. some (clear_algorithms s'))

  -- The steps after the write requests are rejected.
  finish_abort : (Stream F → Option (Stream F)) → Stream F → Option (Stream F)
  unfolding reject_close_and_closed_promise_if_needed abort_steps
  finish_abort author s = elim s.pending_abort_request [
    | none ↦ reject_close_and_closed_promise_if_needed s
    | some request ↦
        let s' = record s { pending_abort_request = none } in
        let rejects =
          reject_close_and_closed_promise_if_needed (reject s.stored_error request.promise s') in
        let aborts = abort_steps author request.promise s' in
        if request.was_already_erroring then rejects else aborts
  ]

  module _ ⦃fl : Float F⦄ where
    unfoldable pub finish_erroring : (Stream F → Option (Stream F)) → Stream F → Option (Stream F)
    unfolding reject_write_requests finish_abort error_steps has_operation_marked_in_flight
    finish_erroring author s =
        let finishes =
          finish_abort author
            (reject_write_requests (error_steps (record s { state = errored }))) in
        if is_erroring s.state && not (has_operation_marked_in_flight s) then finishes else none

    -- The state when the stream has become erroring, before it is finished.
    marked_erroring : Value → Stream F → Stream F
    unfolding ensure_ready_promise_rejected
    marked_erroring reason s =
        let s' = record s { state = erroring; stored_error = reason } in
        elim s.writer [ none ↦ s' | some w ↦ ensure_ready_promise_rejected w reason s' ]

    unfoldable pub start_erroring :
        (Stream F → Option (Stream F)) → Value → Stream F → Option (Stream F)
    unfolding finish_erroring marked_erroring
    start_erroring author reason s =
        let s' = marked_erroring reason s in
        let finishes = finish_erroring author s' in
        if is_undefined s.stored_error && is_writable s.state
        then (if not (has_operation_marked_in_flight s') && s'.started then finishes else some s')
        else none

    unfoldable pub deal_with_rejection :
        (Stream F → Option (Stream F)) → Value → Stream F → Option (Stream F)
    unfolding start_erroring
    deal_with_rejection author e s =
        let starts = start_erroring author e s in
        let finishes = finish_erroring author s in if is_writable s.state then starts else finishes
