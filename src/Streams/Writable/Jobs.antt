-- ===== src/Streams/Writable/Jobs.antt =====
-- Runs of a writable stream: what author code does in one go, and the jobs of the event loop, of
-- which the reactions to the sink's promises are some (writable/algorithms.rs).
pub mod Reacting
pub mod Safe
use starlingmonkey_ng.Prelude.{
  ℕ, ◌+◌, Bool, true, false, not, ◌&&◌, Option, none, some, List, [], ◌∷◌, if◌then◌else◌,
}
use starlingmonkey_ng.Streams.Float.{Float}
use starlingmonkey_ng.Streams.QueueWithSizes.{
  Value, undefined, QueueWithSizes, reset_queue, Throws, ok, err, extract_high_water_mark,
}
use starlingmonkey_ng.Streams.Writable.{
  Stream, writable, pending, fulfilled, and_then, is_writable, is_open, resolve, reject,
  clear_algorithms, invoke,
}
use starlingmonkey_ng.Streams.Writable.Erroring.{
  deal_with_rejection, reject_close_and_closed_promise_if_needed,
}
use starlingmonkey_ng.Streams.Writable.Controller.{
  update_backpressure, get_backpressure, advance_queue_if_needed, finish_in_flight_write,
  finish_in_flight_write_with_error, finish_in_flight_close, finish_in_flight_close_with_error,
  dequeue, refresh_backpressure,
}
use starlingmonkey_ng.Streams.Writable.Api.{
  Answer, get_writer, abort, close, writer_abort, writer_close, release_lock, write, error,
}

-- A call of author code on the stream. Where the call runs author code in turn (the size algorithm,
-- the listeners of the abort signal, an algorithm of the sink), the calls that this code makes are
-- part of it.
mutual
  pub data Call (F : Type 0) : Type 0 where
    gets_writer : Call F
    aborts : Value → Calls F → Calls F → Call F
    closes : Calls F → Call F
    writer_aborts : ℕ → Value → Calls F → Calls F → Call F
    writer_closes : ℕ → Calls F → Call F
    releases : ℕ → Call F
    writes : ℕ → Value → Calls F → Throws F → Calls F → Call F
    errors : Value → Calls F → Call F

  pub data Calls (F : Type 0) : Type 0 where
    none_left : Calls F
    then_calls : Call F → Calls F → Calls F

abbrev pub state_of : {F : Type 0} → Answer F → Option (Stream F)
state_of none = none
state_of (some (s, answer)) = some s

module _ {F : Type 0} ⦃fl : Float F⦄ where
  unfoldable mutual
    unfolding get_writer abort close writer_abort writer_close release_lock write error

    pub run_call : Call F → Stream F → Option (Stream F)
    run_call gets_writer s = state_of (get_writer s)
    run_call (aborts e listeners sink) s =
        state_of (abort e (λ t. run_calls listeners t) (λ t. run_calls sink t) s)
    run_call (closes sink) s = state_of (close (λ t. run_calls sink t) s)
    run_call (writer_aborts w e listeners sink) s =
        state_of (writer_abort w e (λ t. run_calls listeners t) (λ t. run_calls sink t) s)
    run_call (writer_closes w sink) s = state_of (writer_close w (λ t. run_calls sink t) s)
    run_call (releases w) s = some (release_lock w s)
    run_call (writes w v sizing answer sink) s =
        state_of (write w v (λ t. run_calls sizing t) answer (λ t. run_calls sink t) s)
    run_call (errors e sink) s = error e (λ t. run_calls sink t) s

    pub run_calls : Calls F → Stream F → Option (Stream F)
    run_calls none_left s = some s
    run_calls (then_calls c cs) s = and_then (run_call c s) (λ s'. run_calls cs s')

  -- The controller has been set up, and the start algorithm has not run.
  unfoldable pub set_up : F → Bool → Bool → Bool → Bool → Stream F
  unfolding reset_queue
  set_up high_water_mark sized writes' closes' aborts' = record {
    state = writable;
    stored_error = undefined;
    backpressure = false;
    close_request = none;
    in_flight_write_request = none;
    in_flight_close_request = none;
    pending_abort_request = none;
    write_requests = [];
    writer = none;
    container = reset_queue;
    started = false;
    strategy_hwm = high_water_mark;
    strategy_size_algorithm = sized;
    write_algorithm = writes';
    close_algorithm = closes';
    abort_algorithm = aborts';
    start_reaction = true;
    write_reaction = false;
    close_reaction = false;
    abort_reaction = none;
    writers = λ w. record { closed_promise = 0; ready_promise = 0; stream = false };
    next_writer = 0;
    promises = λ p. record { state = fulfilled; is_handled = false };
    next_promise = 0;
  }

  -- `set_up_writable_stream_default_controller`, after the checks of the constructor, when the start
  -- algorithm does not throw. `sized`, `writes'`, `closes'` and `aborts'` say which algorithms the
  -- sink and the strategy have. The reactions to the start promise are recorded before the start
  -- algorithm runs: they run in a later job.
  unfoldable pub new :
      F → Bool → Bool → Bool → Bool → (Stream F → Option (Stream F)) → Option (Stream F)
  unfolding set_up update_backpressure get_backpressure
  new high_water_mark sized writes' closes' aborts' author =
      let s = set_up high_water_mark sized writes' closes' aborts' in
      and_then (update_backpressure (get_backpressure s) s) author

  -- `ws_start_promise_fulfilled`, and so on for the others.
  unfoldable pub start_promise_fulfilled :
      (Stream F → Option (Stream F)) → Stream F → Option (Stream F)
  unfolding advance_queue_if_needed
  start_promise_fulfilled author s =
      let advances = advance_queue_if_needed author (record s { started = true }) in
      if is_open s.state then advances else none

  unfoldable pub start_promise_rejected :
      (Stream F → Option (Stream F)) → Value → Stream F → Option (Stream F)
  unfolding deal_with_rejection
  start_promise_rejected author e s =
      let deals = deal_with_rejection author e (record s { started = true }) in
      if is_open s.state then deals else none

  unfoldable pub write_promise_fulfilled :
      (Stream F → Option (Stream F)) → Stream F → Option (Stream F)
  unfolding finish_in_flight_write dequeue refresh_backpressure advance_queue_if_needed
  write_promise_fulfilled author s = and_then (finish_in_flight_write s) λ s1.
      and_then (if is_open s1.state then dequeue s1 else none)
        λ s2. and_then (refresh_backpressure s2) (λ s3. advance_queue_if_needed author s3)

  unfoldable pub write_promise_rejected :
      (Stream F → Option (Stream F)) → Value → Stream F → Option (Stream F)
  unfolding clear_algorithms finish_in_flight_write_with_error
  write_promise_rejected author e s =
      finish_in_flight_write_with_error author e
        (if is_writable s.state then clear_algorithms s else s)

  unfoldable pub abort_promise_fulfilled : ℕ → Stream F → Option (Stream F)
  unfolding reject_close_and_closed_promise_if_needed
  abort_promise_fulfilled promise s = reject_close_and_closed_promise_if_needed (resolve promise s)

  unfoldable pub abort_promise_rejected : ℕ → Value → Stream F → Option (Stream F)
  unfolding reject_close_and_closed_promise_if_needed
  abort_promise_rejected promise e s =
      reject_close_and_closed_promise_if_needed (reject e promise s)

pub data Settling : Type 0 where
  fulfils : Settling
  rejects : Value → Settling

-- A job: a run of author code, or a settling of a promise of the sink, with the calls of the author
-- code that this starts.
pub data Job (F : Type 0) : Type 0 where
  script : Calls F → Job F
  start_settles : Settling → Calls F → Job F
  write_settles : Settling → Calls F → Job F
  close_settles : Settling → Calls F → Job F
  abort_settles : Settling → Job F

module _ {F : Type 0} ⦃fl : Float F⦄ where
  -- A promise that has no reaction attached, or none that is left, calls nothing.
  unfoldable pub run_job : Job F → Stream F → Option (Stream F)
  unfolding run_calls start_promise_fulfilled start_promise_rejected write_promise_fulfilled
      write_promise_rejected finish_in_flight_close finish_in_flight_close_with_error
      abort_promise_fulfilled abort_promise_rejected
  run_job (script cs) s = run_calls cs s
  run_job (start_settles fulfils sink) s =
      let reacts = start_promise_fulfilled (run_calls sink) (record s { start_reaction = false }) in
      if s.start_reaction then reacts else some s
  run_job (start_settles (rejects e) sink) s =
      let reacts =
        start_promise_rejected (run_calls sink) e (record s { start_reaction = false }) in
      if s.start_reaction then reacts else some s
  run_job (write_settles fulfils sink) s =
      let reacts = write_promise_fulfilled (run_calls sink) (record s { write_reaction = false }) in
      if s.write_reaction then reacts else some s
  run_job (write_settles (rejects e) sink) s =
      let reacts =
        write_promise_rejected (run_calls sink) e (record s { write_reaction = false }) in
      if s.write_reaction then reacts else some s
  run_job (close_settles fulfils sink) s =
      let reacts = finish_in_flight_close (record s { close_reaction = false }) in
      if s.close_reaction then reacts else some s
  run_job (close_settles (rejects e) sink) s =
      let reacts =
        finish_in_flight_close_with_error (run_calls sink) e
          (record s { close_reaction = false }) in
      if s.close_reaction then reacts else some s
  run_job (abort_settles fulfils) s = elim s.abort_reaction [
    | none ↦ some s
    | some promise ↦ abort_promise_fulfilled promise (record s { abort_reaction = none })
  ]
  run_job (abort_settles (rejects e)) s = elim s.abort_reaction [
    | none ↦ some s
    | some promise ↦ abort_promise_rejected promise e (record s { abort_reaction = none })
  ]

  unfoldable pub run_jobs : List (Job F) → Stream F → Option (Stream F)
  unfolding run_job
  run_jobs [] s = some s
  run_jobs (j ∷ js) s = and_then (run_job j s) (λ s'. run_jobs js s')
