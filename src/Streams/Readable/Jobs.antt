-- ===== src/Streams/Readable/Jobs.antt =====
-- Runs of a readable stream: what author code does in one go, and the jobs of the event loop, of
-- which the reactions to the source's promises are some (readable/algorithms.rs).
pub mod Safe
use starlingmonkey_ng.Prelude.{
  ℕ, ◌+◌, Bool, true, false, not, ◌&&◌, ◌||◌, Option, none, some, List, [], ◌∷◌, if◌then◌else◌,
}
use starlingmonkey_ng.Streams.Float.{Float}
use starlingmonkey_ng.Streams.QueueWithSizes.{
  Value, undefined, QueueWithSizes, reset_queue, Throws, ok, err,
}
use starlingmonkey_ng.Streams.Writable.{and_then}
use starlingmonkey_ng.Streams.Writable.Jobs.{Settling, fulfils, rejects}
use starlingmonkey_ng.Streams.Readable.{
  ReadableStream, readable, unresolved, resolved, rejected, resolve_with,
}
use starlingmonkey_ng.Streams.Readable.Controller.{call_pull_if_needed, controller_error}
use starlingmonkey_ng.Streams.Readable.Api.{
  Answer, get_reader, release_lock, read, cancel, reader_cancel, close, enqueue, error,
}

-- A call of author code on the stream. Where the call runs author code in turn (an algorithm of the
-- source, the size algorithm, a `then` that is looked up on the result of a read), the calls that
-- this code makes are part of it.
mutual
  pub data Call (F : Type 0) : Type 0 where
    gets_reader : Call F
    reads : (ℕ → Calls F) → Calls F → ℕ → Call F
    releases : ℕ → Call F
    cancels : (ℕ → Calls F) → Calls F → Call F
    reader_cancels : (ℕ → Calls F) → Calls F → ℕ → Call F
    closes : (ℕ → Calls F) → Call F
    enqueues : (ℕ → Calls F) → Calls F → Throws F → Calls F → Value → Call F
    errors : Value → Call F

  pub data Calls (F : Type 0) : Type 0 where
    none_left : Calls F
    then_calls : Call F → Calls F → Calls F

-- The state after a method.
abbrev pub after : {F A : Type 0} → Option (ReadableStream F × A) → Option (ReadableStream F)
after none = none
after (some (s, answer)) = some s

module _ {F : Type 0} ⦃fl : Float F⦄ where
  unfoldable mutual
    unfolding get_reader release_lock read cancel reader_cancel close enqueue error

    pub run_call : Call F → ReadableStream F → Option (ReadableStream F)
    run_call gets_reader s = after (get_reader s)
    run_call (reads thens pull r) s =
        after (read (λ p t. run_calls (thens p) t) (λ t. run_calls pull t) r s)
    run_call (releases r) s = some (release_lock r s)
    run_call (cancels thens cancelling) s =
        after (cancel (λ p t. run_calls (thens p) t) (λ t. run_calls cancelling t) s)
    run_call (reader_cancels thens cancelling r) s =
        after (reader_cancel (λ p t. run_calls (thens p) t) (λ t. run_calls cancelling t) r s)
    run_call (closes thens) s = after (close (λ p t. run_calls (thens p) t) s)
    run_call (enqueues thens sizing answer pull v) s = after (
        enqueue (λ p t. run_calls (thens p) t) (λ t. run_calls sizing t) answer
          (λ t. run_calls pull t) v s)
    run_call (errors e) s = error e s

    pub run_calls : Calls F → ReadableStream F → Option (ReadableStream F)
    run_calls none_left s = some s
    run_calls (then_calls c cs) s = and_then (run_call c s) (λ s'. run_calls cs s')

  -- The controller has been set up, and the start algorithm has not run.
  unfoldable pub set_up : F → Bool → Bool → Bool → ReadableStream F
  unfolding reset_queue
  set_up high_water_mark sized pulls' cancels' = record {
    state = readable;
    stored_error = undefined;
    reader = none;
    disturbed = false;
    container = reset_queue;
    started = false;
    close_requested = false;
    pull_again = false;
    pulling = false;
    strategy_hwm = high_water_mark;
    strategy_size_algorithm = sized;
    pull_algorithm = pulls';
    cancel_algorithm = cancels';
    start_reaction = true;
    pull_reaction = false;
    cancel_reaction = none;
    readers = λ r. record { read_requests = []; closed_promise = 0; stream = false };
    next_reader = 0;
    promises = λ p. record { is_read = false; state = resolved };
    next_promise = 0;
  }

  -- `set_up_readable_stream_default_controller` for a new stream, when the start algorithm does not
  -- throw. `sized`, `pulls'` and `cancels'` say which algorithms the strategy and the source have.
  -- The reactions to the start promise are recorded before the start algorithm runs: they run in a
  -- later job.
  unfoldable pub new :
      F
      → Bool
      → Bool
      → Bool
      → (ReadableStream F → Option (ReadableStream F))
      → Option (ReadableStream F)
  unfolding set_up
  new high_water_mark sized pulls' cancels' start =
      start (set_up high_water_mark sized pulls' cancels')

  unfoldable pub start_promise_fulfilled :
      (ReadableStream F → Option (ReadableStream F)) → ReadableStream F → Option (ReadableStream F)
  unfolding call_pull_if_needed
  start_promise_fulfilled pull s =
      let pulls' = call_pull_if_needed pull (record s { started = true }) in
      if s.pulling || s.pull_again then none else pulls'

  unfoldable pub pull_promise_fulfilled :
      (ReadableStream F → Option (ReadableStream F)) → ReadableStream F → Option (ReadableStream F)
  unfolding call_pull_if_needed
  pull_promise_fulfilled pull s =
      let again = call_pull_if_needed pull (record s { pulling = false; pull_again = false }) in
      if s.pull_again then again else some (record s { pulling = false })

-- A job: a run of author code, or a settling of a promise of the source, with the calls of the
-- author code that this starts.
pub data Job (F : Type 0) : Type 0 where
  script : Calls F → Job F
  start_settles : Settling → Calls F → Job F
  pull_settles : Settling → Calls F → Job F
  cancel_settles : Settling → Job F

module _ {F : Type 0} ⦃fl : Float F⦄ where
  -- A promise that has no reaction attached, or none that is left, calls nothing. A rejection of the
  -- start or pull promise errors the controller.
  unfoldable pub run_job : Job F → ReadableStream F → Option (ReadableStream F)
  unfolding run_calls start_promise_fulfilled pull_promise_fulfilled controller_error
  run_job (script cs) s = run_calls cs s
  run_job (start_settles fulfils pull) s =
      let reacts = start_promise_fulfilled (run_calls pull) (record s { start_reaction = false }) in
      if s.start_reaction then reacts else some s
  run_job (start_settles (rejects e) pull) s =
      let reacts = controller_error e (record s { start_reaction = false }) in
      if s.start_reaction then reacts else some s
  run_job (pull_settles fulfils pull) s =
      let reacts = pull_promise_fulfilled (run_calls pull) (record s { pull_reaction = false }) in
      if s.pull_reaction then reacts else some s
  run_job (pull_settles (rejects e) pull) s =
      let reacts = controller_error e (record s { pull_reaction = false }) in
      if s.pull_reaction then reacts else some s
  run_job (cancel_settles fulfils) s = elim s.cancel_reaction [
    | none ↦ some s
    | some promise ↦ some (resolve_with resolved promise (record s { cancel_reaction = none }))
  ]
  run_job (cancel_settles (rejects e)) s = elim s.cancel_reaction [
    | none ↦ some s
    | some promise ↦ some (resolve_with (rejected e) promise (record s { cancel_reaction = none }))
  ]

  unfoldable pub run_jobs : List (Job F) → ReadableStream F → Option (ReadableStream F)
  unfolding run_job
  run_jobs [] s = some s
  run_jobs (j ∷ js) s = and_then (run_job j s) (λ s'. run_jobs js s')
