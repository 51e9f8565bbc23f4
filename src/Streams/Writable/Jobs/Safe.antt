-- ===== src/Streams/Writable/Jobs/Safe.antt =====
-- Runs of a writable stream: the calls of author code and the reactions together (writable/ of
-- crates/builtins/web-streams/src).
use starlingmonkey_ng.Prelude.{
  ℕ, ◌≡◌, refl, Bool, true, Option, none, some, List, [], ◌∷◌, arith, is_some, if_cases,
  option_cases_eq,
}
use starlingmonkey_ng.Streams.Float.{Float}
use starlingmonkey_ng.Streams.QueueWithSizes.{reset_queue}
use starlingmonkey_ng.Streams.Writable.{
  Stream, Promise, and_then, is_errored, close_queued_or_in_flight, has_operation_marked_in_flight,
}
use starlingmonkey_ng.Streams.Writable.Inv.{IsValid, Ok, Ok-and_then, Keeps}
use starlingmonkey_ng.Streams.Writable.Erroring.Ending.{
  IsEnded, reject_close_and_closed_promise_if_needed-IsEnded,
}
use starlingmonkey_ng.Streams.Writable.Controller.{
  get_backpressure, get_desired_size, update_backpressure,
}
use starlingmonkey_ng.Streams.Writable.Controller.Closed.{
  finish_in_flight_close-IsValid, finish_in_flight_close_with_error-IsValid,
}
use starlingmonkey_ng.Streams.Writable.Api.Locking.{
  Answers, get_writer-Answers, release_lock-IsValid,
}
use starlingmonkey_ng.Streams.Writable.Api.{Answer}
use starlingmonkey_ng.Streams.Writable.Api.Ends.{
  abort-Answers, writer_abort-Answers, close-Answers, writer_close-Answers,
}
use starlingmonkey_ng.Streams.Writable.Api.Writes.{write-Answers, error-IsValid}
use starlingmonkey_ng.Streams.Writable.Jobs.{
  Call, Calls, gets_writer, aborts, closes, writer_aborts, writer_closes, releases, writes, errors,
  none_left, then_calls, state_of, run_call, run_calls, Job, fulfils, rejects, script,
  start_settles, write_settles, close_settles, abort_settles, run_job, run_jobs,
  abort_promise_fulfilled, abort_promise_rejected, new, set_up,
}
use starlingmonkey_ng.Streams.Writable.Jobs.Reacting.{
  start_promise_fulfilled-IsValid, start_promise_rejected-IsValid, write_promise_fulfilled-IsValid,
  write_promise_rejected-IsValid,
}

module _ {F : Type 0} ⦃fl : Float F⦄ where
  state_of-IsValid : (a : Answer F) → Answers a → Ok IsValid (state_of a)
  state_of-IsValid none h = absurd h
  state_of-IsValid (some (s, r)) h = h

  mutual
    unfolding run_call run_calls

    run_call-IsValid : (c : Call F) → Keeps (run_call c)
    run_call-IsValid gets_writer s v = state_of-IsValid _ (get_writer-Answers s v)
    run_call-IsValid (aborts e listeners sink) s v =
        state_of-IsValid _
          (abort-Answers e _ _ s (run_calls-IsValid listeners) (run_calls-IsValid sink) v)
    run_call-IsValid (closes sink) s v =
        state_of-IsValid _ (close-Answers _ s (run_calls-IsValid sink) v)
    run_call-IsValid (writer_aborts w e listeners sink) s v =
        state_of-IsValid _
          (writer_abort-Answers w e _ _ s (run_calls-IsValid listeners) (run_calls-IsValid sink) v)
    run_call-IsValid (writer_closes w sink) s v =
        state_of-IsValid _ (writer_close-Answers w _ s (run_calls-IsValid sink) v)
    run_call-IsValid (releases w) s v = release_lock-IsValid w s v
    run_call-IsValid (writes w x sizing answer sink) s v =
        state_of-IsValid _
          (write-Answers w x _ answer _ s (run_calls-IsValid sizing) (run_calls-IsValid sink) v)
    run_call-IsValid (errors e sink) s v = error-IsValid e _ s (run_calls-IsValid sink) v

    pub run_calls-IsValid : (cs : Calls F) → Keeps (run_calls cs)
    run_calls-IsValid none_left s v = v
    run_calls-IsValid (then_calls c cs) s v =
        Ok-and_then IsValid (run_call c s) _ (run_call-IsValid c s v)
          (λ s' v'. run_calls-IsValid cs s' v')

  -- A stream that has an abort under way has errored.
  aborting-IsEnded :
      (ps : ℕ → Promise) (s : Stream F)
      → is_some s.abort_reaction ≡ true
      → IsValid s
      → IsEnded (record s { abort_reaction = none; promises = ps })
  unfolding has_operation_marked_in_flight
  aborting-IsEnded ps s a u =
      let v = u.coherent in
      let e : is_errored s.state ≡ true = v.abort_reacts a in
      record {
        state = ground arith;
        started = ground (arith, v.starts_open);
        no_write = ground (arith, v.in_flight_open);
        no_close = ground (arith, v.in_flight_open);
        no_abort = ground (arith, v.pending_abort);
        no_requests = (v.finished e).0;
        no_queue = (v.finished e).1;
        no_start_reaction = ground (arith, v.start_reacts, v.starts_open);
        no_write_reaction = ground (arith, v.write_reacts, v.in_flight_open);
        no_close_reaction = ground (arith, v.close_reacts, v.in_flight_open);
        owned = v.owned;
      }

  run_job-IsValid : (j : Job F) → Keeps (run_job j)
  unfolding run_job abort_promise_fulfilled abort_promise_rejected
  run_job-IsValid (script cs) s v = run_calls-IsValid cs s v
  run_job-IsValid (start_settles fulfils sink) s v =
      if_cases (Ok IsValid) s.start_reaction
        (λ h. start_promise_fulfilled-IsValid _ s (run_calls-IsValid sink) h v) (λ h. v)
  run_job-IsValid (start_settles (rejects e) sink) s v =
      if_cases (Ok IsValid) s.start_reaction
        (λ h. start_promise_rejected-IsValid _ e s (run_calls-IsValid sink) h v) (λ h. v)
  run_job-IsValid (write_settles fulfils sink) s v =
      if_cases (Ok IsValid) s.write_reaction
        (λ h. write_promise_fulfilled-IsValid _ s (run_calls-IsValid sink) h v) (λ h. v)
  run_job-IsValid (write_settles (rejects e) sink) s v =
      if_cases (Ok IsValid) s.write_reaction
        (λ h. write_promise_rejected-IsValid _ e s (run_calls-IsValid sink) h v) (λ h. v)
  run_job-IsValid (close_settles fulfils sink) s v =
      if_cases (Ok IsValid) s.close_reaction (λ h. finish_in_flight_close-IsValid s h v) (λ h. v)
  run_job-IsValid (close_settles (rejects e) sink) s v =
      if_cases (Ok IsValid) s.close_reaction
        (λ h. finish_in_flight_close_with_error-IsValid _ e s (run_calls-IsValid sink) h v) (λ h. v)
  run_job-IsValid (abort_settles fulfils) s v =
      option_cases_eq (Ok IsValid) s.abort_reaction (λ h. v)
        (λ p h.
          reject_close_and_closed_promise_if_needed-IsEnded _
            (aborting-IsEnded _ s (ground arith) v))
  run_job-IsValid (abort_settles (rejects e)) s v =
      option_cases_eq (Ok IsValid) s.abort_reaction (λ h. v)
        (λ p h.
          reject_close_and_closed_promise_if_needed-IsEnded _
            (aborting-IsEnded _ s (ground arith) v))

  run_jobs-IsValid : (js : List (Job F)) → Keeps (run_jobs js)
  unfolding run_jobs
  run_jobs-IsValid [] s v = v
  run_jobs-IsValid (j ∷ js) s v =
      Ok-and_then IsValid (run_job j s) _ (run_job-IsValid j s v)
        (λ s' v'. run_jobs-IsValid js s' v')

  pub set_up-IsValid :
      (hwm : F) (a b c d p : Bool)
      → p ≡ get_backpressure (set_up hwm a b c d)
      → IsValid (record (set_up hwm a b c d) { backpressure = p })
  unfolding set_up reset_queue has_operation_marked_in_flight close_queued_or_in_flight
      get_backpressure get_desired_size
  set_up-IsValid hwm a b c d p q = record {
    coherent = record {
      calm = λ h. refl;
      pending_abort = λ h. absurd (ground arith);
      one_in_flight = λ h. refl;
      started_first = λ h. absurd (ground arith);
      starts_open = λ h. refl;
      in_flight_open = λ h. refl;
      shape = λ h. refl;
      front = λ h. absurd (ground arith);
      closing = λ h. refl;
      finished = λ h. absurd (ground arith);
      start_reacts = λ h. refl;
      write_reacts = refl;
      close_reacts = refl;
      abort_reacts = λ h. absurd (ground arith);
      pressed = λ h i. q;
      owned = λ w h. absurd (ground arith);
    };
    erroring_waits = λ h i. absurd (ground arith);
  }

  new-IsValid :
      (hwm : F) (a b c d : Bool) (start : Calls F) → Ok IsValid (new hwm a b c d (run_calls start))
  unfolding new update_backpressure
  new-IsValid hwm a b c d start = run_calls-IsValid start _ (set_up-IsValid hwm a b c d _ refl)

  -- From the making of a stream, whichever algorithms the sink has and whatever its start algorithm
  -- calls, whatever methods author code then calls, at whatever depth, and however the sink's promises
  -- settle and when: no debug assertion fails, nothing panics, and the stream that is left satisfies
  -- the invariant.
  pub run_jobs_safe :
      (hwm : F) (a b c d : Bool) (start : Calls F) (js : List (Job F))
      → (s : Stream F) × (and_then (new hwm a b c d (run_calls start)) (run_jobs js) ≡ some s)
        × IsValid s
  run_jobs_safe hwm a b c d start js = witness _ (
      Ok-and_then IsValid (new hwm a b c d (run_calls start)) (run_jobs js)
        (new-IsValid hwm a b c d start) (run_jobs-IsValid js))
    where
      witness : (o : Option (Stream F)) → Ok IsValid o → (s : Stream F) × (o ≡ some s) × IsValid s
      witness none h = absurd h
      witness (some s) h = (s, refl, h)
