-- ===== src/Streams/Readable/Jobs/Safe.antt =====
-- Any run of a readable stream, from its making: readable/algorithms.rs and the methods that author
-- code calls.
use starlingmonkey_ng.Prelude.{
  ℕ, ◌≡◌, refl, Bool, true, false, ◌||◌, Option, none, some, List, [], ◌∷◌, arith, if_cases,
  option_cases_eq,
}
use starlingmonkey_ng.Streams.Float.{Float}
use starlingmonkey_ng.Streams.QueueWithSizes.{reset_queue}
use starlingmonkey_ng.Streams.Writable.{and_then}
use starlingmonkey_ng.Streams.Writable.Inv.{Ok, Ok-and_then}
use starlingmonkey_ng.Streams.Writable.Jobs.{fulfils, rejects}
use starlingmonkey_ng.Streams.Readable.{
  ReadableStream, ReadPromiseState, resolved, rejected, resolve_with,
}
use starlingmonkey_ng.Streams.Readable.Inv.{IsValid, Answers, Keeps}
use starlingmonkey_ng.Streams.Readable.Controller.Kept.{
  call_pull_if_needed-IsValid, controller_error-IsValid,
}
use starlingmonkey_ng.Streams.Readable.Api.Kept.{
  get_reader-Answers, release_lock-IsValid, read-Answers,
}
use starlingmonkey_ng.Streams.Readable.Api.Ends.{
  cancel-Answers, reader_cancel-Answers, close-Answers, enqueue-Answers, error-IsValid,
}
use starlingmonkey_ng.Streams.Readable.Jobs.{
  Call, gets_reader, reads, releases, cancels, reader_cancels, closes, enqueues, errors, Calls,
  none_left, then_calls, after, run_call, run_calls, set_up, new, start_promise_fulfilled,
  pull_promise_fulfilled, Job, script, start_settles, pull_settles, cancel_settles, run_job,
  run_jobs,
}

after-IsValid :
    {F A : Type 0} (held : List ℕ) (o : Option (ReadableStream F × A))
    → Answers held o
    → Ok (IsValid held) (after o)
after-IsValid held none h = absurd h
after-IsValid held (some a) h = h

module _ {F : Type 0} ⦃fl : Float F⦄ where
  mutual
    unfolding run_call run_calls

    run_call-IsValid : (c : Call F) → Keeps (run_call c)
    run_call-IsValid gets_reader h s v = after-IsValid h _ (get_reader-Answers h s v)
    run_call-IsValid (reads thens pull r) h s v =
        after-IsValid h _
          (read-Answers _ _ r h s (λ p. run_calls-IsValid (thens p)) (run_calls-IsValid pull) v)
    run_call-IsValid (releases r) h s v = release_lock-IsValid r h s v
    run_call-IsValid (cancels thens author) h s v =
        after-IsValid h _
          (cancel-Answers _ _ h s (λ p. run_calls-IsValid (thens p)) (run_calls-IsValid author) v)
    run_call-IsValid (reader_cancels thens author r) h s v = after-IsValid h _ (
        reader_cancel-Answers _ _ r h s (λ p. run_calls-IsValid (thens p))
          (run_calls-IsValid author) v)
    run_call-IsValid (closes thens) h s v =
        after-IsValid h _ (close-Answers _ h s (λ p. run_calls-IsValid (thens p)) v)
    run_call-IsValid (enqueues thens sizing answer pull x) h s v = after-IsValid h _ (
        enqueue-Answers _ _ answer _ x h s (λ p. run_calls-IsValid (thens p))
          (run_calls-IsValid sizing) (run_calls-IsValid pull) v)
    run_call-IsValid (errors e) h s v = error-IsValid e h s v

    pub run_calls-IsValid : (cs : Calls F) → Keeps (run_calls cs)
    run_calls-IsValid none_left h s v = v
    run_calls-IsValid (then_calls c cs) h s v =
        Ok-and_then (IsValid h) (run_call c s) _ (run_call-IsValid c h s v)
          (λ s' v'. run_calls-IsValid cs h s' v')

  -- The reaction to the start promise is taken, and the controller has started.
  start_taken-IsValid :
      (held : List ℕ) (s : ReadableStream F) (b : Bool)
      → (s.started ≡ true → b ≡ true)
      → IsValid held s
      → IsValid held (record s { start_reaction = false; started = b })
  start_taken-IsValid held s b h v = record {
    again = v.again;
    pulls = λ on. h (v.pulls on);
    start_reacts = λ off. absurd (ground arith);
    pull_reacts = v.pull_reacts;
    owned = v.owned;
    idle = v.idle;
    accounted = v.accounted;
  }

  -- The reaction to the pull promise is taken, and the controller may pull anew.
  pull_taken-IsValid :
      (held : List ℕ) (s : ReadableStream F) (again : Bool)
      → again ≡ false
      → IsValid held s
      → IsValid held (record s { pull_reaction = false; pulling = false; pull_again = again })
  pull_taken-IsValid held s again off v = record {
    again = λ h. absurd (ground arith);
    pulls = λ h. absurd (ground arith);
    start_reacts = v.start_reacts;
    pull_reacts = λ h. absurd (ground arith);
    owned = v.owned;
    idle = v.idle;
    accounted = v.accounted;
  }

  pull_failed-IsValid :
      (held : List ℕ) (s : ReadableStream F)
      → IsValid held s
      → IsValid held (record s { pull_reaction = false })
  pull_failed-IsValid held s v = record {
    again = v.again;
    pulls = v.pulls;
    start_reacts = v.start_reacts;
    pull_reacts = λ h. absurd (ground arith);
    owned = v.owned;
    idle = v.idle;
    accounted = v.accounted;
  }

  -- The promise that `cancel` returned is settled.
  cancelled-IsValid :
      (to : ReadPromiseState) (p : ℕ) (held : List ℕ) (s : ReadableStream F)
      → IsValid held s
      → IsValid held (resolve_with to p (record s { cancel_reaction = none }))
  cancelled-IsValid to p held s v = record {
    again = v.again;
    pulls = v.pulls;
    start_reacts = v.start_reacts;
    pull_reacts = v.pull_reacts;
    owned = v.owned;
    idle = v.idle;
    accounted = λ q. ground (arith, v.accounted q);
  }

  run_job-IsValid : (j : Job F) → Keeps (run_job j)
  unfolding run_job start_promise_fulfilled pull_promise_fulfilled
  run_job-IsValid (script cs) h s v = run_calls-IsValid cs h s v
  run_job-IsValid (start_settles fulfils pull) h s v =
      if_cases (Ok (IsValid h)) s.start_reaction
        (λ on.
          if_cases (Ok (IsValid h)) (s.pulling || s.pull_again)
            (λ busy. absurd (ground (arith, v.start_reacts, v.again, v.pulls)))
            (λ _.
              call_pull_if_needed-IsValid _ h _ (run_calls-IsValid pull)
                (start_taken-IsValid h s true (λ _. refl) v)))
        (λ _. v)
  run_job-IsValid (start_settles (rejects e) pull) h s v =
      if_cases (Ok (IsValid h)) s.start_reaction
        (λ on. controller_error-IsValid e h _ (start_taken-IsValid h s s.started (λ w. w) v))
        (λ _. v)
  run_job-IsValid (pull_settles fulfils pull) h s v =
      if_cases (Ok (IsValid h)) s.pull_reaction
        (λ on.
          if_cases (Ok (IsValid h)) s.pull_again
            (λ _.
              call_pull_if_needed-IsValid _ h _ (run_calls-IsValid pull)
                (pull_taken-IsValid h s false refl v))
            (λ off. pull_taken-IsValid h s s.pull_again off v))
        (λ _. v)
  run_job-IsValid (pull_settles (rejects e) pull) h s v =
      if_cases (Ok (IsValid h)) s.pull_reaction
        (λ on. controller_error-IsValid e h _ (pull_failed-IsValid h s v)) (λ _. v)
  run_job-IsValid (cancel_settles fulfils) h s v =
      option_cases_eq (Ok (IsValid h)) s.cancel_reaction (λ _. v)
        (λ p _. cancelled-IsValid resolved p h s v)
  run_job-IsValid (cancel_settles (rejects e)) h s v =
      option_cases_eq (Ok (IsValid h)) s.cancel_reaction (λ _. v)
        (λ p _. cancelled-IsValid (rejected e) p h s v)

  run_jobs-IsValid : (js : List (Job F)) → Keeps (run_jobs js)
  unfolding run_jobs
  run_jobs-IsValid [] h s v = v
  run_jobs-IsValid (j ∷ js) h s v =
      Ok-and_then (IsValid h) (run_job j s) _ (run_job-IsValid j h s v)
        (λ s' v'. run_jobs-IsValid js h s' v')

  set_up-IsValid : (hwm : F) (a b c : Bool) → IsValid [] (set_up hwm a b c)
  unfolding set_up reset_queue
  set_up-IsValid hwm a b c = record {
    again = λ h. absurd (ground arith);
    pulls = λ h. absurd (ground arith);
    start_reacts = λ h. refl;
    pull_reacts = λ h. absurd (ground arith);
    owned = λ r h. absurd (ground arith);
    idle = λ h. refl;
    accounted = λ p h. absurd (ground arith);
  }

  new-IsValid :
      (hwm : F) (a b c : Bool) (start : Calls F) → Ok (IsValid []) (new hwm a b c (run_calls start))
  unfolding new
  new-IsValid hwm a b c start = run_calls-IsValid start [] _ (set_up-IsValid hwm a b c)

  -- From the making of a stream with a default controller, whichever algorithms the source has and
  -- whatever its start algorithm calls, whatever methods author code then calls, at whatever depth,
  -- and however the source's promises settle and when: no debug assertion fails, nothing panics, and
  -- the stream that is left satisfies the invariant.
  pub run_jobs_safe_readable :
      (hwm : F) (a b c : Bool) (start : Calls F) (js : List (Job F))
      → (s : ReadableStream F) × (and_then (new hwm a b c (run_calls start)) (run_jobs js) ≡ some s)
        × IsValid [] s
  run_jobs_safe_readable hwm a b c start js = witness _ (
      Ok-and_then (IsValid []) (new hwm a b c (run_calls start)) (run_jobs js)
        (new-IsValid hwm a b c start) (run_jobs-IsValid js []))
    where
      witness :
          (o : Option (ReadableStream F))
          → Ok (IsValid []) o
          → (s : ReadableStream F) × (o ≡ some s) × IsValid [] s
      witness none h = absurd h
      witness (some s) h = (s, refl, h)
