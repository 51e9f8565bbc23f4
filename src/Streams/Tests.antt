-- ===== src/Streams/Tests.antt =====
-- Writable streams on concrete inputs, with natural numbers for `f64`.
mod Readable
use starlingmonkey_ng.Prelude.{
  ℕ, ◌+◌, ◌-◌, ◌≡◌, refl, true, false, some, List, [], ◌∷◌, ltb, leb, ◌==◌,
}
use starlingmonkey_ng.Streams.Float.{Float}
use starlingmonkey_ng.Streams.QueueWithSizes.{Value, value, ok, reset_queue}
use starlingmonkey_ng.Streams.Writable.{
  Stream, errored, rejected, and_then, is_locked, add_promise, close_queued_or_in_flight,
}
use starlingmonkey_ng.Streams.Writable.Inv.{IsValid}
use starlingmonkey_ng.Streams.Writable.Controller.{get_backpressure, get_desired_size}
use starlingmonkey_ng.Streams.Writable.Api.{
  set_up_default_writer, get_writer, write, close_with_error_propagation,
}
use starlingmonkey_ng.Streams.Writable.Api.Locking.{Answers, get_writer-Answers}
use starlingmonkey_ng.Streams.Writable.Api.Ends.{close_with_error_propagation-Answers}
use starlingmonkey_ng.Streams.Writable.Api.Refusals.{write_refused}
use starlingmonkey_ng.Streams.Writable.Jobs.{
  gets_writer, writes, writer_closes, errors, none_left, then_calls, run_calls, set_up, Job,
  fulfils, rejects, script, start_settles, write_settles, run_jobs, new,
}
use starlingmonkey_ng.Streams.Writable.Jobs.Safe.{run_jobs_safe, run_calls-IsValid, set_up-IsValid}

-- The number `n` stands for `n - 100`, so that differences may be negative.
instance abbrev number : Float ℕ
number = record {
  zero = 100;
  one = 101;
  infinity = 1000;
  add = λ a b. a + b - 100;
  sub = λ a b. a + 100 - b;
  lt = ltb;
  le = leb;
  eq = λ a b. a == b;
  is_nan = λ a. false;
}

-- Two chunks are written and the stream is closed; the second write fails, which its sink answers
-- by an error of the controller.
abbrev jobs : List (Job ℕ)
jobs =
    script (
      then_calls gets_writer (
        then_calls (writes 0 (value 1) none_left (ok 101) none_left) (
          then_calls (writes 0 (value 2) none_left (ok 102) none_left)
            (then_calls (writer_closes 0 none_left) none_left))))
    ∷ start_settles fulfils none_left
    ∷ write_settles fulfils (then_calls (errors (value 9) none_left) none_left)
    ∷ write_settles (rejects (value 7)) none_left
    ∷ []

run_jobs_example :
    (s : Stream ℕ) × (and_then (new 103 true true true true (run_calls none_left)) (run_jobs jobs)
      ≡ some s)
    × IsValid s
run_jobs_example = run_jobs_safe 103 true true true true none_left jobs

-- A stream of high water mark 3 that nothing has been written to, and the same with a writer.
abbrev fresh : Stream ℕ
fresh = record (set_up 103 false true true true) { backpressure = false }

fresh-IsValid : IsValid fresh
unfolding get_backpressure get_desired_size set_up reset_queue
fresh-IsValid = set_up-IsValid 103 false true true true false refl

abbrev locked : Stream ℕ
locked = set_up_default_writer fresh

locked-IsValid : IsValid locked
unfolding get_writer is_locked set_up
locked-IsValid = get_writer-Answers fresh fresh-IsValid

-- The same, once it has errored.
abbrev broken : Stream ℕ
broken = record locked { state = errored; stored_error = value 5 }

write_refused_example :
    (e : Value) × (write 0 (value 1) some (ok 101) some broken
      ≡ some (add_promise (rejected e) broken, ok broken.next_promise))
unfolding set_up_default_writer set_up close_queued_or_in_flight
write_refused_example = write_refused 0 (value 1) some (ok 101) some broken refl refl refl

close_with_error_propagation_example :
    Answers (close_with_error_propagation 0 (run_calls none_left) locked)
unfolding set_up_default_writer set_up
close_with_error_propagation_example =
    close_with_error_propagation-Answers 0 (run_calls none_left) locked
      (run_calls-IsValid none_left) refl locked-IsValid
