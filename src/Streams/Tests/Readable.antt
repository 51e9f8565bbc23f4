-- ===== src/Streams/Tests/Readable.antt =====
-- Readable streams on a concrete run.
use starlingmonkey_ng.Prelude.{ℕ, ◌≡◌, refl, true, false, none, some, List, [], ◌∷◌, arith}
use starlingmonkey_ng.Streams.QueueWithSizes.{Value, value, ok, is_non_negative_number}
use starlingmonkey_ng.Streams.Writable.{and_then}
use starlingmonkey_ng.Streams.Writable.Jobs.{fulfils}
use starlingmonkey_ng.Streams.Tests.{number}
use starlingmonkey_ng.Streams.Readable.{ReadableStream, resolved_chunk}
use starlingmonkey_ng.Streams.Readable.Inv.{IsValid, is_unresolved_read}
use starlingmonkey_ng.Streams.Readable.Jobs.{
  gets_reader, reads, enqueues, none_left, then_calls, Calls, run_calls, new, set_up, Job, script,
  start_settles, pull_settles, run_jobs,
}
use starlingmonkey_ng.Streams.Readable.Channel.{Carries}
use starlingmonkey_ng.Streams.Readable.Channel.Putting.{Fits}
use starlingmonkey_ng.Streams.Readable.Channel.Order.{
  Use, put, take, uses, states, chunks_put, read_promises, in_order, reads_in_order,
}
use starlingmonkey_ng.Streams.Readable.Jobs.Safe.{run_jobs_safe_readable}

abbrev quiet : ℕ → Calls ℕ
quiet p = none_left

-- A reader reads twice, the source enqueues one chunk when it is pulled, and its promise fulfils.
abbrev jobs : List (Job ℕ)
jobs =
    script (
      then_calls gets_reader
        (then_calls (reads quiet none_left 0) (then_calls (reads quiet none_left 0) none_left)))
    ∷ start_settles fulfils
        (then_calls (enqueues quiet none_left (ok 101) none_left (value 7)) none_left)
    ∷ pull_settles fulfils none_left
    ∷ []

run_jobs_safe_readable_example :
    (s : ReadableStream ℕ) × (and_then
        (new 101 false true true (run_calls none_left))
        (run_jobs jobs)
      ≡ some s)
    × IsValid [] s
run_jobs_safe_readable_example = run_jobs_safe_readable 101 false true true none_left jobs

-- The stream that it leaves.
abbrev left : ReadableStream ℕ
left = elim (and_then (new 101 false true true (run_calls none_left)) (run_jobs jobs)) [
  | none ↦ set_up 101 false true true
  | some s ↦ s
]

ran : and_then (new 101 false true true (run_calls none_left)) (run_jobs jobs) ≡ some left
unfolding new run_calls run_jobs
ran = refl

-- The first read was resolved with the chunk, and the second was not.
first_read : (left.promises 1).state ≡ resolved_chunk (value 7)
unfolding new run_calls run_jobs
first_read = refl

second_read : is_unresolved_read 2 left ≡ true
unfolding new run_calls run_jobs
second_read = refl

abbrev started : List (Job ℕ)
started = script (then_calls gets_reader none_left) ∷ start_settles fulfils none_left ∷ []

-- A started stream with a reader.
abbrev with_reader : ReadableStream ℕ
with_reader = elim (and_then (new 101 true true false (run_calls none_left)) (run_jobs started)) [
  | none ↦ set_up 101 true true false
  | some s ↦ s
]

with_reader-Carries : Carries 0 [] [] with_reader
unfolding new run_calls run_jobs
with_reader-Carries = record {
  opened = refl;
  locked = refl;
  owned = refl;
  accepts = refl;
  again = λ h. absurd (ground arith);
  holds = refl;
  asked = refl;
  ascending = omega arith;
  unanswered = tt;
}

abbrev sizes : Value → ℕ
sizes v = 103

sizes-Fits : (v : Value) → Fits (sizes v)
unfolding is_non_negative_number
sizes-Fits v = (refl, refl)

one-Fits : Fits number.one
unfolding is_non_negative_number
one-Fits = (refl, refl)

abbrev two_chunks : List Use
two_chunks = take ∷ put (value 7) ∷ put (value 8) ∷ take ∷ take ∷ []

reads_in_order_example :
    (t : ReadableStream ℕ) × (run_calls (uses 0 sizes two_chunks) with_reader ≡ some t)
    × (states t (read_promises with_reader.next_promise two_chunks)
        ≡ in_order (chunks_put two_chunks) (read_promises with_reader.next_promise two_chunks))
reads_in_order_example =
    reads_in_order 0 sizes sizes-Fits one-Fits two_chunks with_reader with_reader-Carries
