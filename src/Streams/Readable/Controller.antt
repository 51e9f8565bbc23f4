-- ===== src/Streams/Readable/Controller.antt =====
-- The default controller of a readable stream: readable/algorithms.rs.
pub mod Kept
pub mod Reading
use starlingmonkey_ng.Prelude.{
  ℕ, ◌+◌, Bool, true, false, not, ◌&&◌, ◌||◌, Option, none, some, List, [], ◌∷◌, ◌++◌,
  if◌then◌else◌, is_some,
}
use starlingmonkey_ng.Streams.Float.{Float}
use starlingmonkey_ng.Streams.QueueWithSizes.{
  Value, undefined, ValueWithSize, QueueWithSizes, chunk, close_sentinel, dequeue_value,
  enqueue_value_with_size, reset_queue, ok, err, Throws,
}
use starlingmonkey_ng.Streams.Writable.{and_then}
use starlingmonkey_ng.Streams.Readable.{
  ReadableStream, readable, closed, errored, is_readable, is_locked, chunk_steps, stream_close,
  stream_error, add_read_request, fulfill_read_request,
}

abbrev pub has_any : {A : Type 0} → List A → Bool
has_any [] = false
has_any (x ∷ xs) = true

abbrev pub value_of : {F : Type 0} → ValueWithSize F → Value
value_of (chunk v n) = v
value_of close_sentinel = undefined

module _ {F : Type 0} where
  unfoldable pub clear_algorithms : ReadableStream F → ReadableStream F
  clear_algorithms s = record s {
    pull_algorithm = false;
    cancel_algorithm = false;
    strategy_size_algorithm = false;
  }

  unfoldable pub can_close_or_enqueue : ReadableStream F → Bool
  can_close_or_enqueue s = not s.close_requested && is_readable s.state

  -- Whether the reader has read requests; the stream is locked.
  unfoldable pub has_read_requests : ReadableStream F → Bool
  has_read_requests s = elim s.reader [
    | none ↦ false
    | some r ↦ has_any (s.readers r).read_requests
  ]

  module _ ⦃fl : Float F⦄ where
    unfoldable pub get_desired_size : ReadableStream F → Option F
    get_desired_size s = elim s.state [
      | errored ↦ none
      | closed ↦ some fl.zero
      | readable ↦ some (fl.sub s.strategy_hwm s.container.queue_total_size)
    ]

    -- `none` is the panic of `expect`.
    unfoldable pub should_call_pull : ReadableStream F → Option Bool
    unfolding can_close_or_enqueue has_read_requests is_locked get_desired_size
    should_call_pull s =
        if not (can_close_or_enqueue s)
        then some false
        else if not s.started
        then some false
        else if is_locked s && has_read_requests s
        then some true
        else elim (get_desired_size s) [ none ↦ none | some d ↦ some (fl.lt fl.zero d) ]

    -- `invoke_promise_algorithm` of the pull algorithm: `pull` is what author code does, if it is set.
    unfoldable pub pulls :
        (ReadableStream F → Option (ReadableStream F))
        → ReadableStream F
        → Option (ReadableStream F)
    pulls pull s = if s.pull_algorithm then pull s else some s

    -- The reactions to the promise of the pull algorithm are recorded before the algorithm runs: they
    -- run in a later job.
    unfoldable pub call_pull_if_needed :
        (ReadableStream F → Option (ReadableStream F))
        → ReadableStream F
        → Option (ReadableStream F)
    unfolding should_call_pull pulls
    call_pull_if_needed pull s =
        let starts = pulls pull (record s { pulling = true; pull_reaction = true }) in
        and_then (should_call_pull s) λ should_pull.
          if not should_pull
          then some s
          else if s.pulling
          then some (record s { pull_again = true })
          else if s.pull_again
          then none
          else starts

    unfoldable pub controller_error : Value → ReadableStream F → Option (ReadableStream F)
    unfolding clear_algorithms stream_error reset_queue
    controller_error e s =
        let errors = stream_error e (clear_algorithms (record s { container = reset_queue })) in
        if is_readable s.state then errors else some s

    unfoldable pub controller_close :
        (ℕ → ReadableStream F → Option (ReadableStream F))
        → ReadableStream F
        → Option (ReadableStream F)
    unfolding can_close_or_enqueue clear_algorithms stream_close
    controller_close thens s =
        let s1 = record s { close_requested = true } in
        let closes = stream_close thens (clear_algorithms s1) in
        if not (can_close_or_enqueue s)
        then some s
        else if has_any s1.container.queue
        then some s1
        else closes

    -- The end of `enqueue`: an error of the size algorithm or of the queue errors the stream, and is
    -- thrown.
    unfoldable pub enqueue_sized :
        (ReadableStream F → Option (ReadableStream F))
        → Value
        → Throws F
        → ReadableStream F
        → Option (ReadableStream F × Option Value)
    unfolding controller_error enqueue_value_with_size call_pull_if_needed
    enqueue_sized pull v (err e) s = and_then (controller_error e s) (λ s'. some (s', some e))
    enqueue_sized pull v (ok n) s = elim (enqueue_value_with_size v n s.container) [
      | err e ↦ and_then (controller_error e s) (λ s'. some (s', some e))
      | ok c ↦
          and_then (call_pull_if_needed pull (record s { container = c })) (λ s'. some (s', none))
    ]

    -- The answer is what is thrown, if anything is. `sizing` is what the size algorithm does to the
    -- stream, and `answer` the number that it returns or the value that it throws.
    unfoldable pub controller_enqueue :
        (ℕ → ReadableStream F → Option (ReadableStream F))
        → (ReadableStream F → Option (ReadableStream F))
        → Throws F
        → (ReadableStream F → Option (ReadableStream F))
        → Value
        → ReadableStream F
        → Option (ReadableStream F × Option Value)
    unfolding can_close_or_enqueue has_read_requests is_locked fulfill_read_request
        call_pull_if_needed enqueue_sized
    controller_enqueue thens sizing answer pull v s =
        let fulfills =
          and_then (fulfill_read_request thens v s)
            (λ s1. and_then (call_pull_if_needed pull s1) (λ s2. some (s2, none))) in
        let sizes = and_then (if s.strategy_size_algorithm then sizing s else some s) (λ s1.
          enqueue_sized pull v (if s.strategy_size_algorithm then answer else ok fl.one) s1) in
        if not (can_close_or_enqueue s)
        then some (s, none)
        else if is_locked s && has_read_requests s
        then fulfills
        else sizes

    -- `dequeue_value`, with the value.
    unfoldable pub dequeue : ReadableStream F → Option (Value × ReadableStream F)
    unfolding dequeue_value
    dequeue s = elim s.container.queue [
      | [] ↦ none
      | v ∷ vs ↦
          and_then (dequeue_value s.container) (λ c. some (value_of v, record s { container = c }))
    ]

    -- The steps of `pull_steps` between the chunk that it takes and the chunk steps.
    unfoldable pub after_dequeue :
        (ℕ → ReadableStream F → Option (ReadableStream F))
        → (ReadableStream F → Option (ReadableStream F))
        → ReadableStream F
        → Option (ReadableStream F)
    unfolding clear_algorithms stream_close call_pull_if_needed
    after_dequeue thens pull s =
        let closes = stream_close thens (clear_algorithms s) in
        let goes_on = call_pull_if_needed pull s in
        if s.close_requested && not (has_any s.container.queue) then closes else goes_on

    unfoldable pub pull_steps :
        (ℕ → ReadableStream F → Option (ReadableStream F))
        → (ReadableStream F → Option (ReadableStream F))
        → ℕ
        → ReadableStream F
        → Option (ReadableStream F)
    unfolding dequeue after_dequeue chunk_steps add_read_request call_pull_if_needed
    pull_steps thens pull p s =
        let takes = and_then (dequeue s) λ taken.
          and_then (after_dequeue thens pull taken.1) (λ s'. chunk_steps thens taken.0 p s') in
        let waits = and_then (add_read_request p s) (λ s'. call_pull_if_needed pull s') in
        if has_any s.container.queue then takes else waits

    -- `cancel` is what the cancel algorithm does, if it is set.
    unfoldable pub cancel_steps :
        (ReadableStream F → Option (ReadableStream F))
        → ReadableStream F
        → Option (ReadableStream F)
    unfolding clear_algorithms reset_queue
    cancel_steps cancel s =
        let s1 = record s { container = reset_queue } in
        and_then (if s1.cancel_algorithm then cancel s1 else some s1)
          (λ s2. some (clear_algorithms s2))
