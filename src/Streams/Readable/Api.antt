-- ===== src/Streams/Readable/Api.antt =====
-- The methods of `ReadableStream`, `DefaultReader` and the default controller that author code may
-- call: readable_stream.rs, default_reader.rs and default_controller.rs of readable/, with what they
-- use of readable/algorithms.rs.
pub mod Kept
pub mod Ends
use starlingmonkey_ng.Prelude.{
  ℕ, ◌+◌, Bool, true, false, not, ◌&&◌, Option, none, some, List, [], ◌∷◌, if◌then◌else◌,
}
use starlingmonkey_ng.Streams.Float.{Float}
use starlingmonkey_ng.Streams.QueueWithSizes.{Value, type_error, Throws, ok, err}
use starlingmonkey_ng.Streams.Writable.{and_then}
use starlingmonkey_ng.Streams.Readable.{
  ReadableStream, Reader, ReadPromiseState, readable, closed, errored, unresolved, resolved,
  resolved_chunk, rejected, is_readable, is_locked, add_promise, resolve_with, set_reader,
  close_steps, error_steps, stream_close, error_read_requests,
}
use starlingmonkey_ng.Streams.Readable.Controller.{
  can_close_or_enqueue, get_desired_size, controller_error, controller_close, controller_enqueue,
  pull_steps, cancel_steps,
}

-- A method's answer: the promise or reader that it returns, or what it throws.
abbrev pub Answer : Type 0 → Type 0
Answer F = Option (ReadableStream F × Throws ℕ)

module _ {F : Type 0} where
  -- The closed promise of a new reader.
  unfoldable pub closed_promise_state : ReadableStream F → ReadPromiseState
  closed_promise_state s = elim s.state [
    | readable ↦ unresolved
    | closed ↦ resolved
    | errored ↦ rejected s.stored_error
  ]

  -- `set_up_readable_stream_default_reader` for a new reader.
  unfoldable pub get_reader : ReadableStream F → Answer F
  unfolding is_locked closed_promise_state
  get_reader s =
      let reader : Reader = record {
        read_requests = [];
        closed_promise = s.next_promise;
        stream = true;
      } in
      let s1 = add_promise false (closed_promise_state s) s in
      let s2 = set_reader s.next_reader reader s1 in
      if is_locked s
      then some (s, err type_error)
      else some (
        record s2 { reader = some s.next_reader; next_reader = s.next_reader + 1 },
        ok s.next_reader,
      )

  -- `readable_stream_reader_generic_release`
  unfoldable pub generic_release : ℕ → ReadableStream F → ReadableStream F
  generic_release r s =
      let rejects = resolve_with (rejected type_error) (s.readers r).closed_promise s in
      let replaces =
        set_reader r (record (s.readers r) { closed_promise = s.next_promise })
          (add_promise false (rejected type_error) s) in
      let s1 = (if is_readable s.state then rejects else replaces) in
      set_reader r (record (s1.readers r) { stream = false }) (record s1 { reader = none })

  unfoldable pub release_lock : ℕ → ReadableStream F → ReadableStream F
  unfolding generic_release error_read_requests
  release_lock r s =
      if (s.readers r).stream then error_read_requests r type_error (generic_release r s) else s

  module _ ⦃fl : Float F⦄ where
    unfoldable pub default_reader_read :
        (ℕ → ReadableStream F → Option (ReadableStream F))
        → (ReadableStream F → Option (ReadableStream F))
        → ℕ
        → ReadableStream F
        → Option (ReadableStream F)
    unfolding close_steps error_steps pull_steps
    default_reader_read thens pull p s =
        let s1 = record s { disturbed = true } in
        elim s.state [
          | closed ↦ close_steps thens p s1
          | errored ↦ some (error_steps s.stored_error p s1)
          | readable ↦ pull_steps thens pull p s1
        ]

    unfoldable pub read :
        (ℕ → ReadableStream F → Option (ReadableStream F))
        → (ReadableStream F → Option (ReadableStream F))
        → ℕ
        → ReadableStream F
        → Answer F
    unfolding default_reader_read
    read thens pull r s =
        let reads =
          and_then (default_reader_read thens pull s.next_promise (add_promise true unresolved s))
            (λ s'. some (s', ok s.next_promise)) in
        if (s.readers r).stream then reads else some (s, err type_error)

    -- The end of `readable_stream_cancel`: the promise that reacts to the one of the cancel algorithm.
    unfoldable pub cancel_readable :
        (ℕ → ReadableStream F → Option (ReadableStream F))
        → (ReadableStream F → Option (ReadableStream F))
        → ReadableStream F
        → Answer F
    unfolding stream_close cancel_steps
    cancel_readable thens cancel s = and_then (stream_close thens s) λ s1.
        and_then (cancel_steps cancel s1) λ s2. some (
          record (add_promise false unresolved s2) { cancel_reaction = some s2.next_promise },
          ok s2.next_promise,
        )

    unfoldable pub stream_cancel :
        (ℕ → ReadableStream F → Option (ReadableStream F))
        → (ReadableStream F → Option (ReadableStream F))
        → ReadableStream F
        → Answer F
    unfolding cancel_readable
    stream_cancel thens cancel s =
        let s1 = record s { disturbed = true } in
        elim s.state [
          | closed ↦ some (add_promise false resolved s1, ok s.next_promise)
          | errored ↦ some (add_promise false (rejected s.stored_error) s1, ok s.next_promise)
          | readable ↦ cancel_readable thens cancel s1
        ]

    -- `ReadableStream::cancel` and `DefaultReader::cancel`
    unfoldable pub cancel :
        (ℕ → ReadableStream F → Option (ReadableStream F))
        → (ReadableStream F → Option (ReadableStream F))
        → ReadableStream F
        → Answer F
    unfolding is_locked stream_cancel
    cancel thens author s =
        let cancels = stream_cancel thens author s in
        if is_locked s then some (s, err type_error) else cancels

    unfoldable pub reader_cancel :
        (ℕ → ReadableStream F → Option (ReadableStream F))
        → (ReadableStream F → Option (ReadableStream F))
        → ℕ
        → ReadableStream F
        → Answer F
    unfolding stream_cancel
    reader_cancel thens author r s =
        let cancels = stream_cancel thens author s in
        if (s.readers r).stream then cancels else some (s, err type_error)

    -- `ReadableStreamDefaultController`: `close`, `enqueue` and `error`; the answer is what is thrown.
    unfoldable pub close :
        (ℕ → ReadableStream F → Option (ReadableStream F))
        → ReadableStream F
        → Option (ReadableStream F × Option Value)
    unfolding can_close_or_enqueue controller_close
    close thens s =
        let closes = and_then (controller_close thens s) (λ s'. some (s', none)) in
        if not (can_close_or_enqueue s) then some (s, some type_error) else closes

    unfoldable pub enqueue :
        (ℕ → ReadableStream F → Option (ReadableStream F))
        → (ReadableStream F → Option (ReadableStream F))
        → Throws F
        → (ReadableStream F → Option (ReadableStream F))
        → Value
        → ReadableStream F
        → Option (ReadableStream F × Option Value)
    unfolding can_close_or_enqueue controller_enqueue
    enqueue thens sizing answer pull v s =
        let enqueues = controller_enqueue thens sizing answer pull v s in
        if not (can_close_or_enqueue s) then some (s, some type_error) else enqueues

    unfoldable pub error : Value → ReadableStream F → Option (ReadableStream F)
    unfolding controller_error
    error e s = controller_error e s
