-- ===== src/Streams/Readable.antt =====
-- `ReadableStream` with a default controller, and its default readers (readable/ of
-- crates/builtins/web-streams/src): the state of one stream, with every reader made for it and every
-- promise that its code makes. A read request is that of a `read()` call. `none` is a panic: a debug
-- assertion that fails, or an `expect`.
pub mod Controller
pub mod Api
pub mod Jobs
pub mod Inv
pub mod Channel
use starlingmonkey_ng.Prelude.{
  ℕ, ◌+◌, Bool, true, false, not, ◌&&◌, ◌||◌, Option, none, some, List, [], ◌∷◌, ◌++◌,
  if◌then◌else◌, ◌==◌, is_some,
}
use starlingmonkey_ng.Streams.QueueWithSizes.{Value, QueueWithSizes}
use starlingmonkey_ng.Streams.Writable.{and_then}

pub data ReadableStreamState : Type 0 where
  readable closed errored : ReadableStreamState

-- What the code resolved or rejected a promise with, first: a read with `{ value: chunk, done: false }`
-- or `{ value: undefined, done: true }`. Whether the promise is then fulfilled is the engine's: it
-- looks up `then` of that object, and a `then` that author code installed on `Object.prototype` may
-- leave the promise pending, or reject it.
pub data ReadPromiseState : Type 0 where
  unresolved resolved resolved_done : ReadPromiseState
  resolved_chunk : Value → ReadPromiseState
  rejected : Value → ReadPromiseState

-- Whether it was made by `read()`, and what it was resolved or rejected with.
pub record ReadPromise : Type 0 where
  pub is_read : Bool
  pub state : ReadPromiseState

-- `DefaultReader`. Whether its `stream` is set: it is the one stream.
pub record Reader : Type 0 where
  pub read_requests : List ℕ
  pub closed_promise : ℕ
  pub stream : Bool

-- The fields of the stream, then the controller's, then the reactions that are attached to promises
-- of the source and have not run, then the readers and the promises with the count of each. Of an
-- algorithm the field says whether it is set.
pub record ReadableStream (F : Type 0) : Type 0 where
  pub state : ReadableStreamState
  pub stored_error : Value
  pub reader : Option ℕ
  pub disturbed : Bool
  pub container : QueueWithSizes F
  pub started : Bool
  pub close_requested : Bool
  pub pull_again : Bool
  pub pulling : Bool
  pub strategy_hwm : F
  pub strategy_size_algorithm : Bool
  pub pull_algorithm : Bool
  pub cancel_algorithm : Bool
  pub start_reaction : Bool
  pub pull_reaction : Bool
  pub cancel_reaction : Option ℕ
  pub readers : ℕ → Reader
  pub next_reader : ℕ
  pub promises : ℕ → ReadPromise
  pub next_promise : ℕ

abbrev pub is_readable : ReadableStreamState → Bool
is_readable readable = true
is_readable _ = false

abbrev pub is_unresolved : ReadPromiseState → Bool
is_unresolved unresolved = true
is_unresolved _ = false

module _ {F : Type 0} where
  abbrev pub add_promise : Bool → ReadPromiseState → ReadableStream F → ReadableStream F
  add_promise is_read st s = record s {
    promises =
        λ q. if q == s.next_promise then record { is_read = is_read; state = st } else s.promises q;
    next_promise = s.next_promise + 1;
  }

  -- To resolve or reject a promise again does nothing, also while it waits for a `then`.
  abbrev pub resolve_with : ReadPromiseState → ℕ → ReadableStream F → ReadableStream F
  resolve_with to p s = record s {
    promises = λ q.
        if q == p && is_unresolved (s.promises q).state
        then record (s.promises q) { state = to }
        else s.promises q;
  }

  abbrev pub set_reader : ℕ → Reader → ReadableStream F → ReadableStream F
  set_reader r x s = record s { readers = λ q. if q == r then x else s.readers q }

  abbrev pub set_requests : ℕ → List ℕ → ReadableStream F → ReadableStream F
  set_requests r ps s = set_reader r (record (s.readers r) { read_requests = ps }) s

  unfoldable pub is_locked : ReadableStream F → Bool
  is_locked s = is_some s.reader

  -- The steps of the read request of a `read()` call. Resolving a promise with an object looks up its
  -- `then`: `thens` is the author code that this may run.
  unfoldable pub chunk_steps :
      (ℕ → ReadableStream F → Option (ReadableStream F))
      → Value
      → ℕ
      → ReadableStream F
      → Option (ReadableStream F)
  chunk_steps thens chunk p s = thens p (resolve_with (resolved_chunk chunk) p s)

  unfoldable pub close_steps :
      (ℕ → ReadableStream F → Option (ReadableStream F))
      → ℕ
      → ReadableStream F
      → Option (ReadableStream F)
  close_steps thens p s = thens p (resolve_with resolved_done p s)

  unfoldable pub error_steps : Value → ℕ → ReadableStream F → ReadableStream F
  error_steps e p s = resolve_with (rejected e) p s

  -- `settle_request_snapshot`, with the close steps and with the error steps.
  unfoldable pub close_each :
      (ℕ → ReadableStream F → Option (ReadableStream F))
      → List ℕ
      → ReadableStream F
      → Option (ReadableStream F)
  unfolding close_steps
  close_each thens [] s = some s
  close_each thens (p ∷ ps) s = and_then (close_steps thens p s) (λ s'. close_each thens ps s')

  unfoldable pub error_each : Value → List ℕ → ReadableStream F → ReadableStream F
  unfolding error_steps
  error_each e [] s = s
  error_each e (p ∷ ps) s = error_each e ps (error_steps e p s)

  unfoldable pub stream_close :
      (ℕ → ReadableStream F → Option (ReadableStream F))
      → ReadableStream F
      → Option (ReadableStream F)
  unfolding close_each
  stream_close thens s =
      let ends : Option (ReadableStream F) = elim s.reader [
        | none ↦ some (record s { state = closed })
        | some r ↦ close_each thens (s.readers r).read_requests (
            set_requests r []
              (resolve_with resolved (s.readers r).closed_promise (record s { state = closed })))
      ] in
      if is_readable s.state then ends else none

  unfoldable pub error_read_requests : ℕ → Value → ReadableStream F → ReadableStream F
  unfolding error_each
  error_read_requests r e s = error_each e (s.readers r).read_requests (set_requests r [] s)

  unfoldable pub stream_error : Value → ReadableStream F → Option (ReadableStream F)
  unfolding error_read_requests
  stream_error e s =
      let s1 = record s { state = errored; stored_error = e } in
      let ends : Option (ReadableStream F) = elim s.reader [
        | none ↦ some s1
        | some r ↦
            some
              (error_read_requests r e (resolve_with (rejected e) (s.readers r).closed_promise s1))
      ] in
      if is_readable s.state then ends else none

  unfoldable pub add_read_request : ℕ → ReadableStream F → Option (ReadableStream F)
  add_read_request p s = elim s.reader [
    | none ↦ none
    | some r ↦ some (set_requests r ((s.readers r).read_requests ++ p ∷ []) s)
  ]

  unfoldable pub fulfill_read_request :
      (ℕ → ReadableStream F → Option (ReadableStream F))
      → Value
      → ReadableStream F
      → Option (ReadableStream F)
  unfolding chunk_steps
  fulfill_read_request thens chunk s = elim s.reader [
    | none ↦ none
    | some r ↦ elim (s.readers r).read_requests [
      | [] ↦ none
      | p ∷ ps ↦ chunk_steps thens chunk p (set_requests r ps s)
    ]
  ]
