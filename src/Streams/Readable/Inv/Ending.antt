-- ===== src/Streams/Readable/Inv/Ending.antt =====
-- Lemmas on the steps that close and error a readable stream, and that answer its read requests, for
-- the invariant.
use starlingmonkey_ng.Prelude.{
  mem-append, ℕ, ◌≡◌, refl, true, false, Option, none, some, List, [], ◌∷◌, ◌++◌, arith,
  option_cases_eq, if_cases,
}
use starlingmonkey_ng.Streams.QueueWithSizes.{Value}
use starlingmonkey_ng.Streams.Writable.Inv.{Ok}
use starlingmonkey_ng.Streams.Writable.Cases.{list_cases_eq}
use starlingmonkey_ng.Streams.Readable.{
  ReadableStream, ReadableStreamState, ReadPromiseState, rejected, resolved, closed, errored,
  is_readable, resolve_with, set_requests, stream_close, stream_error, error_read_requests,
  add_read_request, fulfill_read_request,
}
use starlingmonkey_ng.Streams.Readable.Inv.{
  IsValid, Keeps, chunk_steps-IsValid, close_each-IsValid, error_each-IsValid,
}

module _ {F : Type 0} where
  -- The stream ends, with its reader's requests taken from it.
  ended-IsValid :
      (st : ReadableStreamState) (e : Value) (to : ReadPromiseState) (p r : ℕ) (held : List ℕ)
      (s : ReadableStream F)
      → is_readable st ≡ false
      → s.reader ≡ some r
      → IsValid held s
      → IsValid
          ((s.readers r).read_requests ++ held)
          (set_requests r [] (resolve_with to p (record s { state = st; stored_error = e })))
  ended-IsValid st e to p r held s h link v = record {
    again = v.again;
    pulls = v.pulls;
    start_reacts = v.start_reacts;
    pull_reacts = v.pull_reacts;
    owned = λ q. ground (arith, v.owned q);
    idle = λ _. ground (arith, link);
    accounted =
        λ q. ground (arith, v.accounted q, link, mem-append q (s.readers r).read_requests held);
  }

  -- The stream ends, and has no reader.
  ended_alone-IsValid :
      (st : ReadableStreamState) (e : Value) (held : List ℕ) (s : ReadableStream F)
      → s.reader ≡ none
      → IsValid held s
      → IsValid held (record s { state = st; stored_error = e })
  ended_alone-IsValid st e held s link v = record {
    again = v.again;
    pulls = v.pulls;
    start_reacts = v.start_reacts;
    pull_reacts = v.pull_reacts;
    owned = v.owned;
    idle = λ _. ground (arith, link);
    accounted = v.accounted;
  }

  pub stream_close-IsValid :
      (thens : ℕ → ReadableStream F → Option (ReadableStream F)) (held : List ℕ)
      (s : ReadableStream F)
      → ((p : ℕ) → Keeps (thens p))
      → is_readable s.state ≡ true
      → IsValid held s
      → Ok (IsValid held) (stream_close thens s)
  unfolding stream_close
  stream_close-IsValid thens held s k on v =
      if_cases (Ok (IsValid held)) (is_readable s.state)
        (λ _.
          option_cases_eq (Ok (IsValid held)) s.reader
            (λ alone. ended_alone-IsValid closed s.stored_error held s alone v)
            (λ r link. close_each-IsValid thens (s.readers r).read_requests held _ k (
              ended-IsValid closed s.stored_error resolved (s.readers r).closed_promise r held s
                refl link v)))
        (λ off. absurd (ground arith))

  pub stream_error-IsValid :
      (e : Value) (held : List ℕ) (s : ReadableStream F)
      → is_readable s.state ≡ true
      → IsValid held s
      → Ok (IsValid held) (stream_error e s)
  unfolding stream_error error_read_requests
  stream_error-IsValid e held s on v =
      if_cases (Ok (IsValid held)) (is_readable s.state)
        (λ _.
          option_cases_eq (Ok (IsValid held)) s.reader
            (λ alone. ended_alone-IsValid errored e held s alone v)
            (λ r link. error_each-IsValid e (s.readers r).read_requests held _ (
              ended-IsValid errored e (rejected e) (s.readers r).closed_promise r held s refl link
                v)))
        (λ off. absurd (ground arith))

  -- The requests of a reader that is no longer the stream's.
  pub error_read_requests-IsValid :
      (r : ℕ) (e : Value) (held : List ℕ) (s : ReadableStream F)
      → s.reader ≡ none
      → IsValid ((s.readers r).read_requests ++ held) s
      → IsValid held (error_read_requests r e s)
  unfolding error_read_requests
  error_read_requests-IsValid r e held s alone v =
      error_each-IsValid e (s.readers r).read_requests held _ (record {
        again = v.again;
        pulls = v.pulls;
        start_reacts = v.start_reacts;
        pull_reacts = v.pull_reacts;
        owned = λ q. ground (arith, v.owned q);
        idle = λ off. ground (arith, alone);
        accounted = λ q. ground (arith, v.accounted q, alone);
      })

  requests_added-IsValid :
      (p r : ℕ) (held : List ℕ) (s : ReadableStream F)
      → s.reader ≡ some r
      → is_readable s.state ≡ true
      → IsValid (p ∷ held) s
      → IsValid held (set_requests r ((s.readers r).read_requests ++ p ∷ []) s)
  requests_added-IsValid p r held s link on v = record {
    again = v.again;
    pulls = v.pulls;
    start_reacts = v.start_reacts;
    pull_reacts = v.pull_reacts;
    owned = λ q. ground (arith, v.owned q);
    idle = λ off. absurd (ground arith);
    accounted =
        λ q. ground (arith, v.accounted q, link, mem-append q (s.readers r).read_requests (p ∷ []));
  }

  -- A read that is under way waits from now on.
  pub add_read_request-IsValid :
      (p r : ℕ) (held : List ℕ) (s : ReadableStream F)
      → s.reader ≡ some r
      → is_readable s.state ≡ true
      → IsValid (p ∷ held) s
      → Ok (IsValid held) (add_read_request p s)
  unfolding add_read_request
  add_read_request-IsValid p r held s link on v =
      option_cases_eq (Ok (IsValid held)) s.reader (λ alone. absurd (ground (arith, link)))
        (λ r' link'. requests_added-IsValid p r' held s link' on v)

  request_taken-IsValid :
      (p r : ℕ) (ps held : List ℕ) (s : ReadableStream F)
      → s.reader ≡ some r
      → (s.readers r).read_requests ≡ p ∷ ps
      → IsValid held s
      → IsValid (p ∷ held) (set_requests r ps s)
  request_taken-IsValid p r ps held s link e v = record {
    again = v.again;
    pulls = v.pulls;
    start_reacts = v.start_reacts;
    pull_reacts = v.pull_reacts;
    owned = λ q. ground (arith, v.owned q);
    idle = λ off. ground (arith, v.idle off, link);
    accounted = λ q. ground (arith, v.accounted q, link);
  }

  -- The first read that waits gets the chunk.
  pub fulfill_read_request-IsValid :
      (thens : ℕ → ReadableStream F → Option (ReadableStream F)) (chunk : Value) (held : List ℕ)
      (s : ReadableStream F)
      → ((p : ℕ) → Keeps (thens p))
      → (r : ℕ) → s.reader ≡ some r
      → (p : ℕ) (ps : List ℕ) → (s.readers r).read_requests ≡ p ∷ ps
      → IsValid held s
      → Ok (IsValid held) (fulfill_read_request thens chunk s)
  unfolding fulfill_read_request
  fulfill_read_request-IsValid thens chunk held s k r link p ps e v =
      option_cases_eq (Ok (IsValid held)) s.reader (λ alone. absurd (ground (arith, link)))
        (λ r' link'.
          list_cases_eq (Ok (IsValid held)) (s.readers r').read_requests
            (λ bare. absurd (ground (arith, link, link')))
            (λ q qs f.
              chunk_steps-IsValid thens chunk q held _ k
                (request_taken-IsValid q r' qs held s link' f v)))
