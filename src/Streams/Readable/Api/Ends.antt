-- ===== src/Streams/Readable/Api/Ends.antt =====
-- Lemmas on the methods that cancel a readable stream, and on those of its default controller, for
-- the invariant.
use starlingmonkey_ng.Prelude.{ℕ, ◌≡◌, true, false, not, Option, none, some, List, arith, if_cases}
use starlingmonkey_ng.Streams.Float.{Float}
use starlingmonkey_ng.Streams.QueueWithSizes.{Value, Throws}
use starlingmonkey_ng.Streams.Writable.Inv.{Ok, Ok-and_then}
use starlingmonkey_ng.Streams.Readable.{
  ReadableStream, unresolved, resolved, rejected, is_readable, is_locked, add_promise, stream_close,
}
use starlingmonkey_ng.Streams.Readable.Inv.{IsValid, Answers, Keeps}
use starlingmonkey_ng.Streams.Readable.Inv.Ending.{stream_close-IsValid}
use starlingmonkey_ng.Streams.Readable.Controller.{
  can_close_or_enqueue, controller_close, cancel_steps,
}
use starlingmonkey_ng.Streams.Readable.Controller.Kept.{
  controller_error-IsValid, controller_close-IsValid, controller_enqueue-Answers, answered,
}
use starlingmonkey_ng.Streams.Readable.Controller.Reading.{cancel_steps-IsValid}
use starlingmonkey_ng.Streams.Readable.Api.{
  cancel_readable, stream_cancel, cancel, reader_cancel, close, enqueue, error,
}
use starlingmonkey_ng.Streams.Readable.Api.Kept.{state_cases_eq, added-IsValid, disturbed-IsValid}

module _ {F : Type 0} ⦃fl : Float F⦄ where
  cancel_readable-Answers :
      (thens : ℕ → ReadableStream F → Option (ReadableStream F))
      (author : ReadableStream F → Option (ReadableStream F)) (held : List ℕ) (s : ReadableStream F)
      → ((p : ℕ) → Keeps (thens p))
      → Keeps author
      → is_readable s.state ≡ true
      → IsValid held s
      → Answers held (cancel_readable thens author s)
  unfolding cancel_readable
  cancel_readable-Answers thens author held s k l on v =
      Ok-and_then (λ a. IsValid held a.0) (stream_close thens s) _
        (stream_close-IsValid thens held s k on v)
        (λ s1 v1.
          Ok-and_then (λ a. IsValid held a.0) (cancel_steps author s1) _
            (cancel_steps-IsValid author held s1 l v1) (λ s2 v2. reacting-IsValid held s2 v2))
    where
      reacting-IsValid :
          (held : List ℕ) (s : ReadableStream F)
          → IsValid held s
          → IsValid held
              (record (add_promise false unresolved s) { cancel_reaction = some s.next_promise })
      reacting-IsValid held s v = record {
        again = v.again;
        pulls = v.pulls;
        start_reacts = v.start_reacts;
        pull_reacts = v.pull_reacts;
        owned = v.owned;
        idle = v.idle;
        accounted = λ q. ground (arith, v.accounted q);
      }

  stream_cancel-Answers :
      (thens : ℕ → ReadableStream F → Option (ReadableStream F))
      (author : ReadableStream F → Option (ReadableStream F)) (held : List ℕ) (s : ReadableStream F)
      → ((p : ℕ) → Keeps (thens p))
      → Keeps author
      → IsValid held s
      → Answers held (stream_cancel thens author s)
  unfolding stream_cancel
  stream_cancel-Answers thens author held s k l v =
      let w = disturbed-IsValid held s v in
      state_cases_eq (Answers held) s.state (λ _. added-IsValid resolved held _ w)
        (λ _. added-IsValid (rejected s.stored_error) held _ w)
        (λ on. cancel_readable-Answers thens author held _ k l (ground arith) w)

  pub cancel-Answers :
      (thens : ℕ → ReadableStream F → Option (ReadableStream F))
      (author : ReadableStream F → Option (ReadableStream F)) (held : List ℕ) (s : ReadableStream F)
      → ((p : ℕ) → Keeps (thens p))
      → Keeps author
      → IsValid held s
      → Answers held (cancel thens author s)
  unfolding cancel
  cancel-Answers thens author held s k l v =
      if_cases (Answers held) (is_locked s) (λ _. v)
        (λ _. stream_cancel-Answers thens author held s k l v)

  pub reader_cancel-Answers :
      (thens : ℕ → ReadableStream F → Option (ReadableStream F))
      (author : ReadableStream F → Option (ReadableStream F)) (r : ℕ) (held : List ℕ)
      (s : ReadableStream F)
      → ((p : ℕ) → Keeps (thens p))
      → Keeps author
      → IsValid held s
      → Answers held (reader_cancel thens author r s)
  unfolding reader_cancel
  reader_cancel-Answers thens author r held s k l v =
      if_cases (Answers held) (s.readers r).stream
        (λ _. stream_cancel-Answers thens author held s k l v) (λ _. v)

  pub close-Answers :
      (thens : ℕ → ReadableStream F → Option (ReadableStream F)) (held : List ℕ)
      (s : ReadableStream F)
      → ((p : ℕ) → Keeps (thens p))
      → IsValid held s
      → Answers held (close thens s)
  unfolding close
  close-Answers thens held s k v =
      if_cases (Answers held) (not (can_close_or_enqueue s)) (λ _. v)
        (λ _.
          answered held (controller_close thens s) none (controller_close-IsValid thens held s k v))

  pub enqueue-Answers :
      (thens : ℕ → ReadableStream F → Option (ReadableStream F))
      (sizing : ReadableStream F → Option (ReadableStream F)) (answer : Throws F)
      (pull : ReadableStream F → Option (ReadableStream F)) (x : Value) (held : List ℕ)
      (s : ReadableStream F)
      → ((p : ℕ) → Keeps (thens p))
      → Keeps sizing
      → Keeps pull
      → IsValid held s
      → Answers held (enqueue thens sizing answer pull x s)
  unfolding enqueue
  enqueue-Answers thens sizing answer pull x held s k z l v =
      if_cases (Answers held) (not (can_close_or_enqueue s)) (λ _. v)
        (λ _. controller_enqueue-Answers thens sizing answer pull x held s k z l v)

  pub error-IsValid :
      (e : Value) (held : List ℕ) (s : ReadableStream F)
      → IsValid held s
      → Ok (IsValid held) (error e s)
  unfolding error
  error-IsValid e held s v = controller_error-IsValid e held s v
