-- ===== src/Streams/Readable/Controller/Reading.antt =====
-- Lemmas on the pull and cancel steps of the default controller, for the invariant.
use starlingmonkey_ng.Prelude.{
  ℕ, ◌≡◌, refl, true, false, not, ◌&&◌, Option, none, some, List, ◌∷◌, if◌then◌else◌, arith,
  is_some, if_cases,
}
use starlingmonkey_ng.Streams.Float.{Float}
use starlingmonkey_ng.Streams.QueueWithSizes.{
  Value, ValueWithSize, QueueWithSizes, reset_queue, dequeue_value,
}
use starlingmonkey_ng.Streams.Writable.{and_then}
use starlingmonkey_ng.Streams.Writable.Inv.{Ok, Ok-and_then}
use starlingmonkey_ng.Streams.Writable.Cases.{list_cases_eq}
use starlingmonkey_ng.Streams.Readable.{ReadableStream, is_readable, add_read_request}
use starlingmonkey_ng.Streams.Readable.Inv.{IsValid, Keeps, chunk_steps-IsValid}
use starlingmonkey_ng.Streams.Readable.Inv.Ending.{stream_close-IsValid, add_read_request-IsValid}
use starlingmonkey_ng.Streams.Readable.Controller.{
  has_any, clear_algorithms, dequeue, after_dequeue, pull_steps, cancel_steps,
}
use starlingmonkey_ng.Streams.Readable.Controller.Kept.{
  refitted-IsValid, call_pull_if_needed-IsValid,
}

pub some-Ok :
    {A B : Type 0} (P : B → Type 0) (o : Option A) (f : A → Option B)
    → is_some o ≡ true
    → ((a : A) → Ok P (f a))
    → Ok P (and_then o f)
some-Ok P none f h k = absurd (cc)
some-Ok P (some a) f h k = k a

module _ {F : Type 0} ⦃fl : Float F⦄ where
  pub dequeue_value-some :
      (c : QueueWithSizes F) (v : ValueWithSize F) (vs : List (ValueWithSize F))
      → c.queue ≡ v ∷ vs
      → is_some (dequeue_value c) ≡ true
  unfolding dequeue_value
  dequeue_value-some c v vs h = ground arith

  -- Only the queue is another.
  abbrev Taken : List ℕ → ReadableStream F → Value × ReadableStream F → Type 0
  Taken held s taken = IsValid held taken.1 × (is_readable taken.1.state ≡ is_readable s.state)

  dequeue-Taken :
      (held : List ℕ) (s : ReadableStream F)
      → has_any s.container.queue ≡ true
      → IsValid held s
      → Ok (Taken held s) (dequeue s)
  unfolding dequeue
  dequeue-Taken held s h v =
      list_cases_eq (Ok (Taken held s)) s.container.queue (λ bare. absurd (ground arith))
        (λ w ws e.
          some-Ok (Taken held s) (dequeue_value s.container) _
            (dequeue_value-some s.container w ws e)
            (λ c. (
              refitted-IsValid c s.close_requested s.disturbed s.pull_algorithm s.cancel_algorithm
                  s.strategy_size_algorithm held s v,
              refl,
            )))

  after_dequeue-IsValid :
      (thens : ℕ → ReadableStream F → Option (ReadableStream F))
      (pull : ReadableStream F → Option (ReadableStream F)) (held : List ℕ) (s : ReadableStream F)
      → ((p : ℕ) → Keeps (thens p))
      → Keeps pull
      → is_readable s.state ≡ true
      → IsValid held s
      → Ok (IsValid held) (after_dequeue thens pull s)
  unfolding after_dequeue clear_algorithms
  after_dequeue-IsValid thens pull held s k l on v =
      if_cases (Ok (IsValid held)) (s.close_requested && not (has_any s.container.queue))
        (λ _.
          stream_close-IsValid thens held _ k on
            (refitted-IsValid s.container s.close_requested s.disturbed false false false held s v))
        (λ _. call_pull_if_needed-IsValid pull held s l v)

  -- A read of a readable stream takes the first chunk, or waits.
  pub pull_steps-IsValid :
      (thens : ℕ → ReadableStream F → Option (ReadableStream F))
      (pull : ReadableStream F → Option (ReadableStream F)) (p r : ℕ) (held : List ℕ)
      (s : ReadableStream F)
      → ((p : ℕ) → Keeps (thens p))
      → Keeps pull
      → s.reader ≡ some r
      → is_readable s.state ≡ true
      → IsValid (p ∷ held) s
      → Ok (IsValid held) (pull_steps thens pull p s)
  unfolding pull_steps
  pull_steps-IsValid thens pull p r held s k l link on v =
      if_cases (Ok (IsValid held)) (has_any s.container.queue)
        (λ full.
          Ok-and_then (IsValid held) (dequeue s) _ (dequeue-Taken (p ∷ held) s full v) (λ taken t.
            Ok-and_then (IsValid held) (after_dequeue thens pull taken.1) _
              (after_dequeue-IsValid thens pull (p ∷ held) taken.1 k l (ground (arith, t.1)) t.0)
              (λ s' v'. chunk_steps-IsValid thens taken.0 p held s' k v')))
        (λ _.
          Ok-and_then (IsValid held) (add_read_request p s) _
            (add_read_request-IsValid p r held s link on v)
            (λ s' v'. call_pull_if_needed-IsValid pull held s' l v'))

  pub cancel_steps-IsValid :
      (cancel : ReadableStream F → Option (ReadableStream F)) (held : List ℕ) (s : ReadableStream F)
      → Keeps cancel
      → IsValid held s
      → Ok (IsValid held) (cancel_steps cancel s)
  unfolding cancel_steps clear_algorithms reset_queue
  cancel_steps-IsValid cancel held s k v =
      let w =
        refitted-IsValid _ s.close_requested s.disturbed s.pull_algorithm s.cancel_algorithm
          s.strategy_size_algorithm held s v in
      Ok-and_then (IsValid held) (if s.cancel_algorithm then cancel _ else some _) _
        (if_cases (Ok (IsValid held)) s.cancel_algorithm (λ _. k held _ w) (λ _. w))
        (λ s2 v2.
          refitted-IsValid s2.container s2.close_requested s2.disturbed false false false held s2
            v2)
