-- ===== src/Streams/Readable/Channel/Putting.antt =====
-- One call of `enqueue` on a readable stream as a channel, when author code makes no call.
use starlingmonkey_ng.Prelude.{
  ℕ, suc, ◌≡◌, refl, sym, subst, ◌∙◌, ap, Bool, true, false, not, ◌&&◌, Option, none, some, List,
  [], ◌∷◌, ◌++◌, if◌then◌else◌, arith, if_cases, ◌⊎◌, inl, inr,
}
use starlingmonkey_ng.Streams.Float.{Float}
use starlingmonkey_ng.Streams.QueueWithSizes.{
  Value, QueueWithSizes, chunk, is_non_negative_number, enqueue_value_with_size, ok,
}
use starlingmonkey_ng.Streams.Writable.{and_then}
use starlingmonkey_ng.Streams.Writable.Inv.{Ok, Ok-and_then}
use starlingmonkey_ng.Streams.Writable.Cases.{throws_cases_eq}
use starlingmonkey_ng.Streams.Readable.{
  ReadableStream, ReadPromise, resolved_chunk, is_locked, resolve_with, set_requests, chunk_steps,
  fulfill_read_request,
}
use starlingmonkey_ng.Streams.Readable.Controller.{
  has_any, can_close_or_enqueue, has_read_requests, call_pull_if_needed, enqueue_sized,
  controller_enqueue,
}
use starlingmonkey_ng.Streams.Readable.Api.{enqueue}
use starlingmonkey_ng.Streams.Readable.Channel.{
  values, values-append, Ascending-lower, All-between, Carries, Carries-open, Carries-requests,
  Stepped, pull-Stepped, Ok-answered,
}

module _ {F : Type 0} ⦃fl : Float F⦄ where
  answers-Stepped :
      (r w : ℕ) (reads : List ℕ) (v : Value) (s : ReadableStream F)
      → Carries r [] (w ∷ reads) s
      → Stepped r [] reads s.next_promise s
          (λ ps. (ps w).state ≡ resolved_chunk v)
          (resolve_with (resolved_chunk v) w (set_requests r reads s))
  answers-Stepped r w reads v s c = (
    record {
      opened = c.opened;
      locked = c.locked;
      owned = ground (arith, c.owned);
      accepts = c.accepts;
      again = c.again;
      holds = c.holds;
      asked = ground arith;
      ascending = Ascending-lower 0 (suc w) s.next_promise reads (omega arith) c.ascending.1;
      unanswered =
          All-between (suc w) s.next_promise reads c.ascending.1 (λ q l u e. ground (arith, e))
            c.unanswered.1;
    },
    record { next = refl; settled = λ p u h. ground (arith, h, c.unanswered.0) },
    ground (arith, c.unanswered.0),
  )

  fulfill_read_request_lem :
      (r w : ℕ) (reads : List ℕ) (v : Value) (s : ReadableStream F)
      → s.reader ≡ some r
      → (s.readers r).read_requests ≡ w ∷ reads
      → fulfill_read_request (λ p. some) v s
        ≡ some (resolve_with (resolved_chunk v) w (set_requests r reads s))
  unfolding fulfill_read_request chunk_steps
  fulfill_read_request_lem r w reads v s link asked = ground (arith, link, asked)

  sizes-Ok :
      (Q : ReadableStream F × Option Value → Type 0) (b : Bool) (answer : F) (v : Value)
      (s : ReadableStream F)
      → ((x : F) → (x ≡ answer) ⊎ (x ≡ fl.one) → Ok Q (enqueue_sized some v (ok x) s))
      → Ok Q (
          and_then
            (if b then some s else some s)
            (λ s1. enqueue_sized some v (if b then ok answer else ok fl.one) s1))
  sizes-Ok Q true answer v s h = h answer (inl refl)
  sizes-Ok Q false answer v s h = h fl.one (inr refl)

  -- A call of `enqueue` on an open stream, from what its controller does.
  enqueue-Ok :
      (P : ReadableStream F → Type 0) (r : ℕ) (chunks : List Value) (reads : List ℕ) (answer : F)
      (v : Value) (s : ReadableStream F)
      → Carries r chunks reads s
      → (has_any reads ≡ true
          → Ok (λ t. Ok P (call_pull_if_needed some t)) (fulfill_read_request (λ p. some) v s))
      → (has_any reads ≡ false
          → (x : F) → (x ≡ answer) ⊎ (x ≡ fl.one)
          → Ok (λ a. P a.0) (enqueue_sized some v (ok x) s))
      → Ok (λ a. P a.0) (enqueue (λ p. some) some (ok answer) some v s)
  unfolding enqueue controller_enqueue
  enqueue-Ok P r chunks reads answer v s c wait hold =
      if_cases (Ok Q) (not (can_close_or_enqueue s))
        (λ no. absurd (ground (arith, Carries-open r chunks reads s c)))
        (λ _.
          if_cases (Ok Q) (not (can_close_or_enqueue s))
            (λ no. absurd (ground (arith, Carries-open r chunks reads s c)))
            (λ _.
              if_cases (Ok Q) (is_locked s && has_read_requests s)
                (λ waits.
                  Ok-and_then Q (fulfill_read_request (λ p. some) v s) _
                    (wait (sym (Carries-requests r chunks reads s c) ∙ waits))
                    (λ t h. Ok-answered P (call_pull_if_needed some t) none h))
                (λ bare.
                  sizes-Ok Q s.strategy_size_algorithm answer v s
                    (hold (sym (Carries-requests r chunks reads s c) ∙ bare)))))
    where
      Q : ReadableStream F × Option Value → Type 0
      Q a = P a.0

  -- A chunk is enqueued while a read waits: the read gets it.
  pub put_waiting :
      (r w : ℕ) (reads : List ℕ) (answer : F) (v : Value) (s : ReadableStream F)
      → Carries r [] (w ∷ reads) s
      → Ok
          (λ a. Stepped r [] reads s.next_promise s (λ ps. (ps w).state ≡ resolved_chunk v) a.0)
          (enqueue (λ p. some) some (ok answer) some v s)
  put_waiting r w reads answer v s c =
      enqueue-Ok P r [] (w ∷ reads) answer v s c
        (λ _.
          subst (Ok (λ t. Ok P (call_pull_if_needed some t)))
            (sym (fulfill_read_request_lem r w reads v s c.locked c.asked))
            (pull-Stepped r [] reads s.next_promise s E _ (answers-Stepped r w reads v s c)))
        (λ bare. absurd (ground arith))
    where
      E : (ℕ → ReadPromise) → Type 0
      E ps = (ps w).state ≡ resolved_chunk v

      P : ReadableStream F → Type 0
      P = Stepped r [] reads s.next_promise s E

  -- A size that a queue takes.
  abbrev pub Fits : F → Type 0
  Fits n = (is_non_negative_number n ≡ true) × (fl.eq n fl.infinity ≡ false)

  enqueue_value_with_size_lem :
      (v : Value) (n : F) (c : QueueWithSizes F)
      → Fits n
      → enqueue_value_with_size v n c
        ≡ ok (record {
          queue = c.queue ++ chunk v n ∷ [];
          queue_total_size = fl.add c.queue_total_size n;
        })
  unfolding enqueue_value_with_size
  enqueue_value_with_size_lem v n c h = ground (arith, h.0, h.1)

  holds-Stepped :
      (r : ℕ) (chunks : List Value) (v : Value) (c : QueueWithSizes F) (n : F)
      (s : ReadableStream F)
      → c.queue ≡ s.container.queue ++ chunk v n ∷ []
      → Carries r chunks [] s
      → Stepped r (chunks ++ v ∷ []) [] s.next_promise s (λ ps. Unit) (record s { container = c })
  holds-Stepped r chunks v c n s e h = (
    record {
      opened = h.opened;
      locked = h.locked;
      owned = h.owned;
      accepts = h.accepts;
      again = h.again;
      holds =
          ap values e
          ∙ values-append s.container.queue (chunk v n ∷ [])
          ∙ ap (λ vs. vs ++ v ∷ []) h.holds;
      asked = h.asked;
      ascending = h.ascending;
      unanswered = h.unanswered;
    },
    record { next = refl; settled = λ p u x. refl },
    tt,
  )

  enqueue_sized-Stepped :
      (r : ℕ) (chunks : List Value) (v : Value) (n : F) (s : ReadableStream F)
      → Fits n
      → Carries r chunks [] s
      → Ok
          (λ a. Stepped r (chunks ++ v ∷ []) [] s.next_promise s (λ ps. Unit) a.0)
          (enqueue_sized some v (ok n) s)
  unfolding enqueue_sized
  enqueue_sized-Stepped r chunks v n s fits h =
      throws_cases_eq (Ok _) (enqueue_value_with_size v n s.container)
        (λ c e.
          Ok-answered (Stepped r (chunks ++ v ∷ []) [] s.next_promise s _)
            (call_pull_if_needed some (record s { container = c })) none
            (pull-Stepped r (chunks ++ v ∷ []) [] s.next_promise s (λ ps. Unit) _
              (holds-Stepped r chunks v c n s
                (cc (e, enqueue_value_with_size_lem v n s.container fits)) h)))
        (λ x e. absurd (cc (e, enqueue_value_with_size_lem v n s.container fits)))

  -- A chunk is enqueued while no read waits: the stream holds it.
  pub put_holding :
      (r : ℕ) (chunks : List Value) (answer : F) (v : Value) (s : ReadableStream F)
      → Fits answer
      → Fits fl.one
      → Carries r chunks [] s
      → Ok
          (λ a. Stepped r (chunks ++ v ∷ []) [] s.next_promise s (λ ps. Unit) a.0)
          (enqueue (λ p. some) some (ok answer) some v s)
  put_holding r chunks answer v s fits one_fits c =
      enqueue-Ok (Stepped r (chunks ++ v ∷ []) [] s.next_promise s (λ ps. Unit)) r chunks [] answer
        v s c (λ some_wait. absurd (ground arith))
        (λ _ x which. elim which [
          | inl e ↦ enqueue_sized-Stepped r chunks v x s (subst Fits (sym e) fits) c
          | inr e ↦ enqueue_sized-Stepped r chunks v x s (subst Fits (sym e) one_fits) c
        ])
