-- ===== src/Streams/Readable/Channel/Taking.antt =====
-- One call of `read` on a readable stream as a channel, when author code makes no call.
use starlingmonkey_ng.Prelude.{
  ℕ, ◌+◌, ◌≡◌, refl, sym, subst, ◌∙◌, ap, true, not, ◌&&◌, some, List, [], ◌∷◌, ◌++◌, All, arith,
  if_cases,
}
use starlingmonkey_ng.Streams.Float.{Float}
use starlingmonkey_ng.Streams.QueueWithSizes.{Value, ValueWithSize, QueueWithSizes, dequeue_value}
use starlingmonkey_ng.Streams.Writable.Inv.{Ok, Ok-and_then}
use starlingmonkey_ng.Streams.Writable.Cases.{list_cases_eq}
use starlingmonkey_ng.Streams.Readable.{
  ReadableStream, ReadPromise, readable, unresolved, resolved_chunk, add_promise, resolve_with,
  set_requests, chunk_steps, add_read_request,
}
use starlingmonkey_ng.Streams.Readable.Controller.{has_any, dequeue, after_dequeue, pull_steps}
use starlingmonkey_ng.Streams.Readable.Api.{default_reader_read, read}
use starlingmonkey_ng.Streams.Readable.Channel.{
  values, Ascending-append, All-between, Carries, Stepped, pull-Stepped, Ok-answered,
}

All-snoc : (P : ℕ → Type 0) (ps : List ℕ) (p : ℕ) → All P ps → P p → All P (ps ++ p ∷ [])
All-snoc P [] p h x = (x, tt)
All-snoc P (q ∷ qs) p h x = (h.0, All-snoc P qs p h.1 x)

module _ {F : Type 0} ⦃fl : Float F⦄ where
  -- The stream with the promise of a new read.
  abbrev asking : ReadableStream F → ReadableStream F
  asking s = record (add_promise true unresolved s) { disturbed = true }

  default_reader_read_lem :
      (p : ℕ) (s : ReadableStream F)
      → s.state ≡ readable
      → default_reader_read (λ q. some) some p s
        ≡ pull_steps (λ q. some) some p (record s { disturbed = true })
  unfolding default_reader_read
  default_reader_read_lem p s h = ground (arith, h)

  add_read_request_lem :
      (r p : ℕ) (reads : List ℕ) (s : ReadableStream F)
      → s.reader ≡ some r
      → (s.readers r).read_requests ≡ reads
      → add_read_request p s ≡ some (set_requests r (reads ++ p ∷ []) s)
  unfolding add_read_request
  add_read_request_lem r p reads s link asked = ground (arith, link, asked)

  waits-Stepped :
      (r : ℕ) (reads : List ℕ) (s : ReadableStream F)
      → Carries r [] reads s
      → Stepped r []
          (reads ++ s.next_promise ∷ [])
          (s.next_promise + 1)
          s
          (λ ps. Unit)
          (set_requests r (reads ++ s.next_promise ∷ []) (asking s))
  waits-Stepped r reads s c = (
    record {
      opened = c.opened;
      locked = c.locked;
      owned = ground (arith, c.owned);
      accepts = c.accepts;
      again = c.again;
      holds = c.holds;
      asked = ground arith;
      ascending = Ascending-append 0 s.next_promise reads c.ascending;
      unanswered =
          All-snoc _ reads s.next_promise
            (All-between 0 s.next_promise reads c.ascending (λ q l u e. ground (arith, e))
              c.unanswered)
            (ground arith);
    },
    record { next = refl; settled = λ p u h. ground arith },
    tt,
  )

  -- A chunk is taken from the queue for a read that is under way.
  dequeues-Stepped :
      (r : ℕ) (first : Value) (chunks : List Value) (c : QueueWithSizes F) (s : ReadableStream F)
      → values c.queue ≡ chunks
      → Carries r (first ∷ chunks) [] s
      → Stepped r chunks []
          (s.next_promise + 1)
          s
          (λ ps. (ps s.next_promise).state ≡ unresolved)
          (record (asking s) { container = c })
  dequeues-Stepped r first chunks c s e h = (
    record {
      opened = h.opened;
      locked = h.locked;
      owned = h.owned;
      accepts = h.accepts;
      again = h.again;
      holds = e;
      asked = h.asked;
      ascending = omega arith;
      unanswered = tt;
    },
    record { next = refl; settled = λ p u h. ground arith },
    ground arith,
  )

  settles-Stepped :
      (r : ℕ) (chunks : List Value) (s : ReadableStream F) (v : Value) (t : ReadableStream F)
      → Stepped r chunks [] (s.next_promise + 1) s (λ ps. (ps s.next_promise).state ≡ unresolved) t
      → Stepped r chunks []
          (s.next_promise + 1)
          s
          (λ ps. (ps s.next_promise).state ≡ resolved_chunk v)
          (resolve_with (resolved_chunk v) s.next_promise t)
  settles-Stepped r chunks s v t (c, f, e) = (
    record {
      opened = c.opened;
      locked = c.locked;
      owned = c.owned;
      accepts = c.accepts;
      again = c.again;
      holds = c.holds;
      asked = c.asked;
      ascending = c.ascending;
      unanswered = tt;
    },
    record { next = f.next; settled = λ p u h. ground (arith, f.settled p u h) },
    ground (arith, e),
  )

  dequeue_value_lem :
      (c : QueueWithSizes F) (x : ValueWithSize F) (xs : List (ValueWithSize F))
      → c.queue ≡ x ∷ xs
      → Ok (λ q. q.queue ≡ xs) (dequeue_value c)
  unfolding dequeue_value
  dequeue_value_lem c x xs e =
      list_cases_eq (Ok (λ q. q.queue ≡ xs)) c.queue (λ bare. absurd (cc (bare, e)))
        (λ y ys e'. cc (e, e'))

  dequeue-Stepped :
      (r : ℕ) (first : Value) (chunks : List Value) (s : ReadableStream F)
      → Carries r (first ∷ chunks) [] s
      → Ok
          (λ taken.
            (taken.0 ≡ first)
            × Stepped r chunks []
                (s.next_promise + 1)
                s
                (λ ps. (ps s.next_promise).state ≡ unresolved)
                taken.1)
          (dequeue (asking s))
  unfolding dequeue
  dequeue-Stepped r first chunks s c =
      list_cases_eq (Ok _) s.container.queue (λ bare. absurd (cc (ap values bare, c.holds)))
        (λ x xs e.
          Ok-and_then _ (dequeue_value s.container) _ (dequeue_value_lem s.container x xs e) (λ q h.
            (
              cc (ap values e, c.holds),
              dequeues-Stepped r first chunks q s (cc (ap values e, h, c.holds)) c,
            )))

  after_dequeue-Stepped :
      (r : ℕ) (chunks : List Value) (n : ℕ) (s : ReadableStream F) (E : (ℕ → ReadPromise) → Type 0)
      (t : ReadableStream F)
      → Stepped r chunks [] n s E t
      → Ok (Stepped r chunks [] n s E) (after_dequeue (λ p. some) some t)
  unfolding after_dequeue
  after_dequeue-Stepped r chunks n s E t h =
      if_cases (Ok _) (t.close_requested && not (has_any t.container.queue))
        (λ ends. absurd (ground (arith, h.0.accepts))) (λ _. pull-Stepped r chunks [] n s E t h)

  has_any-values : (xs : List (ValueWithSize F)) → has_any xs ≡ has_any (values xs)
  has_any-values [] = refl
  has_any-values (x ∷ xs) = refl

  Carries-chunks :
      (r : ℕ) (chunks : List Value) (reads : List ℕ) (s : ReadableStream F)
      → Carries r chunks reads s
      → has_any s.container.queue ≡ has_any chunks
  Carries-chunks r chunks reads s c = has_any-values s.container.queue ∙ ap has_any c.holds

  -- A call of `read` on an open stream, from the pull steps.
  read-Ok :
      (P : ReadableStream F → Type 0) (r : ℕ) (chunks : List Value) (reads : List ℕ)
      (s : ReadableStream F)
      → Carries r chunks reads s
      → Ok P (pull_steps (λ p. some) some s.next_promise (asking s))
      → Ok (λ a. P a.0) (read (λ p. some) some r s)
  unfolding read
  read-Ok P r chunks reads s c h =
      if_cases (Ok _) (s.readers r).stream
        (λ _. Ok-answered P _ _ (
          subst (Ok P)
            (sym (default_reader_read_lem s.next_promise (add_promise true unresolved s) c.opened))
            h))
        (λ no. absurd (cc (no, c.owned)))

  -- A read takes the first chunk that the stream holds.
  pub take_held :
      (r : ℕ) (first : Value) (chunks : List Value) (s : ReadableStream F)
      → Carries r (first ∷ chunks) [] s
      → Ok
          (λ a.
            Stepped r chunks []
              (s.next_promise + 1)
              s
              (λ ps. (ps s.next_promise).state ≡ resolved_chunk first)
              a.0)
          (read (λ p. some) some r s)
  unfolding pull_steps chunk_steps
  take_held r first chunks s c = read-Ok P r (first ∷ chunks) [] s c (
      if_cases (Ok P) (has_any s.container.queue)
        (λ _.
          Ok-and_then P (dequeue (asking s)) _ (dequeue-Stepped r first chunks s c) (λ taken (e, h).
            Ok-and_then P (after_dequeue (λ p. some) some taken.1) _
              (after_dequeue-Stepped r chunks (s.next_promise + 1) s _ taken.1 h)
              (λ t g.
                subst (λ v. Ok P (chunk_steps (λ p. some) v s.next_promise t)) (sym e)
                  (settles-Stepped r chunks s first t g))))
        (λ bare. absurd (cc (bare, Carries-chunks r (first ∷ chunks) [] s c))))
    where
      P : ReadableStream F → Type 0
      P =
          Stepped r chunks [] (s.next_promise + 1) s
            (λ ps. (ps s.next_promise).state ≡ resolved_chunk first)

  -- A read waits where the stream holds no chunk.
  pub take_waits :
      (r : ℕ) (reads : List ℕ) (s : ReadableStream F)
      → Carries r [] reads s
      → Ok
          (λ a. Stepped r [] (reads ++ s.next_promise ∷ []) (s.next_promise + 1) s (λ ps. Unit) a.0)
          (read (λ p. some) some r s)
  unfolding pull_steps
  take_waits r reads s c = read-Ok P r [] reads s c (
      if_cases (Ok P) (has_any s.container.queue)
        (λ full. absurd (cc (full, Carries-chunks r [] reads s c)))
        (λ _.
          Ok-and_then P (add_read_request s.next_promise (asking s)) _
            (subst (Ok P)
              (sym (add_read_request_lem r s.next_promise reads (asking s) c.locked c.asked))
              (waits-Stepped r reads s c))
            (λ t h. pull-Stepped r [] (reads ++ s.next_promise ∷ []) (s.next_promise + 1) s _ t h)))
    where
      P : ReadableStream F → Type 0
      P = Stepped r [] (reads ++ s.next_promise ∷ []) (s.next_promise + 1) s (λ ps. Unit)
