-- ===== src/Streams/Readable/Controller/Kept.antt =====
-- Lemmas on the default controller of a readable stream, for the invariant.
use starlingmonkey_ng.Prelude.{
  ℕ, ◌≡◌, refl, Bool, true, false, not, ◌&&◌, Option, none, some, List, [], ◌∷◌, if◌then◌else◌,
  arith, is_some, option_cases_eq, if_cases, Option-cases, inl, inr,
}
use starlingmonkey_ng.Streams.Float.{Float}
use starlingmonkey_ng.Streams.QueueWithSizes.{
  Value, QueueWithSizes, reset_queue, ok, err, Throws, enqueue_value_with_size,
}
use starlingmonkey_ng.Streams.Writable.{and_then}
use starlingmonkey_ng.Streams.Writable.Inv.{Ok, Ok-and_then}
use starlingmonkey_ng.Streams.Writable.Cases.{throws_cases_eq}
use starlingmonkey_ng.Streams.Readable.{
  ReadableStream, is_readable, is_locked, fulfill_read_request,
}
use starlingmonkey_ng.Streams.Readable.Inv.{IsValid, Answers, Keeps}
use starlingmonkey_ng.Streams.Readable.Inv.Ending.{
  stream_close-IsValid, stream_error-IsValid, fulfill_read_request-IsValid,
}
use starlingmonkey_ng.Streams.Readable.Controller.{
  has_any, clear_algorithms, can_close_or_enqueue, has_read_requests, get_desired_size,
  should_call_pull, pulls, call_pull_if_needed, controller_error, controller_close, enqueue_sized,
  controller_enqueue,
}

-- A method that ends by an answer.
pub answered :
    {F A : Type 0} (held : List ℕ) (o : Option (ReadableStream F)) (a : A)
    → Ok (IsValid held) o
    → Answers held (and_then o (λ s. some (s, a)))
answered held none a h = absurd h
answered held (some s) a h = h

module _ {F : Type 0} where
  -- The fields that the invariant does not read.
  pub refitted-IsValid :
      (c : QueueWithSizes F) (q d a b z : Bool) (held : List ℕ) (s : ReadableStream F)
      → IsValid held s
      → IsValid held (record s {
        container = c;
        close_requested = q;
        disturbed = d;
        pull_algorithm = a;
        cancel_algorithm = b;
        strategy_size_algorithm = z;
      })
  refitted-IsValid c q d a b z held s v = record {
    again = v.again;
    pulls = v.pulls;
    start_reacts = v.start_reacts;
    pull_reacts = v.pull_reacts;
    owned = v.owned;
    idle = v.idle;
    accounted = v.accounted;
  }

  module _ ⦃fl : Float F⦄ where
    desired_size-readable :
        (s : ReadableStream F) → is_readable s.state ≡ true → is_some (get_desired_size s) ≡ true
    unfolding get_desired_size
    desired_size-readable s on = ground arith

    should_call_pull_lem :
        (s : ReadableStream F)
        → Ok
            (λ b. b ≡ true → (is_readable s.state ≡ true) × (s.started ≡ true))
            (should_call_pull s)
    unfolding should_call_pull can_close_or_enqueue
    should_call_pull_lem s =
        if_cases (Ok _) (not (can_close_or_enqueue s)) (λ _ h. absurd (cc))
          (λ can.
            if_cases (Ok _) (not s.started) (λ _ h. absurd (cc))
              (λ on.
                if_cases (Ok _) (is_locked s && has_read_requests s)
                  (λ _ _. (ground arith, ground arith))
                  (λ _.
                    option_cases_eq (Ok _) (get_desired_size s)
                      (λ e. absurd (ground (arith, desired_size-readable s)))
                      (λ d e _. (ground arith, ground arith)))))

    marked_again-IsValid :
        (held : List ℕ) (s : ReadableStream F)
        → s.pulling ≡ true
        → IsValid held s
        → IsValid held (record s { pull_again = true })
    marked_again-IsValid held s on v = record {
      again = λ _. on;
      pulls = v.pulls;
      start_reacts = v.start_reacts;
      pull_reacts = v.pull_reacts;
      owned = v.owned;
      idle = v.idle;
      accounted = v.accounted;
    }

    starts_pulling-IsValid :
        (held : List ℕ) (s : ReadableStream F)
        → s.started ≡ true
        → IsValid held s
        → IsValid held (record s { pulling = true; pull_reaction = true })
    starts_pulling-IsValid held s on v = record {
      again = λ _. refl;
      pulls = λ _. on;
      start_reacts = v.start_reacts;
      pull_reacts = λ _. refl;
      owned = v.owned;
      idle = v.idle;
      accounted = v.accounted;
    }

    pub call_pull_if_needed-IsValid :
        (pull : ReadableStream F → Option (ReadableStream F)) (held : List ℕ) (s : ReadableStream F)
        → Keeps pull
        → IsValid held s
        → Ok (IsValid held) (call_pull_if_needed pull s)
    unfolding call_pull_if_needed pulls
    call_pull_if_needed-IsValid pull held s k v =
        Ok-and_then (IsValid held) (should_call_pull s) _ (should_call_pull_lem s) (λ b should.
          if_cases (Ok (IsValid held)) (not b) (λ _. v)
            (λ yes_pull.
              let on = should (ground arith) in
              if_cases (Ok (IsValid held)) s.pulling (λ busy. marked_again-IsValid held s busy v)
                (λ free.
                  if_cases (Ok (IsValid held)) s.pull_again (λ a. absurd (ground (arith, v.again)))
                    (λ _.
                      let w = starts_pulling-IsValid held s on.1 v in
                      if_cases (Ok (IsValid held)) s.pull_algorithm (λ _. k held _ w) (λ _. w)))))

    pub controller_error-IsValid :
        (e : Value) (held : List ℕ) (s : ReadableStream F)
        → IsValid held s
        → Ok (IsValid held) (controller_error e s)
    unfolding controller_error clear_algorithms reset_queue
    controller_error-IsValid e held s v =
        if_cases (Ok (IsValid held)) (is_readable s.state)
          (λ on.
            stream_error-IsValid e held _ on
              (refitted-IsValid _ s.close_requested s.disturbed false false false held s v))
          (λ _. v)

    pub controller_close-IsValid :
        (thens : ℕ → ReadableStream F → Option (ReadableStream F)) (held : List ℕ)
        (s : ReadableStream F)
        → ((p : ℕ) → Keeps (thens p))
        → IsValid held s
        → Ok (IsValid held) (controller_close thens s)
    unfolding controller_close clear_algorithms can_close_or_enqueue
    controller_close-IsValid thens held s k v =
        if_cases (Ok (IsValid held)) (not (can_close_or_enqueue s)) (λ _. v)
          (λ can.
            if_cases (Ok (IsValid held)) (has_any s.container.queue)
              (λ _.
                refitted-IsValid s.container true s.disturbed s.pull_algorithm s.cancel_algorithm
                  s.strategy_size_algorithm held s v)
              (λ _.
                stream_close-IsValid thens held _ k (ground arith)
                  (refitted-IsValid s.container true s.disturbed false false false held s v)))

    enqueue_sized-Answers :
        (pull : ReadableStream F → Option (ReadableStream F)) (x : Value) (answer : Throws F)
        (held : List ℕ) (s : ReadableStream F)
        → Keeps pull
        → IsValid held s
        → Answers held (enqueue_sized pull x answer s)
    unfolding enqueue_sized
    enqueue_sized-Answers pull x (err e) held s k v =
        answered held (controller_error e s) (some e) (controller_error-IsValid e held s v)
    enqueue_sized-Answers pull x (ok n) held s k v =
        throws_cases_eq (Answers held) (enqueue_value_with_size x n s.container)
          (λ c _. answered held _ none (
            call_pull_if_needed-IsValid pull held _ k (
              refitted-IsValid c s.close_requested s.disturbed s.pull_algorithm s.cancel_algorithm
                s.strategy_size_algorithm held s v)))
          (λ e _.
            answered held (controller_error e s) (some e) (controller_error-IsValid e held s v))

    has_request :
        (s : ReadableStream F)
        → has_read_requests s ≡ true
        → (r : ℕ) × (p : ℕ) × (ps : List ℕ) × (s.reader ≡ some r)
          × ((s.readers r).read_requests ≡ p ∷ ps)
    unfolding has_read_requests
    has_request s h = elim (Option-cases s.reader) [
      | inl alone ↦ absurd (ground arith)
      | inr (r, link) ↦ some_request r link (s.readers r).read_requests refl
    ]
      where
        some_request :
            (r : ℕ)
            → s.reader ≡ some r
            → (ps : List ℕ) → (s.readers r).read_requests ≡ ps
            → (r : ℕ) × (p : ℕ) × (ps : List ℕ) × (s.reader ≡ some r)
              × ((s.readers r).read_requests ≡ p ∷ ps)
        some_request r link [] e = absurd (ground (arith, h, link, e))
        some_request r link (p ∷ ps) e = (r, p, ps, link, e)

    pub controller_enqueue-Answers :
        (thens : ℕ → ReadableStream F → Option (ReadableStream F))
        (sizing : ReadableStream F → Option (ReadableStream F)) (answer : Throws F)
        (pull : ReadableStream F → Option (ReadableStream F)) (x : Value) (held : List ℕ)
        (s : ReadableStream F)
        → ((p : ℕ) → Keeps (thens p))
        → Keeps sizing
        → Keeps pull
        → IsValid held s
        → Answers held (controller_enqueue thens sizing answer pull x s)
    unfolding controller_enqueue
    controller_enqueue-Answers thens sizing answer pull x held s k z l v =
        if_cases (Answers held) (not (can_close_or_enqueue s)) (λ _. v)
          (λ can.
            if_cases (Answers held) (is_locked s && has_read_requests s)
              (λ waits.
                let (r, p, ps, link, e) = has_request s (ground arith) in
                Ok-and_then (λ a. IsValid held a.0) (fulfill_read_request thens x s) _
                  (fulfill_read_request-IsValid thens x held s k r link p ps e v)
                  (λ s1 v1.
                    answered held (call_pull_if_needed pull s1) none
                      (call_pull_if_needed-IsValid pull held s1 l v1)))
              (λ _.
                Ok-and_then (λ a. IsValid held a.0)
                  (if s.strategy_size_algorithm then sizing s else some s) _
                  (if_cases (Ok (IsValid held)) s.strategy_size_algorithm (λ _. z held s v)
                    (λ _. v))
                  (λ s1 v1. enqueue_sized-Answers pull x _ held s1 l v1)))
