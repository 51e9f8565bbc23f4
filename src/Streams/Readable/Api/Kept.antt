-- ===== src/Streams/Readable/Api/Kept.antt =====
-- Lemmas on the methods of a readable stream and its readers that get, release and read, for the
-- invariant.
use starlingmonkey_ng.Prelude.{
  mem-append, ℕ, ◌≡◌, refl, true, false, Option, none, some, List, ◌∷◌, ◌++◌, arith, if_cases,
}
use starlingmonkey_ng.Streams.Float.{Float}
use starlingmonkey_ng.Streams.QueueWithSizes.{type_error, ok}
use starlingmonkey_ng.Streams.Writable.Inv.{Ok}
use starlingmonkey_ng.Streams.Readable.{
  ReadableStream, ReadableStreamState, readable, closed, errored, ReadPromiseState, unresolved,
  is_locked, add_promise,
}
use starlingmonkey_ng.Streams.Readable.Inv.{
  IsValid, Answers, Keeps, close_steps-IsValid, error_steps-IsValid,
}
use starlingmonkey_ng.Streams.Readable.Inv.Ending.{error_read_requests-IsValid}
use starlingmonkey_ng.Streams.Readable.Controller.Kept.{refitted-IsValid, answered}
use starlingmonkey_ng.Streams.Readable.Controller.Reading.{pull_steps-IsValid}
use starlingmonkey_ng.Streams.Readable.Api.{
  get_reader, generic_release, release_lock, default_reader_read, read,
}

pub state_cases_eq :
    {B : Type 0} (P : B → Type 0) (st : ReadableStreamState) {a b c : B}
    → (st ≡ closed → P a)
    → (st ≡ errored → P b)
    → (st ≡ readable → P c)
    → P (elim st [ closed ↦ a | errored ↦ b | readable ↦ c ])
state_cases_eq P closed a b c = a refl
state_cases_eq P errored a b c = b refl
state_cases_eq P readable a b c = c refl

module _ {F : Type 0} where
  -- A promise that is no read's is added.
  pub added-IsValid :
      (st : ReadPromiseState) (held : List ℕ) (s : ReadableStream F)
      → IsValid held s
      → IsValid held (add_promise false st s)
  added-IsValid st held s v = record {
    again = v.again;
    pulls = v.pulls;
    start_reacts = v.start_reacts;
    pull_reacts = v.pull_reacts;
    owned = v.owned;
    idle = v.idle;
    accounted = λ q. ground (arith, v.accounted q);
  }

  -- A read is under way from its start.
  begun-IsValid :
      (held : List ℕ) (s : ReadableStream F)
      → IsValid held s
      → IsValid (s.next_promise ∷ held) (add_promise true unresolved s)
  begun-IsValid held s v = record {
    again = v.again;
    pulls = v.pulls;
    start_reacts = v.start_reacts;
    pull_reacts = v.pull_reacts;
    owned = v.owned;
    idle = v.idle;
    accounted = λ q. ground (arith, v.accounted q);
  }

  pub get_reader-Answers :
      (held : List ℕ) (s : ReadableStream F) → IsValid held s → Answers held (get_reader s)
  unfolding get_reader is_locked
  get_reader-Answers held s v =
      if_cases (Answers held) (is_locked s) (λ _. v)
        (λ free. record {
          again = v.again;
          pulls = v.pulls;
          start_reacts = v.start_reacts;
          pull_reacts = v.pull_reacts;
          owned = λ r. ground (arith, v.owned r);
          idle = λ off. ground arith;
          accounted = λ q. ground (arith, v.accounted q);
        })

  generic_release-IsValid :
      (r : ℕ) (held : List ℕ) (s : ReadableStream F)
      → (s.readers r).stream ≡ true
      → IsValid held s
      → IsValid (((generic_release r s).readers r).read_requests ++ held) (generic_release r s)
  unfolding generic_release
  generic_release-IsValid r held s on v = record {
    again = ground (arith, v.again);
    pulls = ground (arith, v.pulls);
    start_reacts = ground (arith, v.start_reacts);
    pull_reacts = ground (arith, v.pull_reacts);
    owned = λ q. ground (arith, v.owned q, v.owned r);
    idle = λ off. ground arith;
    accounted = λ q.
        ground (arith, v.accounted q, v.owned r, mem-append q (s.readers r).read_requests held);
  }

  generic_release-alone : (r : ℕ) (s : ReadableStream F) → (generic_release r s).reader ≡ none
  unfolding generic_release
  generic_release-alone r s = refl

  pub release_lock-IsValid :
      (r : ℕ) (held : List ℕ) (s : ReadableStream F)
      → IsValid held s
      → IsValid held (release_lock r s)
  unfolding release_lock
  release_lock-IsValid r held s v =
      if_cases (IsValid held) (s.readers r).stream
        (λ on.
          error_read_requests-IsValid r type_error held (generic_release r s)
            (generic_release-alone r s) (generic_release-IsValid r held s on v))
        (λ _. v)

  module _ ⦃fl : Float F⦄ where
    pub disturbed-IsValid :
        (held : List ℕ) (s : ReadableStream F)
        → IsValid held s
        → IsValid held (record s { disturbed = true })
    disturbed-IsValid held s v =
        refitted-IsValid s.container s.close_requested true s.pull_algorithm s.cancel_algorithm
          s.strategy_size_algorithm held s v

    default_reader_read-IsValid :
        (thens : ℕ → ReadableStream F → Option (ReadableStream F))
        (pull : ReadableStream F → Option (ReadableStream F)) (p r : ℕ) (held : List ℕ)
        (s : ReadableStream F)
        → ((p : ℕ) → Keeps (thens p))
        → Keeps pull
        → s.reader ≡ some r
        → IsValid (p ∷ held) s
        → Ok (IsValid held) (default_reader_read thens pull p s)
    unfolding default_reader_read
    default_reader_read-IsValid thens pull p r held s k l link v =
        let w = disturbed-IsValid (p ∷ held) s v in
        state_cases_eq (Ok (IsValid held)) s.state (λ _. close_steps-IsValid thens p held _ k w)
          (λ _. error_steps-IsValid s.stored_error p held _ w)
          (λ on. pull_steps-IsValid thens pull p r held _ k l link (ground arith) w)

    pub read-Answers :
        (thens : ℕ → ReadableStream F → Option (ReadableStream F))
        (pull : ReadableStream F → Option (ReadableStream F)) (r : ℕ) (held : List ℕ)
        (s : ReadableStream F)
        → ((p : ℕ) → Keeps (thens p))
        → Keeps pull
        → IsValid held s
        → Answers held (read thens pull r s)
    unfolding read
    read-Answers thens pull r held s k l v =
        if_cases (Answers held) (s.readers r).stream
          (λ on. answered held _ (ok s.next_promise) (
            default_reader_read-IsValid thens pull s.next_promise r held _ k l (v.owned r on)
              (begun-IsValid held s v)))
          (λ _. v)
