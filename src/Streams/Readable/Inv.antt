-- ===== src/Streams/Readable/Inv.antt =====
-- The invariant of a readable stream.
pub mod Ending
use starlingmonkey_ng.Prelude.{
  ℕ, ◌+◌, ◌≡◌, refl, sym, subst, ◌∙◌, ap, Bool, true, false, not, ◌&&◌, ◌||◌, Option, none, some,
  List, [], ◌∷◌, ◌++◌, if◌then◌else◌, ◌==◌, is_some, arith, option_cases_eq, if_cases, mem,
}
use starlingmonkey_ng.Streams.Float.{Float}
use starlingmonkey_ng.Streams.QueueWithSizes.{Value}
use starlingmonkey_ng.Streams.Writable.{and_then}
use starlingmonkey_ng.Streams.Writable.Inv.{Ok, Ok-and_then, Ok-then}
use starlingmonkey_ng.Streams.Readable.{
  ReadableStream, ReadPromiseState, unresolved, resolved_done, resolved_chunk, rejected, resolved,
  closed, errored, is_readable, is_unresolved, resolve_with, set_requests, chunk_steps, close_steps,
  close_each, error_steps, error_each, stream_close, stream_error, error_read_requests,
  add_read_request, fulfill_read_request,
}

abbrev pub is_unresolved_read : {F : Type 0} → ℕ → ReadableStream F → Bool
is_unresolved_read p s = (s.promises p).is_read && is_unresolved (s.promises p).state

-- The read requests of the stream's reader.
abbrev pub waiting : {F : Type 0} → ReadableStream F → List ℕ
waiting s = elim s.reader [ none ↦ [] | some r ↦ (s.readers r).read_requests ]

-- `held` are reads that a step under way has taken to answer them.
pub record IsValid {F : Type 0} (held : List ℕ) (s : ReadableStream F) : Type 0 where
  pub again : s.pull_again ≡ true → s.pulling ≡ true
  pub pulls : s.pulling ≡ true → s.started ≡ true
  pub start_reacts : s.start_reaction ≡ true → s.started ≡ false
  pub pull_reacts : s.pull_reaction ≡ true → s.pulling ≡ true
  pub owned : (r : ℕ) → (s.readers r).stream ≡ true → s.reader ≡ some r
  pub idle : is_readable s.state ≡ false → waiting s ≡ []
  pub accounted : (p : ℕ) → is_unresolved_read p s ≡ true → (mem p (waiting s) || mem p held) ≡ true

-- Author code keeps the invariant, whatever is under way around it.
abbrev pub Keeps : {F : Type 0} → (ReadableStream F → Option (ReadableStream F)) → Type 0
Keeps author =
    (held : List ℕ) (s : ReadableStream _) → IsValid held s → Ok (IsValid held) (author s)

-- A method that answers, and after which the invariant holds.
abbrev pub Answers : {F A : Type 0} → List ℕ → Option (ReadableStream F × A) → Type 0
Answers held = Ok (λ r. IsValid held r.0)

module _ {F : Type 0} where
  resolve_held-IsValid :
      (to : ReadPromiseState) (p : ℕ) (held : List ℕ) (s : ReadableStream F)
      → is_unresolved to ≡ false
      → IsValid (p ∷ held) s
      → IsValid held (resolve_with to p s)
  resolve_held-IsValid to p held s h v = record {
    again = v.again;
    pulls = v.pulls;
    start_reacts = v.start_reacts;
    pull_reacts = v.pull_reacts;
    owned = v.owned;
    idle = v.idle;
    accounted = λ q. ground (arith, v.accounted q, h);
  }

  pub chunk_steps-IsValid :
      (thens : ℕ → ReadableStream F → Option (ReadableStream F)) (chunk : Value) (p : ℕ)
      (held : List ℕ) (s : ReadableStream F)
      → ((p : ℕ) → Keeps (thens p))
      → IsValid (p ∷ held) s
      → Ok (IsValid held) (chunk_steps thens chunk p s)
  unfolding chunk_steps
  chunk_steps-IsValid thens chunk p held s k v =
      k p held _ (resolve_held-IsValid (resolved_chunk chunk) p held s refl v)

  pub close_steps-IsValid :
      (thens : ℕ → ReadableStream F → Option (ReadableStream F)) (p : ℕ) (held : List ℕ)
      (s : ReadableStream F)
      → ((p : ℕ) → Keeps (thens p))
      → IsValid (p ∷ held) s
      → Ok (IsValid held) (close_steps thens p s)
  unfolding close_steps
  close_steps-IsValid thens p held s k v =
      k p held _ (resolve_held-IsValid resolved_done p held s refl v)

  pub error_steps-IsValid :
      (e : Value) (p : ℕ) (held : List ℕ) (s : ReadableStream F)
      → IsValid (p ∷ held) s
      → IsValid held (error_steps e p s)
  unfolding error_steps
  error_steps-IsValid e p held s v = resolve_held-IsValid (rejected e) p held s refl v

  pub close_each-IsValid :
      (thens : ℕ → ReadableStream F → Option (ReadableStream F)) (ps held : List ℕ)
      (s : ReadableStream F)
      → ((p : ℕ) → Keeps (thens p))
      → IsValid (ps ++ held) s
      → Ok (IsValid held) (close_each thens ps s)
  unfolding close_each
  close_each-IsValid thens [] held s k v = v
  close_each-IsValid thens (p ∷ ps) held s k v =
      Ok-and_then (IsValid held) (close_steps thens p s) _
        (close_steps-IsValid thens p (ps ++ held) s k v)
        (λ s' v'. close_each-IsValid thens ps held s' k v')

  pub error_each-IsValid :
      (e : Value) (ps held : List ℕ) (s : ReadableStream F)
      → IsValid (ps ++ held) s
      → IsValid held (error_each e ps s)
  unfolding error_each
  error_each-IsValid e [] held s v = v
  error_each-IsValid e (p ∷ ps) held s v =
      error_each-IsValid e ps held (error_steps e p s) (error_steps-IsValid e p (ps ++ held) s v)
