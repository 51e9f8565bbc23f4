-- ===== src/Streams/Readable/Channel.antt =====
-- A readable stream as a channel: the chunks that it holds and the reads that wait for one, and the
-- steps of the default controller on them (readable/algorithms.rs) when author code makes no call.
pub mod Putting
pub mod Taking
pub mod Order
use starlingmonkey_ng.Prelude.{
  ℕ, suc, ◌+◌, ◌≤◌, ◌<◌, ◌≡◌, refl, sym, ◌∙◌, Bool, true, false, not, ◌&&◌, Option, none, some,
  List, [], ◌∷◌, ◌++◌, All, if◌then◌else◌, ◌==◌, is_some, arith, option_cases_eq, if_cases,
}
use starlingmonkey_ng.Streams.Float.{Float}
use starlingmonkey_ng.Streams.QueueWithSizes.{Value, ValueWithSize, QueueWithSizes}
use starlingmonkey_ng.Streams.Writable.{and_then}
use starlingmonkey_ng.Streams.Writable.Inv.{Ok, Ok-and_then}
use starlingmonkey_ng.Streams.Readable.{
  ReadableStream, ReadPromise, ReadPromiseState, readable, unresolved, is_readable, is_unresolved,
  is_locked, resolve_with,
}
use starlingmonkey_ng.Streams.Readable.Controller.{
  has_any, value_of, can_close_or_enqueue, has_read_requests, get_desired_size, should_call_pull,
  pulls, call_pull_if_needed,
}
use starlingmonkey_ng.Streams.Readable.Controller.Reading.{some-Ok}

abbrev pub values : {F : Type 0} → List (ValueWithSize F) → List Value
values [] = []
values (x ∷ xs) = value_of x ∷ values xs

pub values-append :
    {F : Type 0} (xs ys : List (ValueWithSize F)) → values (xs ++ ys) ≡ values xs ++ values ys
values-append [] ys = refl
values-append (x ∷ xs) ys = grind (arith, values-append xs ys)

-- Read requests in the order in which their promises were made.
abbrev pub Ascending : ℕ → ℕ → List ℕ → Type 0
Ascending low high [] = low ≤ high
Ascending low high (p ∷ ps) = (low ≤ p) × Ascending (suc p) high ps

pub Ascending-append :
    (low high : ℕ) (ps : List ℕ)
    → Ascending low high ps
    → Ascending low (high + 1) (ps ++ high ∷ [])
Ascending-append low high [] h = (h, omega arith)
Ascending-append low high (p ∷ ps) h = (h.0, Ascending-append (suc p) high ps h.1)

pub Ascending-lower :
    (a low high : ℕ) (ps : List ℕ) → a ≤ low → Ascending low high ps → Ascending a high ps
Ascending-lower a low high [] h asc = omega arith
Ascending-lower a low high (p ∷ ps) h asc = (omega (arith, asc.0), asc.1)

pub Ascending-bounds : (low high : ℕ) (ps : List ℕ) → Ascending low high ps → low ≤ high
Ascending-bounds low high [] h = h
Ascending-bounds low high (p ∷ ps) h = omega (arith, h.0, Ascending-bounds (suc p) high ps h.1)

pub All-between :
    {P Q : ℕ → Type 0} (low high : ℕ) (ps : List ℕ)
    → Ascending low high ps
    → ((q : ℕ) → low ≤ q → q < high → P q → Q q)
    → All P ps
    → All Q ps
All-between low high [] asc f h = tt
All-between low high (p ∷ ps) asc f h = (
  f p asc.0 (omega (arith, Ascending-bounds (suc p) high ps asc.1)) h.0,
  All-between (suc p) high ps asc.1 (λ q l u. f q (omega (arith, asc.0)) u) h.1,
)

-- The stream is open with a reader, holds these chunks, and these reads wait.
pub record Carries {F : Type 0} (r : ℕ) (chunks : List Value) (reads : List ℕ)
    (s : ReadableStream F) : Type 0 where
  pub opened : s.state ≡ readable
  pub locked : s.reader ≡ some r
  pub owned : (s.readers r).stream ≡ true
  pub accepts : s.close_requested ≡ false
  pub again : s.pull_again ≡ true → s.pulling ≡ true
  pub holds : values s.container.queue ≡ chunks
  pub asked : (s.readers r).read_requests ≡ reads
  pub ascending : Ascending 0 s.next_promise reads
  pub unanswered : All (λ p. (s.promises p).state ≡ unresolved) reads

-- The next promise is `n`, and those that were answered in `s` are as they were.
pub record Follows {F : Type 0} (n : ℕ) (s t : ReadableStream F) : Type 0 where
  pub next : t.next_promise ≡ n
  pub settled :
      (p : ℕ)
      → p < s.next_promise
      → is_unresolved (s.promises p).state ≡ false
      → t.promises p ≡ s.promises p

-- What a call leaves: with the promises satisfying `E`.
abbrev pub Stepped :
    {F : Type 0}
    → ℕ
    → List Value
    → List ℕ
    → ℕ
    → ReadableStream F
    → ((ℕ → ReadPromise) → Type 0)
    → ReadableStream F
    → Type 0
Stepped r chunks reads n s E t = Carries r chunks reads t × Follows n s t × E t.promises

pub Ok-answered :
    {S A : Type 0} (P : S → Type 0) (o : Option S) (a : A)
    → Ok P o
    → Ok (λ (x : S × A). P x.0) (and_then o (λ s. some (s, a)))
Ok-answered P none a h = absurd h
Ok-answered P (some s) a h = h

module _ {F : Type 0} where
  flags-Carries :
      (r : ℕ) (chunks : List Value) (reads : List ℕ) (a b c d : Bool) (s : ReadableStream F)
      → (b ≡ true → a ≡ true)
      → Carries r chunks reads s
      → Carries r chunks reads
          (record s { pulling = a; pull_again = b; pull_reaction = c; disturbed = d })
  flags-Carries r chunks reads a b c d s h v = record {
    opened = v.opened;
    locked = v.locked;
    owned = v.owned;
    accepts = v.accepts;
    again = h;
    holds = v.holds;
    asked = v.asked;
    ascending = v.ascending;
    unanswered = v.unanswered;
  }

  flags-Stepped :
      (r : ℕ) (chunks : List Value) (reads : List ℕ) (n : ℕ) (s : ReadableStream F)
      (E : (ℕ → ReadPromise) → Type 0) (a b c : Bool) (t : ReadableStream F)
      → (b ≡ true → a ≡ true)
      → Stepped r chunks reads n s E t
      → Stepped r chunks reads n s E (record t { pulling = a; pull_again = b; pull_reaction = c })
  flags-Stepped r chunks reads n s E a b c t h (v, f, e) = (
    flags-Carries r chunks reads a b c t.disturbed t h v,
    record { next = f.next; settled = f.settled },
    e,
  )

  pub Carries-open :
      (r : ℕ) (chunks : List Value) (reads : List ℕ) (s : ReadableStream F)
      → Carries r chunks reads s
      → can_close_or_enqueue s ≡ true
  unfolding can_close_or_enqueue
  Carries-open r chunks reads s v = ground (arith, v.opened, v.accepts)

  pub Carries-requests :
      (r : ℕ) (chunks : List Value) (reads : List ℕ) (s : ReadableStream F)
      → Carries r chunks reads s
      → (is_locked s && has_read_requests s) ≡ has_any reads
  unfolding is_locked has_read_requests
  Carries-requests r chunks reads s v = ground (arith, v.locked, v.asked)

  module _ ⦃fl : Float F⦄ where
    should_call_pull-some :
        (s : ReadableStream F) → is_readable s.state ≡ true → is_some (should_call_pull s) ≡ true
    unfolding should_call_pull get_desired_size
    should_call_pull-some s on = ground arith

    -- The pull algorithm is called, or is to be called again, or neither.
    pub call_pull_if_needed_cases :
        (P : ReadableStream F → Type 0) (s : ReadableStream F)
        → is_readable s.state ≡ true
        → (s.pull_again ≡ true → s.pulling ≡ true)
        → P s
        → (s.pulling ≡ true → P (record s { pull_again = true }))
        → P (record s { pulling = true; pull_reaction = true })
        → Ok P (call_pull_if_needed some s)
    unfolding call_pull_if_needed pulls
    call_pull_if_needed_cases P s on again p busy starts =
        some-Ok P (should_call_pull s) _ (should_call_pull-some s on) (λ b.
          if_cases (Ok P) (not b) (λ _. p)
            (λ _. if_cases (Ok P) s.pulling busy (λ free.
              if_cases (Ok P) s.pull_again (λ a. absurd (ground (arith, again)))
                (λ _. if_cases (Ok P) s.pull_algorithm (λ _. starts) (λ _. starts)))))

    pub pull-Stepped :
        (r : ℕ) (chunks : List Value) (reads : List ℕ) (n : ℕ) (s : ReadableStream F)
        (E : (ℕ → ReadPromise) → Type 0) (t : ReadableStream F)
        → Stepped r chunks reads n s E t
        → Ok (Stepped r chunks reads n s E) (call_pull_if_needed some t)
    pull-Stepped r chunks reads n s E t (v, f, e) =
        call_pull_if_needed_cases (Stepped r chunks reads n s E) t (ground (arith, v.opened))
          v.again (v, f, e)
          (λ busy.
            flags-Stepped r chunks reads n s E t.pulling true t.pull_reaction t (λ _. busy)
              (v, f, e))
          (flags-Stepped r chunks reads n s E true t.pull_again true t (λ _. refl) (v, f, e))
