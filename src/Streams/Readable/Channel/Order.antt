-- ===== src/Streams/Readable/Channel/Order.antt =====
-- The order of chunks through a readable stream (readable/algorithms.rs), over any sequence of calls
-- of `enqueue` by the source and `read` by one reader.
use starlingmonkey_ng.Prelude.{
  ℕ, suc, ◌+◌, ◌<◌, ◌≤◌, ◌≡◌, refl, sym, subst, ◌∙◌, ap, false, Option, none, some, List, [], ◌∷◌,
  ◌++◌, All, ◌&&◌, arith,
}
use mathlib.Core.List.{append-nil, append_assoc}
use starlingmonkey_ng.Streams.Float.{Float}
use starlingmonkey_ng.Streams.QueueWithSizes.{Value, ok}
use starlingmonkey_ng.Streams.Writable.Inv.{Ok, Ok-and_then}
use starlingmonkey_ng.Streams.Readable.{
  ReadableStream, ReadPromise, ReadPromiseState, unresolved, resolved_chunk, is_unresolved,
}
use starlingmonkey_ng.Streams.Readable.Controller.{has_any}
use starlingmonkey_ng.Streams.Readable.Jobs.{
  Calls, none_left, then_calls, enqueues, reads, after, run_call, run_calls,
}
use starlingmonkey_ng.Streams.Readable.Channel.{Carries, Follows, Stepped, Ascending-bounds}
use starlingmonkey_ng.Streams.Readable.Channel.Putting.{Fits, put_waiting, put_holding}
use starlingmonkey_ng.Streams.Readable.Channel.Taking.{take_held, take_waits}

-- The source enqueues a chunk, or the reader reads.
pub data Use : Type 0 where
  put : Value → Use
  take : Use

abbrev pub chunks_put : List Use → List Value
chunks_put [] = []
chunks_put (put v ∷ us) = v ∷ chunks_put us
chunks_put (take ∷ us) = chunks_put us

-- The promises of the reads, when the next one is `p`.
abbrev pub read_promises : ℕ → List Use → List ℕ
read_promises p [] = []
read_promises p (put v ∷ us) = read_promises p us
read_promises p (take ∷ us) = p ∷ read_promises (p + 1) us

-- The first read gets the first chunk, and so on; a read for which there is none
-- is not resolved.
abbrev pub in_order : List Value → List ℕ → List ReadPromiseState
in_order vs [] = []
in_order [] (p ∷ ps) = unresolved ∷ in_order [] ps
in_order (v ∷ vs) (p ∷ ps) = resolved_chunk v ∷ in_order vs ps

Ok-map : {A : Type 0} {P Q : A → Type 0} (o : Option A) → ((a : A) → P a → Q a) → Ok P o → Ok Q o
Ok-map none f h = absurd h
Ok-map (some a) f h = f a h

module _ {F : Type 0} where
  abbrev pub states : ReadableStream F → List ℕ → List ReadPromiseState
  states s [] = []
  states s (p ∷ ps) = (s.promises p).state ∷ states s ps

  -- The calls, of which none runs author code that makes a call; `size_of` is the size algorithm.
  abbrev pub uses : ℕ → (Value → F) → List Use → Calls F
  uses r size_of [] = none_left
  uses r size_of (put v ∷ us) =
      then_calls (enqueues (λ p. none_left) none_left (ok (size_of v)) none_left v)
        (uses r size_of us)
  uses r size_of (take ∷ us) = then_calls (reads (λ p. none_left) none_left r) (uses r size_of us)

  unresolved-states :
      (s : ReadableStream F) (ps : List ℕ)
      → All (λ p. (s.promises p).state ≡ unresolved) ps
      → states s ps ≡ in_order [] ps
  unresolved-states s [] h = refl
  unresolved-states s (p ∷ ps) h = cc (h.0, unresolved-states s ps h.1)

  after-Ok :
      {A : Type 0} (P : ReadableStream F → Type 0) (o : Option (ReadableStream F × A))
      → Ok (λ a. P a.0) o
      → Ok P (after o)
  after-Ok P none h = absurd h
  after-Ok P (some a) h = h

  -- What the calls leave of the stream, from one that holds these chunks, where these reads wait.
  abbrev Outcome : List Value → List ℕ → List Use → ReadableStream F → ReadableStream F → Type 0
  Outcome chunks asked us s t =
      (states t (asked ++ read_promises s.next_promise us)
        ≡ in_order (chunks ++ chunks_put us) (asked ++ read_promises s.next_promise us))
      × ((p : ℕ)
          → p < s.next_promise
          → is_unresolved (s.promises p).state ≡ false
          → t.promises p ≡ s.promises p)

  -- A read that was answered before the rest of the calls has the answer after them.
  answered-state :
      (p : ℕ) (v : Value) (s t u : ReadableStream F) (n : ℕ)
      → p < n
      → (t.promises p).state ≡ resolved_chunk v
      → Follows n s t
      → ((q : ℕ)
          → q < t.next_promise
          → is_unresolved (t.promises q).state ≡ false
          → u.promises q ≡ t.promises q)
      → (u.promises p).state ≡ resolved_chunk v
  answered-state p v s t u n l e f h =
      ap (λ (q : ReadPromise). q.state) (h p (omega (arith, f.next, l)) (ap is_unresolved e)) ∙ e

  -- What promises were resolved with stays so.
  stays :
      (s t u : ReadableStream F) (n : ℕ)
      → s.next_promise ≤ n
      → Follows n s t
      → ((q : ℕ)
          → q < t.next_promise
          → is_unresolved (t.promises q).state ≡ false
          → u.promises q ≡ t.promises q)
      → (p : ℕ) → p < s.next_promise
      → is_unresolved (s.promises p).state ≡ false
      → u.promises p ≡ s.promises p
  stays s t u n le f g p l h =
      g p (omega (arith, f.next)) (cc (f.settled p l h, h)) ∙ f.settled p l h

  module _ ⦃fl : Float F⦄ (r : ℕ) (size_of : Value → F) (fits : (v : Value) → Fits (size_of v))
      (one_fits : Fits fl.one) where
    uses-Outcome :
        (us : List Use) (chunks : List Value) (asked : List ℕ) (s : ReadableStream F)
        → (has_any chunks && has_any asked) ≡ false
        → Carries r chunks asked s
        → Ok (Outcome chunks asked us s) (run_calls (uses r size_of us) s)
    unfolding run_calls run_call
    uses-Outcome [] chunks [] s h c = (refl, λ p l e. refl)
    uses-Outcome [] [] (w ∷ ws) s h c = (
      subst (λ ps. states s ps ≡ in_order [] ps) (sym (append-nil (w ∷ ws)))
          (unresolved-states s (w ∷ ws) c.unanswered),
      λ p l e. refl,
    )
    uses-Outcome us (b ∷ bs) (w ∷ ws) s h c = absurd (cc (h))
    uses-Outcome (put v ∷ us) [] (w ∷ ws) s h c =
        Ok-and_then (Outcome [] (w ∷ ws) (put v ∷ us) s) _ (run_calls (uses r size_of us))
          (after-Ok (Stepped r [] ws s.next_promise s (λ ps. (ps w).state ≡ resolved_chunk v)) _
            (put_waiting r w ws (size_of v) v s c))
          (λ t (c', f, e).
            Ok-map (run_calls (uses r size_of us) t)
              (λ u (same, kept). (
                cc (
                  same,
                  f.next,
                  answered-state w v s t u s.next_promise
                      (omega (arith, Ascending-bounds (suc w) s.next_promise ws c.ascending.1)) e f
                      kept,
                ),
                stays s t u s.next_promise (omega arith) f kept,
              ))
              (uses-Outcome us [] ws t refl c'))
    uses-Outcome (put v ∷ us) chunks [] s h c =
        Ok-and_then (Outcome chunks [] (put v ∷ us) s) _ (run_calls (uses r size_of us))
          (after-Ok (Stepped r (chunks ++ v ∷ []) [] s.next_promise s (λ ps. Unit)) _
            (put_holding r chunks (size_of v) v s (fits v) one_fits c))
          (λ t (c', f, e).
            Ok-map (run_calls (uses r size_of us) t)
              (λ u (same, kept). (
                cc (same, f.next, append_assoc chunks (v ∷ []) (chunks_put us)),
                stays s t u s.next_promise (omega arith) f kept,
              ))
              (uses-Outcome us (chunks ++ v ∷ []) [] t (ground arith) c'))
    uses-Outcome (take ∷ us) (b ∷ bs) [] s h c =
        Ok-and_then (Outcome (b ∷ bs) [] (take ∷ us) s) _ (run_calls (uses r size_of us))
          (after-Ok
            (Stepped r bs [] (s.next_promise + 1) s
              (λ ps. (ps s.next_promise).state ≡ resolved_chunk b))
            _ (take_held r b bs s c))
          (λ t (c', f, e).
            Ok-map (run_calls (uses r size_of us) t)
              (λ u (same, kept). (
                cc (
                  same,
                  f.next,
                  answered-state s.next_promise b s t u (s.next_promise + 1) (omega arith) e f kept,
                ),
                stays s t u (s.next_promise + 1) (omega arith) f kept,
              ))
              (uses-Outcome us bs [] t (ground arith) c'))
    uses-Outcome (take ∷ us) [] asked s h c =
        Ok-and_then (Outcome [] asked (take ∷ us) s) _ (run_calls (uses r size_of us))
          (after-Ok
            (Stepped r [] (asked ++ s.next_promise ∷ []) (s.next_promise + 1) s (λ ps. Unit)) _
            (take_waits r asked s c))
          (λ t (c', f, e).
            Ok-map (run_calls (uses r size_of us) t)
              (λ u (same, kept). (
                cc (
                  same,
                  f.next,
                  append_assoc asked (s.next_promise ∷ []) (read_promises (s.next_promise + 1) us),
                ),
                stays s t u (s.next_promise + 1) (omega arith) f kept,
              ))
              (uses-Outcome us [] (asked ++ s.next_promise ∷ []) t refl c'))

    -- Let a readable stream be open, hold no chunk and have a reader without read requests, and let
    -- every size that the size algorithm gives and the size one be one that a queue takes. Then
    -- whatever sequence of `enqueue` by the source and `read` by the reader follows, none of which
    -- runs author code that calls a method of the stream: no call panics, and the first of these
    -- reads is resolved with the first of the chunks, the second with the second, and so on, whichever
    -- came first; a read for which there is no chunk is not resolved.
    pub reads_in_order :
        (us : List Use) (s : ReadableStream F)
        → Carries r [] [] s
        → (t : ReadableStream F) × (run_calls (uses r size_of us) s ≡ some t)
          × (states t (read_promises s.next_promise us)
              ≡ in_order (chunks_put us) (read_promises s.next_promise us))
    reads_in_order us s c = there_is _ (uses-Outcome us [] [] s refl c)
      where
        there_is :
            (o : Option (ReadableStream F))
            → Ok (Outcome [] [] us s) o
            → (t : ReadableStream F) × (o ≡ some t)
              × (states t (read_promises s.next_promise us)
                  ≡ in_order (chunks_put us) (read_promises s.next_promise us))
        there_is none h = absurd h
        there_is (some t) h = (t, refl, h.0)
