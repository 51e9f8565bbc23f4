-- ===== src/Streams/Writable/Api/Refusals.antt =====
-- What a writer's methods answer (writable/default_writer.rs of crates/builtins/web-streams/src):
-- the desired size, and a write that is refused.
use starlingmonkey_ng.Prelude.{
  ℕ, ◌≡◌, refl, sym, subst, true, false, not, ◌&&◌, Option, none, some, arith, if◌then◌else◌,
  if_cases,
}
use starlingmonkey_ng.Streams.Float.{Float}
use starlingmonkey_ng.Streams.QueueWithSizes.{Value, type_error, Throws, ok}
use starlingmonkey_ng.Streams.Writable.{
  Stream, writable, closed, erroring, errored, rejected, is_writable, add_promise,
  close_queued_or_in_flight, and_then,
}
use starlingmonkey_ng.Streams.Writable.Cases.{state_cases_eq}
use starlingmonkey_ng.Streams.Writable.Controller.{get_chunk_size, controller_write}
use starlingmonkey_ng.Streams.Writable.Api.{
  Answer, write, write_sized, answer_settled, answered, add_write_request,
}

module _ {F : Type 0} ⦃fl : Float F⦄ where
  -- The answer of a refusal: a promise that is already rejected, and nothing else is changed.
  abbrev Refused : Stream F → Answer F → Type 0
  Refused s a = (e : Value) × (a ≡ answer_settled e s)

  write_sized-Refused :
      (w : ℕ) (v : Value) (n : F) (author : Stream F → Option (Stream F)) (s : Stream F)
      → is_writable s.state && not (close_queued_or_in_flight s) ≡ false
      → Refused s (write_sized w v n author s)
  unfolding write_sized
  write_sized-Refused w v n author s shut =
      if_cases (Refused s) (s.writers w).stream
        (λ bound.
          state_cases_eq (Refused s) s.state (λ e. open_case) (λ e. (_, refl)) (λ e. open_case)
            (λ e. open_case))
        (λ h. (_, refl))
    where
      by_state : Answer F
      by_state = elim s.state [
        | closed ↦ answer_settled type_error s
        | erroring ↦ answer_settled s.stored_error s
        | writable ↦
            answered s.next_promise
              (and_then (add_write_request s) (λ s'. controller_write v n author s'))
        | errored ↦ answer_settled s.stored_error s
      ]

      open_case :
          Refused s (if close_queued_or_in_flight s then answer_settled type_error s else by_state)
      open_case =
          if_cases (Refused s) (close_queued_or_in_flight s) (λ h. (_, refl))
            (λ h.
              state_cases_eq (Refused s) s.state (λ i. (_, refl)) (λ i. (_, refl)) (λ i. (_, refl))
                (λ i. absurd (ground arith)))

  -- A write to a stream that is closing, or that is not writable, when it asks no size algorithm and
  -- the writer has the stream: the answer is a promise that is already rejected, no algorithm of the
  -- sink runs, and the stream is otherwise as it was.
  pub write_refused :
      (w : ℕ) (v : Value) (sizing : Stream F → Option (Stream F)) (answer : Throws F)
      (author : Stream F → Option (Stream F)) (s : Stream F)
      → (s.writers w).stream ≡ true
      → s.strategy_size_algorithm ≡ false
      → is_writable s.state && not (close_queued_or_in_flight s) ≡ false
      → (e : Value) × (write w v sizing answer author s
          ≡ some (add_promise (rejected e) s, ok s.next_promise))
  unfolding write get_chunk_size
  write_refused w v sizing answer author s bound plain shut =
      if_cases (Refused s) (s.writers w).stream
        (λ h. sized (get_chunk_size sizing answer author s) (ground arith))
        (λ h. absurd (ground arith))
    where
      sized :
          (o : Option (Stream F × F))
          → o ≡ some (s, fl.one)
          → Refused s (elim o as (λ _. Answer F) [
            | none ↦ none
            | some (s', n) ↦ write_sized w v n author s'
          ])
      sized o e =
          subst
            (λ o. Refused s (elim o as (λ _. Answer F) [
              | none ↦ none
              | some (s', n) ↦ write_sized w v n author s'
            ]))
            (sym e) (write_sized-Refused w v fl.one author s shut)
