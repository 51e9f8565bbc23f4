-- ===== src/Streams/Writable/Api/Writes.antt =====
-- Lemmas on the methods that write to a writable stream or error it (writable/ of
-- crates/builtins/web-streams/src), for the invariant.
use starlingmonkey_ng.Prelude.{
  ℕ, ◌≡◌, true, false, ◌&&◌, Option, none, some, arith, if◌then◌else◌, if_cases,
}
use starlingmonkey_ng.Streams.Float.{Float}
use starlingmonkey_ng.Streams.QueueWithSizes.{Value, type_error, Throws}
use starlingmonkey_ng.Streams.Writable.{
  Stream, WritableStreamState, writable, errored, closed, erroring, and_then, is_writable,
  close_queued_or_in_flight, is_locked,
}
use starlingmonkey_ng.Streams.Writable.Cases.{state_cases_eq}
use starlingmonkey_ng.Streams.Writable.Inv.{IsValid, Ok, Ok-then, Keeps}
use starlingmonkey_ng.Streams.Writable.Controller.{
  controller_write, get_chunk_size, error_if_needed,
}
use starlingmonkey_ng.Streams.Writable.Controller.Writing.{
  IsValid-error_if_needed, get_chunk_size-IsValid, controller_write-IsValid,
}
use starlingmonkey_ng.Streams.Writable.Api.{
  Answer, answered, answer_settled, add_write_request, write_sized, write, error,
}
use starlingmonkey_ng.Streams.Writable.Api.Locking.{Answers}
use starlingmonkey_ng.Streams.Writable.Api.Closing.{answered-Answers, add_promise-IsValid}

module _ {F : Type 0} ⦃fl : Float F⦄ where
  requested_and_written :
      (v : Value) (n : F) (author : Stream F → Option (Stream F)) (s : Stream F)
      → Keeps author
      → is_locked s ≡ true
      → s.state ≡ writable
      → close_queued_or_in_flight s ≡ false
      → IsValid s
      → Ok IsValid (and_then (add_write_request s) (λ s'. controller_write v n author s'))
  unfolding add_write_request
  requested_and_written v n author s k locked on not_closing u =
      Ok-then IsValid (add_write_request s) _ (
        if_cases (Ok _) (is_locked s && is_writable s.state)
          (λ h. controller_write-IsValid v n author s k u.coherent (ground arith) not_closing)
          (λ h. absurd (ground arith)))

  write_sized-Answers :
      (w : ℕ) (v : Value) (n : F) (author : Stream F → Option (Stream F)) (s : Stream F)
      → Keeps author
      → IsValid s
      → Answers (write_sized w v n author s)
  unfolding write_sized is_locked
  write_sized-Answers w v n author s k u =
      if_cases Answers (s.writers w).stream
        (λ bound.
          state_cases_eq Answers s.state (unless_closing bound) (λ e. settles _)
            (unless_closing bound) (unless_closing bound))
        (λ h. settles _)
    where
      settles : (e : Value) → Answers (answer_settled e s)
      settles e = add_promise-IsValid _ s u

      by_state : Answer F
      by_state = elim s.state [
        | closed ↦ answer_settled type_error s
        | erroring ↦ answer_settled s.stored_error s
        | writable ↦
            answered s.next_promise
              (and_then (add_write_request s) (λ s'. controller_write v n author s'))
        | errored ↦ answer_settled s.stored_error s
      ]

      unless_closing :
          (s.writers w).stream ≡ true
          → {st : WritableStreamState} → s.state ≡ st
          → Answers (if close_queued_or_in_flight s then answer_settled type_error s else by_state)
      unless_closing bound e =
          if_cases Answers (close_queued_or_in_flight s) (λ h. settles _)
            (λ h.
              state_cases_eq Answers s.state (λ i. settles _) (λ i. settles _) (λ i. settles _)
                (λ i. answered-Answers s.next_promise _ (
                  requested_and_written v n author s k (ground (arith, u.coherent.owned w bound)) i
                    h u)))

  pub write-Answers :
      (w : ℕ) (v : Value) (sizing : Stream F → Option (Stream F)) (answer : Throws F)
      (author : Stream F → Option (Stream F)) (s : Stream F)
      → Keeps sizing
      → Keeps author
      → IsValid s
      → Answers (write w v sizing answer author s)
  unfolding write
  write-Answers w v sizing answer author s k k' u =
      if_cases Answers (s.writers w).stream
        (λ h.
          sized (get_chunk_size sizing answer author s)
            (get_chunk_size-IsValid sizing answer author s k k' u))
        (λ h. u)
    where
      sized :
          (o : Option (Stream F × F))
          → Ok (λ r. IsValid r.0) o
          → Answers (elim o as (λ _. Answer F) [
            | none ↦ none
            | some (s', n) ↦ write_sized w v n author s'
          ])
      sized none h = absurd h
      sized (some (s', n)) h = write_sized-Answers w v n author s' k' h

  pub error-IsValid :
      (e : Value) (author : Stream F → Option (Stream F)) (s : Stream F)
      → Keeps author
      → IsValid s
      → Ok IsValid (error e author s)
  unfolding error error_if_needed
  error-IsValid e author s k v = IsValid-error_if_needed author e s k v
