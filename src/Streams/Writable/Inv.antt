-- ===== src/Streams/Writable/Inv.antt =====
-- The invariant of a writable stream, and properties of steps that may panic.
use starlingmonkey_ng.Prelude.{
  ℕ, zero, suc, ◌+◌, ◌≡◌, Bool, true, false, Option, none, some, List, [], ◌∷◌, if◌then◌else◌,
  is_some, length,
}
use starlingmonkey_ng.Streams.Float.{Float}
use starlingmonkey_ng.Streams.QueueWithSizes.{ValueWithSize, chunk, close_sentinel}
use starlingmonkey_ng.Streams.Writable.{
  Stream, and_then, is_undefined, is_writable, is_erroring, is_errored, is_open,
  close_queued_or_in_flight, has_operation_marked_in_flight, clear_algorithms,
}
use starlingmonkey_ng.Streams.Writable.Controller.{get_backpressure, get_desired_size}

-- The chunks of a queue, as many as asked, and then the close sentinel if it is asked.
abbrev pub has_shape : {F : Type 0} → ℕ → Bool → List (ValueWithSize F) → Bool
has_shape zero false [] = true
has_shape zero true (close_sentinel ∷ []) = true
has_shape (suc n) c (chunk v k ∷ vs) = has_shape n c vs
has_shape _ _ _ = false

abbrev pub starts_with_chunk : {F : Type 0} → List (ValueWithSize F) → Bool
starts_with_chunk (chunk v n ∷ vs) = true
starts_with_chunk _ = false

abbrev pub is_empty : {A : Type 0} → List A → Bool
is_empty [] = true
is_empty (x ∷ xs) = false

-- The chunks that the queue of a writable stream holds: those of the requests, and the one that is
-- being written.
abbrev pub chunks : {F : Type 0} → Stream F → ℕ
chunks s = (if is_some s.in_flight_write_request then 1 else 0) + length s.write_requests

-- What holds at each step, also when a stream that erred has no operation left to wait for.
pub record IsCoherent {F : Type 0} ⦃fl : Float F⦄ (s : Stream F) : Type 0 where
  pub calm : is_writable s.state ≡ true → is_undefined s.stored_error ≡ true
  pub pending_abort : is_some s.pending_abort_request ≡ true → is_erroring s.state ≡ true
  pub one_in_flight :
      is_some s.in_flight_write_request ≡ true → is_some s.in_flight_close_request ≡ false
  pub started_first : has_operation_marked_in_flight s ≡ true → s.started ≡ true
  pub starts_open : s.started ≡ false → is_open s.state ≡ true
  pub in_flight_open : has_operation_marked_in_flight s ≡ true → is_open s.state ≡ true
  pub shape :
      is_writable s.state ≡ true
      → has_shape (chunks s) (is_some s.close_request) s.container.queue ≡ true
  pub front : is_some s.in_flight_write_request ≡ true → starts_with_chunk s.container.queue ≡ true
  pub closing : is_some s.in_flight_close_request ≡ true → is_some s.close_request ≡ false
  pub finished : is_errored s.state ≡ true → (s.write_requests ≡ []) × (s.container.queue ≡ [])
  pub start_reacts : s.start_reaction ≡ true → s.started ≡ false
  pub write_reacts : s.write_reaction ≡ is_some s.in_flight_write_request
  pub close_reacts : s.close_reaction ≡ is_some s.in_flight_close_request
  pub abort_reacts : is_some s.abort_reaction ≡ true → is_errored s.state ≡ true
  pub pressed :
      is_writable s.state ≡ true
      → close_queued_or_in_flight s ≡ false
      → s.backpressure ≡ get_backpressure s
  pub owned : (w : ℕ) → (s.writers w).stream ≡ true → s.writer ≡ some w

-- An erroring stream that has started waits for an operation in flight.
pub record IsValid {F : Type 0} ⦃fl : Float F⦄ (s : Stream F) : Type 0 where
  pub coherent : IsCoherent s
  pub erroring_waits :
      is_erroring s.state ≡ true → s.started ≡ true → has_operation_marked_in_flight s ≡ true

-- A step that does not panic, and after which a property holds.
abbrev pub Ok : {A : Type 0} → (A → Type 0) → Option A → Type 0
Ok P none = ⊥
Ok P (some a) = P a

pub Ok-and_then :
    {A B : Type 0} {P : A → Type 0} (Q : B → Type 0) (o : Option A) (f : A → Option B)
    → Ok P o
    → ((a : A) → P a → Ok Q (f a))
    → Ok Q (and_then o f)
Ok-and_then Q none f h k = absurd h
Ok-and_then Q (some a) f h k = k a h

pub Ok-then :
    {A B : Type 0} (Q : B → Type 0) (o : Option A) (f : A → Option B)
    → Ok (λ a. Ok Q (f a)) o
    → Ok Q (and_then o f)
Ok-then Q none f h = absurd h
Ok-then Q (some a) f h = h

-- Author code keeps the invariant.
abbrev pub Keeps : {F : Type 0} → ⦃fl : Float F⦄ → (Stream F → Option (Stream F)) → Type 0
Keeps author = (s : Stream _) → IsValid s → Ok IsValid (author s)

module _ {F : Type 0} ⦃fl : Float F⦄ where
  pub clear_algorithms-IsValid : (s : Stream F) → IsValid s → IsValid (clear_algorithms s)
  unfolding clear_algorithms has_operation_marked_in_flight close_queued_or_in_flight
      get_backpressure get_desired_size
  clear_algorithms-IsValid s v = record {
    coherent = record {
      calm = v.coherent.calm;
      pending_abort = v.coherent.pending_abort;
      one_in_flight = v.coherent.one_in_flight;
      started_first = v.coherent.started_first;
      starts_open = v.coherent.starts_open;
      in_flight_open = v.coherent.in_flight_open;
      shape = v.coherent.shape;
      front = v.coherent.front;
      closing = v.coherent.closing;
      finished = v.coherent.finished;
      start_reacts = v.coherent.start_reacts;
      write_reacts = v.coherent.write_reacts;
      close_reacts = v.coherent.close_reacts;
      abort_reacts = v.coherent.abort_reacts;
      pressed = v.coherent.pressed;
      owned = v.coherent.owned;
    };
    erroring_waits = v.erroring_waits;
  }
