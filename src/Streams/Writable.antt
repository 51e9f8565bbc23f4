-- ===== src/Streams/Writable.antt =====
-- `WritableStream`, its default controller and its default writers (crates/builtins/web-streams/src,
-- writable/ and algorithms.rs): the state of one stream, with every writer made for it and every
-- promise that its code makes. `none` is a panic: a debug assertion that fails, or an `expect`.
pub mod Erroring
pub mod Controller
pub mod Api
pub mod Jobs
pub mod Inv
pub mod Cases
use starlingmonkey_ng.Prelude.{
  ℕ, ◌+◌, Bool, true, false, not, ◌&&◌, ◌||◌, Option, none, some, List, [], ◌∷◌, if◌then◌else◌,
  ◌==◌, is_some,
}
use starlingmonkey_ng.Streams.Float.{Float}
use starlingmonkey_ng.Streams.QueueWithSizes.{Value, undefined, QueueWithSizes, reset_queue}

pub data PromiseState : Type 0 where
  pending fulfilled : PromiseState
  rejected : Value → PromiseState

pub record Promise : Type 0 where
  pub state : PromiseState
  pub is_handled : Bool

pub data WritableStreamState : Type 0 where
  writable closed erroring errored : WritableStreamState

pub record PendingAbortRequest : Type 0 where
  pub promise : ℕ
  pub reason : Value
  pub was_already_erroring : Bool

-- Whether a writer's `stream` is set: it is the one stream.
pub record Writer : Type 0 where
  pub closed_promise : ℕ
  pub ready_promise : ℕ
  pub stream : Bool

-- The fields of the stream, then the controller's, then the reactions that are attached to promises
-- of the sink and have not run, then the writers and the promises with the count of each. Of an
-- algorithm the field says whether it is set.
pub record Stream (F : Type 0) : Type 0 where
  pub state : WritableStreamState
  pub stored_error : Value
  pub backpressure : Bool
  pub close_request : Option ℕ
  pub in_flight_write_request : Option ℕ
  pub in_flight_close_request : Option ℕ
  pub pending_abort_request : Option PendingAbortRequest
  pub write_requests : List ℕ
  pub writer : Option ℕ
  pub container : QueueWithSizes F
  pub started : Bool
  pub strategy_hwm : F
  pub strategy_size_algorithm : Bool
  pub write_algorithm : Bool
  pub close_algorithm : Bool
  pub abort_algorithm : Bool
  pub start_reaction : Bool
  pub write_reaction : Bool
  pub close_reaction : Bool
  pub abort_reaction : Option ℕ
  pub writers : ℕ → Writer
  pub next_writer : ℕ
  pub promises : ℕ → Promise
  pub next_promise : ℕ

-- `Option::and_then`, here for what comes after a step that may panic.
abbrev pub and_then {ℓ κ} : {A : Type ℓ} {B : Type κ} → Option A → (A → Option B) → Option B
and_then none f = none
and_then (some a) f = f a

abbrev pub is_undefined : Value → Bool
is_undefined undefined = true
is_undefined _ = false

abbrev pub is_writable : WritableStreamState → Bool
is_writable writable = true
is_writable _ = false

abbrev pub is_erroring : WritableStreamState → Bool
is_erroring erroring = true
is_erroring _ = false

abbrev pub is_errored : WritableStreamState → Bool
is_errored errored = true
is_errored _ = false

-- `Writable | Erroring`
abbrev pub is_open : WritableStreamState → Bool
is_open s = is_writable s || is_erroring s

abbrev pub settled : PromiseState → Promise → Promise
settled to p = elim p.state [ pending ↦ record p { state = to } | _ ↦ p ]

module _ {F : Type 0} where
  abbrev pub add_promise : PromiseState → Stream F → Stream F
  add_promise st s = record s {
    promises = λ q.
        if q == s.next_promise then record { state = st; is_handled = false } else s.promises q;
    next_promise = s.next_promise + 1;
  }

  -- Settling a promise that is settled does nothing.
  abbrev pub settle : PromiseState → ℕ → Stream F → Stream F
  settle to p s = record s {
    promises = λ q. if q == p then settled to (s.promises q) else s.promises q;
  }

  abbrev pub resolve : ℕ → Stream F → Stream F
  resolve = settle fulfilled

  abbrev pub reject : Value → ℕ → Stream F → Stream F
  reject e = settle (rejected e)

  abbrev pub set_settled_is_handled : ℕ → Stream F → Stream F
  set_settled_is_handled p s = record s {
    promises = λ q. if q == p then record (s.promises q) { is_handled = true } else s.promises q;
  }

  abbrev pub is_pending : ℕ → Stream F → Bool
  is_pending p s = elim (s.promises p).state [ pending ↦ true | _ ↦ false ]

  abbrev pub set_writer : ℕ → Writer → Stream F → Stream F
  set_writer w x s = record s { writers = λ v. if v == w then x else s.writers v }

  unfoldable pub close_queued_or_in_flight : Stream F → Bool
  close_queued_or_in_flight s = is_some s.close_request || is_some s.in_flight_close_request

  unfoldable pub has_operation_marked_in_flight : Stream F → Bool
  has_operation_marked_in_flight s =
      is_some s.in_flight_write_request || is_some s.in_flight_close_request

  unfoldable pub is_locked : Stream F → Bool
  is_locked s = is_some s.writer

  unfoldable pub clear_algorithms : Stream F → Stream F
  clear_algorithms s = record s {
    write_algorithm = false;
    close_algorithm = false;
    abort_algorithm = false;
    strategy_size_algorithm = false;
  }

  -- `invoke_promise_algorithm`: JS code runs if the algorithm is set. What it does to the stream is
  -- an argument; the promise that it answers is settled later, in a job.
  unfoldable pub invoke : Bool → (Stream F → Option (Stream F)) → Stream F → Option (Stream F)
  invoke present author s = if present then author s else some s

  unfoldable pub error_steps : ⦃fl : Float F⦄ → Stream F → Stream F
  unfolding reset_queue
  error_steps s = record s { container = reset_queue }
