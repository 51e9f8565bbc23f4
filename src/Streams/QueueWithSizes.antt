-- ===== src/Streams/QueueWithSizes.antt =====
-- queuing/queue_with_sizes.rs of crates/builtins/web-streams/src, and the operations on such queues
-- of algorithms.rs there. A JS value is a number, or one of the errors that the code makes.
use starlingmonkey_ng.Prelude.{
  ℕ, Bool, true, false, not, ◌||◌, Option, none, some, List, [], ◌∷◌, ◌++◌, if◌then◌else◌,
}
use starlingmonkey_ng.Streams.Float.{Float}

pub data Value : Type 0 where
  undefined type_error range_error : Value
  value : ℕ → Value

pub data ValueWithSize (F : Type 0) : Type 0 where
  chunk : Value → F → ValueWithSize F
  close_sentinel : ValueWithSize F

-- The slots of a container.
pub record QueueWithSizes (F : Type 0) : Type 0 where
  pub queue : List (ValueWithSize F)
  pub queue_total_size : F

-- What may throw: `Result<T, ExnThrown>` with the thrown value.
pub data Throws {ℓ} (A : Type ℓ) : Type ℓ where
  ok : A → Throws A
  err : Value → Throws A

module _ {F : Type 0} ⦃fl : Float F⦄ where
  -- `ValueWithSize::size`
  unfoldable pub size : ValueWithSize F → F
  size (chunk v n) = n
  size close_sentinel = fl.zero

  unfoldable pub is_non_negative_number : F → Bool
  is_non_negative_number v = if fl.is_nan v then false else if fl.lt v fl.zero then false else true

  unfoldable pub extract_high_water_mark : Option F → F → Throws F
  extract_high_water_mark none default_hwm = ok default_hwm
  extract_high_water_mark (some hwm) default_hwm =
      if fl.is_nan hwm || fl.lt hwm fl.zero then err range_error else ok hwm

  unfoldable pub total_without : F → F → F
  total_without total n = let rest = fl.sub total n in if fl.lt rest fl.zero then fl.zero else rest

  -- The value that is taken is not used by the writable streams. `none` is the panic on an empty
  -- queue.
  unfoldable pub dequeue_value : QueueWithSizes F → Option (QueueWithSizes F)
  unfolding total_without size
  dequeue_value c = elim c.queue [
    | [] ↦ none
    | v ∷ vs ↦
        some (record { queue = vs; queue_total_size = total_without c.queue_total_size (size v) })
  ]

  unfoldable pub enqueue_value_with_size : Value → F → QueueWithSizes F → Throws (QueueWithSizes F)
  unfolding is_non_negative_number
  enqueue_value_with_size v n c =
      if not (is_non_negative_number n)
      then err range_error
      else if fl.eq n fl.infinity
      then err range_error
      else ok (record {
        queue = c.queue ++ chunk v n ∷ [];
        queue_total_size = fl.add c.queue_total_size n;
      })

  unfoldable pub reset_queue : QueueWithSizes F
  reset_queue = record { queue = []; queue_total_size = fl.zero }
