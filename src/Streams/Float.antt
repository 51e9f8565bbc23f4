-- ===== src/Streams/Float.antt =====
-- What the streams use of `f64`: any type of numbers with these operations.
use starlingmonkey_ng.Prelude.{Bool}

pub record Float (F : Type 0) : Type 0 where
  pub zero : F
  pub one : F
  pub infinity : F
  pub add : F → F → F
  pub sub : F → F → F
  pub lt : F → F → Bool
  pub le : F → F → Bool
  pub eq : F → F → Bool
  pub is_nan : F → Bool
