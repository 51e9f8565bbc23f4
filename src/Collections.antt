-- ===== src/Collections.antt =====
-- The containers of Rust's standard library that the components keep their state in.
pub mod TotalOrder
pub mod BTreeSet
pub mod HashMap
