-- ===== src/Streams.antt =====
-- The streams of crates/builtins/web-streams/src: the queues with sizes, and writable streams.
pub mod Float
pub mod QueueWithSizes
pub mod Writable
pub mod Readable
mod Tests
