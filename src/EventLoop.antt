-- ===== src/EventLoop.antt =====
-- The event loop (crates/core-runtime/src/event_loop.rs and event_loop/): the queue of live tasks,
-- the keep-alive count, the loop itself and its step, and the timers of `setTimeout`.
pub mod TaskQueue
pub mod Interest
pub mod Registry
pub mod Timer
pub mod Step
mod Tests
