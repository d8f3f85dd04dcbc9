-- ===== src/EventLoop.antt =====
-- source/io/EventLoop.cpp, `EventLoop::Impl`. libuv's loop is the order in which the handlers are
-- called: the theorems hold for every order. The parts of the state that no operation shares are
-- records of their own: callbacks of the loop's thread (Callbacks) and of other threads (Posted),
-- the timer that keeps the loop alive (Block), work for the thread pool
-- (Work) and signal handlers (Signals).
pub mod Callbacks
pub mod Posted
pub mod Block
pub mod Work
pub mod Signals
mod Tests
