-- ===== src/Broker.antt =====
-- broker/: framed request and response messages over a byte stream.
pub mod Wire
pub mod Stash
pub mod Session
mod Tests
