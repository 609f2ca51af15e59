-- ===== src/Host.antt =====
-- app/host/ and common/: the program on the baker's machine.
pub mod Remote
pub mod Http
mod Tests
