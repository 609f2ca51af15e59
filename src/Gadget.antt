-- ===== src/Gadget.antt =====
-- app/gadget/: the program on the device.
pub mod Limiter
pub mod Handlers
pub mod Management
pub mod Tests
