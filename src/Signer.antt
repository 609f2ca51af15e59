-- ===== src/Signer.antt =====
-- signer/: the keys of the device.
pub mod Scalar
pub mod Text
pub mod Hd
pub mod Tests
