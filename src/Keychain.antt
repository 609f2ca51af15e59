-- ===== src/Keychain.antt =====
-- keychain/: the keys that the gadget holds, and the high watermarks that keep it from signing twice.
pub mod Kinds
pub mod Decode
pub mod Crypto
pub mod KeyState
pub mod HwmFile
pub mod HwmWorker
pub mod Key
pub mod Ring
pub mod Bundle
pub mod Store
pub mod Create
pub mod Tests
