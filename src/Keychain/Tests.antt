-- ===== src/Keychain/Tests.antt =====
-- Runs of keychain/ on concrete keys, payloads and files.
pub mod Setup
pub mod Decoding
pub mod States
pub mod Requests
mod Lives
pub mod Stores
