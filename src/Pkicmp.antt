-- ===== src/Pkicmp.antt =====
-- The CMP message types and codecs (pkicmp/).
pub mod Types
pub mod Errors
pub mod Der
pub mod Status
pub mod Algorithms
pub mod Message
pub mod Pop
pub mod Protect
pub mod Credentials
pub mod Verify
pub mod Sign
