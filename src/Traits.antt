-- ===== src/Traits.antt =====
-- The crate `hpke-rs-crypto` (traits/src): what a crypto provider offers.
pub mod Error
pub mod Types
pub mod Crypto
