-- ===== src/RustCrypto.antt =====
-- rust_crypto_provider/src: the provider over the RustCrypto crates, `HpkeRustCrypto`.
pub mod Libs
pub mod Aead
pub mod Hkdf
pub mod Prng
pub mod Provider
