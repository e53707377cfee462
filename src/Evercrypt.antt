-- ===== src/Evercrypt.antt =====
-- evercrypt_provider/src: the provider over the Evercrypt crate, `HpkeEvercrypt`.
pub mod Libs
pub mod Prng
pub mod Provider
