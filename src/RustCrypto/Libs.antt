-- ===== src/RustCrypto/Libs.antt =====
-- The crates that the provider calls, as parameters: rand_chacha, hkdf, aes-gcm and
-- chacha20poly1305, x25519-dalek-ng and p256.
use hpke_rs.Prelude.{ℕ, String, Option}
use hpke_rs.Prelude.Bytes.{Bytes}
use hpke_rs.Rand.{Rand}
use hpke_rs.Traits.Types.{KdfAlgorithm, AeadAlgorithm}

pub record RustLibs : Type 1 where
  pub rand : Rand
  -- hkdf::Hkdf over the three hashes; a state from `from_prk` is used once
  pub Hkdf : Type 0
  pub hkdf_extract : KdfAlgorithm → Bytes → Bytes → Bytes
  pub hkdf_from_prk : KdfAlgorithm → Bytes → Option Hkdf
  pub hkdf_expand : Hkdf → Bytes → ℕ → Option Bytes
  -- the ciphers: the key size of the type, the calls, and the `Debug` text of their error
  pub key_size : AeadAlgorithm → ℕ
  pub encrypt : AeadAlgorithm → Bytes → Bytes → Bytes → Bytes → Option Bytes
  pub decrypt : AeadAlgorithm → Bytes → Bytes → Bytes → Bytes → Option Bytes
  pub aead_error : String
  -- x25519_dalek_ng::{StaticSecret, PublicKey}
  pub x25519_new : rand.ChaCha20Rng → Bytes × rand.ChaCha20Rng
  pub x25519_public : Bytes → Bytes
  pub x25519_diffie_hellman : Bytes → Bytes → Bytes
  -- p256::{SecretKey, PublicKey}
  pub SecretKey : Type 0
  pub PublicKey : Type 0
  pub secret_from_slice : Bytes → Option SecretKey
  pub secret_random : rand.ChaCha20Rng → Bytes × rand.ChaCha20Rng
  pub public_from_sec1 : Bytes → Option PublicKey
  pub public_encoded : SecretKey → Bytes
  pub p256_diffie_hellman : SecretKey → PublicKey → Bytes
