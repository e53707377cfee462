-- ===== src/Evercrypt/Libs.antt =====
-- The crates that the provider calls, as parameters: rand_chacha and evercrypt. `aes_support` says
-- whether the target has the processor's AES instructions.
use hpke_rs.Prelude.{ℕ, Bool, String, Outcome}
use hpke_rs.Prelude.Bytes.{Bytes}
use hpke_rs.Rand.{Rand}

pub record EvercryptLibs : Type 1 where
  pub rand : Rand
  pub aes_support : Bool
  -- evercrypt::hkdf over the three modes of `HmacMode`
  pub HmacMode : Type 0
  pub sha256 : HmacMode
  pub sha384 : HmacMode
  pub sha512 : HmacMode
  pub hkdf_extract : HmacMode → Bytes → Bytes → Bytes
  pub hkdf_expand : HmacMode → Bytes → Bytes → ℕ → Bytes
  -- evercrypt::ecdh, its errors with their `Debug` text, and the comparison with `EcdhMode::P256`
  pub EcdhMode : Type 0
  pub x25519 : EcdhMode
  pub p256 : EcdhMode
  pub is_p256 : EcdhMode → Bool
  pub EcdhError : Type 0
  pub ecdh_debug : EcdhError → String
  pub ecdh_derive : EcdhMode → Bytes → Bytes → Outcome EcdhError Bytes
  pub ecdh_derive_base : EcdhMode → Bytes → Outcome EcdhError Bytes
  pub key_gen : EcdhMode → rand.Entropy → Outcome EcdhError Bytes × rand.Entropy
  pub p256_validate_sk : Bytes → Outcome EcdhError Bytes
  -- evercrypt::aead, its errors and modes with their `Debug` text
  pub AeadMode : Type 0
  pub aes128_gcm : AeadMode
  pub aes256_gcm : AeadMode
  pub chacha20_poly1305 : AeadMode
  pub mode_debug : AeadMode → String
  pub AeadError : Type 0
  pub aead_debug : AeadError → String
  pub Aead : Type 0
  pub aead_new : AeadMode → Bytes → Outcome AeadError Aead
  pub encrypt_combined : Aead → Bytes → Bytes → Bytes → Outcome AeadError Bytes
  pub decrypt_combined : Aead → Bytes → Bytes → Bytes → Outcome AeadError Bytes
