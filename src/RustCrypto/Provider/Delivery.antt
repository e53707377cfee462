-- ===== src/RustCrypto/Provider/Delivery.antt =====
-- The library (src/lib.rs) over the provider of rust_crypto_provider/src: a conversation, from
-- what the crates document.
use hpke_rs.Prelude.{◌^◌, ◌<◌, ◌≡◌, ◌≢◌, refl, Bool, List, Option, some, ok, length, All, arith}
use hpke_rs.Prelude.Bytes.{Bytes}
use hpke_rs.Build.{Build}
use hpke_rs.Traits.Types.{AeadAlgorithm, aes128_gcm, aes256_gcm, cha_cha20_poly1305, hpke_export}
use hpke_rs.Traits.Crypto.{IsTotalAead, aead_key_length, aead_nonce_length}
use hpke_rs.Hpke.Keys.{HpkePublicKey, HpkePrivateKey}
use hpke_rs.Hpke.Context.{Context}
use hpke_rs.Hpke.Schedule.Agreement.{SameConfig}
use hpke_rs.Hpke.Setup.{Session, setup_sender, setup_receiver}
use hpke_rs.Hpke.Setup.Agreement.{IsKeyPair, Authenticates}
use hpke_rs.Hpke.Delivery.{IsDeliverable, Delivers, delivery}
use hpke_rs.Rand.{IsAvailable}
use hpke_rs.RustCrypto.Libs.{RustLibs}
use hpke_rs.RustCrypto.Aead.{aead_seal, cipher_seal}
use hpke_rs.RustCrypto.Aead.Laws.{IsCipher}
use hpke_rs.RustCrypto.Provider.{rust_crypto}
use hpke_rs.RustCrypto.Provider.Laws.{
  IsCurves, IsHkdf, rust_crypto-IsDiffieHellman, rust_crypto-IsSeeded, rust_crypto-IsKdf,
  rust_crypto-IsAead,
}
use hpke_rs.RustCrypto.Provider.Panics.{HasKeySizes}

-- The sizes below are within the limits of each of the ciphers, for the message and for the
-- associated data.
abbrev pub Takes : AeadAlgorithm → Bytes → Bytes → Type 0
Takes alg aad msg = (length aad < 2 ^ 32) × (length msg < 2 ^ 32)

pub record IsTotalCipher (L : RustLibs) : Type 0 where
  pub encrypt_total :
      (alg : AeadAlgorithm) (key nonce aad msg : Bytes)
      → alg ≢ hpke_export
      → length key ≡ L.key_size alg
      → length nonce ≡ 12
      → Takes alg aad msg
      → (ct : Bytes) × (L.encrypt alg key nonce aad msg ≡ some ct)

-- The documented behaviour of the crates, taken together.
pub record IsFaithful (L : RustLibs) : Type 0 where
  pub curves : IsCurves L
  pub hkdf : IsHkdf L
  pub cipher : IsCipher L
  pub key_sizes : HasKeySizes L
  pub total : IsTotalCipher L
  pub available : IsAvailable L.rand

module _ (L : RustLibs) (T : IsTotalCipher L) (sizes : HasKeySizes L) where
  cipher_total :
      (alg : AeadAlgorithm) (key nonce aad msg : Bytes)
      → alg ≢ hpke_export
      → length key ≡ aead_key_length alg
      → length nonce ≡ 12
      → Takes alg aad msg
      → (ct : Bytes) × (cipher_seal L alg key nonce aad msg ≡ ok ct)
  unfolding cipher_seal
  cipher_total alg key nonce aad msg sealing p q r =
      let sized : L.key_size alg ≡ aead_key_length alg = sizes alg sealing in
      let (ct, done) = T.encrypt_total alg key nonce aad msg sealing (omega arith) q r in
      (ct, ground arith)

  aead_seal-total :
      (alg : AeadAlgorithm) (key nonce aad msg : Bytes)
      → alg ≢ hpke_export
      → length key ≡ aead_key_length alg
      → length nonce ≡ aead_nonce_length alg
      → Takes alg aad msg
      → (ct : Bytes) × (aead_seal L alg key nonce aad msg ≡ ok ct)
  unfolding aead_seal aead_key_length aead_nonce_length
  aead_seal-total hpke_export key nonce aad msg sealing p q r = absurd (sealing refl)
  aead_seal-total aes128_gcm key nonce aad msg sealing p q r =
      cipher_total aes128_gcm key nonce aad msg sealing p q r
  aead_seal-total aes256_gcm key nonce aad msg sealing p q r =
      cipher_total aes256_gcm key nonce aad msg sealing p q r
  aead_seal-total cha_cha20_poly1305 key nonce aad msg sealing p q r =
      cipher_total cha_cha20_poly1305 key nonce aad msg sealing p q r

module _ (b : Build) (deterministic : Bool) (L : RustLibs) (I : IsFaithful L) where
  rust_crypto-IsTotalAead : IsTotalAead (rust_crypto deterministic L) Takes
  rust_crypto-IsTotalAead = record { seal_total = aead_seal-total L I.total I.key_sizes }

  -- Over the RustCrypto provider, with crates that behave as documented and on a system that has
  -- randomness to give, once `setup_sender` has succeeded every conversation of fewer than 2 ^ 32
  -- messages, each of at least one and fewer than 2 ^ 32 bytes with associated data of fewer than
  -- 2 ^ 32 bytes, is sealed with no error, `setup_receiver` on the encapsulated key succeeds, and
  -- its context opens what was sealed to the same messages: in each mode, for an algorithm other
  -- than export-only, parties with the same algorithms, info and PSK inputs, the private key that
  -- belongs to the receiver's public key, and, in the authenticated modes, the sender's key pair.
  pub rust_crypto-delivery :
      (s t : Session (rust_crypto deterministic L)) (pk_r : HpkePublicKey) (sk_r : HpkePrivateKey)
      (info : Bytes) (psk psk_id : Option Bytes) (sk_s : Option HpkePrivateKey)
      (pk_s : Option HpkePublicKey) (enc : Bytes) (ctx : Context (rust_crypto deterministic L))
      (msgs : List (Bytes × Bytes))
      → SameConfig s.hpke t.hpke
      → IsKeyPair (rust_crypto deterministic L) s.hpke.kem_id sk_r pk_r
      → Authenticates (rust_crypto deterministic L) s.hpke.mode s.hpke.kem_id sk_s pk_s
      → s.hpke.aead_id ≢ hpke_export
      → (setup_sender b (rust_crypto deterministic L) pk_r info psk psk_id sk_s s).0 ≡ ok (enc, ctx)
      → All (IsDeliverable Takes s.hpke.aead_id) msgs
      → length msgs < 2 ^ 32
      → Delivers b
          (rust_crypto deterministic L)
          msgs
          ctx
          (setup_receiver b (rust_crypto deterministic L) enc sk_r info psk psk_id pk_s t).0
  rust_crypto-delivery =
      delivery b (rust_crypto deterministic L)
        (rust_crypto-IsDiffieHellman deterministic L I.curves)
        (rust_crypto-IsKdf deterministic L I.hkdf) (rust_crypto-IsAead deterministic L I.cipher)
        (rust_crypto-IsSeeded deterministic L I.available) Takes rust_crypto-IsTotalAead
