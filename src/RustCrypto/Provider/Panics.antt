-- ===== src/RustCrypto/Provider/Panics.antt =====
-- Panics of the provider of rust_crypto_provider/src/lib.rs.
use hpke_rs.Prelude.{◌<◌, ℕ, ◌-◌, ◌≡◌, ◌≢◌, Bool, false, ok, panic, length, arith, length-drop}
use hpke_rs.Prelude.Bytes.{Bytes}
use hpke_rs.Rand.{Rand}
use hpke_rs.Traits.Types.{KemAlgorithm, KdfAlgorithm, AeadAlgorithm, hpke_export}
use hpke_rs.Traits.Crypto.{aead_key_length}
use hpke_rs.DhKem.Returns.{IsPanicFree}
use hpke_rs.RustCrypto.Libs.{RustLibs}
use hpke_rs.RustCrypto.Aead.{aead_seal, aead_open}
use hpke_rs.RustCrypto.Hkdf.{kdf_expand}
use hpke_rs.RustCrypto.Prng
use hpke_rs.RustCrypto.Prng.{HpkeRustCryptoPrng, with_rng}
use hpke_rs.RustCrypto.Provider.{kem_derive, kem_derive_base, kem_validate_sk, rust_crypto}

-- The key sizes of the crates' cipher types are the standard's.
abbrev pub HasKeySizes : RustLibs → Type 0
HasKeySizes L = (alg : AeadAlgorithm) → alg ≢ hpke_export → L.key_size alg ≡ aead_key_length alg

-- The crate's generator does not panic, and fills a buffer whole.
pub record IsFilling (R : Rand) : Type 0 where
  pub fill_returns : (rng : R.ChaCha20Rng) (len : ℕ) → (R.try_fill_bytes rng len).0 ≢ panic
  pub fill_length :
      (rng : R.ChaCha20Rng) (len : ℕ) (bytes : Bytes)
      → (R.try_fill_bytes rng len).0 ≡ ok bytes
      → length bytes ≡ len

module _ (L : RustLibs) where
  aead_seal-returns :
      (alg : AeadAlgorithm) (key nonce aad msg : Bytes)
      → HasKeySizes L
      → length key ≡ aead_key_length alg
      → aead_seal L alg key nonce aad msg ≢ panic
  unfolding aead_seal aead_key_length
  aead_seal-returns alg key nonce aad msg sizes width h = ground (arith, sizes alg)

  aead_open-returns :
      (alg : AeadAlgorithm) (key nonce aad ct : Bytes)
      → HasKeySizes L
      → length key ≡ aead_key_length alg
      → aead_open L alg key nonce aad ct ≢ panic
  unfolding aead_open aead_key_length
  aead_open-returns alg key nonce aad ct sizes width h = ground (arith, sizes alg)

  kdf_expand-returns :
      (alg : KdfAlgorithm) (prk info : Bytes) (len : ℕ)
      → len < 256
      → kdf_expand L alg prk info len ≢ panic
  unfolding kdf_expand
  kdf_expand-returns alg prk info len short h = ground arith

  kem_derive-returns : (alg : KemAlgorithm) (pk sk : Bytes) → kem_derive L alg pk sk ≢ panic
  unfolding kem_derive
  kem_derive-returns alg pk sk h = ground arith

  kem_derive_base-returns : (alg : KemAlgorithm) (sk : Bytes) → kem_derive_base L alg sk ≢ panic
  unfolding kem_derive_base
  kem_derive_base-returns alg sk h = ground arith

  kem_validate_sk-returns : (alg : KemAlgorithm) (sk : Bytes) → kem_validate_sk L alg sk ≢ panic
  unfolding kem_validate_sk
  kem_validate_sk-returns alg sk h = ground arith

pub rust_crypto-IsPanicFree :
    (deterministic : Bool) (L : RustLibs)
    → HasKeySizes L
    → IsPanicFree (rust_crypto deterministic L)
rust_crypto-IsPanicFree deterministic L sizes = record {
  expand_returns = kdf_expand-returns L;
  derive_returns = kem_derive-returns L;
  derive_base_returns = kem_derive_base-returns L;
  validate_returns = kem_validate_sk-returns L;
  seal_returns = λ alg key nonce aad msg. aead_seal-returns L alg key nonce aad msg sizes;
  open_returns = λ alg key nonce aad ct. aead_open-returns L alg key nonce aad ct sizes;
}

module _ (deterministic : Bool) (R : Rand) (I : IsFilling R) where
  pub try_fill_bytes-fills :
      (prng : HpkeRustCryptoPrng R) (len : ℕ) (bytes : Bytes)
      → prng.rng.poisoned ≡ false
      → ((Prng.try_fill_bytes deterministic R prng len).0 ≢ panic)
        × ((Prng.try_fill_bytes deterministic R prng len).0 ≡ ok bytes → length bytes ≡ len)
  unfolding Prng.try_fill_bytes
  try_fill_bytes-fills prng len bytes open_lock = (
    λ h. ground (arith, I.fill_returns prng.rng.value len),
    λ h. ground (arith, I.fill_length prng.rng.value len bytes),
  )

  pub try_fill_test_bytes-fills :
      (prng : HpkeRustCryptoPrng R) (len : ℕ) (bytes : Bytes)
      → prng.rng.poisoned ≡ false
      → ((Prng.try_fill_test_bytes deterministic R prng len).0 ≢ panic)
        × ((Prng.try_fill_test_bytes deterministic R prng len).0 ≡ ok bytes → length bytes ≡ len)
  unfolding Prng.try_fill_test_bytes
  try_fill_test_bytes-fills prng len bytes open_lock =
      let real = try_fill_bytes-fills prng len bytes open_lock in
      let kept = length-drop (length prng.fake_rng - len) prng.fake_rng in
      (λ h. ground (arith, real.0), λ h. ground (arith, real.1, kept))
