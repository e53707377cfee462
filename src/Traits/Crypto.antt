-- ===== src/Traits/Crypto.antt =====
-- traits/src/lib.rs: the trait `HpkeCrypto` as a record of operations, its provided methods, and
-- the documented behaviour of providers that theorems rely on, as records of hypotheses.
use hpke_rs.Prelude.{ℕ, ◌<◌, ◌≡◌, ◌≢◌, String, Option, some, Outcome, ok, length}
use hpke_rs.Prelude.Bytes.{Bytes, IsBytes}
use hpke_rs.Traits.Error.{Error}
use hpke_rs.Traits.Types.{
  KemAlgorithm, KdfAlgorithm, AeadAlgorithm, hkdf_sha256, hkdf_sha384, hkdf_sha512, aes128_gcm,
  aes256_gcm, cha_cha20_poly1305, hpke_export,
}

-- `Entropy` is the system's randomness, which the source reads with no argument. Making a generator
-- panics where the system has none to give: that is `none`. The generator's
-- two fill methods give the bytes that they write, or an error whose value every caller drops.
pub record HpkeCrypto : Type 1 where
  pub HpkePrng : Type 0
  pub Entropy : Type 0
  pub name : String
  pub supports_kdf : KdfAlgorithm → Outcome Error (Unit {0})
  pub supports_kem : KemAlgorithm → Outcome Error (Unit {0})
  pub supports_aead : AeadAlgorithm → Outcome Error (Unit {0})
  pub prng : Entropy → Option HpkePrng × Entropy
  pub kdf_extract : KdfAlgorithm → Bytes → Bytes → Bytes
  pub kdf_expand : KdfAlgorithm → Bytes → Bytes → ℕ → Outcome Error Bytes
  pub kem_derive : KemAlgorithm → Bytes → Bytes → Outcome Error Bytes
  pub kem_derive_base : KemAlgorithm → Bytes → Outcome Error Bytes
  pub kem_key_gen : KemAlgorithm → HpkePrng → Entropy → Outcome Error Bytes × HpkePrng × Entropy
  pub kem_validate_sk : KemAlgorithm → Bytes → Outcome Error Bytes
  pub aead_seal : AeadAlgorithm → Bytes → Bytes → Bytes → Bytes → Outcome Error Bytes
  pub aead_open : AeadAlgorithm → Bytes → Bytes → Bytes → Bytes → Outcome Error Bytes
  pub try_fill_bytes : HpkePrng → ℕ → Outcome (Unit {0}) Bytes × HpkePrng
  pub try_fill_test_bytes : HpkePrng → ℕ → Outcome (Unit {0}) Bytes × HpkePrng
  pub seed : HpkePrng → Bytes → HpkePrng

-- The provided methods of the trait. No provider of the repository overrides them.
unfoldable pub kdf_digest_length : KdfAlgorithm → ℕ
kdf_digest_length hkdf_sha256 = 32
kdf_digest_length hkdf_sha384 = 48
kdf_digest_length hkdf_sha512 = 64

unfoldable pub aead_key_length : AeadAlgorithm → ℕ
aead_key_length aes128_gcm = 16
aead_key_length aes256_gcm = 32
aead_key_length cha_cha20_poly1305 = 32
aead_key_length hpke_export = 0

unfoldable pub aead_nonce_length : AeadAlgorithm → ℕ
aead_nonce_length aes128_gcm = 12
aead_nonce_length aes256_gcm = 12
aead_nonce_length cha_cha20_poly1305 = 12
aead_nonce_length hpke_export = 0

unfoldable pub aead_tag_length : AeadAlgorithm → ℕ
aead_tag_length aes128_gcm = 16
aead_tag_length aes256_gcm = 16
aead_tag_length cha_cha20_poly1305 = 16
aead_tag_length hpke_export = 0

-- Diffie-Hellman: two parties that hold each other's public keys derive one secret.
pub record IsDiffieHellman (C : HpkeCrypto) : Type 0 where
  pub derive_comm :
      (alg : KemAlgorithm) (sk_a sk_b pk_a pk_b zz : Bytes)
      → C.kem_derive_base alg sk_a ≡ ok pk_a
      → C.kem_derive_base alg sk_b ≡ ok pk_b
      → C.kem_derive alg pk_b sk_a ≡ ok zz
      → C.kem_derive alg pk_a sk_b ≡ ok zz

-- A key expansion that succeeds gives bytes, and as many as were asked for.
pub record IsKdf (C : HpkeCrypto) : Type 0 where
  pub expand_length :
      (alg : KdfAlgorithm) (prk info : Bytes) (len : ℕ) (okm : Bytes)
      → C.kdf_expand alg prk info len ≡ ok okm
      → (length okm ≡ len) × IsBytes okm

-- Opening undoes sealing, for a message that is not empty.
pub record IsAead (C : HpkeCrypto) : Type 0 where
  pub open_seal :
      (alg : AeadAlgorithm) (key nonce aad msg ct : Bytes)
      → 0 < length msg
      → C.aead_seal alg key nonce aad msg ≡ ok ct
      → C.aead_open alg key nonce aad ct ≡ ok msg

-- A ciphertext that opens is the one that its message is sealed to under the same inputs: the
-- ciphers of the trait draw no randomness, and their tags are compared whole.
pub record IsExactAead (C : HpkeCrypto) : Type 0 where
  pub seal_open :
      (alg : AeadAlgorithm) (key nonce aad ct msg : Bytes)
      → C.aead_open alg key nonce aad ct ≡ ok msg
      → C.aead_seal alg key nonce aad msg ≡ ok ct

-- The system has randomness to give, and a generator can be made at any time.
pub record IsSeeded (C : HpkeCrypto) : Type 0 where
  pub prng_some : (e : C.Entropy) → (prng : C.HpkePrng) × ((C.prng e).0 ≡ some prng)

-- Associated data and a message that an algorithm takes are sealed, under a key and a nonce of the
-- right lengths.
pub record IsTotalAead (C : HpkeCrypto) (Takes : AeadAlgorithm → Bytes → Bytes → Type 0)
    : Type 0 where
  pub seal_total :
      (alg : AeadAlgorithm) (key nonce aad msg : Bytes)
      → alg ≢ hpke_export
      → length key ≡ aead_key_length alg
      → length nonce ≡ aead_nonce_length alg
      → Takes alg aad msg
      → (ct : Bytes) × (C.aead_seal alg key nonce aad msg ≡ ok ct)
