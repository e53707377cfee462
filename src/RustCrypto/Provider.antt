-- ===== src/RustCrypto/Provider.antt =====
-- rust_crypto_provider/src/lib.rs: the KEM operations, the supported algorithms, and the provider.
pub mod Laws
pub mod Panics
pub mod Delivery
pub mod Seeding
use hpke_rs.Prelude.{
  String, ℕ, Bool, Option, none, some, Outcome, ok, err, ◌>>=◌, ◌>>◌, length, not, ◌==◌, map_ok,
}
use hpke_rs.Prelude.Bytes.{Bytes}
use hpke_rs.Traits.Error.{Error}
use hpke_rs.Traits.Types.{KemAlgorithm, KdfAlgorithm, AeadAlgorithm, dh_kem_25519, dh_kem_p256}
use hpke_rs.Traits.Crypto.{HpkeCrypto}
use hpke_rs.RustCrypto.Libs.{RustLibs}
use hpke_rs.RustCrypto.Aead.{ok_or, check, aead_seal, aead_open}
use hpke_rs.RustCrypto.Hkdf.{kdf_extract, kdf_expand}
use hpke_rs.RustCrypto.Prng
use hpke_rs.RustCrypto.Prng.{HpkeRustCryptoPrng, with_rng}

module _ (L : RustLibs) where
  -- The assertions and conversions behind the length checks cannot fail.
  unfoldable pub kem_derive : KemAlgorithm → Bytes → Bytes → Outcome Error Bytes
  kem_derive dh_kem_25519 pk sk = do
    check (not (length sk == 32)) Error.kem_invalid_secret_key
    check (not (length pk == 32)) Error.kem_invalid_public_key
    ok (L.x25519_diffie_hellman sk pk)
  kem_derive dh_kem_p256 pk sk = do
    secret ← ok_or (L.secret_from_slice sk) Error.kem_invalid_secret_key
    public ← ok_or (L.public_from_sec1 pk) Error.kem_invalid_public_key
    ok (L.p256_diffie_hellman secret public)
  kem_derive _ pk sk = err Error.unknown_kem_algorithm

  unfoldable pub kem_derive_base : KemAlgorithm → Bytes → Outcome Error Bytes
  kem_derive_base dh_kem_25519 sk = do
    check (not (length sk == 32)) Error.kem_invalid_secret_key
    ok (L.x25519_public sk)
  kem_derive_base dh_kem_p256 sk = do
    secret ← ok_or (L.secret_from_slice sk) Error.kem_invalid_secret_key
    ok (L.public_encoded secret)
  kem_derive_base _ sk = err Error.unknown_kem_algorithm

  -- The `match alg` of `kem_key_gen`, under the generator's lock.
  unfoldable pub key_from_rng :
      KemAlgorithm → L.rand.ChaCha20Rng → Outcome Error Bytes × L.rand.ChaCha20Rng
  key_from_rng dh_kem_25519 rng = let (sk, rng') = L.x25519_new rng in (ok sk, rng')
  key_from_rng dh_kem_p256 rng = let (sk, rng') = L.secret_random rng in (ok sk, rng')
  key_from_rng _ rng = (err Error.unknown_kem_algorithm, rng)

  unfoldable pub kem_key_gen :
      Bool
      → KemAlgorithm
      → HpkeRustCryptoPrng L.rand
      → Outcome Error Bytes × HpkeRustCryptoPrng L.rand
  unfolding with_rng key_from_rng
  kem_key_gen deterministic alg prng = with_rng deterministic L.rand (key_from_rng alg) prng

  unfoldable pub kem_validate_sk : KemAlgorithm → Bytes → Outcome Error Bytes
  kem_validate_sk dh_kem_p256 sk =
      map_ok (λ _. sk) (ok_or (L.secret_from_slice sk) Error.kem_invalid_secret_key)
  kem_validate_sk _ sk = err Error.unknown_kem_algorithm

unfoldable pub supports_kdf : KdfAlgorithm → Outcome Error (Unit {0})
supports_kdf _ = ok tt

unfoldable pub supports_kem : KemAlgorithm → Outcome Error (Unit {0})
supports_kem dh_kem_25519 = ok tt
supports_kem dh_kem_p256 = ok tt
supports_kem _ = err Error.unknown_kem_algorithm

unfoldable pub supports_aead : AeadAlgorithm → Outcome Error (Unit {0})
supports_aead _ = ok tt

unfoldable pub name : String
name = "RustCrypto"

-- `impl Display`
unfoldable pub fmt : String
unfolding name
fmt = name

-- `impl HpkeCrypto for HpkeRustCrypto`
abbrev pub rust_crypto : Bool → RustLibs → HpkeCrypto
rust_crypto deterministic L = record {
  HpkePrng = HpkeRustCryptoPrng L.rand;
  Entropy = L.rand.Entropy;
  name = name;
  supports_kdf = supports_kdf;
  supports_kem = supports_kem;
  supports_aead = supports_aead;
  prng = Prng.prng deterministic L.rand;
  kdf_extract = kdf_extract L;
  kdf_expand = kdf_expand L;
  kem_derive = kem_derive L;
  kem_derive_base = kem_derive_base L;
  kem_key_gen = λ alg prng entropy.
      let (sk, prng') = kem_key_gen L deterministic alg prng in (sk, prng', entropy);
  kem_validate_sk = kem_validate_sk L;
  aead_seal = aead_seal L;
  aead_open = aead_open L;
  try_fill_bytes = Prng.try_fill_bytes deterministic L.rand;
  try_fill_test_bytes = Prng.try_fill_test_bytes deterministic L.rand;
  seed = Prng.seed deterministic L.rand;
}
