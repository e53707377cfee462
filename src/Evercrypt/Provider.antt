-- ===== src/Evercrypt/Provider.antt =====
-- evercrypt_provider/src/lib.rs: the provider `HpkeEvercrypt`.
pub mod Laws
pub mod Delivery
use Prim.Native.String.{◌++◌}
use hpke_rs.Prelude.{
  String, ℕ, ◌∷◌, Bool, Outcome, ok, err, panic, ◌>>=◌, ◌>>◌, map_ok, map_err, length, take, not,
  ◌==◌, if◌then◌else◌,
}
use hpke_rs.Prelude.Bytes.{Bytes}
use hpke_rs.Traits.Error.{Error}
use hpke_rs.Traits.Types.{
  KemAlgorithm, KdfAlgorithm, AeadAlgorithm, dh_kem_25519, dh_kem_p256, hkdf_sha256, hkdf_sha384,
  hkdf_sha512, aes128_gcm, aes256_gcm, cha_cha20_poly1305, hpke_export,
}
use hpke_rs.Traits.Crypto.{HpkeCrypto}
use hpke_rs.Evercrypt.Libs.{EvercryptLibs}
use hpke_rs.RustCrypto.Aead.{check}
use hpke_rs.Evercrypt.Prng
use hpke_rs.Evercrypt.Prng.{HpkeEvercryptPrng}

unfoldable pub nist_format_uncompressed : Bytes → Bytes
nist_format_uncompressed pk = 0x04 ∷ pk

module _ (E : EvercryptLibs) where
  -- The match over the three hashes.
  unfoldable pub hmac_mode : KdfAlgorithm → E.HmacMode
  hmac_mode hkdf_sha256 = E.sha256
  hmac_mode hkdf_sha384 = E.sha384
  hmac_mode hkdf_sha512 = E.sha512

  unfoldable pub kdf_extract : KdfAlgorithm → Bytes → Bytes → Bytes
  kdf_extract alg salt ikm = E.hkdf_extract (hmac_mode alg) salt ikm

  unfoldable pub kdf_expand : KdfAlgorithm → Bytes → Bytes → ℕ → Outcome Error Bytes
  kdf_expand alg prk info output_size = ok (E.hkdf_expand (hmac_mode alg) prk info output_size)

  unfoldable pub kem_key_type_to_mode : KemAlgorithm → Outcome Error E.EcdhMode
  kem_key_type_to_mode dh_kem_25519 = ok E.x25519
  kem_key_type_to_mode dh_kem_p256 = ok E.p256
  kem_key_type_to_mode _ = err Error.unknown_kem_algorithm

  unfoldable pub aead_type_to_mode : AeadAlgorithm → Outcome Error E.AeadMode
  aead_type_to_mode aes128_gcm = ok E.aes128_gcm
  aead_type_to_mode aes256_gcm = ok E.aes256_gcm
  aead_type_to_mode cha_cha20_poly1305 = ok E.chacha20_poly1305
  aead_type_to_mode hpke_export = err Error.unknown_aead_algorithm

  -- For P-256 the crate gives the whole point, of which the first coordinate is kept.
  unfoldable pub kem_derive : KemAlgorithm → Bytes → Bytes → Outcome Error Bytes
  unfolding kem_key_type_to_mode
  kem_derive alg pk sk = do
    evercrypt_mode ← kem_key_type_to_mode alg
    map_ok (λ (p : Bytes). if E.is_p256 evercrypt_mode then take 32 p else p)
        (map_err (λ e. Error.crypto_library_error ("ECDH derive error: " ++ E.ecdh_debug e))
          (E.ecdh_derive evercrypt_mode pk sk))

  unfoldable pub kem_derive_base : KemAlgorithm → Bytes → Outcome Error Bytes
  unfolding kem_key_type_to_mode nist_format_uncompressed
  kem_derive_base alg sk = do
    evercrypt_mode ← kem_key_type_to_mode alg
    map_ok (λ (p : Bytes). if E.is_p256 evercrypt_mode then nist_format_uncompressed p else p)
        (map_err (λ e. Error.crypto_library_error ("ECDH derive base error: " ++ E.ecdh_debug e))
          (E.ecdh_derive_base evercrypt_mode sk))

  -- The crate draws its own randomness; the generator is not read.
  unfoldable pub kem_key_gen :
      KemAlgorithm
      → HpkeEvercryptPrng E.rand
      → E.rand.Entropy
      → Outcome Error Bytes × HpkeEvercryptPrng E.rand × E.rand.Entropy
  unfolding kem_key_type_to_mode
  kem_key_gen alg prng entropy = elim (kem_key_type_to_mode alg) [
    | ok evercrypt_mode ↦
        let (sk, entropy') = E.key_gen evercrypt_mode entropy in
        let failure = λ (e : E.EcdhError).
          Error.crypto_library_error ("ECDH key gen error: " ++ E.ecdh_debug e) in
        (map_err failure sk, prng, entropy')
    | err e ↦ (err e, prng, entropy)
    | panic ↦ (panic, prng, entropy)
  ]

  unfoldable pub kem_validate_sk : KemAlgorithm → Bytes → Outcome Error Bytes
  kem_validate_sk dh_kem_p256 sk =
      map_err (λ e. Error.crypto_library_error ("ECDH invalid sk error: " ++ E.ecdh_debug e))
        (E.p256_validate_sk sk)
  kem_validate_sk _ sk = err Error.unknown_kem_algorithm

  unfoldable pub aead_seal : AeadAlgorithm → Bytes → Bytes → Bytes → Bytes → Outcome Error Bytes
  unfolding aead_type_to_mode
  aead_seal alg key nonce aad msg = do
    mode ← aead_type_to_mode alg
    check (not (length nonce == 12)) Error.aead_invalid_nonce
    cipher ← map_err (λ _. Error.crypto_library_error "Invalid configuration") (E.aead_new mode key)
    map_err (λ e. Error.crypto_library_error ("AEAD encrypt error: " ++ E.aead_debug e))
        (E.encrypt_combined cipher msg nonce aad)

  unfoldable pub aead_open : AeadAlgorithm → Bytes → Bytes → Bytes → Bytes → Outcome Error Bytes
  unfolding aead_type_to_mode
  aead_open alg key nonce aad cipher_txt = do
    mode ← aead_type_to_mode alg
    cipher ←
        map_err
          (λ _.
            Error.crypto_library_error
              ("Invalid configuration or unsupported algorithm " ++ E.mode_debug mode))
          (E.aead_new mode key)
    map_err (λ e. Error.crypto_library_error ("AEAD decryption error: " ++ E.aead_debug e))
        (E.decrypt_combined cipher cipher_txt nonce aad)

  unfoldable pub aes_support : Outcome Error (Unit {0})
  aes_support = if E.aes_support then ok tt else err Error.unknown_aead_algorithm

  unfoldable pub supports_aead : AeadAlgorithm → Outcome Error (Unit {0})
  unfolding aes_support
  supports_aead aes128_gcm = aes_support
  supports_aead aes256_gcm = aes_support
  supports_aead cha_cha20_poly1305 = ok tt
  supports_aead hpke_export = ok tt

unfoldable pub supports_kdf : KdfAlgorithm → Outcome Error (Unit {0})
supports_kdf _ = ok tt

unfoldable pub supports_kem : KemAlgorithm → Outcome Error (Unit {0})
supports_kem dh_kem_25519 = ok tt
supports_kem dh_kem_p256 = ok tt
supports_kem _ = err Error.unknown_kem_algorithm

unfoldable pub name : String
name = "Evercrypt"

-- `impl Display`
unfoldable pub fmt : String
unfolding name
fmt = name

-- `impl HpkeCrypto for HpkeEvercrypt`
abbrev pub evercrypt : Bool → EvercryptLibs → HpkeCrypto
evercrypt deterministic E = record {
  HpkePrng = HpkeEvercryptPrng E.rand;
  Entropy = E.rand.Entropy;
  name = name;
  supports_kdf = supports_kdf;
  supports_kem = supports_kem;
  supports_aead = supports_aead E;
  prng = Prng.prng deterministic E.rand;
  kdf_extract = kdf_extract E;
  kdf_expand = kdf_expand E;
  kem_derive = kem_derive E;
  kem_derive_base = kem_derive_base E;
  kem_key_gen = kem_key_gen E;
  kem_validate_sk = kem_validate_sk E;
  aead_seal = aead_seal E;
  aead_open = aead_open E;
  try_fill_bytes = Prng.try_fill_bytes deterministic E.rand;
  try_fill_test_bytes = Prng.try_fill_test_bytes deterministic E.rand;
  seed = Prng.seed deterministic E.rand;
}
