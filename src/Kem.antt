-- ===== src/Kem.antt =====
-- src/kem.rs: the KEM of an algorithm, each of which is a Diffie-Hellman KEM with its suite.
use hpke_rs.Prelude.{[], ◌∷◌, Outcome, length, ◌≡◌, refl}
use hpke_rs.Prelude.Bytes.{Bytes, as_bytes, u16_to_be_bytes}
use hpke_rs.Build.{Build}
use hpke_rs.Traits.Error.{Error}
use hpke_rs.Traits.Types.{KemAlgorithm, kem_u16}
use hpke_rs.Traits.Crypto.{HpkeCrypto}
use hpke_rs.Util.{concat}
use hpke_rs.DhKem

unfoldable pub ciphersuite : KemAlgorithm → Bytes
unfolding concat u16_to_be_bytes kem_u16
ciphersuite alg = concat (as_bytes "KEM" ∷ u16_to_be_bytes (kem_u16 alg) ∷ [])

pub length-ciphersuite : (alg : KemAlgorithm) → length (ciphersuite alg) ≡ 5
unfolding ciphersuite
length-ciphersuite alg = refl

module _ (b : Build) (C : HpkeCrypto) where
  unfoldable pub encaps : KemAlgorithm → Bytes → Bytes → Outcome Error (Bytes × Bytes)
  encaps alg pk_r randomness = DhKem.encaps b C alg pk_r (ciphersuite alg) randomness

  unfoldable pub decaps : KemAlgorithm → Bytes → Bytes → Outcome Error Bytes
  decaps alg enc sk_r = DhKem.decaps b C alg enc sk_r (ciphersuite alg)

  unfoldable pub auth_encaps : KemAlgorithm → Bytes → Bytes → Bytes → Outcome Error (Bytes × Bytes)
  auth_encaps alg pk_r sk_s randomness =
      DhKem.auth_encaps b C alg pk_r sk_s (ciphersuite alg) randomness

  unfoldable pub auth_decaps : KemAlgorithm → Bytes → Bytes → Bytes → Outcome Error Bytes
  auth_decaps alg enc sk_r pk_s = DhKem.auth_decaps b C alg enc sk_r pk_s (ciphersuite alg)

  unfoldable pub key_gen :
      KemAlgorithm → C.HpkePrng → C.Entropy → Outcome Error (Bytes × Bytes) × C.HpkePrng × C.Entropy
  key_gen alg prng entropy = DhKem.key_gen b C alg prng entropy

  -- The public key comes first.
  unfoldable pub derive_key_pair : KemAlgorithm → Bytes → Outcome Error (Bytes × Bytes)
  derive_key_pair alg ikm = DhKem.derive_key_pair b C alg (ciphersuite alg) ikm
