-- ===== src/Hpke/Setup/Panics.antt =====
-- What the set-up does outside the two implemented KEMs, and behind a poisoned lock (src/lib.rs).
use hpke_rs.Prelude.{[], ℕ, ◌≡◌, ◌≢◌, refl, true, Option, some, ok, err, panic, arith}
use hpke_rs.Prelude.Bytes.{Bytes}
use hpke_rs.Build.{Build}
use hpke_rs.Traits.Types.{KemAlgorithm, kem_kdf, dh_kem_p256, dh_kem_25519, private_key_len}
use hpke_rs.Traits.Crypto.{HpkeCrypto}
use hpke_rs.Kdf.{labeled_extract}
use hpke_rs.DhKem
use hpke_rs.Kem
use hpke_rs.Hpke.Errors.{lock_poisoned}
use hpke_rs.Hpke.Mode.{Mode}
use hpke_rs.Hpke.Keys.{HpkePublicKey, HpkePrivateKey}
use hpke_rs.Hpke.Setup.{
  Session, random, encapsulate, derive_key_pair, generate_key_pair, setup_sender, seed,
}

module _ (b : Build) (C : HpkeCrypto) where
  derive_sk-unimplemented :
      (alg : KemAlgorithm) (suite_id prk : Bytes)
      → alg ≢ dh_kem_p256
      → alg ≢ dh_kem_25519
      → DhKem.derive_sk b C alg suite_id prk ≡ panic
  unfolding DhKem.derive_sk
  derive_sk-unimplemented dh_kem_p256 suite_id prk p q = absurd (p refl)
  derive_sk-unimplemented dh_kem_25519 suite_id prk p q = absurd (q refl)
  derive_sk-unimplemented _ suite_id prk p q = refl

  encapsulate-unimplemented :
      (mode : Mode) (alg : KemAlgorithm) (pk_r : HpkePublicKey) (sk_s : HpkePrivateKey)
      (randomness : Bytes)
      → alg ≢ dh_kem_p256
      → alg ≢ dh_kem_25519
      → encapsulate b C mode alg pk_r (some sk_s) randomness ≡ panic
  unfolding encapsulate Kem.encaps Kem.auth_encaps DhKem.encaps DhKem.auth_encaps
      DhKem.derive_key_pair
  encapsulate-unimplemented mode alg pk_r sk_s randomness p q =
      let prk = labeled_extract b C (kem_kdf alg) [] (Kem.ciphersuite alg) "dkp_prk" randomness in
      ground (arith, derive_sk-unimplemented alg (Kem.ciphersuite alg) prk p q)

  -- With a KEM other than P-256 and X25519, the derivation of a key pair panics, and so does the
  -- set-up of a sender that is given a private key, once its randomness is drawn.
  pub unimplemented_kem :
      (s : Session C) (ikm bytes info : Bytes) (pk_r : HpkePublicKey) (psk psk_id : Option Bytes)
      (sk_s : HpkePrivateKey)
      → s.hpke.kem_id ≢ dh_kem_p256
      → s.hpke.kem_id ≢ dh_kem_25519
      → (random b C (private_key_len s.hpke.kem_id) s).0 ≡ ok bytes
      → (derive_key_pair b C s.hpke ikm ≡ panic)
        × ((setup_sender b C pk_r info psk psk_id (some sk_s) s).0 ≡ panic)
  unfolding derive_key_pair Kem.derive_key_pair DhKem.derive_key_pair setup_sender
  unimplemented_kem s ikm bytes info pk_r psk psk_id sk_s p q drawn =
      let alg = s.hpke.kem_id in
      let prk = labeled_extract b C (kem_kdf alg) [] (Kem.ciphersuite alg) "dkp_prk" ikm in
      (
        ground (arith, derive_sk-unimplemented alg (Kem.ciphersuite alg) prk p q),
        ground (arith, encapsulate-unimplemented s.hpke.mode alg pk_r sk_s bytes p q),
      )

  -- While the lock on the generator is poisoned, drawing randomness, generating a key pair,
  -- seeding and setting up a sender fail with LockPoisoned and change nothing.
  pub poisoned_lock :
      (s : Session C) (len : ℕ) (bytes info : Bytes) (pk_r : HpkePublicKey)
      (psk psk_id : Option Bytes) (sk_s : Option HpkePrivateKey)
      → s.hpke.prng.poisoned ≡ true
      → (random b C len s ≡ (err lock_poisoned, s))
        × (generate_key_pair b C s ≡ (err lock_poisoned, s))
        × (seed b C bytes s ≡ (err lock_poisoned, s))
        × (setup_sender b C pk_r info psk psk_id sk_s s ≡ (err lock_poisoned, s))
  unfolding random generate_key_pair seed setup_sender
  poisoned_lock s len bytes info pk_r psk psk_id sk_s poisoned = ground arith
