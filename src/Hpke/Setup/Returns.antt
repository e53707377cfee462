-- ===== src/Hpke/Setup/Returns.antt =====
-- Panics of the set-ups (src/lib.rs), for an implemented KEM and a provider that does not panic.
use hpke_rs.Prelude.{
  refl, ℕ, ◌<◌, ◌≡◌, ◌≢◌, [], Option, none, some, Outcome, ok, err, panic, length, arith, unwrap_or,
  map_err, String,
}
use hpke_rs.Prelude.Bytes.{Bytes}
use hpke_rs.Build.{Build}
use hpke_rs.Traits.Types.{KemAlgorithm, KdfAlgorithm, AeadAlgorithm, private_key_len}
use hpke_rs.Traits.Crypto.{
  HpkeCrypto, IsSeeded, aead_key_length, aead_nonce_length, kdf_digest_length,
}
use hpke_rs.Kdf.{labeled_extract, labeled_expand}
use hpke_rs.DhKem.Returns.{
  IsImplemented, IsPanicFree, labeled_expand-returns, encaps-returns, decaps-returns,
  auth_encaps-returns, auth_decaps-returns,
}
use hpke_rs.Kem
use hpke_rs.Hpke.Errors.{crypto_failure}
use hpke_rs.Hpke.Mode.{Mode}
use hpke_rs.Hpke.Keys.{HpkePublicKey, HpkePrivateKey}
use hpke_rs.Hpke.Config.{Hpke, clone, ciphersuite, key_schedule_context, verify_psk_inputs}
use hpke_rs.Hpke.Schedule.{key_schedule}
use hpke_rs.Hpke.Setup.{
  Session, random, encapsulate, decapsulate, setup_sender, setup_receiver, unwrap_or_default,
}

map_err-returns {ℓ κ μ} :
    {E : Type ℓ} {F : Type κ} {A : Type μ} (g : E → F) (m : Outcome E A)
    → m ≢ panic
    → map_err g m ≢ panic
map_err-returns g (ok a) h e = cc
map_err-returns g (err x) h e = cc
map_err-returns g panic h e = absurd (h refl)

key_length-lt : (alg : AeadAlgorithm) → aead_key_length alg < 256
unfolding aead_key_length
key_length-lt alg = ground arith

nonce_length-lt : (alg : AeadAlgorithm) → aead_nonce_length alg < 256
unfolding aead_nonce_length
nonce_length-lt alg = ground arith

digest_length-lt : (alg : KdfAlgorithm) → kdf_digest_length alg < 256
unfolding kdf_digest_length
digest_length-lt alg = ground arith

verify_psk_inputs-returns :
    (mode : Mode) (psk psk_id : Bytes) → verify_psk_inputs mode psk psk_id ≢ panic
unfolding verify_psk_inputs
verify_psk_inputs-returns mode psk psk_id h = ground arith

module _ (b : Build) (C : HpkeCrypto) where
  -- The generator ends in an error or in as many bytes as were asked for.
  abbrev pub Fills : Session C → ℕ → Type 0
  Fills s len =
      ((random b C len s).0 ≢ panic)
      × ((bytes : Bytes) → (random b C len s).0 ≡ ok bytes → length bytes ≡ len)

module _ (b : Build) (C : HpkeCrypto) (F : IsPanicFree C) (S : IsSeeded C) where
  encapsulate-returns :
      (mode : Mode) (alg : KemAlgorithm) (pk_r : HpkePublicKey) (sk_s : Option HpkePrivateKey)
      (randomness : Bytes)
      → IsImplemented alg
      → length randomness ≡ private_key_len alg
      → encapsulate b C mode alg pk_r sk_s randomness ≢ panic
  unfolding encapsulate Kem.encaps Kem.auth_encaps
  encapsulate-returns mode alg pk_r none randomness known sized h =
      ground
        (arith, encaps-returns b C F alg pk_r.value (Kem.ciphersuite alg) randomness known sized)
  encapsulate-returns mode alg pk_r (some sk_s) randomness known sized h = ground (
    arith,
    encaps-returns b C F alg pk_r.value (Kem.ciphersuite alg) randomness known sized,
    auth_encaps-returns b C F alg pk_r.value sk_s.value (Kem.ciphersuite alg) randomness known
        sized,
  )

  decapsulate-returns :
      (mode : Mode) (alg : KemAlgorithm) (enc : Bytes) (sk_r : HpkePrivateKey)
      (pk_s : Option HpkePublicKey)
      → decapsulate b C mode alg enc sk_r pk_s ≢ panic
  unfolding decapsulate Kem.decaps Kem.auth_decaps
  decapsulate-returns mode alg enc sk_r none h =
      ground (arith, decaps-returns b C F alg enc sk_r.value (Kem.ciphersuite alg))
  decapsulate-returns mode alg enc sk_r (some pk_s) h = ground (
    arith,
    decaps-returns b C F alg enc sk_r.value (Kem.ciphersuite alg),
    auth_decaps-returns b C F alg enc sk_r.value pk_s.value (Kem.ciphersuite alg),
  )

  expand-returns :
      (alg : KdfAlgorithm) (prk suite_id info : Bytes) (label : String) (len : ℕ)
      → len < 256
      → map_err (crypto_failure b) (labeled_expand b C alg prk suite_id label info len) ≢ panic
  expand-returns alg prk suite_id info label len short =
      map_err-returns (crypto_failure b) _
        (labeled_expand-returns b C F alg prk suite_id info label len short)

  clone-returns : (self : Hpke C) (e : C.Entropy) → (clone b C self e).0 ≢ panic
  unfolding clone
  clone-returns self e h = let (prng, made) = S.prng_some e in ground arith

  key_schedule-returns :
      (self : Hpke C) (zz info psk psk_id : Bytes) (e : C.Entropy)
      → (key_schedule b C self zz info psk psk_id e).0 ≢ panic
  unfolding key_schedule
  key_schedule-returns self zz info psk psk_id e h =
      let suite_id = ciphersuite b C self in
      let context = key_schedule_context b C self info psk_id suite_id in
      let secret = labeled_extract b C self.kdf_id zz suite_id "secret" psk in
      ground (
        arith,
        verify_psk_inputs-returns self.mode psk psk_id,
        clone-returns self e,
        expand-returns self.kdf_id secret suite_id context "key" (aead_key_length self.aead_id)
            (key_length-lt self.aead_id),
        expand-returns self.kdf_id secret suite_id context "base_nonce"
            (aead_nonce_length self.aead_id) (nonce_length-lt self.aead_id),
        expand-returns self.kdf_id secret suite_id context "exp" (kdf_digest_length self.kdf_id)
            (digest_length-lt self.kdf_id),
      )

  pub setup_sender-returns :
      (s : Session C) (pk_r : HpkePublicKey) (info : Bytes) (psk psk_id : Option Bytes)
      (sk_s : Option HpkePrivateKey)
      → IsImplemented s.hpke.kem_id
      → Fills b C s (private_key_len s.hpke.kem_id)
      → (setup_sender b C pk_r info psk psk_id sk_s s).0 ≢ panic
  unfolding setup_sender
  setup_sender-returns s pk_r info psk psk_id sk_s known fills h =
      let drawn = random b C (private_key_len s.hpke.kem_id) s in
      let bytes = unwrap_or drawn.0 [] in
      let zz = (unwrap_or (encapsulate b C s.hpke.mode s.hpke.kem_id pk_r sk_s bytes) ([], [])).0 in
      let copied = clone b C s.hpke drawn.1.entropy in
      ground (
        arith,
        fills.0,
        fills.1 bytes,
        encapsulate-returns s.hpke.mode s.hpke.kem_id pk_r sk_s bytes known,
        clone-returns s.hpke drawn.1.entropy,
        key_schedule-returns (unwrap_or copied.0 s.hpke) zz info (unwrap_or_default psk)
            (unwrap_or_default psk_id) copied.1,
      )

  pub setup_receiver-returns :
      (s : Session C) (enc : Bytes) (sk_r : HpkePrivateKey) (info : Bytes)
      (psk psk_id : Option Bytes) (pk_s : Option HpkePublicKey)
      → (setup_receiver b C enc sk_r info psk psk_id pk_s s).0 ≢ panic
  unfolding setup_receiver
  setup_receiver-returns s enc sk_r info psk psk_id pk_s h =
      let zz = unwrap_or (decapsulate b C s.hpke.mode s.hpke.kem_id enc sk_r pk_s) [] in
      let copied = clone b C s.hpke s.entropy in
      ground (
        arith,
        decapsulate-returns s.hpke.mode s.hpke.kem_id enc sk_r pk_s,
        clone-returns s.hpke s.entropy,
        key_schedule-returns (unwrap_or copied.0 s.hpke) zz info (unwrap_or_default psk)
            (unwrap_or_default psk_id) copied.1,
      )
