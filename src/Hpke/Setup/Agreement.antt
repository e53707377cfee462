-- ===== src/Hpke/Setup/Agreement.antt =====
-- A sender, and a receiver that is set up with what the sender sent (src/lib.rs).
use hpke_rs.Prelude.{◌≡◌, Option, none, some, map_err, ok, arith}
use hpke_rs.Prelude.Bytes.{Bytes}
use hpke_rs.Build.{Build}
use hpke_rs.Traits.Types.{KemAlgorithm}
use hpke_rs.Traits.Crypto.{HpkeCrypto, IsSeeded, IsDiffieHellman}
use hpke_rs.DhKem.Agreement.{decaps-encaps, auth_decaps-auth_encaps}
use hpke_rs.Kem
use hpke_rs.Hpke.Errors.{from_error}
use hpke_rs.Hpke.Mode.{Mode}
use hpke_rs.Hpke.Keys.{HpkePublicKey, HpkePrivateKey}
use hpke_rs.Hpke.Config.{clone}
use hpke_rs.Hpke.Context.{Context}
use hpke_rs.Hpke.Schedule.Agreement.{
  SameConfig, Agrees, key_schedule-Agrees, SameConfig_symm, SameConfig_trans, clone-IsSeeded,
}
use hpke_rs.Hpke.Setup.Steps.{setup_sender-SenderSteps}
use hpke_rs.Hpke.Setup.{
  Session, encapsulate, decapsulate, setup_sender, setup_receiver, unwrap_or_default,
}

module _ (C : HpkeCrypto) where
  -- The public key belongs to the private key.
  abbrev pub IsKeyPair : KemAlgorithm → HpkePrivateKey → HpkePublicKey → Type 0
  IsKeyPair alg sk pk = C.kem_derive_base alg sk.value ≡ ok pk.value

  -- The receiver holds the sender's public key, where the mode authenticates the sender.
  abbrev pub Authenticates :
      Mode → KemAlgorithm → Option HpkePrivateKey → Option HpkePublicKey → Type 0
  Authenticates Mode.base alg sk pk = Unit
  Authenticates Mode.psk alg sk pk = Unit
  Authenticates Mode.auth alg (some sk) (some pk) = IsKeyPair alg sk pk
  Authenticates Mode.auth alg _ _ = ⊥
  Authenticates Mode.auth_psk alg (some sk) (some pk) = IsKeyPair alg sk pk
  Authenticates Mode.auth_psk alg _ _ = ⊥

module _ (b : Build) (C : HpkeCrypto) (D : IsDiffieHellman C) where
  decaps_Kem :
      (alg : KemAlgorithm) (pk_r : HpkePublicKey) (sk_r : HpkePrivateKey)
      (randomness zz enc : Bytes)
      → IsKeyPair C alg sk_r pk_r
      → map_err from_error (Kem.encaps b C alg pk_r.value randomness) ≡ ok (zz, enc)
      → map_err from_error (Kem.decaps b C alg enc sk_r.value) ≡ ok zz
  unfolding Kem.encaps Kem.decaps
  decaps_Kem alg pk_r sk_r randomness zz enc pair h = ground (
    arith,
    decaps-encaps b C D alg (Kem.ciphersuite alg) randomness sk_r.value pk_r.value zz enc pair,
  )

  auth_decaps_Kem :
      (alg : KemAlgorithm) (pk_r : HpkePublicKey) (sk_r : HpkePrivateKey) (sk_s : HpkePrivateKey)
      (pk_s : HpkePublicKey) (randomness zz enc : Bytes)
      → IsKeyPair C alg sk_r pk_r
      → IsKeyPair C alg sk_s pk_s
      → map_err from_error (Kem.auth_encaps b C alg pk_r.value sk_s.value randomness) ≡ ok (zz, enc)
      → map_err from_error (Kem.auth_decaps b C alg enc sk_r.value pk_s.value) ≡ ok zz
  unfolding Kem.auth_encaps Kem.auth_decaps
  auth_decaps_Kem alg pk_r sk_r sk_s pk_s randomness zz enc pair_r pair_s h = ground (
    arith,
    auth_decaps-auth_encaps b C D alg (Kem.ciphersuite alg) randomness sk_r.value pk_r.value
        sk_s.value pk_s.value zz enc pair_r pair_s,
  )

  -- In each mode the receiver finds the secret that the sender encapsulated.
  pub decapsulate-encapsulate :
      (mode : Mode) (alg : KemAlgorithm) (pk_r : HpkePublicKey) (sk_r : HpkePrivateKey)
      (sk_s : Option HpkePrivateKey) (pk_s : Option HpkePublicKey) (randomness zz enc : Bytes)
      → IsKeyPair C alg sk_r pk_r
      → Authenticates C mode alg sk_s pk_s
      → encapsulate b C mode alg pk_r sk_s randomness ≡ ok (zz, enc)
      → decapsulate b C mode alg enc sk_r pk_s ≡ ok zz
  unfolding encapsulate decapsulate
  decapsulate-encapsulate Mode.base alg pk_r sk_r sk_s pk_s randomness zz enc pair authentic h =
      decaps_Kem alg pk_r sk_r randomness zz enc pair h
  decapsulate-encapsulate Mode.psk alg pk_r sk_r sk_s pk_s randomness zz enc pair authentic h =
      decaps_Kem alg pk_r sk_r randomness zz enc pair h
  decapsulate-encapsulate Mode.auth alg pk_r sk_r (some sk) (some pk) randomness zz enc pair
        authentic h =
      auth_decaps_Kem alg pk_r sk_r sk pk randomness zz enc pair authentic h
  decapsulate-encapsulate Mode.auth_psk alg pk_r sk_r (some sk) (some pk) randomness zz enc pair
        authentic h =
      auth_decaps_Kem alg pk_r sk_r sk pk randomness zz enc pair authentic h
  decapsulate-encapsulate Mode.auth alg pk_r sk_r none pk_s randomness zz enc pair authentic h =
      absurd authentic
  decapsulate-encapsulate Mode.auth alg pk_r sk_r (some sk) none randomness zz enc pair authentic
        h =
      absurd authentic
  decapsulate-encapsulate Mode.auth_psk alg pk_r sk_r none pk_s randomness zz enc pair authentic h =
      absurd authentic
  decapsulate-encapsulate Mode.auth_psk alg pk_r sk_r (some sk) none randomness zz enc pair
        authentic h =
      absurd authentic

  -- Over a provider whose Diffie-Hellman calls commute and whose generators can be made, when
  -- `setup_sender` succeeds, `setup_receiver` on the encapsulated key succeeds too, in each mode,
  -- and the two contexts have the same key, base nonce, exporter secret, sequence number and
  -- algorithms: for parties with the same algorithms, info and PSK inputs, the private key that
  -- belongs to the receiver's public key, and, in the authenticated modes, the sender's key pair.
  pub setup_receiver-setup_sender :
      IsSeeded C
      → (s t : Session C) (pk_r : HpkePublicKey) (sk_r : HpkePrivateKey) (info : Bytes)
        (psk psk_id : Option Bytes) (sk_s : Option HpkePrivateKey) (pk_s : Option HpkePublicKey)
        (enc : Bytes) (ctx : Context C)
      → SameConfig s.hpke t.hpke
      → IsKeyPair C s.hpke.kem_id sk_r pk_r
      → Authenticates C s.hpke.mode s.hpke.kem_id sk_s pk_s
      → (setup_sender b C pk_r info psk psk_id sk_s s).0 ≡ ok (enc, ctx)
      → (ctx' : Context C) × ((setup_receiver b C enc sk_r info psk psk_id pk_s t).0 ≡ ok ctx')
        × Agrees ctx ctx'
  unfolding setup_receiver
  setup_receiver-setup_sender S s t pk_r sk_r info psk psk_id sk_s pk_s enc ctx same pair authentic
        h =
      let steps = setup_sender-SenderSteps b C s pk_r info psk psk_id sk_s enc ctx h in
      let found : decapsulate b C t.hpke.mode t.hpke.kem_id enc sk_r pk_s ≡ ok steps.zz =
        rw (← same.mode, ← same.kem_id)
          (decapsulate-encapsulate s.hpke.mode s.hpke.kem_id pk_r sk_r sk_s pk_s steps.randomness
            steps.zz enc pair authentic steps.encapsulated) in
      let (copy, copied, like) = clone-IsSeeded b C S t.hpke t.entropy in
      let config = SameConfig_trans (SameConfig_symm steps.same) (SameConfig_trans same like) in
      let (ctx', scheduled, agrees) =
        key_schedule-Agrees b C S steps.copy copy steps.zz info (unwrap_or_default psk)
          (unwrap_or_default psk_id) steps.entropy (clone b C t.hpke t.entropy).1 ctx config
          steps.scheduled in
      (ctx', ground (arith, found, copied, scheduled), agrees)
