-- ===== src/Hpke/Setup/Missing.antt =====
-- The modes that authenticate the sender, called without the sender's key (`setup_sender` and
-- `setup_receiver`, src/lib.rs).
use hpke_rs.Prelude.{◌≡◌, Option, none, ok, err, arith}
use hpke_rs.Prelude.Bytes.{Bytes}
use hpke_rs.Build.{Build}
use hpke_rs.Traits.Types.{KemAlgorithm, private_key_len}
use hpke_rs.Traits.Crypto.{HpkeCrypto}
use hpke_rs.Hpke.Errors.{invalid_input}
use hpke_rs.Hpke.Mode.{Mode}
use hpke_rs.Hpke.Keys.{HpkePublicKey, HpkePrivateKey}
use hpke_rs.Hpke.Setup.{Session, random, encapsulate, decapsulate, setup_sender, setup_receiver}

-- RFC 9180, table 1: the modes with an authenticated sender.
abbrev pub AuthenticatesSender : Mode → Type 0
AuthenticatesSender Mode.base = ⊥
AuthenticatesSender Mode.psk = ⊥
AuthenticatesSender Mode.auth = Unit
AuthenticatesSender Mode.auth_psk = Unit

module _ (b : Build) (C : HpkeCrypto) where
  encapsulate-missing :
      (mode : Mode) (alg : KemAlgorithm) (pk_r : HpkePublicKey) (randomness : Bytes)
      → AuthenticatesSender mode
      → encapsulate b C mode alg pk_r none randomness ≡ err invalid_input
  unfolding encapsulate
  encapsulate-missing mode alg pk_r randomness h = ground arith

  decapsulate-missing :
      (mode : Mode) (alg : KemAlgorithm) (enc : Bytes) (sk_r : HpkePrivateKey)
      → AuthenticatesSender mode
      → decapsulate b C mode alg enc sk_r none ≡ err invalid_input
  unfolding decapsulate
  decapsulate-missing mode alg enc sk_r h = ground arith

  -- In the modes that authenticate the sender, and when the sender's randomness can be drawn, a
  -- set-up without the sender's key fails with InvalidInput: the receiver's changes nothing, and
  -- the sender's has only drawn its randomness.
  pub setup-missing_key :
      (s : Session C) (enc info bytes : Bytes) (pk_r : HpkePublicKey) (sk_r : HpkePrivateKey)
      (psk psk_id : Option Bytes)
      → AuthenticatesSender s.hpke.mode
      → (random b C (private_key_len s.hpke.kem_id) s).0 ≡ ok bytes
      → (setup_receiver b C enc sk_r info psk psk_id none s ≡ (err invalid_input, s))
        × (setup_sender b C pk_r info psk psk_id none s
            ≡ (err invalid_input, (random b C (private_key_len s.hpke.kem_id) s).1))
  unfolding setup_sender setup_receiver
  setup-missing_key s enc info bytes pk_r sk_r psk psk_id mode drawn = (
    ground (arith, decapsulate-missing s.hpke.mode s.hpke.kem_id enc sk_r),
    ground (arith, encapsulate-missing s.hpke.mode s.hpke.kem_id pk_r bytes),
  )
