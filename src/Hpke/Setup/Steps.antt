-- ===== src/Hpke/Setup/Steps.antt =====
-- The steps that a set-up of a sender (`setup_sender`, src/lib.rs) has taken when it succeeds.
use hpke_rs.Prelude.{[], ◌≡◌, Option, ok, arith, unwrap_or}
use hpke_rs.Prelude.Bytes.{Bytes}
use hpke_rs.Build.{Build}
use hpke_rs.Traits.Types.{private_key_len}
use hpke_rs.Traits.Crypto.{HpkeCrypto}
use hpke_rs.Hpke.Keys.{HpkePublicKey, HpkePrivateKey}
use hpke_rs.Hpke.Config.{Hpke, clone}
use hpke_rs.Hpke.Context.{Context}
use hpke_rs.Hpke.Schedule.{key_schedule}
use hpke_rs.Hpke.Schedule.Agreement.{SameConfig, clone-SameConfig}
use hpke_rs.Hpke.Setup.{Session, encapsulate, setup_sender, random, unwrap_or_default}

module _ (b : Build) (C : HpkeCrypto) where
  -- What a set-up that succeeds has done.
  pub record SenderSteps (s : Session C) (pk_r : HpkePublicKey) (info psk psk_id : Bytes)
      (sk_s : Option HpkePrivateKey) (enc : Bytes) (ctx : Context C) : Type 0 where
    pub randomness : Bytes
    pub zz : Bytes
    pub copy : Hpke C
    pub entropy : C.Entropy
    pub drawn : (random b C (private_key_len s.hpke.kem_id) s).0 ≡ ok randomness
    pub encapsulated : encapsulate b C s.hpke.mode s.hpke.kem_id pk_r sk_s randomness ≡ ok (zz, enc)
    pub same : SameConfig s.hpke copy
    pub scheduled : (key_schedule b C copy zz info psk psk_id entropy).0 ≡ ok ctx

  pub setup_sender-SenderSteps :
      (s : Session C) (pk_r : HpkePublicKey) (info : Bytes) (psk psk_id : Option Bytes)
      (sk_s : Option HpkePrivateKey) (enc : Bytes) (ctx : Context C)
      → (setup_sender b C pk_r info psk psk_id sk_s s).0 ≡ ok (enc, ctx)
      → SenderSteps s pk_r info (unwrap_or_default psk) (unwrap_or_default psk_id) sk_s enc ctx
  unfolding setup_sender
  setup_sender-SenderSteps s pk_r info psk psk_id sk_s enc ctx h =
      let drawn = random b C (private_key_len s.hpke.kem_id) s in
      let bytes = unwrap_or drawn.0 [] in
      let zz = (unwrap_or (encapsulate b C s.hpke.mode s.hpke.kem_id pk_r sk_s bytes) ([], [])).0 in
      let copied = clone b C s.hpke drawn.1.entropy in
      let made : copied.0 ≡ ok (unwrap_or copied.0 s.hpke) = ground arith in
      record {
        randomness = bytes;
        zz = zz;
        copy = unwrap_or copied.0 s.hpke;
        entropy = copied.1;
        drawn = ground arith;
        encapsulated = ground arith;
        same = clone-SameConfig b C s.hpke (unwrap_or copied.0 s.hpke) drawn.1.entropy made;
        scheduled = ground arith;
      }
