-- ===== src/Hpke/Setup/Determinism.antt =====
-- The set-up of a sender (src/lib.rs) and the randomness that it draws.
use hpke_rs.Prelude.{◌≡◌, ◌∙◌, sym, ap, Option, ok, arith}
use hpke_rs.Prelude.Bytes.{Bytes}
use hpke_rs.Build.{Build}
use hpke_rs.Traits.Types.{private_key_len}
use hpke_rs.Traits.Crypto.{HpkeCrypto, IsSeeded}
use hpke_rs.Hpke.Keys.{HpkePublicKey, HpkePrivateKey}
use hpke_rs.Hpke.Config.{clone}
use hpke_rs.Hpke.Context.{Context}
use hpke_rs.Hpke.Schedule.Agreement.{
  SameConfig, SameConfig_symm, SameConfig_trans, clone-IsSeeded, Agrees, key_schedule-Agrees,
}
use hpke_rs.Hpke.Setup.{Session, random, encapsulate, setup_sender, unwrap_or_default}
use hpke_rs.Hpke.Setup.Steps.{setup_sender-SenderSteps}

module _ (b : Build) (C : HpkeCrypto) where
  pub setup_sender-Agrees :
      IsSeeded C
      → (s t : Session C) (pk_r : HpkePublicKey) (info : Bytes) (psk psk_id : Option Bytes)
        (sk_s : Option HpkePrivateKey) (enc : Bytes) (ctx : Context C)
      → SameConfig s.hpke t.hpke
      → (random b C (private_key_len s.hpke.kem_id) t).0
        ≡ (random b C (private_key_len s.hpke.kem_id) s).0
      → (setup_sender b C pk_r info psk psk_id sk_s s).0 ≡ ok (enc, ctx)
      → (ctx' : Context C) × ((setup_sender b C pk_r info psk psk_id sk_s t).0 ≡ ok (enc, ctx'))
        × Agrees ctx ctx'
  unfolding setup_sender
  setup_sender-Agrees S s t pk_r info psk psk_id sk_s enc ctx same alike h =
      let steps = setup_sender-SenderSteps b C s pk_r info psk psk_id sk_s enc ctx h in
      let drawn : (random b C (private_key_len t.hpke.kem_id) t).0 ≡ ok steps.randomness =
        ap (λ alg. (random b C (private_key_len alg) t).0) (sym same.kem_id)
        ∙ alike
        ∙ steps.drawn in
      let found : encapsulate b C t.hpke.mode t.hpke.kem_id pk_r sk_s steps.randomness
          ≡ ok (steps.zz, enc) =
        rw (← same.mode, ← same.kem_id) steps.encapsulated in
      let after = (random b C (private_key_len t.hpke.kem_id) t).1 in
      let (copy, copied, like) = clone-IsSeeded b C S t.hpke after.entropy in
      let config = SameConfig_trans (SameConfig_symm steps.same) (SameConfig_trans same like) in
      let (ctx', scheduled, agrees) =
        key_schedule-Agrees b C S steps.copy copy steps.zz info (unwrap_or_default psk)
          (unwrap_or_default psk_id) steps.entropy (clone b C t.hpke after.entropy).1 ctx config
          steps.scheduled in
      (ctx', ground (arith, drawn, found, copied, scheduled), agrees)
