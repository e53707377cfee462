-- ===== src/Hpke/Delivery.antt =====
-- From the set-up of the sender to the last message that the receiver reads (src/lib.rs).
use hpke_rs.Prelude.{
  ◌^◌, ◌<◌, ◌≡◌, ◌≢◌, ◌∙◌, List, [], ◌∷◌, Option, Outcome, ok, length, All, arith,
}
use hpke_rs.Prelude.Bytes.{Bytes}
use hpke_rs.Build.{Build}
use hpke_rs.Traits.Types.{AeadAlgorithm, hpke_export}
use hpke_rs.Traits.Crypto.{HpkeCrypto, IsSeeded, IsDiffieHellman, IsKdf, IsAead, IsTotalAead}
use hpke_rs.Hpke.Errors.{HpkeError}
use hpke_rs.Hpke.Keys.{HpkePublicKey, HpkePrivateKey}
use hpke_rs.Hpke.Context.{Context}
use hpke_rs.Hpke.Schedule.Agreement.{SameConfig}
use hpke_rs.Hpke.Setup.{Session, setup_sender, setup_receiver}
use hpke_rs.Hpke.Setup.Agreement.{IsKeyPair, Authenticates, setup_receiver-setup_sender}
use hpke_rs.Hpke.Lifetime.{setup_sender-IsNew}
use hpke_rs.Hpke.Channel.{seal_all, open_all, open_all-seal_all}
use hpke_rs.Hpke.Channel.Progress.{seal_all-progress}

-- A message that is not empty and that the ciphers take with its associated data.
abbrev pub IsDeliverable :
    (AeadAlgorithm → Bytes → Bytes → Type 0) → AeadAlgorithm → Bytes × Bytes → Type 0
IsDeliverable Takes alg (aad, msg) = (0 < length msg) × Takes alg aad msg

-- What a conversation comes to: the ciphertexts, and the receiver's context, which reads them.
pub record Delivers (b : Build) (C : HpkeCrypto) (msgs : List (Bytes × Bytes)) (ctx : Context C)
    (received : Outcome HpkeError (Context C)) : Type 0 where
  pub cts : List (Bytes × Bytes)
  pub peer : Context C
  pub sealed : (seal_all b C msgs ctx).0 ≡ ok cts
  pub joined : received ≡ ok peer
  pub opened : (open_all b C cts peer).0 ≡ ok msgs

module _ (Takes : AeadAlgorithm → Bytes → Bytes → Type 0) (alg : AeadAlgorithm) where
  nonempty :
      (msgs : List (Bytes × Bytes))
      → All (IsDeliverable Takes alg) msgs
      → All (λ m. 0 < length m.1) msgs
  nonempty [] h = tt
  nonempty ((aad, msg) ∷ msgs) h = (h.0.0, nonempty msgs h.1)

  taken :
      (msgs : List (Bytes × Bytes))
      → All (IsDeliverable Takes alg) msgs
      → All (λ m. Takes alg m.0 m.1) msgs
  taken [] h = tt
  taken ((aad, msg) ∷ msgs) h = (h.0.1, taken msgs h.1)

module _ (b : Build) (C : HpkeCrypto) (D : IsDiffieHellman C) (K : IsKdf C) (A : IsAead C)
    (S : IsSeeded C) (Takes : AeadAlgorithm → Bytes → Bytes → Type 0)
    (T : IsTotalAead C Takes) where
  pub delivery :
      (s t : Session C) (pk_r : HpkePublicKey) (sk_r : HpkePrivateKey) (info : Bytes)
      (psk psk_id : Option Bytes) (sk_s : Option HpkePrivateKey) (pk_s : Option HpkePublicKey)
      (enc : Bytes) (ctx : Context C) (msgs : List (Bytes × Bytes))
      → SameConfig s.hpke t.hpke
      → IsKeyPair C s.hpke.kem_id sk_r pk_r
      → Authenticates C s.hpke.mode s.hpke.kem_id sk_s pk_s
      → s.hpke.aead_id ≢ hpke_export
      → (setup_sender b C pk_r info psk psk_id sk_s s).0 ≡ ok (enc, ctx)
      → All (IsDeliverable Takes s.hpke.aead_id) msgs
      → length msgs < 2 ^ 32
      → Delivers b C msgs ctx (setup_receiver b C enc sk_r info psk psk_id pk_s t).0
  delivery s t pk_r sk_r info psk psk_id sk_s pk_s enc ctx msgs same pair authentic sealing began
        fit few =
      let new = setup_sender-IsNew b C K s pk_r info psk psk_id sk_s enc ctx began in
      let (peer, joined, agrees) =
        setup_receiver-setup_sender b C D S s t pk_r sk_r info psk psk_id sk_s pk_s enc ctx same
          pair authentic began in
      let fits : All (λ m. Takes ctx.hpke.aead_id m.0 m.1) msgs =
        rw (← new.config.aead_id) (taken Takes s.hpke.aead_id msgs fit) in
      let (cts, sealed, _) =
        seal_all-progress b C Takes T msgs ctx new.sound (λ e. sealing (new.config.aead_id ∙ e))
          fits (omega (arith, new.start)) in
      let (opened, _) =
        open_all-seal_all b C A msgs cts ctx peer agrees (nonempty Takes s.hpke.aead_id msgs fit)
          sealed in
      record { cts = cts; peer = peer; sealed = sealed; joined = joined; opened = opened }
