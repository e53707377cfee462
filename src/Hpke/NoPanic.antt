-- ===== src/Hpke/NoPanic.antt =====
-- Panics of contexts and of the single-shot calls (src/lib.rs), on arbitrary inputs.
use hpke_rs.Prelude.{◌∙◌, ◌+◌, ◌^◌, ◌<◌, ◌≢◌, Option, panic, arith}
use hpke_rs.Prelude.Bytes.{Bytes}
use hpke_rs.Prelude.State.{continue-returns}
use hpke_rs.Build.{Build}
use hpke_rs.Traits.Types.{hpke_export, private_key_len}
use hpke_rs.Traits.Crypto.{HpkeCrypto, IsSeeded, IsKdf}
use hpke_rs.DhKem.Returns.{IsImplemented, IsPanicFree}
use hpke_rs.Hpke.Keys.{HpkePublicKey, HpkePrivateKey}
use hpke_rs.Hpke.Config.{Hpke}
use hpke_rs.Hpke.Context
use hpke_rs.Hpke.Context.{Context, compute_nonce, increment_seq}
use hpke_rs.Hpke.Lifetime.{
  IsSound, IsNew, setup_sender-IsNew, setup_receiver-IsNew, compute_nonce-IsBytes,
}
use hpke_rs.Hpke.Setup.{Session, setup_sender, setup_receiver}
use hpke_rs.Hpke.SingleShot.{seal, open_message}
use hpke_rs.Hpke.Setup.Returns.{Fills, setup_sender-returns, setup_receiver-returns}

module _ (b : Build) (C : HpkeCrypto) (F : IsPanicFree C) where
  -- A context that is sound and not at its last counter does not panic.
  pub context-returns :
      (s : Context C) (aad msg : Bytes)
      → IsSound C s
      → s.hpke.aead_id ≢ hpke_export
      → s.sequence_number + 1 < 2 ^ 32
      → ((Context.seal b C aad msg s).0 ≢ panic) × ((Context.open_message b C aad msg s).0 ≢ panic)
  unfolding Context.seal Context.open_message increment_seq
  context-returns s aad msg sound sealing more =
      let (nonce, found, width, bytes) = compute_nonce-IsBytes b C s sound sealing in
      (
        λ h. ground (arith, F.seal_returns s.hpke.aead_id s.key nonce aad msg sound.key_length),
        λ h. ground (arith, F.open_returns s.hpke.aead_id s.key nonce aad msg sound.key_length),
      )

module _ (b : Build) (C : HpkeCrypto) (F : IsPanicFree C) (S : IsSeeded C) (K : IsKdf C) where
  new-returns :
      (h : Hpke C) (s : Context C) (aad msg : Bytes)
      → IsNew h s
      → h.aead_id ≢ hpke_export
      → ((Context.seal b C aad msg s).0 ≢ panic) × ((Context.open_message b C aad msg s).0 ≢ panic)
  new-returns h s aad msg new sealing =
      context-returns b C F s aad msg new.sound (λ e. sealing (new.config.aead_id ∙ e))
        (omega (arith, new.start))

  pub seal_once-returns :
      (s : Session C) (pk_r : HpkePublicKey) (info aad msg : Bytes) (psk psk_id : Option Bytes)
      (sk_s : Option HpkePrivateKey)
      → IsImplemented s.hpke.kem_id
      → s.hpke.aead_id ≢ hpke_export
      → Fills b C s (private_key_len s.hpke.kem_id)
      → (seal b C pk_r info aad msg psk psk_id sk_s s).0 ≢ panic
  unfolding seal
  seal_once-returns s pk_r info aad msg psk psk_id sk_s known sealing fills =
      continue-returns (setup_sender b C pk_r info psk psk_id sk_s s) _
        (setup_sender-returns b C F S s pk_r info psk psk_id sk_s known fills)
        (λ (kem, ctx) h.
          let new = setup_sender-IsNew b C K s pk_r info psk psk_id sk_s kem ctx h in
          let safe = new-returns s.hpke ctx aad msg new sealing in λ e. ground (arith, safe.0))

  pub open_once-returns :
      (s : Session C) (sk_r : HpkePrivateKey) (enc info aad ct : Bytes) (psk psk_id : Option Bytes)
      (pk_s : Option HpkePublicKey)
      → s.hpke.aead_id ≢ hpke_export
      → (open_message b C enc sk_r info aad ct psk psk_id pk_s s).0 ≢ panic
  unfolding open_message
  open_once-returns s sk_r enc info aad ct psk psk_id pk_s sealing =
      continue-returns (setup_receiver b C enc sk_r info psk psk_id pk_s s) _
        (setup_receiver-returns b C F S s enc sk_r info psk psk_id pk_s)
        (λ ctx h.
          let new = setup_receiver-IsNew b C K s enc sk_r info psk psk_id pk_s ctx h in
          (new-returns s.hpke ctx aad ct new sealing).1)

  -- Over a provider that does not panic on keys and expansion lengths that the library uses,
  -- whose generators can be made and whose key expansion gives as many bytes as asked for, the
  -- single-shot `seal` and `open` end without a panic on every input, when the KEM is P-256 or
  -- X25519, the algorithm is not export-only, and the drawing of randomness does not panic and
  -- gives as many bytes as asked for.
  pub single_shot-returns :
      (s : Session C) (pk_r : HpkePublicKey) (sk_r : HpkePrivateKey) (enc info aad msg : Bytes)
      (psk psk_id : Option Bytes) (sk_s : Option HpkePrivateKey) (pk_s : Option HpkePublicKey)
      → IsImplemented s.hpke.kem_id
      → s.hpke.aead_id ≢ hpke_export
      → Fills b C s (private_key_len s.hpke.kem_id)
      → ((seal b C pk_r info aad msg psk psk_id sk_s s).0 ≢ panic)
        × ((open_message b C enc sk_r info aad msg psk psk_id pk_s s).0 ≢ panic)
  single_shot-returns s pk_r sk_r enc info aad msg psk psk_id sk_s pk_s known sealing fills = (
    seal_once-returns s pk_r info aad msg psk psk_id sk_s known sealing fills,
    open_once-returns s sk_r enc info aad msg psk psk_id pk_s sealing,
  )
