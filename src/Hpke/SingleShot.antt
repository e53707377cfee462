-- ===== src/Hpke/SingleShot.antt =====
-- src/lib.rs: the single-shot API of RFC 9180, section 6. The context lives for one call.
pub mod RoundTrip
use hpke_rs.Prelude.{ℕ, Option, Outcome}
use hpke_rs.Prelude.Bytes.{Bytes}
use hpke_rs.Prelude.State.{Stateful, ◌>>=◌, pure, lift}
use hpke_rs.Build.{Build}
use hpke_rs.Traits.Crypto.{HpkeCrypto}
use hpke_rs.Hpke.Errors.{HpkeError}
use hpke_rs.Hpke.Keys.{HpkePublicKey, HpkePrivateKey}
use hpke_rs.Hpke.Context
use hpke_rs.Hpke.Setup.{Session, setup_sender, setup_receiver}

module _ (b : Build) (C : HpkeCrypto) where
  unfoldable pub seal :
      HpkePublicKey
      → Bytes
      → Bytes
      → Bytes
      → Option Bytes
      → Option Bytes
      → Option HpkePrivateKey
      → Stateful (Session C) HpkeError (Bytes × Bytes)
  seal pk_r info aad plain_txt psk psk_id sk_s = do
    (enc, context) ← setup_sender b C pk_r info psk psk_id sk_s
    ctxt ← lift (Context.seal b C aad plain_txt context).0
    pure (enc, ctxt)

  unfoldable pub open_message :
      Bytes
      → HpkePrivateKey
      → Bytes
      → Bytes
      → Bytes
      → Option Bytes
      → Option Bytes
      → Option HpkePublicKey
      → Stateful (Session C) HpkeError Bytes
  open_message enc sk_r info aad ct psk psk_id pk_s = do
    context ← setup_receiver b C enc sk_r info psk psk_id pk_s
    lift (Context.open_message b C aad ct context).0

  unfoldable pub send_export :
      HpkePublicKey
      → Bytes
      → Option Bytes
      → Option Bytes
      → Option HpkePrivateKey
      → Bytes
      → ℕ
      → Stateful (Session C) HpkeError (Bytes × Bytes)
  send_export pk_r info psk psk_id sk_s exporter_context length = do
    (enc, context) ← setup_sender b C pk_r info psk psk_id sk_s
    secret ← lift (Context.export b C context exporter_context length)
    pure (enc, secret)

  unfoldable pub receiver_export :
      Bytes
      → HpkePrivateKey
      → Bytes
      → Option Bytes
      → Option Bytes
      → Option HpkePublicKey
      → Bytes
      → ℕ
      → Stateful (Session C) HpkeError Bytes
  receiver_export enc sk_r info psk psk_id pk_s exporter_context length = do
    context ← setup_receiver b C enc sk_r info psk psk_id pk_s
    lift (Context.export b C context exporter_context length)
