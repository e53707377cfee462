-- ===== src/Hpke/SingleShot/RoundTrip.antt =====
-- The single-shot calls of the two sides together (src/lib.rs).
use hpke_rs.Prelude.{ℕ, ◌<◌, ◌≡◌, Option, ok, length, arith, unwrap_or, []}
use hpke_rs.Prelude.Bytes.{Bytes}
use hpke_rs.Build.{Build}
use hpke_rs.Traits.Crypto.{HpkeCrypto, IsSeeded, IsDiffieHellman, IsAead}
use hpke_rs.Hpke.Keys.{HpkePublicKey, HpkePrivateKey}
use hpke_rs.Hpke.Config.{Hpke}
use hpke_rs.Hpke.Context
use hpke_rs.Hpke.Context.{Context, export}
use hpke_rs.Hpke.Channel.{open-seal}
use hpke_rs.Hpke.Channel.Exports.{export-Agrees}
use hpke_rs.Hpke.Schedule.Agreement.{SameConfig}
use hpke_rs.Hpke.Setup.{Session, setup_sender}
use hpke_rs.Hpke.Setup.Agreement.{IsKeyPair, Authenticates, setup_receiver-setup_sender}
use hpke_rs.Hpke.SingleShot.{seal, open_message, send_export, receiver_export}

blank : {C : HpkeCrypto} → Hpke C → Context C
blank hpke = record { key = []; nonce = []; exporter_secret = []; sequence_number = 0; hpke = hpke }

module _ (b : Build) (C : HpkeCrypto) (D : IsDiffieHellman C) (S : IsSeeded C) where
  -- Over a provider whose Diffie-Hellman calls commute, whose generators can be made and whose
  -- AEAD opens what it sealed, what `seal` of one party seals to a receiver's public key, `open`
  -- of the receiver opens to the same message, in each of the four modes: with the same
  -- algorithms, info, PSK inputs and associated data, with the private key that belongs to the
  -- public key, in the authenticated modes with the sender's public key, and for a message that
  -- is not empty.
  pub open-seal_once :
      IsAead C
      → (s t : Session C) (pk_r : HpkePublicKey) (sk_r : HpkePrivateKey) (info aad msg : Bytes)
        (psk psk_id : Option Bytes) (sk_s : Option HpkePrivateKey) (pk_s : Option HpkePublicKey)
        (enc ct : Bytes)
      → SameConfig s.hpke t.hpke
      → IsKeyPair C s.hpke.kem_id sk_r pk_r
      → Authenticates C s.hpke.mode s.hpke.kem_id sk_s pk_s
      → 0 < length msg
      → (seal b C pk_r info aad msg psk psk_id sk_s s).0 ≡ ok (enc, ct)
      → (open_message b C enc sk_r info aad ct psk psk_id pk_s t).0 ≡ ok msg
  unfolding seal open_message
  open-seal_once A s t pk_r sk_r info aad msg psk psk_id sk_s pk_s enc ct same pair authentic full
        h =
      let sent = unwrap_or (setup_sender b C pk_r info psk psk_id sk_s s).0 ([], blank s.hpke) in
      let began : (setup_sender b C pk_r info psk psk_id sk_s s).0 ≡ ok (enc, sent.1) =
        ground arith in
      let sealed : (Context.seal b C aad msg sent.1).0 ≡ ok ct = ground arith in
      let (ctx, received, agrees) =
        setup_receiver-setup_sender b C D S s t pk_r sk_r info psk psk_id sk_s pk_s enc sent.1 same
          pair authentic began in
      let opened = (open-seal b C A sent.1 ctx aad msg ct agrees full sealed).0 in
      rw (received, opened)

  -- Over a provider whose Diffie-Hellman calls commute and whose generators can be made, when
  -- `send_export` succeeds, `receiver_export` on the encapsulated key gives the same secret, in
  -- each mode, for parties with the same algorithms, info, PSK inputs, exporter context and
  -- length, the private key that belongs to the receiver's public key, and, in the authenticated
  -- modes, the sender's key pair.
  pub receiver_export-send_export :
      (s t : Session C) (pk_r : HpkePublicKey) (sk_r : HpkePrivateKey) (info : Bytes)
      (psk psk_id : Option Bytes) (sk_s : Option HpkePrivateKey) (pk_s : Option HpkePublicKey)
      (exporter_context : Bytes) (len : ℕ) (enc secret : Bytes)
      → SameConfig s.hpke t.hpke
      → IsKeyPair C s.hpke.kem_id sk_r pk_r
      → Authenticates C s.hpke.mode s.hpke.kem_id sk_s pk_s
      → (send_export b C pk_r info psk psk_id sk_s exporter_context len s).0 ≡ ok (enc, secret)
      → (receiver_export b C enc sk_r info psk psk_id pk_s exporter_context len t).0 ≡ ok secret
  unfolding send_export receiver_export
  receiver_export-send_export s t pk_r sk_r info psk psk_id sk_s pk_s exporter_context len enc
        secret same pair authentic h =
      let sent = unwrap_or (setup_sender b C pk_r info psk psk_id sk_s s).0 ([], blank s.hpke) in
      let began : (setup_sender b C pk_r info psk psk_id sk_s s).0 ≡ ok (enc, sent.1) =
        ground arith in
      let exported : export b C sent.1 exporter_context len ≡ ok secret = ground arith in
      let (ctx, received, agrees) =
        setup_receiver-setup_sender b C D S s t pk_r sk_r info psk psk_id sk_s pk_s enc sent.1 same
          pair authentic began in
      rw (received, ← export-Agrees b C sent.1 ctx exporter_context len agrees) exported
