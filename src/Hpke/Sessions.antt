-- ===== src/Hpke/Sessions.antt =====
-- The life of a configuration (src/lib.rs): any calls of its methods, in any order, those that
-- fail and those that panic included.
use hpke_rs.Prelude.{refl, Option, ℕ, arith}
use hpke_rs.Prelude.Bytes.{Bytes}
use hpke_rs.Build.{Build}
use hpke_rs.Traits.Types.{private_key_len}
use hpke_rs.Traits.Crypto.{HpkeCrypto}
use hpke_rs.Hpke.Keys.{HpkePublicKey, HpkePrivateKey}
use hpke_rs.Hpke.Schedule.Agreement.{SameConfig, SameConfig_trans}
use hpke_rs.Hpke.Setup.{Session, random, generate_key_pair, seed, setup_sender, setup_receiver}
use hpke_rs.Hpke.SingleShot.{seal, open_message, send_export, receiver_export}

module _ (b : Build) (C : HpkeCrypto) where
  -- A method call, whatever it ends in; a draw of a call that another thread has not ended; or the
  -- system's randomness moves on.
  pub data Call (s : Session C) : Session C → Type 0 where
    generated : Call s (generate_key_pair b C s).1
    seeded : (bytes : Bytes) → Call s (seed b C bytes s).1
    sent :
        (pk_r : HpkePublicKey) (info : Bytes) (psk psk_id : Option Bytes)
        (sk_s : Option HpkePrivateKey)
        → Call s (setup_sender b C pk_r info psk psk_id sk_s s).1
    received :
        (enc : Bytes) (sk_r : HpkePrivateKey) (info : Bytes) (psk psk_id : Option Bytes)
        (pk_s : Option HpkePublicKey)
        → Call s (setup_receiver b C enc sk_r info psk psk_id pk_s s).1
    sealed :
        (pk_r : HpkePublicKey) (info aad msg : Bytes) (psk psk_id : Option Bytes)
        (sk_s : Option HpkePrivateKey)
        → Call s (seal b C pk_r info aad msg psk psk_id sk_s s).1
    opened :
        (enc : Bytes) (sk_r : HpkePrivateKey) (info aad ct : Bytes) (psk psk_id : Option Bytes)
        (pk_s : Option HpkePublicKey)
        → Call s (open_message b C enc sk_r info aad ct psk psk_id pk_s s).1
    exported :
        (pk_r : HpkePublicKey) (info : Bytes) (psk psk_id : Option Bytes)
        (sk_s : Option HpkePrivateKey) (exporter_context : Bytes) (len : ℕ)
        → Call s (send_export b C pk_r info psk psk_id sk_s exporter_context len s).1
    imported :
        (enc : Bytes) (sk_r : HpkePrivateKey) (info : Bytes) (psk psk_id : Option Bytes)
        (pk_s : Option HpkePublicKey) (exporter_context : Bytes) (len : ℕ)
        → Call s (receiver_export b C enc sk_r info psk psk_id pk_s exporter_context len s).1
    drew : (len : ℕ) → Call s (random b C len s).1
    moved_on : (entropy : C.Entropy) → Call s (record s { entropy = entropy })

  pub data Calls (s : Session C) : Session C → Type 0 where
    here : Calls s s
    next : {t u : Session C} → Calls s t → Call t u → Calls s u

  -- The mode and the algorithms are the same.
  pub record Keeps (s t : Session C) : Type 0 where
    pub config : SameConfig s.hpke t.hpke

  Keeps-refl : (s : Session C) → Keeps s s
  Keeps-refl s = record {
    config = record { mode = refl; kem_id = refl; kdf_id = refl; aead_id = refl };
  }

  Keeps-trans : {s t u : Session C} → Keeps s t → Keeps t u → Keeps s u
  Keeps-trans {s} {t} {u} p q = record { config = SameConfig_trans p.config q.config }

  pub random-Keeps : (s : Session C) (len : ℕ) → Keeps s (random b C len s).1
  unfolding random
  random-Keeps s len = ground arith

  generate_key_pair-Keeps : (s : Session C) → Keeps s (generate_key_pair b C s).1
  unfolding generate_key_pair
  generate_key_pair-Keeps s = ground arith

  seed-Keeps : (s : Session C) (bytes : Bytes) → Keeps s (seed b C bytes s).1
  unfolding seed
  seed-Keeps s bytes = ground arith

  -- Beyond drawing its randomness a sender touches nothing but the system's randomness.
  setup_sender-Keeps :
      (s : Session C) (pk_r : HpkePublicKey) (info : Bytes) (psk psk_id : Option Bytes)
      (sk_s : Option HpkePrivateKey)
      → Keeps s (setup_sender b C pk_r info psk psk_id sk_s s).1
  unfolding setup_sender
  setup_sender-Keeps s pk_r info psk psk_id sk_s =
      ground (arith, random-Keeps s (private_key_len s.hpke.kem_id))

  setup_receiver-Keeps :
      (s : Session C) (enc : Bytes) (sk_r : HpkePrivateKey) (info : Bytes)
      (psk psk_id : Option Bytes) (pk_s : Option HpkePublicKey)
      → Keeps s (setup_receiver b C enc sk_r info psk psk_id pk_s s).1
  unfolding setup_receiver
  setup_receiver-Keeps s enc sk_r info psk psk_id pk_s = ground arith

  pub seal-Keeps :
      (s : Session C) (pk_r : HpkePublicKey) (info aad msg : Bytes) (psk psk_id : Option Bytes)
      (sk_s : Option HpkePrivateKey)
      → Keeps s (seal b C pk_r info aad msg psk psk_id sk_s s).1
  unfolding seal
  seal-Keeps s pk_r info aad msg psk psk_id sk_s =
      ground (arith, setup_sender-Keeps s pk_r info psk psk_id sk_s)

  open_message-Keeps :
      (s : Session C) (enc : Bytes) (sk_r : HpkePrivateKey) (info aad ct : Bytes)
      (psk psk_id : Option Bytes) (pk_s : Option HpkePublicKey)
      → Keeps s (open_message b C enc sk_r info aad ct psk psk_id pk_s s).1
  unfolding open_message
  open_message-Keeps s enc sk_r info aad ct psk psk_id pk_s =
      ground (arith, setup_receiver-Keeps s enc sk_r info psk psk_id pk_s)

  send_export-Keeps :
      (s : Session C) (pk_r : HpkePublicKey) (info : Bytes) (psk psk_id : Option Bytes)
      (sk_s : Option HpkePrivateKey) (exporter_context : Bytes) (len : ℕ)
      → Keeps s (send_export b C pk_r info psk psk_id sk_s exporter_context len s).1
  unfolding send_export
  send_export-Keeps s pk_r info psk psk_id sk_s exporter_context len =
      ground (arith, setup_sender-Keeps s pk_r info psk psk_id sk_s)

  receiver_export-Keeps :
      (s : Session C) (enc : Bytes) (sk_r : HpkePrivateKey) (info : Bytes)
      (psk psk_id : Option Bytes) (pk_s : Option HpkePublicKey) (exporter_context : Bytes) (len : ℕ)
      → Keeps s (receiver_export b C enc sk_r info psk psk_id pk_s exporter_context len s).1
  unfolding receiver_export
  receiver_export-Keeps s enc sk_r info psk psk_id pk_s exporter_context len =
      ground (arith, setup_receiver-Keeps s enc sk_r info psk psk_id pk_s)

  moved_on-Keeps : (s : Session C) (entropy : C.Entropy) → Keeps s (record s { entropy = entropy })
  moved_on-Keeps s entropy = ground arith

  Call-Keeps : {s t : Session C} → Call s t → Keeps s t
  Call-Keeps generated = generate_key_pair-Keeps _
  Call-Keeps (seeded bytes) = seed-Keeps _ bytes
  Call-Keeps (sent pk_r info psk psk_id sk_s) = setup_sender-Keeps _ pk_r info psk psk_id sk_s
  Call-Keeps (received enc sk_r info psk psk_id pk_s) =
      setup_receiver-Keeps _ enc sk_r info psk psk_id pk_s
  Call-Keeps (sealed pk_r info aad msg psk psk_id sk_s) =
      seal-Keeps _ pk_r info aad msg psk psk_id sk_s
  Call-Keeps (opened enc sk_r info aad ct psk psk_id pk_s) =
      open_message-Keeps _ enc sk_r info aad ct psk psk_id pk_s
  Call-Keeps (exported pk_r info psk psk_id sk_s exporter_context len) =
      send_export-Keeps _ pk_r info psk psk_id sk_s exporter_context len
  Call-Keeps (imported enc sk_r info psk psk_id pk_s exporter_context len) =
      receiver_export-Keeps _ enc sk_r info psk psk_id pk_s exporter_context len
  Call-Keeps (drew len) = random-Keeps _ len
  Call-Keeps (moved_on entropy) = moved_on-Keeps _ entropy

  -- After any calls the mode and the three algorithms are the same.
  pub Calls-Keeps : {s t : Session C} → Calls s t → Keeps s t
  Calls-Keeps {s} here = Keeps-refl s
  Calls-Keeps (next before call) = Keeps-trans (Calls-Keeps before) (Call-Keeps call)
