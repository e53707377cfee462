-- ===== src/Hpke/Lifetime.antt =====
-- The life of a context (src/lib.rs): it is made by a set-up, and then seals and opens, in any
-- order, calls that fail included.
use hpke_rs.Prelude.{
  sym, ap, ◌∙◌, ℕ, ◌^◌, ◌<◌, ◌≡◌, ◌≢◌, refl, [], Option, ok, length, arith, unwrap_or,
}
use mathlib.Core.Path.{subst}
use hpke_rs.Prelude.Bytes.{Bytes, IsBytes}
use hpke_rs.Build.{Build}
use hpke_rs.Traits.Types.{AeadAlgorithm, hpke_export, private_key_len}
use hpke_rs.Traits.Crypto.{HpkeCrypto, IsKdf, aead_key_length, aead_nonce_length, kdf_digest_length}
use hpke_rs.Hpke.Errors.{HpkeError}
use hpke_rs.Hpke.Keys.{HpkePublicKey, HpkePrivateKey}
use hpke_rs.Hpke.Config.{Hpke, clone}
use hpke_rs.Hpke.Context.{Context, compute_nonce, increment_seq, seal, open_message}
use hpke_rs.Hpke.Context.Nonce.{nonce_at-IsBytes}
use hpke_rs.Hpke.Schedule.{key_schedule}
use hpke_rs.Hpke.Schedule.Agreement.{SameConfig, SameConfig_trans, clone-SameConfig}
use hpke_rs.Hpke.Schedule.Lengths.{key_schedule-IsFresh}
use hpke_rs.Hpke.Setup.{
  Session, random, encapsulate, decapsulate, unwrap_or_default, setup_sender, setup_receiver,
}

module _ (C : HpkeCrypto) where
  -- The keys have the lengths of the algorithms and consist of bytes, and the counter is a `u32`.
  pub record IsSound (s : Context C) : Type 0 where
    pub key_length : length s.key ≡ aead_key_length s.hpke.aead_id
    pub nonce_length : length s.nonce ≡ aead_nonce_length s.hpke.aead_id
    pub exporter_length : length s.exporter_secret ≡ kdf_digest_length s.hpke.kdf_id
    pub key_bytes : IsBytes s.key
    pub nonce_bytes : IsBytes s.nonce
    pub exporter_bytes : IsBytes s.exporter_secret
    pub counter : s.sequence_number < 2 ^ 32

module _ (b : Build) (C : HpkeCrypto) where
  -- A call on the context, whatever it ends in.
  pub data Step (s : Context C) : Context C → Type 0 where
    sealed : (aad msg : Bytes) → Step s (seal b C aad msg s).1
    opened : (aad ct : Bytes) → Step s (open_message b C aad ct s).1

  pub data Reach (s : Context C) : Context C → Type 0 where
    here : Reach s s
    next : {t u : Context C} → Reach s t → Step t u → Reach s u

  -- Nothing but the counter moves.
  abbrev pub AtCounter : Context C → Context C → Type 0
  AtCounter s t = (n : ℕ) × (n < 2 ^ 32) × (t ≡ record s { sequence_number = n })

  seal-AtCounter :
      (aad msg : Bytes) (s : Context C)
      → s.sequence_number < 2 ^ 32
      → AtCounter s (seal b C aad msg s).1
  unfolding seal increment_seq
  seal-AtCounter aad msg s h = ((seal b C aad msg s).1.sequence_number, ground arith, ground arith)

  open-AtCounter :
      (aad ct : Bytes) (s : Context C)
      → s.sequence_number < 2 ^ 32
      → AtCounter s (open_message b C aad ct s).1
  unfolding open_message increment_seq
  open-AtCounter aad ct s h =
      ((open_message b C aad ct s).1.sequence_number, ground arith, ground arith)

  Step-AtCounter : {s t : Context C} → s.sequence_number < 2 ^ 32 → Step s t → AtCounter s t
  Step-AtCounter h (sealed aad msg) = seal-AtCounter aad msg _ h
  Step-AtCounter h (opened aad ct) = open-AtCounter aad ct _ h

  AtCounter-small : (s t : Context C) → AtCounter s t → t.sequence_number < 2 ^ 32
  AtCounter-small s t (n, small, moved) =
      omega (arith, ap (λ (x : Context C). x.sequence_number) moved)

  AtCounter-trans : (s t u : Context C) → AtCounter s t → AtCounter t u → AtCounter s u
  AtCounter-trans s t u (m, small, moved) (n, fits, after) =
      (n, fits, after ∙ ap (λ (x : Context C). record x { sequence_number = n }) moved)

  pub Reach-AtCounter : {s t : Context C} → s.sequence_number < 2 ^ 32 → Reach s t → AtCounter s t
  Reach-AtCounter {s} h here = (s.sequence_number, h, refl)
  Reach-AtCounter {s} h (next {t} {u} before step) =
      let at = Reach-AtCounter h before in
      AtCounter-trans s t u at (Step-AtCounter (AtCounter-small s t at) step)

  pub AtCounter-IsSound : (s t : Context C) → AtCounter s t → IsSound C s → IsSound C t
  AtCounter-IsSound s t (n, small, moved) sound =
      let kept : IsSound C (record s { sequence_number = n }) = record {
        key_length = sound.key_length;
        nonce_length = sound.nonce_length;
        exporter_length = sound.exporter_length;
        key_bytes = sound.key_bytes;
        nonce_bytes = sound.nonce_bytes;
        exporter_bytes = sound.exporter_bytes;
        counter = small;
      } in
      subst (IsSound C) (sym moved) kept

  -- A context that one of the two set-ups returned.
  pub data Started (ctx : Context C) : Type 0 where
    by_sender :
        (s : Session C) (pk_r : HpkePublicKey) (info : Bytes) (psk psk_id : Option Bytes)
        (sk_s : Option HpkePrivateKey) (enc : Bytes)
        → (setup_sender b C pk_r info psk psk_id sk_s s).0 ≡ ok (enc, ctx)
        → Started ctx
    by_receiver :
        (s : Session C) (enc : Bytes) (sk_r : HpkePrivateKey) (info : Bytes)
        (psk psk_id : Option Bytes) (pk_s : Option HpkePublicKey)
        → (setup_receiver b C enc sk_r info psk psk_id pk_s s).0 ≡ ok ctx
        → Started ctx

-- What a set-up on the configuration `h` returns.
pub record IsNew {C : HpkeCrypto} (h : Hpke C) (ctx : Context C) : Type 0 where
  pub sound : IsSound C ctx
  pub start : ctx.sequence_number ≡ 0
  pub config : SameConfig h ctx.hpke

module _ (b : Build) (C : HpkeCrypto) (K : IsKdf C) where
  key_schedule-IsNew :
      (self copy : Hpke C) (e' : C.Entropy) (zz info psk psk_id : Bytes) (e : C.Entropy)
      (ctx : Context C)
      → (clone b C self e').0 ≡ ok copy
      → (key_schedule b C copy zz info psk psk_id e).0 ≡ ok ctx
      → IsNew self ctx
  key_schedule-IsNew self copy e' zz info psk psk_id e ctx made h =
      let fresh = key_schedule-IsFresh b C K copy zz info psk psk_id e ctx h in
      let config = fresh.config in
      record {
        sound = record {
          key_length = rw (← config.aead_id) fresh.key;
          nonce_length = rw (← config.aead_id) fresh.nonce;
          exporter_length = rw (← config.kdf_id) fresh.exporter_secret;
          key_bytes = fresh.key_bytes;
          nonce_bytes = fresh.nonce_bytes;
          exporter_bytes = fresh.exporter_bytes;
          counter = omega (arith, fresh.sequence_number);
        };
        start = fresh.sequence_number;
        config = SameConfig_trans (clone-SameConfig b C self copy e' made) config;
      }

  pub setup_sender-IsNew :
      (s : Session C) (pk_r : HpkePublicKey) (info : Bytes) (psk psk_id : Option Bytes)
      (sk_s : Option HpkePrivateKey) (enc : Bytes) (ctx : Context C)
      → (setup_sender b C pk_r info psk psk_id sk_s s).0 ≡ ok (enc, ctx)
      → IsNew s.hpke ctx
  unfolding setup_sender
  setup_sender-IsNew s pk_r info psk psk_id sk_s enc ctx h =
      let drawn = random b C (private_key_len s.hpke.kem_id) s in
      let bytes = unwrap_or drawn.0 [] in
      let zz = (unwrap_or (encapsulate b C s.hpke.mode s.hpke.kem_id pk_r sk_s bytes) ([], [])).0 in
      let copied = clone b C s.hpke drawn.1.entropy in
      key_schedule-IsNew s.hpke (unwrap_or copied.0 s.hpke) drawn.1.entropy zz info
        (unwrap_or_default psk) (unwrap_or_default psk_id) copied.1 ctx (ground arith)
        (ground arith)

  pub setup_receiver-IsNew :
      (s : Session C) (enc : Bytes) (sk_r : HpkePrivateKey) (info : Bytes)
      (psk psk_id : Option Bytes) (pk_s : Option HpkePublicKey) (ctx : Context C)
      → (setup_receiver b C enc sk_r info psk psk_id pk_s s).0 ≡ ok ctx
      → IsNew s.hpke ctx
  unfolding setup_receiver
  setup_receiver-IsNew s enc sk_r info psk psk_id pk_s ctx h =
      let zz = unwrap_or (decapsulate b C s.hpke.mode s.hpke.kem_id enc sk_r pk_s) [] in
      let copied = clone b C s.hpke s.entropy in
      key_schedule-IsNew s.hpke (unwrap_or copied.0 s.hpke) s.entropy zz info
        (unwrap_or_default psk) (unwrap_or_default psk_id) copied.1 ctx (ground arith)
        (ground arith)

  Started-IsSound : {ctx : Context C} → Started b C ctx → IsSound C ctx
  Started-IsSound {ctx} (by_sender s pk_r info psk psk_id sk_s enc h) =
      (setup_sender-IsNew s pk_r info psk psk_id sk_s enc ctx h).sound
  Started-IsSound {ctx} (by_receiver s enc sk_r info psk psk_id pk_s h) =
      (setup_receiver-IsNew s enc sk_r info psk psk_id pk_s ctx h).sound

  -- Over a provider whose key expansion gives as many bytes as asked for, a context that a set-up
  -- returned, after any calls of `seal` and `open`, those that fail or panic included, has a key,
  -- a base nonce and an exporter secret of bytes, as many as its algorithms take, and a counter
  -- below 2 ^ 32, and differs from what the set-up returned in nothing but the counter.
  pub Reach-IsSound :
      {ctx s : Context C}
      → Started b C ctx
      → Reach b C ctx s
      → IsSound C s × (s ≡ record ctx { sequence_number = s.sequence_number })
  Reach-IsSound {ctx} {s} began run =
      let sound = Started-IsSound began in
      let (n, small, moved) = Reach-AtCounter b C sound.counter run in
      let same : n ≡ s.sequence_number = sym (ap (λ (x : Context C). x.sequence_number) moved) in
      (
        AtCounter-IsSound b C ctx s (n, small, moved) sound,
        moved ∙ ap (λ (m : ℕ). record ctx { sequence_number = m }) same,
      )

pub nonce_length_12 : (alg : AeadAlgorithm) → alg ≢ hpke_export → aead_nonce_length alg ≡ 12
unfolding aead_nonce_length
nonce_length_12 alg h = ground arith

module _ (b : Build) (C : HpkeCrypto) where
  -- A context that has its keys in bytes, in the right lengths, and a counter below 2 ^ 32,
  -- computes a nonce of 12 bytes, each below 256, if its algorithm is not export-only.
  pub compute_nonce-IsBytes :
      (s : Context C)
      → IsSound C s
      → s.hpke.aead_id ≢ hpke_export
      → (nonce : Bytes) × (compute_nonce b C s ≡ ok nonce) × (length nonce ≡ 12) × IsBytes nonce
  unfolding compute_nonce
  compute_nonce-IsBytes s sound sealing =
      let long : length s.nonce ≡ 12 =
        sound.nonce_length ∙ nonce_length_12 s.hpke.aead_id sealing in
      let (nonce, found, same, bytes) =
        nonce_at-IsBytes {E = HpkeError} s.nonce s.sequence_number (omega arith)
          sound.nonce_bytes in
      (nonce, found, same ∙ long, bytes)
