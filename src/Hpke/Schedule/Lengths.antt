-- ===== src/Hpke/Schedule/Lengths.antt =====
-- The contexts that the key schedule makes (src/lib.rs), for a key derivation that keeps lengths.
use hpke_rs.Prelude.{ℕ, ◌≡◌, ok, panic, map_err, length, arith, String}
use hpke_rs.Prelude.Bytes.{Bytes, IsBytes}
use hpke_rs.Build.{Build}
use hpke_rs.Traits.Types.{KdfAlgorithm, hpke_export}
use hpke_rs.Traits.Crypto.{HpkeCrypto, IsKdf, aead_key_length, aead_nonce_length, kdf_digest_length}
use hpke_rs.Kdf.{labeled_expand, labeled_info, labeled_extract}
use hpke_rs.Hpke.Errors.{HpkeError, crypto_failure}
use hpke_rs.Hpke.Config.{Hpke, clone, verify_psk_inputs, ciphersuite, key_schedule_context}
use hpke_rs.Hpke.Context.{Context, compute_nonce, seal, open_message}
use hpke_rs.Hpke.Context.Nonce.{nonce_at_short}
use hpke_rs.Hpke.Schedule.{key_schedule}
use hpke_rs.Hpke.Schedule.Agreement.{SameConfig}

module _ (b : Build) (C : HpkeCrypto) (K : IsKdf C) where
  labeled_expand-sized :
      (alg : KdfAlgorithm) (prk suite_id info okm : Bytes) (label : String) (len : ℕ)
      → map_err (crypto_failure b) (labeled_expand b C alg prk suite_id label info len) ≡ ok okm
      → (length okm ≡ len) × IsBytes okm
  unfolding labeled_expand
  labeled_expand-sized alg prk suite_id info okm label len h =
      ground (arith, K.expand_length alg prk (labeled_info len suite_id label info) len okm)

  -- A context is made only of accepted PSK inputs. It has the configuration that was asked for,
  -- a key, a nonce and an exporter secret of as many bytes as its algorithms take, and starts at
  -- message 0.
  pub record IsFresh (self : Hpke C) (psk psk_id : Bytes) (ctx : Context C) : Type 0 where
    pub accepted : verify_psk_inputs self.mode psk psk_id ≡ ok tt
    pub key : length ctx.key ≡ aead_key_length self.aead_id
    pub nonce : length ctx.nonce ≡ aead_nonce_length self.aead_id
    pub exporter_secret : length ctx.exporter_secret ≡ kdf_digest_length self.kdf_id
    pub key_bytes : IsBytes ctx.key
    pub nonce_bytes : IsBytes ctx.nonce
    pub exporter_bytes : IsBytes ctx.exporter_secret
    pub sequence_number : ctx.sequence_number ≡ 0
    pub config : SameConfig self ctx.hpke

  -- Over a provider whose key expansion gives as many bytes as asked for, every context that the
  -- key schedule returns is made from accepted PSK inputs, has a key, a base nonce and an
  -- exporter secret of as many bytes as its algorithms take, starts at message 0 and keeps the
  -- four algorithm choices.
  pub key_schedule-IsFresh :
      (self : Hpke C) (zz info psk psk_id : Bytes) (e : C.Entropy) (ctx : Context C)
      → (key_schedule b C self zz info psk psk_id e).0 ≡ ok ctx
      → IsFresh self psk psk_id ctx
  unfolding key_schedule clone
  key_schedule-IsFresh self zz info psk psk_id e ctx h =
      let suite_id = ciphersuite b C self in
      let context = key_schedule_context b C self info psk_id suite_id in
      let secret = labeled_extract b C self.kdf_id zz suite_id "secret" psk in
      ground (
        arith,
        labeled_expand-sized self.kdf_id secret suite_id context ctx.key "key"
            (aead_key_length self.aead_id),
        labeled_expand-sized self.kdf_id secret suite_id context ctx.nonce "base_nonce"
            (aead_nonce_length self.aead_id),
        labeled_expand-sized self.kdf_id secret suite_id context ctx.exporter_secret "exp"
            (kdf_digest_length self.kdf_id),
      )

  -- Over a provider whose key expansion gives as many bytes as asked for, a context that the key
  -- schedule returns for the export-only algorithm panics on every message, sealed or opened, and
  -- is left as it was.
  pub key_schedule-export_only :
      (self : Hpke C) (zz info psk psk_id aad msg : Bytes) (e : C.Entropy) (ctx : Context C)
      → self.aead_id ≡ hpke_export
      → (key_schedule b C self zz info psk psk_id e).0 ≡ ok ctx
      → (seal b C aad msg ctx ≡ (panic, ctx)) × (open_message b C aad msg ctx ≡ (panic, ctx))
  unfolding seal open_message compute_nonce aead_nonce_length
  key_schedule-export_only self zz info psk psk_id aad msg e ctx only h =
      let fresh = key_schedule-IsFresh self zz info psk psk_id e ctx h in
      let empty : length ctx.nonce ≡ 0 = rw only at fresh.nonce in
      let short = nonce_at_short {E = HpkeError} ctx.nonce ctx.sequence_number (omega arith) in
      (rw short, rw short)
