-- ===== src/Hpke/Schedule.antt =====
-- src/lib.rs: `key_schedule`, which makes a context from a shared secret.
pub mod Agreement
pub mod Lengths
use hpke_rs.Prelude.{ℕ, Outcome, map_err}
use hpke_rs.Prelude.Bytes.{Bytes}
use hpke_rs.Prelude.State.{Stateful, ◌>>=◌, ◌>>◌, pure, lift}
use hpke_rs.Build.{Build}
use hpke_rs.Traits.Crypto.{HpkeCrypto, aead_key_length, aead_nonce_length, kdf_digest_length}
use hpke_rs.Kdf.{labeled_extract, labeled_expand}
use hpke_rs.Hpke.Errors.{HpkeError, crypto_failure}
use hpke_rs.Hpke.Config.{Hpke, clone, verify_psk_inputs, ciphersuite, key_schedule_context}
use hpke_rs.Hpke.Context.{Context}

module _ (b : Build) (C : HpkeCrypto) where
  unfoldable pub key_schedule :
      Hpke C → Bytes → Bytes → Bytes → Bytes → Stateful C.Entropy HpkeError (Context C)
  key_schedule self shared_secret info psk psk_id = do
    lift (verify_psk_inputs self.mode psk psk_id)
    let suite_id = ciphersuite b C self
    let schedule_context = key_schedule_context b C self info psk_id suite_id
    let secret = labeled_extract b C self.kdf_id shared_secret suite_id "secret" psk
    key ← lift (
        map_err (crypto_failure b) (
          labeled_expand b C self.kdf_id secret suite_id "key" schedule_context
            (aead_key_length self.aead_id)))
    base_nonce ← lift (
        map_err (crypto_failure b) (
          labeled_expand b C self.kdf_id secret suite_id "base_nonce" schedule_context
            (aead_nonce_length self.aead_id)))
    exporter_secret ← lift (
        map_err (crypto_failure b) (
          labeled_expand b C self.kdf_id secret suite_id "exp" schedule_context
            (kdf_digest_length self.kdf_id)))
    hpke ← clone b C self
    pure (record {
      key = key;
      nonce = base_nonce;
      exporter_secret = exporter_secret;
      sequence_number = 0;
      hpke = hpke;
    })
