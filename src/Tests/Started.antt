-- ===== src/Tests/Started.antt =====
-- The set-ups of a session over the toy provider, and a conversation of two messages.
use hpke_rs.Prelude.{◌≡◌, refl, List, [], ◌∷◌, some, Outcome, ok, unwrap_or}
use hpke_rs.Prelude.Bytes.{Bytes, u32_to_be_bytes}
use hpke_rs.Build.{debug_build}
use hpke_rs.Traits.Types.{private_key_len, shared_secret_len, kem_kdf}
use hpke_rs.Traits.Crypto.{aead_key_length, aead_nonce_length, kdf_digest_length}
use hpke_rs.Kdf.{labeled_extract, labeled_expand, labeled_ikm, labeled_info}
use hpke_rs.DhKem
use hpke_rs.Kem
use hpke_rs.Util
use hpke_rs.Hpke.Errors.{HpkeError}
use hpke_rs.Hpke.Mode.{mode_u8}
use hpke_rs.Hpke.Config.{clone, ciphersuite, key_schedule_context, verify_psk_inputs}
use hpke_rs.Hpke.Context
use hpke_rs.Hpke.Context.{Context, nonce_at, compute_nonce, increment_seq}
use hpke_rs.Hpke.Schedule.{key_schedule}
use hpke_rs.Hpke.Schedule.Agreement.{SameConfig, Agrees}
use hpke_rs.Hpke.Setup.{random, encapsulate, setup_sender}
use hpke_rs.Hpke.Channel.{seal_all}
use hpke_rs.Tests.Toy.{toy, sender, receiver, pk_r, sk_s, a_psk, a_psk_id}

abbrev pub same_config : SameConfig sender.hpke receiver.hpke
same_config = record { mode = refl; kem_id = refl; kdf_id = refl; aead_id = refl }

abbrev pub info : Bytes
info = 1 ∷ 2 ∷ []

abbrev pub blank : Context toy
blank = record {
  key = [];
  nonce = [];
  exporter_secret = [];
  sequence_number = 0;
  hpke = sender.hpke;
}

-- What the sender's set-up gives.
unfoldable pub started : Outcome HpkeError (Bytes × Context toy)
unfolding setup_sender random encapsulate Kem.auth_encaps Kem.ciphersuite DhKem.auth_encaps
    DhKem.derive_key_pair DhKem.derive_sk DhKem.extract_and_expand DhKem.serialize key_schedule
    clone ciphersuite key_schedule_context verify_psk_inputs labeled_extract labeled_expand
    labeled_ikm labeled_info private_key_len shared_secret_len kem_kdf aead_key_length
    aead_nonce_length kdf_digest_length mode_u8
started = (setup_sender debug_build toy pk_r info (some a_psk) (some a_psk_id) (some sk_s) sender).0

unfoldable pub first : Context toy
first = (unwrap_or started ([], blank)).1

unfoldable pub enc : Bytes
enc = (unwrap_or started ([], blank)).0

pub started_lem :
    (setup_sender debug_build toy pk_r info (some a_psk) (some a_psk_id) (some sk_s) sender).0
    ≡ ok (enc, first)
unfolding started first enc
started_lem = refl

-- A conversation of two messages.
abbrev pub messages : List (Bytes × Bytes)
messages = (1 ∷ [], 2 ∷ 3 ∷ []) ∷ ([], 4 ∷ []) ∷ []

unfoldable pub peer : Context toy
unfolding first started
peer = record first { hpke = receiver.hpke }

pub peer-Agrees : Agrees first peer
unfolding peer
peer-Agrees = record {
  key = refl;
  nonce = refl;
  exporter_secret = refl;
  sequence_number = refl;
  config = record { mode = refl; kem_id = refl; kdf_id = refl; aead_id = refl };
}

unfoldable pub sealed : List (Bytes × Bytes)
unfolding first started seal_all Context.seal compute_nonce nonce_at Util.xor_bytes u32_to_be_bytes
    increment_seq
sealed = unwrap_or (seal_all debug_build toy messages first).0 []

pub sealed_lem : (seal_all debug_build toy messages first).0 ≡ ok sealed
unfolding sealed
sealed_lem = refl
