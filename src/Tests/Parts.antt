-- ===== src/Tests/Parts.antt =====
-- The theorems on single parts, at concrete inputs over the toy provider.
use hpke_rs.Prelude.{
  ◌≡◌, ◌↔◌, refl, [], ◌∷◌, none, some, Outcome, ok, err, panic, unwrap_or, replicate, arith, true,
}
use hpke_rs.Prelude.Bytes.{Bytes}
use hpke_rs.Build.{debug_build}
use hpke_rs.Traits.Error.{Error}
use hpke_rs.Traits.Types.{
  hpke_export, aes128_gcm, private_key_len, shared_secret_len, kem_kdf, dh_kem_25519, dh_kem_p256,
  dh_kem_p384,
}
use hpke_rs.Traits.Crypto.{aead_key_length, aead_nonce_length, kdf_digest_length}
use hpke_rs.Util.{zip_xor}
use hpke_rs.Kdf.{labeled_extract, labeled_expand, labeled_ikm, labeled_info}
use hpke_rs.DhKem
use hpke_rs.DhKem.Agreement.{decaps-encaps, auth_decaps-auth_encaps}
use hpke_rs.DhKem.Rejection.{IsFirst, derive_sk-IsFirst}
use hpke_rs.Hpke.Errors.{HpkeError}
use hpke_rs.Hpke.Mode.{Mode, mode_u8}
use hpke_rs.Hpke.Keys.{private_key_eq}
use hpke_rs.Hpke.Keys.Equality.{SameLowBits, private_key_eq_iff}
use hpke_rs.Hpke.Config.{clone, ciphersuite, key_schedule_context, verify_psk_inputs}
use hpke_rs.Hpke.Config.Psk.{PskVerdict, verify_psk_inputs-PskVerdict}
use hpke_rs.Hpke.Context
use hpke_rs.Hpke.Context.{Context, nonce_at}
use hpke_rs.Hpke.Context.Nonce.{i2osp, nonce_at_lem}
use hpke_rs.Hpke.Schedule.{key_schedule}
use hpke_rs.Hpke.Schedule.Lengths.{IsFresh, key_schedule-IsFresh, key_schedule-export_only}
use hpke_rs.Hpke.TestUtil.{bytes_to_hex, hex_to_bytes, hex_to_bytes-bytes_to_hex}
use hpke_rs.Hpke.Display.{hpke_fmt}
use hpke_rs.Hpke.Display.Names.{hpke_fmt_iff}
use hpke_rs.Hpke.Schedule.Agreement.{SameConfig}
use hpke_rs.Hpke.Setup.Missing.{setup-missing_key}
use hpke_rs.Hpke.Setup
use hpke_rs.Hpke.Setup.{Session, random, setup_sender, setup_receiver}
use hpke_rs.Hpke.Setup.Panics.{unimplemented_kem, poisoned_lock}
use hpke_rs.Tests.Toy.{
  toy, toy-IsDiffieHellman, toy-IsKdf, config, sender, sk_r, pk_r, sk_s, pk_s, a_psk, a_psk_id,
}

-- 241 and 129 differ in three bits, none of them the lowest.
private_key_eq_iff_example :
    (private_key_eq (record { value = 241 ∷ 2 ∷ [] }) (record { value = 129 ∷ 4 ∷ [] }) ≡ true)
    ↔ SameLowBits (241 ∷ 2 ∷ []) (129 ∷ 4 ∷ [])
private_key_eq_iff_example =
    private_key_eq_iff (record { value = 241 ∷ 2 ∷ [] }) (record { value = 129 ∷ 4 ∷ [] })

verify_psk_inputs-PskVerdict_example :
    PskVerdict Mode.auth_psk a_psk a_psk_id (verify_psk_inputs Mode.auth_psk a_psk a_psk_id)
verify_psk_inputs-PskVerdict_example = verify_psk_inputs-PskVerdict Mode.auth_psk a_psk a_psk_id

nonce_at_lem_example :
    nonce_at {E = HpkeError} (replicate 12 255) 258 ≡ ok (zip_xor (i2osp 12 258) (replicate 12 255))
nonce_at_lem_example = nonce_at_lem (replicate 12 255) 258 (omega arith) (omega arith)

derive_sk-IsFirst_example :
    IsFirst
      (DhKem.attempt debug_build toy dh_kem_p256 (1 ∷ []) (2 ∷ []))
      0
      (DhKem.derive_sk debug_build toy dh_kem_p256 (1 ∷ []) (2 ∷ []))
derive_sk-IsFirst_example = derive_sk-IsFirst debug_build toy (1 ∷ []) (2 ∷ [])

-- The KEM, with the keys of the two parties and 32 bytes of randomness.
abbrev randomness : Bytes
randomness = replicate 32 4

encapsulated : Outcome Error (Bytes × Bytes)
unfolding DhKem.encaps DhKem.derive_key_pair DhKem.derive_sk DhKem.extract_and_expand
    DhKem.serialize labeled_extract labeled_expand labeled_ikm labeled_info private_key_len
    shared_secret_len kem_kdf
encapsulated = DhKem.encaps debug_build toy dh_kem_25519 pk_r.value (1 ∷ []) randomness

decaps-encaps_example :
    DhKem.decaps debug_build toy dh_kem_25519
      (unwrap_or encapsulated ([], [])).1
      sk_r.value
      (1 ∷ [])
    ≡ ok (unwrap_or encapsulated ([], [])).0
unfolding encapsulated
decaps-encaps_example =
    decaps-encaps debug_build toy toy-IsDiffieHellman dh_kem_25519 (1 ∷ []) randomness sk_r.value
      pk_r.value (unwrap_or encapsulated ([], [])).0 (unwrap_or encapsulated ([], [])).1 refl refl

auth_encapsulated : Outcome Error (Bytes × Bytes)
unfolding encapsulated DhKem.auth_encaps
auth_encapsulated =
    DhKem.auth_encaps debug_build toy dh_kem_25519 pk_r.value sk_s.value (1 ∷ []) randomness

auth_decaps-auth_encaps_example :
    DhKem.auth_decaps debug_build toy dh_kem_25519
      (unwrap_or auth_encapsulated ([], [])).1
      sk_r.value
      pk_s.value
      (1 ∷ [])
    ≡ ok (unwrap_or auth_encapsulated ([], [])).0
unfolding auth_encapsulated
auth_decaps-auth_encaps_example =
    auth_decaps-auth_encaps debug_build toy toy-IsDiffieHellman dh_kem_25519 (1 ∷ []) randomness
      sk_r.value pk_r.value sk_s.value pk_s.value (unwrap_or auth_encapsulated ([], [])).0
      (unwrap_or auth_encapsulated ([], [])).1 refl refl refl

abbrev blank : Context toy
blank = record {
  key = [];
  nonce = [];
  exporter_secret = [];
  sequence_number = 0;
  hpke = sender.hpke;
}

scheduled : Outcome HpkeError (Context toy)
unfolding key_schedule clone ciphersuite key_schedule_context verify_psk_inputs labeled_extract
    labeled_expand labeled_ikm labeled_info aead_key_length aead_nonce_length kdf_digest_length
    mode_u8
scheduled = (key_schedule debug_build toy sender.hpke (6 ∷ []) (7 ∷ []) a_psk a_psk_id 0).0

key_schedule-IsFresh_example :
    IsFresh debug_build toy toy-IsKdf sender.hpke a_psk a_psk_id (unwrap_or scheduled blank)
unfolding scheduled
key_schedule-IsFresh_example =
    key_schedule-IsFresh debug_build toy toy-IsKdf sender.hpke (6 ∷ []) (7 ∷ []) a_psk a_psk_id 0
      (unwrap_or scheduled blank) refl

export_context : Context toy
unfolding scheduled
export_context =
    unwrap_or
      (key_schedule debug_build toy (config Mode.base hpke_export) (6 ∷ []) (7 ∷ []) [] [] 0).0
      blank

key_schedule-export_only_example :
    (Context.seal debug_build toy [] (1 ∷ []) export_context ≡ (panic, export_context))
    × (Context.open_message debug_build toy [] (1 ∷ []) export_context ≡ (panic, export_context))
unfolding export_context
key_schedule-export_only_example =
    key_schedule-export_only debug_build toy toy-IsKdf (config Mode.base hpke_export) (6 ∷ [])
      (7 ∷ []) [] [] [] (1 ∷ []) 0 export_context refl refl

abbrev p384 : Session toy
p384 = record sender { hpke = record (config Mode.base aes128_gcm) { kem_id = dh_kem_p384 } }

unimplemented_kem_example :
    (Setup.derive_key_pair debug_build toy p384.hpke (1 ∷ []) ≡ panic)
    × ((setup_sender debug_build toy pk_r (7 ∷ []) none none (some sk_s) p384).0 ≡ panic)
unfolding random private_key_len
unimplemented_kem_example =
    unimplemented_kem debug_build toy p384 (1 ∷ []) (replicate 48 7) (7 ∷ []) pk_r none none sk_s
      (λ e. cc) (λ e. cc) refl

abbrev poisoned : Session toy
poisoned = record sender {
  hpke = record (config Mode.base aes128_gcm) { prng = record { value = 7; poisoned = true } };
}

poisoned_lock_example :
    (random debug_build toy 4 poisoned ≡ (err HpkeError.lock_poisoned, poisoned))
    × (Setup.generate_key_pair debug_build toy poisoned ≡ (err HpkeError.lock_poisoned, poisoned))
    × (Setup.seed debug_build toy (1 ∷ []) poisoned ≡ (err HpkeError.lock_poisoned, poisoned))
    × (setup_sender debug_build toy pk_r (7 ∷ []) none none none poisoned
        ≡ (err HpkeError.lock_poisoned, poisoned))
poisoned_lock_example =
    poisoned_lock debug_build toy poisoned 4 (1 ∷ []) (7 ∷ []) pk_r none none none refl

hex_to_bytes-bytes_to_hex_example :
    hex_to_bytes (bytes_to_hex (222 ∷ 173 ∷ 0 ∷ [])) ≡ ok (222 ∷ 173 ∷ 0 ∷ [])
hex_to_bytes-bytes_to_hex_example =
    hex_to_bytes-bytes_to_hex (222 ∷ 173 ∷ 0 ∷ []) (omega arith, (omega arith, (omega arith, tt)))

-- Configurations that differ in the mode alone.
hpke_fmt_iff_example :
    (hpke_fmt (config Mode.auth aes128_gcm) ≡ hpke_fmt (config Mode.auth_psk aes128_gcm))
    ↔ SameConfig (config Mode.auth aes128_gcm) (config Mode.auth_psk aes128_gcm)
hpke_fmt_iff_example = hpke_fmt_iff (config Mode.auth aes128_gcm) (config Mode.auth_psk aes128_gcm)

setup-missing_key_example :
    (setup_receiver debug_build toy (1 ∷ []) sk_r [] none none none sender
      ≡ (err HpkeError.invalid_input, sender))
    × (setup_sender debug_build toy pk_r [] none none none sender
        ≡ (err HpkeError.invalid_input, (random debug_build toy 32 sender).1))
unfolding random private_key_len
setup-missing_key_example =
    setup-missing_key debug_build toy sender (1 ∷ []) [] (replicate 32 7) pk_r sk_r none none tt
      refl
