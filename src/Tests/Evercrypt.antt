-- ===== src/Tests/Evercrypt.antt =====
-- A crate in the place of evercrypt that meets the assumptions of the theorems on its provider,
-- and that is easily run. It is no crypto: a curve is a product, a tag is a checksum.
use hpke_rs.Prelude.{
  ok-injective, ◌≡◌, ◌≢◌, refl, ℕ, ◌*◌, ◌%◌, [], ◌∷◌, ◌++◌, Bool, true, false, Outcome, ok, err,
  arith, List, none, unwrap_or, replicate, head_or, tail_of, if◌then◌else◌,
}
use hpke_rs.Prelude.Bytes.{Bytes}
use hpke_rs.Build.{debug_build}
use hpke_rs.Traits.Error.{Error}
use hpke_rs.Traits.Types.{aes128_gcm, dh_kem_25519, dh_kem_p256, hkdf_sha256}
use hpke_rs.Evercrypt.Libs.{EvercryptLibs}
use hpke_rs.Evercrypt.Provider.{kem_derive, kem_derive_base, nist_format_uncompressed, evercrypt}
use hpke_rs.Evercrypt.Provider.Laws.{IsEcdh, evercrypt_derive_comm, evercrypt_open_error}
use hpke_rs.Hpke.Errors.{HpkeError, open_error}
use hpke_rs.Evercrypt.Provider.{
  aes_support, hmac_mode, kdf_extract, kdf_expand, kem_key_type_to_mode,
}
use hpke_rs.RustCrypto.Prng
use hpke_rs.Traits.Types.{private_key_len, shared_secret_len, kem_kdf}
use hpke_rs.Traits.Crypto.{aead_key_length, aead_nonce_length, kdf_digest_length}
use hpke_rs.Kdf.{labeled_extract, labeled_expand, labeled_ikm, labeled_info}
use hpke_rs.DhKem
use hpke_rs.Kem
use hpke_rs.Hpke.Mode.{Mode, mode_u8}
use hpke_rs.Hpke.Keys.{HpkePublicKey, HpkePrivateKey}
use hpke_rs.Hpke.Config.{clone, ciphersuite, key_schedule_context, verify_psk_inputs}
use hpke_rs.Hpke.Schedule.{key_schedule}
use hpke_rs.Hpke.Setup.{Session, random, encapsulate, setup_sender}
use hpke_rs.Hpke.Context.{Context, open_message}
use hpke_rs.Tests.Toy.{sum, checked_open}
use hpke_rs.Tests.Crates.{toy_rand}

abbrev crate : EvercryptLibs
crate = record {
  rand = toy_rand;
  aes_support = true;
  HmacMode = Unit;
  sha256 = tt;
  sha384 = tt;
  sha512 = tt;
  hkdf_extract = λ mode salt ikm. salt ++ ikm;
  hkdf_expand = λ mode prk info len. replicate len (sum (prk ++ info) % 256);
  EcdhMode = Bool;
  x25519 = false;
  p256 = true;
  is_p256 = λ mode. mode;
  EcdhError = Unit;
  ecdh_debug = λ e. "Error";
  ecdh_derive = λ mode pk sk. ok (head_or 0 (if mode then tail_of pk else pk) * head_or 0 sk ∷ []);
  ecdh_derive_base = λ mode sk. ok (head_or 0 sk ∷ []);
  key_gen = λ mode entropy. (ok (entropy % 256 ∷ []), entropy);
  p256_validate_sk = λ sk. ok sk;
  AeadMode = ℕ;
  aes128_gcm = 1;
  aes256_gcm = 2;
  chacha20_poly1305 = 3;
  mode_debug = λ mode. "Mode";
  AeadError = Error;
  aead_debug = λ e. "Error";
  Aead = Bytes;
  aead_new = λ mode key. ok key;
  encrypt_combined = λ key msg nonce aad. ok (sum (key ++ (nonce ++ aad)) ∷ msg);
  decrypt_combined = λ key ct nonce aad. checked_open (sum (key ++ (nonce ++ aad))) ct;
}

product_comm :
    (a b : ℕ) (pk_a pk_b zz : Bytes)
    → ◌≡◌ {A = Outcome (Unit {0}) Bytes} (ok (a ∷ [])) (ok pk_a)
    → ◌≡◌ {A = Outcome (Unit {0}) Bytes} (ok (b ∷ [])) (ok pk_b)
    → ◌≡◌ {A = Outcome (Unit {0}) Bytes} (ok (head_or 0 pk_b * a ∷ [])) (ok zz)
    → ◌≡◌ {A = Outcome (Unit {0}) Bytes} (ok (head_or 0 pk_a * b ∷ [])) (ok zz)
product_comm a b pk_a pk_b zz p q h =
    let swap : b * a ≡ a * b = omega arith in
    rw (← ok-injective p, ← swap) (rw (← ok-injective q) at h)

crate-IsEcdh : IsEcdh crate
crate-IsEcdh = record {
  x25519_mode = refl;
  p256_mode = refl;
  x25519_comm =
      λ a b pk_a pk_b zz p q h. product_comm (head_or 0 a) (head_or 0 b) pk_a pk_b zz p q h;
  p256_comm = λ a b pk_a pk_b zz p q h. product_comm (head_or 0 a) (head_or 0 b) pk_a pk_b zz p q h;
}

abbrev a_nonce : Bytes
a_nonce = replicate 12 3

evercrypt_derive_comm_example : kem_derive crate dh_kem_p256 (4 ∷ 5 ∷ []) (7 ∷ []) ≡ ok (35 ∷ [])
unfolding kem_derive kem_derive_base nist_format_uncompressed
evercrypt_derive_comm_example =
    evercrypt_derive_comm crate crate-IsEcdh dh_kem_p256 (5 ∷ []) (7 ∷ []) (4 ∷ 5 ∷ []) (4 ∷ 7 ∷ [])
      (35 ∷ []) refl refl refl

-- The ciphertext is forged.
abbrev a_context : Context (evercrypt false crate)
a_context = record {
  key = 1 ∷ [];
  nonce = a_nonce;
  exporter_secret = [];
  sequence_number = 0;
  hpke = record {
    mode = Mode.base;
    kem_id = dh_kem_25519;
    kdf_id = hkdf_sha256;
    aead_id = aes128_gcm;
    prng = record {
      value = record { rng = record { value = 0; poisoned = false }; fake_rng = [] };
      poisoned = false;
    };
  };
}

evercrypt_open_error_example :
    (open_message debug_build (evercrypt false crate) [] (0 ∷ 8 ∷ []) a_context).0 ≢ err open_error
evercrypt_open_error_example =
    evercrypt_open_error crate false debug_build a_context [] (0 ∷ 8 ∷ [])

-- The session of the context above, from its set-up.
abbrev start : Session (evercrypt false crate)
start = record { hpke = a_context.hpke; entropy = 5 }

abbrev sk_r : HpkePrivateKey
sk_r = record { value = 3 ∷ [] }

abbrev pk_r : HpkePublicKey
pk_r = record { value = 3 ∷ [] }

abbrev messages : List (Bytes × Bytes)
messages = (1 ∷ [], 2 ∷ 3 ∷ []) ∷ ([], 4 ∷ []) ∷ []

began : Outcome HpkeError (Bytes × Context (evercrypt false crate))
unfolding setup_sender random Prng.try_fill_bytes Prng.prng encapsulate Kem.encaps Kem.ciphersuite
    DhKem.encaps DhKem.derive_key_pair DhKem.derive_sk DhKem.extract_and_expand DhKem.serialize
    key_schedule clone ciphersuite key_schedule_context verify_psk_inputs labeled_extract
    labeled_expand labeled_ikm labeled_info private_key_len shared_secret_len kem_kdf
    aead_key_length aead_nonce_length kdf_digest_length mode_u8 hmac_mode kdf_extract kdf_expand
    kem_derive kem_derive_base kem_key_type_to_mode
began = (setup_sender debug_build (evercrypt false crate) pk_r [] none none none start).0

enc : Bytes
enc = (unwrap_or began ([], a_context)).0

first : Context (evercrypt false crate)
first = (unwrap_or began ([], a_context)).1
