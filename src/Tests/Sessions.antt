-- ===== src/Tests/Sessions.antt =====
-- A session of the library over the RustCrypto provider, over crates that are easily run.
use hpke_rs.Prelude.{
  ◌%◌, ◌≡◌, refl, false, true, ℕ, List, [], ◌∷◌, ◌++◌, none, ok, Outcome, unwrap_or, replicate,
  arith, length-replicate, All-replicate, ok-injective, some, ℕ, ◌<◌,
}
use hpke_rs.Prelude.Bytes.{Bytes}
use hpke_rs.Build.{Build, debug_build}
use hpke_rs.Traits.Types.{
  dh_kem_25519, hkdf_sha256, aes128_gcm, private_key_len, shared_secret_len, kem_kdf,
}
use hpke_rs.Traits.Crypto.{aead_key_length, aead_nonce_length, kdf_digest_length}
use hpke_rs.Kdf.{labeled_extract, labeled_expand, labeled_ikm, labeled_info}
use hpke_rs.DhKem
use hpke_rs.Kem
use hpke_rs.Hpke.Errors.{HpkeError}
use hpke_rs.Hpke.Mode.{Mode, mode_u8}
use hpke_rs.Hpke.Keys.{HpkePublicKey, HpkePrivateKey}
use hpke_rs.Hpke.Config.{clone, ciphersuite, key_schedule_context, verify_psk_inputs}
use hpke_rs.Hpke.Context.{Context}
use hpke_rs.Hpke.Schedule.{key_schedule}
use hpke_rs.Hpke.Setup.{Session, random, encapsulate, setup_sender, setup_receiver, seed}
use hpke_rs.Hpke.Schedule.Agreement.{Agrees}
use hpke_rs.Hpke.Delivery.{Delivers}
use hpke_rs.RustCrypto.Provider.Seeding.{setup_sender-seed}
use hpke_rs.RustCrypto.Hkdf.{hash_extract, hash_expand, kdf_extract, kdf_expand}
use hpke_rs.RustCrypto.Prng
use hpke_rs.RustCrypto.Provider.{rust_crypto, kem_derive, kem_derive_base}
use hpke_rs.RustCrypto.Provider.Laws.{IsHkdf}
use hpke_rs.RustCrypto.Provider.Panics.{HasKeySizes, IsFilling}
use hpke_rs.RustCrypto.Provider.Delivery.{IsFaithful, rust_crypto-delivery}
use hpke_rs.Fuzz.{fuzz_target, fuzz_target-returns}
use hpke_rs.Tests.Toy.{sum}
use hpke_rs.Tests.Crates.{toy_rand, toy_rand-IsAvailable, crates, crates-IsCurves, crates-IsCipher}

crates_expanded :
    (hkdf info okm : Bytes) (len : ℕ)
    → crates.hkdf_expand hkdf info len ≡ some okm
    → replicate len (sum (hkdf ++ info) % 256) ≡ okm
crates_expanded hkdf info okm len h = ground arith

crates-IsHkdf : IsHkdf crates
crates-IsHkdf = record {
  expand_length = λ hkdf info len okm h. rw (← crates_expanded hkdf info okm len h) (
    length-replicate len (sum (hkdf ++ info) % 256),
    All-replicate (λ y. y < 256) len (sum (hkdf ++ info) % 256) (omega arith),
  );
}

crates-HasKeySizes : HasKeySizes crates
unfolding aead_key_length
crates-HasKeySizes alg sealing = ground arith

crates-IsFilling : IsFilling toy_rand
crates-IsFilling = record {
  fill_returns = λ rng len h. cc;
  fill_length = λ rng len bytes h. rw (← ok-injective h) (length-replicate len (rng % 256));
}

crates-IsFaithful : IsFaithful crates
crates-IsFaithful = record {
  curves = crates-IsCurves;
  hkdf = crates-IsHkdf;
  cipher = crates-IsCipher;
  key_sizes = crates-HasKeySizes;
  available = toy_rand-IsAvailable;
  total = record {
    encrypt_total = λ alg key nonce aad msg sealing p q r.
        (replicate 16 (sum (key ++ (nonce ++ aad)) % 256) ++ msg, refl);
  };
}

-- Bytes that are no key.
fuzz_target-returns_example : fuzz_target debug_build false crates 7 (1 ∷ 2 ∷ 3 ∷ []) ≡ ok tt
fuzz_target-returns_example =
    fuzz_target-returns debug_build false crates crates-IsHkdf crates-HasKeySizes crates-IsFilling
      toy_rand-IsAvailable 7 (1 ∷ 2 ∷ 3 ∷ [])

abbrev start : Session (rust_crypto false crates)
start = record {
  hpke = record {
    mode = Mode.base;
    kem_id = dh_kem_25519;
    kdf_id = hkdf_sha256;
    aead_id = aes128_gcm;
    prng = record {
      value = record { rng = record { value = 1; poisoned = false }; fake_rng = [] };
      poisoned = false;
    };
  };
  entropy = 5;
}

abbrev sk_r : HpkePrivateKey
sk_r = record { value = replicate 32 3 }

abbrev pk_r : HpkePublicKey
pk_r = record { value = replicate 32 3 }

abbrev messages : List (Bytes × Bytes)
messages = (1 ∷ [], 2 ∷ 3 ∷ []) ∷ ([], 4 ∷ []) ∷ []

began : Outcome HpkeError (Bytes × Context (rust_crypto false crates))
unfolding setup_sender random Prng.try_fill_bytes Prng.prng encapsulate Kem.encaps Kem.ciphersuite
    DhKem.encaps DhKem.derive_key_pair DhKem.derive_sk DhKem.extract_and_expand DhKem.serialize
    key_schedule clone ciphersuite key_schedule_context verify_psk_inputs labeled_extract
    labeled_expand labeled_ikm labeled_info private_key_len shared_secret_len kem_kdf
    aead_key_length aead_nonce_length kdf_digest_length mode_u8 hash_extract hash_expand kdf_extract
    kdf_expand kem_derive kem_derive_base
began = (setup_sender debug_build (rust_crypto false crates) pk_r [] none none none start).0

abbrev blank : Context (rust_crypto false crates)
blank = record {
  key = [];
  nonce = [];
  exporter_secret = [];
  sequence_number = 0;
  hpke = start.hpke;
}

enc : Bytes
enc = (unwrap_or began ([], blank)).0

first : Context (rust_crypto false crates)
first = (unwrap_or began ([], blank)).1

rust_crypto-delivery_example :
    Delivers debug_build
      (rust_crypto false crates)
      messages
      first
      (setup_receiver debug_build (rust_crypto false crates) enc sk_r [] none none none start).0
unfolding began enc first kem_derive_base
rust_crypto-delivery_example =
    rust_crypto-delivery debug_build false crates crates-IsFaithful start start pk_r sk_r [] none
      none none none enc first messages
      (record { mode = refl; kem_id = refl; kdf_id = refl; aead_id = refl }) refl tt (λ e. cc) refl
      (omega arith) (omega arith)

-- Two sessions whose generators differ, seeded alike, in a build for known answers.
abbrev test_build : Build
test_build = record debug_build { test_prng = true }

abbrev session : ℕ → Session (rust_crypto true crates)
session n = record {
  hpke = record {
    mode = Mode.base;
    kem_id = dh_kem_25519;
    kdf_id = hkdf_sha256;
    aead_id = aes128_gcm;
    prng = record {
      value = record { rng = record { value = n; poisoned = false }; fake_rng = n ∷ [] };
      poisoned = false;
    };
  };
  entropy = n;
}

seeded : Outcome HpkeError (Bytes × Context (rust_crypto true crates))
unfolding began seed Prng.seed Prng.try_fill_test_bytes
seeded =
    (setup_sender test_build (rust_crypto true crates) pk_r [] none none none
      (seed test_build (rust_crypto true crates) (replicate 40 6) (session 1)).1).0

no_context : Context (rust_crypto true crates)
no_context = record {
  key = [];
  nonce = [];
  exporter_secret = [];
  sequence_number = 0;
  hpke = (session 1).hpke;
}

seeded_lem :
    (setup_sender test_build
      (rust_crypto true crates)
      pk_r
      []
      none
      none
      none
      (seed test_build (rust_crypto true crates) (replicate 40 6) (session 1)).1).0
    ≡ ok ((unwrap_or seeded ([], no_context)).0, (unwrap_or seeded ([], no_context)).1)
unfolding seeded
seeded_lem = refl

setup_sender-seed_example :
    (ctx' : Context (rust_crypto true crates)) × ((setup_sender test_build
        (rust_crypto true crates)
        pk_r
        []
        none
        none
        none
        (seed test_build (rust_crypto true crates) (replicate 40 6) (session 2)).1).0
      ≡ ok ((unwrap_or seeded ([], no_context)).0, ctx'))
    × Agrees (unwrap_or seeded ([], no_context)).1 ctx'
setup_sender-seed_example =
    setup_sender-seed test_build crates toy_rand-IsAvailable (session 1) (session 2)
      (replicate 40 6) pk_r [] none none none (unwrap_or seeded ([], no_context)).0
      (unwrap_or seeded ([], no_context)).1 refl refl refl
      (record { mode = refl; kem_id = refl; kdf_id = refl; aead_id = refl }) seeded_lem
