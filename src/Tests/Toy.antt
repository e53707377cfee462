-- ===== src/Tests/Toy.antt =====
-- A provider that meets the assumptions of the theorems, and that is easily run. It is no crypto:
-- Diffie-Hellman is a product, a key derivation repeats a checksum, a tag is a checksum.
use hpke_rs.Prelude.{
  ◌^◌, some, ok-injective, ℕ, ◌+◌, ◌*◌, ◌%◌, ◌<◌, ◌≡◌, [], ◌∷◌, ◌++◌, Outcome, ok, err, arith,
  length, replicate, head_or, All-replicate, length-replicate, ◌==◌, if◌then◌else◌, false, panic,
  refl, ◌≢◌,
}
use hpke_rs.Prelude.Bytes.{Bytes, IsBytes}
use hpke_rs.Traits.Error.{Error}
use hpke_rs.Traits.Types.{dh_kem_25519, hkdf_sha256, aes128_gcm, AeadAlgorithm}
use hpke_rs.Traits.Crypto.{
  HpkeCrypto, IsDiffieHellman, IsKdf, IsSeeded, IsAead, IsExactAead, IsTotalAead,
}
use hpke_rs.DhKem.Returns.{IsPanicFree}
use hpke_rs.Hpke.Mode.{Mode}
use hpke_rs.Hpke.Keys.{HpkePublicKey, HpkePrivateKey}
use hpke_rs.Hpke.Config.{Hpke}
use hpke_rs.Hpke.Setup.{Session}

abbrev pub sum : Bytes → ℕ
sum [] = 0
sum (x ∷ xs) = x + sum xs

abbrev pub checked_open : ℕ → Bytes → Outcome Error Bytes
checked_open tag [] = err Error.aead_invalid_ciphertext
checked_open tag (x ∷ xs) = if x == tag then ok xs else err Error.aead_open_error

abbrev pub toy : HpkeCrypto
toy = record {
  HpkePrng = ℕ;
  Entropy = ℕ;
  name = "toy";
  supports_kdf = λ alg. ok tt;
  supports_kem = λ alg. ok tt;
  supports_aead = λ alg. ok tt;
  prng = λ e. (some e, e + 1);
  kdf_extract = λ alg salt ikm. salt ++ ikm;
  kdf_expand = λ alg prk info len. ok (replicate len (sum (prk ++ info) % 256));
  kem_derive = λ alg pk sk. ok (head_or 0 pk * head_or 0 sk ∷ []);
  kem_derive_base = λ alg sk. ok (3 * head_or 0 sk ∷ []);
  kem_key_gen = λ alg prng e. (ok (prng % 256 ∷ []), prng + 1, e);
  kem_validate_sk = λ alg sk. ok sk;
  aead_seal = λ alg key nonce aad msg. ok (sum (key ++ nonce ++ aad) ∷ msg);
  aead_open = λ alg key nonce aad ct. checked_open (sum (key ++ nonce ++ aad)) ct;
  try_fill_bytes = λ prng len. (ok (replicate len (prng % 256)), prng + 1);
  try_fill_test_bytes = λ prng len. (ok (replicate len (prng % 256)), prng + 1);
  seed = λ prng bytes. sum bytes;
}

toy_comm : (a b : ℕ) → 3 * b * a ≡ 3 * a * b
toy_comm a b = omega arith

toy-derive_comm :
    (sk_a sk_b pk_a pk_b zz : Bytes)
    → ◌≡◌ {A = Outcome Error Bytes} (ok (3 * head_or 0 sk_a ∷ [])) (ok pk_a)
    → ◌≡◌ {A = Outcome Error Bytes} (ok (3 * head_or 0 sk_b ∷ [])) (ok pk_b)
    → ◌≡◌ {A = Outcome Error Bytes} (ok (head_or 0 pk_b * head_or 0 sk_a ∷ [])) (ok zz)
    → ◌≡◌ {A = Outcome Error Bytes} (ok (head_or 0 pk_a * head_or 0 sk_b ∷ [])) (ok zz)
toy-derive_comm sk_a sk_b pk_a pk_b zz p q r =
    let e = ok-injective r in
    rw (← ok-injective p, toy_comm (head_or 0 sk_b) (head_or 0 sk_a), ← e, ← ok-injective q)

pub toy-IsDiffieHellman : IsDiffieHellman toy
toy-IsDiffieHellman = record {
  derive_comm = λ alg sk_a sk_b pk_a pk_b zz p q r. toy-derive_comm sk_a sk_b pk_a pk_b zz p q r;
}

pub toy-IsSeeded : IsSeeded toy
toy-IsSeeded = record { prng_some = λ e. (e, refl) }

toy-expand_length :
    (len x : ℕ) (okm : Bytes)
    → x < 256
    → ◌≡◌ {A = Outcome Error Bytes} (ok (replicate len x)) (ok okm)
    → (length okm ≡ len) × IsBytes okm
toy-expand_length len x okm small h =
    rw (← ok-injective h) (length-replicate len x, All-replicate (λ y. y < 256) len x small)

pub toy-IsKdf : IsKdf toy
toy-IsKdf = record {
  expand_length =
      λ alg prk info len okm h. toy-expand_length len (sum (prk ++ info) % 256) okm (omega arith) h;
}

pub toy-IsAead : IsAead toy
toy-IsAead = record { open_seal = λ alg key nonce aad msg ct pos h. ground arith }

abbrev pub config : Mode → AeadAlgorithm → Hpke toy
config mode aead = record {
  mode = mode;
  kem_id = dh_kem_25519;
  kdf_id = hkdf_sha256;
  aead_id = aead;
  prng = record { value = 7; poisoned = false };
}

abbrev pub sender : Session toy
sender = record { hpke = config Mode.auth_psk aes128_gcm; entropy = 100 }

abbrev pub receiver : Session toy
receiver = record { hpke = config Mode.auth_psk aes128_gcm; entropy = 200 }

abbrev pub sk_r : HpkePrivateKey
sk_r = record { value = 5 ∷ [] }

abbrev pub pk_r : HpkePublicKey
pk_r = record { value = 15 ∷ [] }

abbrev pub sk_s : HpkePrivateKey
sk_s = record { value = 11 ∷ [] }

abbrev pub pk_s : HpkePublicKey
pk_s = record { value = 33 ∷ [] }

-- 32 bytes, the least that is accepted.
abbrev pub a_psk : Bytes
a_psk = replicate 32 1

abbrev pub a_psk_id : Bytes
a_psk_id = 9 ∷ []

toy-checked_open :
    (tag : ℕ) (ct msg : Bytes)
    → checked_open tag ct ≡ ok msg
    → ◌≡◌ {A = Outcome Error Bytes} (ok (tag ∷ msg)) (ok ct)
toy-checked_open tag [] msg h = ground arith
toy-checked_open tag (x ∷ xs) msg h = ground arith

pub toy-IsExactAead : IsExactAead toy
toy-IsExactAead = record {
  seal_open = λ alg key nonce aad ct msg h. toy-checked_open (sum (key ++ nonce ++ aad)) ct msg h;
}

pub toy-IsTotalAead : IsTotalAead toy (λ alg aad msg. length msg < 2 ^ 32)
toy-IsTotalAead = record {
  seal_total = λ alg key nonce aad msg sealing p q r. (sum (key ++ nonce ++ aad) ∷ msg, refl);
}

checked_open-returns : (tag : ℕ) (ct : Bytes) → checked_open tag ct ≢ panic
checked_open-returns tag [] h = cc
checked_open-returns tag (x ∷ xs) h = ground arith

pub toy-IsPanicFree : IsPanicFree toy
toy-IsPanicFree = record {
  expand_returns = λ alg prk info len short h. cc;
  derive_returns = λ alg pk sk h. cc;
  derive_base_returns = λ alg sk h. cc;
  validate_returns = λ alg sk h. cc;
  seal_returns = λ alg key nonce aad msg sized h. cc;
  open_returns = λ alg key nonce aad ct sized. checked_open-returns (sum (key ++ nonce ++ aad)) ct;
}
