-- ===== src/Tests/Crates.antt =====
-- Crates that meet the assumptions of the theorems on the provider, and that are easily run. They
-- are no crypto: a tag repeats a checksum, a curve is a product, a generator counts.
use hpke_rs.Prelude.{
  ◌^◌, ℕ, ◌+◌, ◌*◌, ◌%◌, ◌≡◌, refl, [], ◌∷◌, ◌++◌, Option, none, some, ok, err, arith, replicate,
  head_or, drop, ap,
}
use hpke_rs.Prelude.Bytes.{Bytes}
use hpke_rs.Traits.Types.{
  AeadAlgorithm, aes128_gcm, aes256_gcm, cha_cha20_poly1305, hpke_export, dh_kem_p256,
}
use hpke_rs.Traits.Error.{Error}
use hpke_rs.Rand.{Rand, IsAvailable}
use hpke_rs.RustCrypto.Libs.{RustLibs}
use hpke_rs.RustCrypto.Aead.{aead_seal, aead_open}
use hpke_rs.RustCrypto.Aead.Laws.{IsCipher, aead_open-aead_seal_empty}
use hpke_rs.RustCrypto.Provider.{kem_derive, kem_derive_base}
use hpke_rs.RustCrypto.Provider.Laws.{IsCurves, kem_derive_comm}
use hpke_rs.Tests.Toy.{sum}

abbrev toy_key_size : AeadAlgorithm → ℕ
toy_key_size aes128_gcm = 16
toy_key_size aes256_gcm = 32
toy_key_size cha_cha20_poly1305 = 32
toy_key_size hpke_export = 0

abbrev toy_from_slice : Bytes → Option ℕ
toy_from_slice [] = none
toy_from_slice (x ∷ xs) = some x

abbrev pub toy_rand : Rand
toy_rand = record {
  Entropy = ℕ;
  ChaCha20Rng = ℕ;
  from_entropy = λ e. (some e, e + 1);
  fill_bytes = λ rng len. (replicate len (rng % 256), rng + 1);
  try_fill_bytes = λ rng len. (ok (replicate len (rng % 256)), rng + 1);
  next_u32 = λ rng. (rng % 2 ^ 32, rng + 1);
  next_u64 = λ rng. (rng % 2 ^ 64, rng + 1);
}

pub toy_rand-IsAvailable : IsAvailable toy_rand
toy_rand-IsAvailable = record { from_entropy_some = λ e. (e, refl) }

abbrev pub crates : RustLibs
crates = record {
  rand = toy_rand;
  Hkdf = Bytes;
  hkdf_extract = λ alg salt ikm. salt ++ ikm;
  hkdf_from_prk = λ alg prk. some prk;
  hkdf_expand = λ prk info len. some (replicate len (sum (prk ++ info) % 256));
  key_size = toy_key_size;
  encrypt = λ alg key nonce aad msg. some (replicate 16 (sum (key ++ (nonce ++ aad)) % 256) ++ msg);
  decrypt = λ alg key nonce aad ct. some (drop 16 ct);
  aead_error = "Error";
  x25519_new = λ rng. (replicate 32 (rng % 256), rng + 1);
  x25519_public = λ a. replicate 32 (head_or 0 a);
  x25519_diffie_hellman = λ a p. head_or 0 a * head_or 0 p ∷ [];
  SecretKey = ℕ;
  PublicKey = ℕ;
  secret_from_slice = toy_from_slice;
  secret_random = λ rng. (rng % 256 ∷ [], rng + 1);
  public_from_sec1 = toy_from_slice;
  public_encoded = λ a. a ∷ [];
  p256_diffie_hellman = λ a p. a * p ∷ [];
}

product_comm : (a b : ℕ) → ◌≡◌ {A = Bytes} (a * b ∷ []) (b * a ∷ [])
product_comm a b = ap (λ (n : ℕ). n ∷ []) (omega arith)

pub crates-IsCurves : IsCurves crates
crates-IsCurves = record {
  x25519_comm = λ a b. product_comm (head_or 0 a) (head_or 0 b);
  x25519_length = λ a. refl;
  p256_decode = λ a. a;
  p256_encoded = λ a. refl;
  p256_comm = λ a b. product_comm a b;
}

pub crates-IsCipher : IsCipher crates
crates-IsCipher = record {
  encrypt_length = λ alg key nonce aad msg ct h. ground arith;
  decrypt_encrypt = λ alg key nonce aad msg ct h. ground arith;
}

abbrev a_key : Bytes
a_key = replicate 16 2

abbrev a_nonce : Bytes
a_nonce = replicate 12 3

-- 16 * 2 + 12 * 3 + 5
abbrev a_tag : Bytes
a_tag = replicate 16 73

aead_open-aead_seal_empty_example :
    aead_open crates aes128_gcm a_key a_nonce (5 ∷ []) a_tag ≡ err Error.aead_invalid_ciphertext
unfolding aead_seal
aead_open-aead_seal_empty_example =
    aead_open-aead_seal_empty crates crates-IsCipher aes128_gcm a_key a_nonce (5 ∷ []) a_tag refl

kem_derive_comm_example : kem_derive crates dh_kem_p256 (5 ∷ []) (7 ∷ []) ≡ ok (35 ∷ [])
unfolding kem_derive kem_derive_base
kem_derive_comm_example =
    kem_derive_comm crates crates-IsCurves dh_kem_p256 (5 ∷ []) (7 ∷ []) (5 ∷ []) (7 ∷ []) (35 ∷ [])
      refl refl refl
