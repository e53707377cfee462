-- ===== src/RustCrypto/Provider/Laws.antt =====
-- The provider of rust_crypto_provider/src/lib.rs as an implementation of the trait: what
-- the theorems over any provider ask for, from what the crates document.
use hpke_rs.Prelude.{ℕ, ◌≡◌, refl, Bool, Option, none, some, ok, length, arith}
use hpke_rs.Prelude.Bytes.{Bytes, IsBytes}
use hpke_rs.Traits.Types.{KemAlgorithm, KdfAlgorithm, dh_kem_25519, dh_kem_p256}
use hpke_rs.Traits.Crypto.{IsDiffieHellman, IsSeeded, IsAead, IsKdf}
use hpke_rs.Rand.{IsAvailable}
use hpke_rs.RustCrypto.Prng.Laws.{prng_some}
use hpke_rs.RustCrypto.Libs.{RustLibs}
use hpke_rs.RustCrypto.Aead.Laws.{IsCipher, aead_open-aead_seal}
use hpke_rs.RustCrypto.Hkdf.{kdf_expand}
use hpke_rs.RustCrypto.Provider.{kem_derive, kem_derive_base, rust_crypto}

-- What the crates of the two curves document: X25519 and ECDH commute, a public key of X25519
-- has 32 bytes, and the encoding of a P-256 public key is read back.
pub record IsCurves (L : RustLibs) : Type 0 where
  pub x25519_comm :
      (a b : Bytes)
      → L.x25519_diffie_hellman a (L.x25519_public b)
        ≡ L.x25519_diffie_hellman b (L.x25519_public a)
  pub x25519_length : (a : Bytes) → length (L.x25519_public a) ≡ 32
  pub p256_decode : L.SecretKey → L.PublicKey
  pub p256_encoded :
      (a : L.SecretKey) → L.public_from_sec1 (L.public_encoded a) ≡ some (p256_decode a)
  pub p256_comm :
      (a b : L.SecretKey)
      → L.p256_diffie_hellman a (p256_decode b) ≡ L.p256_diffie_hellman b (p256_decode a)

-- What the crate `hkdf` documents: as many bytes as were asked for.
pub record IsHkdf (L : RustLibs) : Type 0 where
  pub expand_length :
      (hkdf : L.Hkdf) (info : Bytes) (len : ℕ) (okm : Bytes)
      → L.hkdf_expand hkdf info len ≡ some okm
      → (length okm ≡ len) × IsBytes okm

p256_agree :
    (L : RustLibs)
    → IsCurves L
    → (x y : Option L.SecretKey) (sk_a sk_b pk_a pk_b zz : Bytes) → L.secret_from_slice sk_a ≡ x
    → L.secret_from_slice sk_b ≡ y
    → kem_derive_base L dh_kem_p256 sk_a ≡ ok pk_a
    → kem_derive_base L dh_kem_p256 sk_b ≡ ok pk_b
    → kem_derive L dh_kem_p256 pk_b sk_a ≡ ok zz
    → kem_derive L dh_kem_p256 pk_a sk_b ≡ ok zz
unfolding kem_derive kem_derive_base
p256_agree L I (some a) (some b) sk_a sk_b pk_a pk_b zz found_a found_b p q h =
    ground (arith, I.p256_encoded a, I.p256_encoded b, I.p256_comm a b)
p256_agree L I none y sk_a sk_b pk_a pk_b zz found_a found_b p q h = ground arith
p256_agree L I (some a) none sk_a sk_b pk_a pk_b zz found_a found_b p q h = ground arith

-- With curves whose key exchange commutes and whose public keys are read back, two parties with
-- key pairs of one algorithm derive the same secret from each other's public keys in the
-- RustCrypto provider, if one of them derives a secret.
pub kem_derive_comm :
    (L : RustLibs)
    → IsCurves L
    → (alg : KemAlgorithm) (sk_a sk_b pk_a pk_b zz : Bytes) → kem_derive_base L alg sk_a ≡ ok pk_a
    → kem_derive_base L alg sk_b ≡ ok pk_b
    → kem_derive L alg pk_b sk_a ≡ ok zz
    → kem_derive L alg pk_a sk_b ≡ ok zz
unfolding kem_derive kem_derive_base
kem_derive_comm L I dh_kem_25519 sk_a sk_b pk_a pk_b zz p q h =
    ground (arith, I.x25519_comm sk_a sk_b, I.x25519_length sk_a)
kem_derive_comm L I dh_kem_p256 sk_a sk_b pk_a pk_b zz p q h =
    p256_agree L I (L.secret_from_slice sk_a) (L.secret_from_slice sk_b) sk_a sk_b pk_a pk_b zz refl
      refl p q h
kem_derive_comm L I _ sk_a sk_b pk_a pk_b zz p q h = h

pub rust_crypto-IsDiffieHellman :
    (deterministic : Bool) (L : RustLibs)
    → IsCurves L
    → IsDiffieHellman (rust_crypto deterministic L)
rust_crypto-IsDiffieHellman deterministic L I = record { derive_comm = kem_derive_comm L I }

pub rust_crypto-IsSeeded :
    (deterministic : Bool) (L : RustLibs)
    → IsAvailable L.rand
    → IsSeeded (rust_crypto deterministic L)
rust_crypto-IsSeeded deterministic L A = record {
  prng_some = λ e. let (prng, made, _) = prng_some L.rand A deterministic e in (prng, made);
}

pub rust_crypto-IsAead :
    (deterministic : Bool) (L : RustLibs) → IsCipher L → IsAead (rust_crypto deterministic L)
rust_crypto-IsAead deterministic L I = record { open_seal = aead_open-aead_seal L I }

expand_of_prk :
    (L : RustLibs)
    → IsHkdf L
    → (x : Option L.Hkdf) (alg : KdfAlgorithm) (prk info : Bytes) (len : ℕ) (okm : Bytes)
    → L.hkdf_from_prk alg prk ≡ x
    → kdf_expand L alg prk info len ≡ ok okm
    → (length okm ≡ len) × IsBytes okm
unfolding kdf_expand
expand_of_prk L I none alg prk info len okm found h = ground arith
expand_of_prk L I (some hkdf) alg prk info len okm found h =
    I.expand_length hkdf info len okm (ground arith)

pub rust_crypto-IsKdf :
    (deterministic : Bool) (L : RustLibs) → IsHkdf L → IsKdf (rust_crypto deterministic L)
rust_crypto-IsKdf deterministic L I = record {
  expand_length = λ alg prk info len okm h.
      expand_of_prk L I (L.hkdf_from_prk alg prk) alg prk info len okm refl h;
}
