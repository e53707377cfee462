-- ===== src/Evercrypt/Provider/Laws.antt =====
-- The provider of evercrypt_provider/src/lib.rs as an implementation of the trait.
use Prim.Native.String.{◌++◌}
use hpke_rs.Prelude.{
  ◌≡◌, ◌≢◌, Bool, true, false, Outcome, ok, err, panic, arith, String, map_err, ◌>>=◌, unwrap_or,
  [], ◌∷◌,
}
use hpke_rs.Prelude.Bytes.{Bytes}
use hpke_rs.Build.{Build}
use hpke_rs.Traits.Error.{Error}
use hpke_rs.Traits.Types.{
  KemAlgorithm, AeadAlgorithm, dh_kem_25519, dh_kem_p256, aes128_gcm, aes256_gcm,
  cha_cha20_poly1305, hpke_export,
}
use hpke_rs.Traits.Crypto.{HpkeCrypto, IsDiffieHellman, IsSeeded, IsAead}
use hpke_rs.Rand.{IsAvailable}
use hpke_rs.RustCrypto.Prng.Laws.{prng_some}
use hpke_rs.Evercrypt.Libs.{EvercryptLibs}
use hpke_rs.Evercrypt.Provider.{
  nist_format_uncompressed, kem_derive, kem_derive_base, aead_seal, aead_open, aead_type_to_mode,
  evercrypt,
}
use hpke_rs.Hpke.Errors.{HpkeError, open_error, from_error}
use hpke_rs.Util.{xor_bytes}
use hpke_rs.Hpke.Context.{Context, nonce_at, compute_nonce, increment_seq, open_message}

-- What the crate documents of its curves: the modes are told apart, and the key exchange of a
-- curve commutes, where a public key of P-256 is read with its prefix.
pub record IsEcdh (E : EvercryptLibs) : Type 0 where
  pub x25519_mode : E.is_p256 E.x25519 ≡ false
  pub p256_mode : E.is_p256 E.p256 ≡ true
  pub x25519_comm :
      (a b pk_a pk_b zz : Bytes)
      → E.ecdh_derive_base E.x25519 a ≡ ok pk_a
      → E.ecdh_derive_base E.x25519 b ≡ ok pk_b
      → E.ecdh_derive E.x25519 pk_b a ≡ ok zz
      → E.ecdh_derive E.x25519 pk_a b ≡ ok zz
  pub p256_comm :
      (a b pk_a pk_b zz : Bytes)
      → E.ecdh_derive_base E.p256 a ≡ ok pk_a
      → E.ecdh_derive_base E.p256 b ≡ ok pk_b
      → E.ecdh_derive E.p256 (0x04 ∷ pk_b) a ≡ ok zz
      → E.ecdh_derive E.p256 (0x04 ∷ pk_a) b ≡ ok zz

-- What the crate documents of its ciphers: a cipher decrypts what it encrypted.
pub record IsCombined (E : EvercryptLibs) : Type 0 where
  pub decrypt_encrypt :
      (cipher : E.Aead) (msg nonce aad ct : Bytes)
      → E.encrypt_combined cipher msg nonce aad ≡ ok ct
      → E.decrypt_combined cipher ct nonce aad ≡ ok msg

abbrev error_of : Outcome Error Bytes → Error
error_of (err e) = e
error_of _ = Error.aead_open_error

from_error_open : (e : Error) → from_error e ≡ open_error → e ≡ Error.aead_open_error
unfolding from_error
from_error_open e h = ground arith

module _ (b : Build) (C : HpkeCrypto) where
  compute_nonce-not_err : (s : Context C) (e : HpkeError) → compute_nonce b C s ≢ err e
  unfolding compute_nonce nonce_at xor_bytes
  compute_nonce-not_err s e h = ground arith

  -- A context reports that error only where the provider does.
  open_error_cause :
      (s : Context C) (aad ct : Bytes)
      → (open_message b C aad ct s).0 ≡ err open_error
      → (nonce : Bytes) × (C.aead_open s.hpke.aead_id s.key nonce aad ct
          ≡ err Error.aead_open_error)
  unfolding open_message increment_seq
  open_error_cause s aad ct h =
      let nonce = unwrap_or (compute_nonce b C s) [] in
      let opened = C.aead_open s.hpke.aead_id s.key nonce aad ct in
      (nonce, ground (arith, compute_nonce-not_err s open_error, from_error_open (error_of opened)))

-- A failure that is passed on as a text is not that error.
map_err-not_open_error :
    {F A : Type 0} (text : F → String) (m : Outcome F A)
    → map_err (λ e. Error.crypto_library_error (text e)) m ≢ err Error.aead_open_error
map_err-not_open_error text (ok a) h = cc
map_err-not_open_error text (err e) h = cc
map_err-not_open_error text panic h = cc

module _ (E : EvercryptLibs) where
  -- With ciphers that decrypt what they encrypted, the Evercrypt provider opens what it sealed,
  -- the empty message included.
  pub evercrypt_open-seal :
      IsCombined E
      → (alg : AeadAlgorithm) (key nonce aad msg ct : Bytes)
      → aead_seal E alg key nonce aad msg ≡ ok ct
      → aead_open E alg key nonce aad ct ≡ ok msg
  unfolding aead_seal aead_open
  evercrypt_open-seal I alg key nonce aad msg ct h = grind (arith, I.decrypt_encrypt)

  -- With curves whose key exchange commutes, the public keys of P-256 being read with their
  -- prefix, two parties with key pairs of one algorithm derive the same secret from each other's
  -- public keys in the Evercrypt provider, if one of them derives a secret.
  pub evercrypt_derive_comm :
      IsEcdh E
      → (alg : KemAlgorithm) (sk_a sk_b pk_a pk_b zz : Bytes) → kem_derive_base E alg sk_a ≡ ok pk_a
      → kem_derive_base E alg sk_b ≡ ok pk_b
      → kem_derive E alg pk_b sk_a ≡ ok zz
      → kem_derive E alg pk_a sk_b ≡ ok zz
  unfolding kem_derive kem_derive_base nist_format_uncompressed
  evercrypt_derive_comm I dh_kem_25519 sk_a sk_b pk_a pk_b zz p q h =
      let z = unwrap_or (E.ecdh_derive E.x25519 pk_b sk_a) [] in
      ground (arith, I.x25519_mode, I.x25519_comm sk_a sk_b pk_a pk_b z)
  evercrypt_derive_comm I dh_kem_p256 sk_a sk_b pk_a pk_b zz p q h =
      let point_a = unwrap_or (E.ecdh_derive_base E.p256 sk_a) [] in
      let point_b = unwrap_or (E.ecdh_derive_base E.p256 sk_b) [] in
      let z = unwrap_or (E.ecdh_derive E.p256 pk_b sk_a) [] in
      ground (arith, I.p256_mode, I.p256_comm sk_a sk_b point_a point_b z)
  evercrypt_derive_comm I _ sk_a sk_b pk_a pk_b zz p q h = h

  decrypt-not_open_error :
      (mode : E.AeadMode) (cipher : Outcome E.AeadError E.Aead) (nonce aad ct : Bytes)
      → (map_err
            (λ _.
              Error.crypto_library_error
                ("Invalid configuration or unsupported algorithm " ++ E.mode_debug mode))
            cipher
          >>= λ c.
              map_err
                (λ e. Error.crypto_library_error ("AEAD decryption error: " ++ E.aead_debug e))
                (E.decrypt_combined c ct nonce aad))
        ≢ err Error.aead_open_error
  decrypt-not_open_error mode (ok c) nonce aad ct h =
      map_err-not_open_error (λ e. "AEAD decryption error: " ++ E.aead_debug e)
        (E.decrypt_combined c ct nonce aad) h
  decrypt-not_open_error mode (err e) nonce aad ct h = cc
  decrypt-not_open_error mode panic nonce aad ct h = cc

  aead_open-not_open_error :
      (alg : AeadAlgorithm) (key nonce aad ct : Bytes)
      → aead_open E alg key nonce aad ct ≢ err Error.aead_open_error
  unfolding aead_open aead_type_to_mode
  aead_open-not_open_error aes128_gcm key nonce aad ct =
      decrypt-not_open_error E.aes128_gcm (E.aead_new E.aes128_gcm key) nonce aad ct
  aead_open-not_open_error aes256_gcm key nonce aad ct =
      decrypt-not_open_error E.aes256_gcm (E.aead_new E.aes256_gcm key) nonce aad ct
  aead_open-not_open_error cha_cha20_poly1305 key nonce aad ct =
      decrypt-not_open_error E.chacha20_poly1305 (E.aead_new E.chacha20_poly1305 key) nonce aad ct
  aead_open-not_open_error hpke_export key nonce aad ct = λ h. cc

  -- Over the Evercrypt provider, `open` of a context never ends in OpenError, whatever the
  -- ciphertext.
  pub evercrypt_open_error :
      (deterministic : Bool) (b : Build) (s : Context (evercrypt deterministic E)) (aad ct : Bytes)
      → (open_message b (evercrypt deterministic E) aad ct s).0 ≢ err open_error
  evercrypt_open_error deterministic b s aad ct h =
      aead_open-not_open_error s.hpke.aead_id s.key _ aad ct
        (open_error_cause b (evercrypt deterministic E) s aad ct h).1

pub evercrypt-IsDiffieHellman :
    (deterministic : Bool) (E : EvercryptLibs)
    → IsEcdh E
    → IsDiffieHellman (evercrypt deterministic E)
evercrypt-IsDiffieHellman deterministic E I = record { derive_comm = evercrypt_derive_comm E I }

pub evercrypt-IsSeeded :
    (deterministic : Bool) (E : EvercryptLibs)
    → IsAvailable E.rand
    → IsSeeded (evercrypt deterministic E)
evercrypt-IsSeeded deterministic E A = record {
  prng_some = λ e. let (prng, made, _) = prng_some E.rand A deterministic e in (prng, made);
}

pub evercrypt-IsAead :
    (deterministic : Bool) (E : EvercryptLibs) → IsCombined E → IsAead (evercrypt deterministic E)
evercrypt-IsAead deterministic E I = record {
  open_seal = λ alg key nonce aad msg ct full. evercrypt_open-seal E I alg key nonce aad msg ct;
}
