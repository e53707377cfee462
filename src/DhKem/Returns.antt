-- ===== src/DhKem/Returns.antt =====
-- Panics of the functions of src/dh_kem.rs, for the two KEMs that are implemented.
use hpke_rs.Prelude.{
  ℕ, ◌<◌, ◌≡◌, ◌≢◌, inl, inr, [], ◌∷◌, String, Outcome, panic, length, arith, unwrap_or,
}
use hpke_rs.Prelude.Bytes.{Bytes}
use hpke_rs.Build.{Build}
use hpke_rs.Traits.Error.{Error}
use hpke_rs.Traits.Types.{
  KemAlgorithm, KdfAlgorithm, AeadAlgorithm, dh_kem_p256, dh_kem_25519, private_key_len,
  shared_secret_len, kem_kdf,
}
use hpke_rs.Traits.Crypto.{HpkeCrypto, aead_key_length}
use hpke_rs.Kdf.{labeled_extract, labeled_expand, labeled_info}
use hpke_rs.DhKem.{
  attempt, derive_sk, derive_key_pair, extract_and_expand, encaps, decaps, auth_encaps, auth_decaps,
}
use hpke_rs.DhKem.Rejection.{IsFirst, derive_sk-IsFirst}

abbrev pub IsImplemented : KemAlgorithm → Type 0
IsImplemented dh_kem_p256 = Unit
IsImplemented dh_kem_25519 = Unit
IsImplemented _ = ⊥

-- The provider's calls end in a value or an error; a key expansion, for a length that the library's
-- keys have; those of the ciphers, for a key of the right length.
pub record IsPanicFree (C : HpkeCrypto) : Type 0 where
  pub expand_returns :
      (alg : KdfAlgorithm) (prk info : Bytes) (len : ℕ)
      → len < 256
      → C.kdf_expand alg prk info len ≢ panic
  pub derive_returns : (alg : KemAlgorithm) (pk sk : Bytes) → C.kem_derive alg pk sk ≢ panic
  pub derive_base_returns : (alg : KemAlgorithm) (sk : Bytes) → C.kem_derive_base alg sk ≢ panic
  pub validate_returns : (alg : KemAlgorithm) (sk : Bytes) → C.kem_validate_sk alg sk ≢ panic
  pub seal_returns :
      (alg : AeadAlgorithm) (key nonce aad msg : Bytes)
      → length key ≡ aead_key_length alg
      → C.aead_seal alg key nonce aad msg ≢ panic
  pub open_returns :
      (alg : AeadAlgorithm) (key nonce aad ct : Bytes)
      → length key ≡ aead_key_length alg
      → C.aead_open alg key nonce aad ct ≢ panic

module _ (b : Build) (C : HpkeCrypto) (F : IsPanicFree C) where
  pub labeled_expand-returns :
      (alg : KdfAlgorithm) (prk suite_id info : Bytes) (label : String) (len : ℕ)
      → len < 256
      → labeled_expand b C alg prk suite_id label info len ≢ panic
  unfolding labeled_expand
  labeled_expand-returns alg prk suite_id info label len short h =
      ground (arith, F.expand_returns alg prk (labeled_info len suite_id label info) len)

  private_key_len-lt : (alg : KemAlgorithm) → private_key_len alg < 256
  unfolding private_key_len
  private_key_len-lt alg = ground arith

  shared_secret_len-lt : (alg : KemAlgorithm) → shared_secret_len alg < 256
  unfolding shared_secret_len
  shared_secret_len-lt alg = ground arith

  attempt-returns :
      (alg : KemAlgorithm) (suite_id dkp_prk : Bytes) (ctr : ℕ)
      → attempt b C alg suite_id dkp_prk ctr ≢ panic
  unfolding attempt
  attempt-returns alg suite_id dkp_prk ctr h =
      let candidate =
        labeled_expand b C (kem_kdf alg) dkp_prk suite_id "candidate" (ctr ∷ [])
          (private_key_len alg) in
      ground (
        arith,
        labeled_expand-returns (kem_kdf alg) dkp_prk suite_id (ctr ∷ []) "candidate"
            (private_key_len alg) (private_key_len-lt alg),
        F.validate_returns alg (unwrap_or candidate []),
      )

  IsFirst-returns :
      (suite_id dkp_prk : Bytes) (r : Outcome Error Bytes)
      → IsFirst (attempt b C dh_kem_p256 suite_id dkp_prk) 0 r
      → r ≢ panic
  IsFirst-returns suite_id dkp_prk r (inl a) h = cc (a.result)
  IsFirst-returns suite_id dkp_prk r (inr (inl e)) h = cc (e.result)
  IsFirst-returns suite_id dkp_prk r (inr (inr p)) h =
      absurd (attempt-returns dh_kem_p256 suite_id dkp_prk p.ctr p.found)

  derive_sk-returns :
      (alg : KemAlgorithm) (suite_id dkp_prk : Bytes)
      → IsImplemented alg
      → derive_sk b C alg suite_id dkp_prk ≢ panic
  derive_sk-returns dh_kem_p256 suite_id dkp_prk known =
      IsFirst-returns suite_id dkp_prk _ (derive_sk-IsFirst b C suite_id dkp_prk)
  derive_sk-returns dh_kem_25519 suite_id dkp_prk known =
      unfold derive_sk in
      labeled_expand-returns (kem_kdf dh_kem_25519) dkp_prk suite_id [] "sk"
        (private_key_len dh_kem_25519) (private_key_len-lt dh_kem_25519)
  derive_sk-returns _ suite_id dkp_prk known = absurd known

  pub derive_key_pair-returns :
      (alg : KemAlgorithm) (suite_id ikm : Bytes)
      → IsImplemented alg
      → derive_key_pair b C alg suite_id ikm ≢ panic
  unfolding derive_key_pair
  derive_key_pair-returns alg suite_id ikm known h =
      let dkp_prk = labeled_extract b C (kem_kdf alg) [] suite_id "dkp_prk" ikm in
      ground (
        arith,
        derive_sk-returns alg suite_id dkp_prk known,
        F.derive_base_returns alg (unwrap_or (derive_sk b C alg suite_id dkp_prk) []),
      )

  extract_and_expand-returns :
      (alg : KemAlgorithm) (pk kem_context suite_id : Bytes)
      → extract_and_expand b C alg pk kem_context suite_id ≢ panic
  unfolding extract_and_expand
  extract_and_expand-returns alg pk kem_context suite_id =
      labeled_expand-returns (kem_kdf alg)
        (labeled_extract b C (kem_kdf alg) [] suite_id "eae_prk" pk) suite_id kem_context
        "shared_secret" (shared_secret_len alg) (shared_secret_len-lt alg)

  pub encaps-returns :
      (alg : KemAlgorithm) (pk_r suite_id randomness : Bytes)
      → IsImplemented alg
      → length randomness ≡ private_key_len alg
      → encaps b C alg pk_r suite_id randomness ≢ panic
  unfolding encaps
  encaps-returns alg pk_r suite_id randomness known sized h = grind (
    arith,
    derive_key_pair-returns alg suite_id randomness known,
    F.derive_returns,
    extract_and_expand-returns,
  )

  pub decaps-returns :
      (alg : KemAlgorithm) (enc sk_r suite_id : Bytes) → decaps b C alg enc sk_r suite_id ≢ panic
  unfolding decaps
  decaps-returns alg enc sk_r suite_id h =
      grind (arith, F.derive_returns, F.derive_base_returns, extract_and_expand-returns)

  pub auth_encaps-returns :
      (alg : KemAlgorithm) (pk_r sk_s suite_id randomness : Bytes)
      → IsImplemented alg
      → length randomness ≡ private_key_len alg
      → auth_encaps b C alg pk_r sk_s suite_id randomness ≢ panic
  unfolding auth_encaps
  auth_encaps-returns alg pk_r sk_s suite_id randomness known sized h = grind (
    arith,
    derive_key_pair-returns alg suite_id randomness known,
    F.derive_returns,
    F.derive_base_returns,
    extract_and_expand-returns,
  )

  pub auth_decaps-returns :
      (alg : KemAlgorithm) (enc sk_r pk_s suite_id : Bytes)
      → auth_decaps b C alg enc sk_r pk_s suite_id ≢ panic
  unfolding auth_decaps
  auth_decaps-returns alg enc sk_r pk_s suite_id h =
      grind (arith, F.derive_returns, F.derive_base_returns, extract_and_expand-returns)
