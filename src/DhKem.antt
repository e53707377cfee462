-- ===== src/DhKem.antt =====
-- src/dh_kem.rs: the Diffie-Hellman KEM of RFC 9180, section 4.1.
pub mod Rejection
pub mod Agreement
pub mod Returns
use hpke_rs.Prelude.{
  ℕ, zero, suc, ◌+◌, String, List, [], ◌∷◌, Option, none, some, Outcome, ok, err, panic, ◌>>=◌,
  ◌>>◌, length, ◌==◌, if◌then◌else◌,
}
use hpke_rs.Prelude.Bytes.{Bytes}
use hpke_rs.Build.{Build, debug_assert}
use hpke_rs.Traits.Error.{Error}
use hpke_rs.Traits.Types.{
  KemAlgorithm, dh_kem_p256, dh_kem_25519, private_key_len, shared_secret_len, kem_kdf,
}
use hpke_rs.Traits.Crypto.{HpkeCrypto}
use hpke_rs.Util.{concat}
use hpke_rs.Kdf.{labeled_extract, labeled_expand}

-- The rejection loop of `derive_key_pair` over what one round yields, an `Err` standing for a
-- candidate that is not accepted. `none` means that the fuel ran out.
unfoldable pub sample : (ℕ → Outcome Error Bytes) → ℕ → ℕ → Option (Outcome Error Bytes)
sample attempt zero ctr = none
sample attempt (suc fuel) ctr =
    let rest =
      if ctr == 255
      then some (err (Error.crypto_library_error "Unable to generate a valid P256 private key"))
      else sample attempt fuel (ctr + 1) in
    elim (attempt ctr) [ ok sk ↦ some (ok sk) | err e ↦ rest | panic ↦ some panic ]

-- Out of fuel is no outcome of the source.
abbrev pub finish : Option (Outcome Error Bytes) → Outcome Error Bytes
finish (some r) = r
finish none = panic

-- The loop from `ctr = 0`, with fuel for each of the 256 counters.
unfoldable pub rejection_sample : (ℕ → Outcome Error Bytes) → Outcome Error Bytes
rejection_sample attempt = finish (sample attempt 256 0)

-- A key is its encoding already.
unfoldable pub serialize : Bytes → Bytes
serialize pk = pk

unfoldable pub deserialize : Bytes → Bytes
deserialize enc = enc

module _ (b : Build) (C : HpkeCrypto) where
  unfoldable pub extract_and_expand : KemAlgorithm → Bytes → Bytes → Bytes → Outcome Error Bytes
  extract_and_expand alg pk kem_context suite_id =
      let prk = labeled_extract b C (kem_kdf alg) [] suite_id "eae_prk" pk in
      labeled_expand b C (kem_kdf alg) prk suite_id "shared_secret" kem_context
        (shared_secret_len alg)

  unfoldable pub key_gen :
      KemAlgorithm → C.HpkePrng → C.Entropy → Outcome Error (Bytes × Bytes) × C.HpkePrng × C.Entropy
  key_gen alg prng entropy =
      let (drawn, prng', entropy') = C.kem_key_gen alg prng entropy in
      let pair = drawn >>= λ sk. C.kem_derive_base alg sk >>= λ pk. ok (sk, pk) in
      (pair, prng', entropy')

  -- One round of the loop: the candidate for a counter, and its validation.
  unfoldable pub attempt : KemAlgorithm → Bytes → Bytes → ℕ → Outcome Error Bytes
  attempt alg suite_id dkp_prk ctr = do
    candidate ←
        labeled_expand b C (kem_kdf alg) dkp_prk suite_id "candidate" (ctr ∷ [])
          (private_key_len alg)
    C.kem_validate_sk alg candidate

  -- The `match alg` of `derive_key_pair`.
  unfoldable pub derive_sk : KemAlgorithm → Bytes → Bytes → Outcome Error Bytes
  unfolding attempt rejection_sample sample
  derive_sk dh_kem_25519 suite_id dkp_prk =
      labeled_expand b C (kem_kdf dh_kem_25519) dkp_prk suite_id "sk" []
        (private_key_len dh_kem_25519)
  derive_sk dh_kem_p256 suite_id dkp_prk = rejection_sample (attempt dh_kem_p256 suite_id dkp_prk)
  derive_sk _ suite_id dkp_prk = panic

  -- The public key comes first.
  unfoldable pub derive_key_pair : KemAlgorithm → Bytes → Bytes → Outcome Error (Bytes × Bytes)
  derive_key_pair alg suite_id ikm = do
    let dkp_prk = labeled_extract b C (kem_kdf alg) [] suite_id "dkp_prk" ikm
    sk ← derive_sk alg suite_id dkp_prk
    pk ← C.kem_derive_base alg sk
    ok (pk, sk)

  unfoldable pub encaps : KemAlgorithm → Bytes → Bytes → Bytes → Outcome Error (Bytes × Bytes)
  encaps alg pk_r suite_id randomness = do
    debug_assert b (length randomness == private_key_len alg)
    (pk_e, sk_e) ← derive_key_pair alg suite_id randomness
    dh_pk ← C.kem_derive alg pk_r sk_e
    let enc = serialize pk_e
    let pk_rm = serialize pk_r
    let kem_context = concat (enc ∷ pk_rm ∷ [])
    zz ← extract_and_expand alg dh_pk kem_context suite_id
    ok (zz, enc)

  unfoldable pub decaps : KemAlgorithm → Bytes → Bytes → Bytes → Outcome Error Bytes
  decaps alg enc sk_r suite_id = do
    let pk_e = deserialize enc
    dh_pk ← C.kem_derive alg pk_e sk_r
    pk_r ← C.kem_derive_base alg sk_r
    let pk_rm = serialize pk_r
    let kem_context = concat (enc ∷ pk_rm ∷ [])
    extract_and_expand alg dh_pk kem_context suite_id

  unfoldable pub auth_encaps :
      KemAlgorithm → Bytes → Bytes → Bytes → Bytes → Outcome Error (Bytes × Bytes)
  auth_encaps alg pk_r sk_s suite_id randomness = do
    debug_assert b (length randomness == private_key_len alg)
    (pk_e, sk_e) ← derive_key_pair alg suite_id randomness
    dh_e ← C.kem_derive alg pk_r sk_e
    dh_s ← C.kem_derive alg pk_r sk_s
    let dh_pk = concat (dh_e ∷ dh_s ∷ [])
    let enc = serialize pk_e
    let pk_rm = serialize pk_r
    pk_s ← C.kem_derive_base alg sk_s
    let pk_sm = serialize pk_s
    let kem_context = concat (enc ∷ pk_rm ∷ pk_sm ∷ [])
    zz ← extract_and_expand alg dh_pk kem_context suite_id
    ok (zz, enc)

  unfoldable pub auth_decaps : KemAlgorithm → Bytes → Bytes → Bytes → Bytes → Outcome Error Bytes
  auth_decaps alg enc sk_r pk_s suite_id = do
    let pk_e = deserialize enc
    dh_e ← C.kem_derive alg pk_e sk_r
    dh_s ← C.kem_derive alg pk_s sk_r
    let dh_pk = concat (dh_e ∷ dh_s ∷ [])
    pk_r ← C.kem_derive_base alg sk_r
    let pk_rm = serialize pk_r
    let pk_sm = serialize pk_s
    let kem_context = concat (enc ∷ pk_rm ∷ pk_sm ∷ [])
    extract_and_expand alg dh_pk kem_context suite_id
