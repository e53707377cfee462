-- ===== src/DhKem/Agreement.antt =====
-- The two sides of the KEM (src/dh_kem.rs) together.
use hpke_rs.Prelude.{◌≡◌, ok, [], unwrap_or, arith}
use hpke_rs.Prelude.Bytes.{Bytes}
use hpke_rs.Build.{Build}
use hpke_rs.Traits.Types.{KemAlgorithm}
use hpke_rs.Traits.Crypto.{HpkeCrypto, IsDiffieHellman}
use hpke_rs.DhKem.{
  serialize, deserialize, derive_key_pair, encaps, decaps, auth_encaps, auth_decaps,
}

module _ (b : Build) (C : HpkeCrypto) where
  -- The pair that is derived belongs together.
  pub derive_key_pair-derive_base :
      (alg : KemAlgorithm) (suite_id ikm pk sk : Bytes)
      → derive_key_pair b C alg suite_id ikm ≡ ok (pk, sk)
      → C.kem_derive_base alg sk ≡ ok pk
  unfolding derive_key_pair
  derive_key_pair-derive_base alg suite_id ikm pk sk h = ground arith

  -- Over a provider whose Diffie-Hellman calls commute, the secret that `encaps` encapsulates to
  -- a receiver's public key is the one that `decaps` finds with the private key that belongs to
  -- it.
  pub decaps-encaps :
      IsDiffieHellman C
      → (alg : KemAlgorithm) (suite_id randomness sk_r pk_r zz enc : Bytes)
      → C.kem_derive_base alg sk_r ≡ ok pk_r
      → encaps b C alg pk_r suite_id randomness ≡ ok (zz, enc)
      → decaps b C alg enc sk_r suite_id ≡ ok zz
  unfolding encaps decaps serialize deserialize
  decaps-encaps D alg suite_id randomness sk_r pk_r zz enc base h =
      let pair = unwrap_or (derive_key_pair b C alg suite_id randomness) ([], []) in
      let dh_e = unwrap_or (C.kem_derive alg pk_r pair.1) [] in
      ground (
        arith,
        derive_key_pair-derive_base alg suite_id randomness pair.0 pair.1,
        D.derive_comm alg pair.1 sk_r pair.0 pk_r dh_e,
      )

  -- Over a provider whose Diffie-Hellman calls commute, the secret that `auth_encaps`
  -- encapsulates to a receiver's public key is the one that `auth_decaps` finds, when the private
  -- keys belong to the public keys of both parties.
  pub auth_decaps-auth_encaps :
      IsDiffieHellman C
      → (alg : KemAlgorithm) (suite_id randomness sk_r pk_r sk_s pk_s zz enc : Bytes)
      → C.kem_derive_base alg sk_r ≡ ok pk_r
      → C.kem_derive_base alg sk_s ≡ ok pk_s
      → auth_encaps b C alg pk_r sk_s suite_id randomness ≡ ok (zz, enc)
      → auth_decaps b C alg enc sk_r pk_s suite_id ≡ ok zz
  unfolding auth_encaps auth_decaps serialize deserialize
  auth_decaps-auth_encaps D alg suite_id randomness sk_r pk_r sk_s pk_s zz enc base_r base_s h =
      let pair = unwrap_or (derive_key_pair b C alg suite_id randomness) ([], []) in
      let dh_e = unwrap_or (C.kem_derive alg pk_r pair.1) [] in
      let dh_s = unwrap_or (C.kem_derive alg pk_r sk_s) [] in
      ground (
        arith,
        derive_key_pair-derive_base alg suite_id randomness pair.0 pair.1,
        D.derive_comm alg pair.1 sk_r pair.0 pk_r dh_e,
        D.derive_comm alg sk_s sk_r pk_s pk_r dh_s,
      )
