-- ===== src/Hpke/Setup/KeyPairs.antt =====
-- The key pairs that `Hpke` makes (src/lib.rs), over src/kem.rs and src/dh_kem.rs.
use hpke_rs.Prelude.{◌≡◌, ◌⊎◌, inl, inr, ok, arith}
use hpke_rs.Prelude.Bytes.{Bytes}
use hpke_rs.Build.{Build}
use hpke_rs.Traits.Crypto.{HpkeCrypto}
use hpke_rs.DhKem
use hpke_rs.Kem
use hpke_rs.Hpke.Keys.{HpkeKeyPair, key_pair_new}
use hpke_rs.Hpke.Setup.{Session, generate_key_pair, derive_key_pair}
use hpke_rs.Hpke.Setup.Agreement.{IsKeyPair}

module _ (b : Build) (C : HpkeCrypto) where
  generate_key_pair-IsKeyPair :
      (s : Session C) (pair : HpkeKeyPair)
      → (generate_key_pair b C s).0 ≡ ok pair
      → IsKeyPair C s.hpke.kem_id pair.private_key pair.public_key
  unfolding generate_key_pair Kem.key_gen DhKem.key_gen key_pair_new
  generate_key_pair-IsKeyPair s pair h = ground arith

  derive_key_pair-IsKeyPair :
      (s : Session C) (ikm : Bytes) (pair : HpkeKeyPair)
      → derive_key_pair b C s.hpke ikm ≡ ok pair
      → IsKeyPair C s.hpke.kem_id pair.private_key pair.public_key
  unfolding derive_key_pair Kem.derive_key_pair DhKem.derive_key_pair key_pair_new
  derive_key_pair-IsKeyPair s ikm pair h = ground arith

  -- The public key of a pair that `generate_key_pair` or `derive_key_pair` returns is the one
  -- that the provider derives from its private key.
  pub pair-IsKeyPair :
      (s : Session C) (ikm : Bytes) (pair : HpkeKeyPair)
      → ((generate_key_pair b C s).0 ≡ ok pair) ⊎ (derive_key_pair b C s.hpke ikm ≡ ok pair)
      → IsKeyPair C s.hpke.kem_id pair.private_key pair.public_key
  pair-IsKeyPair s ikm pair (inl h) = generate_key_pair-IsKeyPair s pair h
  pair-IsKeyPair s ikm pair (inr h) = derive_key_pair-IsKeyPair s ikm pair h
