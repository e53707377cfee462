-- ===== src/Hpke/Setup.antt =====
-- src/lib.rs: setting up the two sides, and making keys. The methods take `&self`, whose lock
-- they write, and read the system's randomness: both make up a `Session`.
pub mod Steps
pub mod Agreement
pub mod Panics
pub mod Missing
pub mod Returns
pub mod KeyPairs
pub mod Determinism
use hpke_rs.Prelude.{
  ℕ, [], Bool, true, false, Option, none, some, Outcome, ok, err, panic, map_err, if◌then◌else◌,
}
use hpke_rs.Prelude.Bytes.{Bytes}
use hpke_rs.Prelude.State.{Stateful, ◌>>=◌, ◌>>◌, pure, get, lift}
use hpke_rs.Build.{Build}
use hpke_rs.Traits.Types.{KemAlgorithm, private_key_len}
use hpke_rs.Traits.Crypto.{HpkeCrypto}
use hpke_rs.Kem
use hpke_rs.Hpke.Errors.{HpkeError, from_error, invalid_input, insufficient_randomness}
use hpke_rs.Hpke.Mode.{Mode}
use hpke_rs.Hpke.Keys.{HpkePublicKey, HpkePrivateKey, HpkeKeyPair, key_pair_new}
use hpke_rs.Hpke.Config.{Hpke, with_write, clone}
use hpke_rs.Hpke.Context.{Context}
use hpke_rs.Hpke.Schedule.{key_schedule}

pub record Session (C : HpkeCrypto) : Type 0 where
  pub hpke : Hpke C
  pub entropy : C.Entropy

-- `Option::unwrap_or_default` of a slice.
abbrev pub unwrap_or_default : Option Bytes → Bytes
unwrap_or_default none = []
unwrap_or_default (some x) = x

module _ (b : Build) (C : HpkeCrypto) where
  -- A step that reads the system's randomness and leaves the lock alone.
  unfoldable pub with_entropy :
      {A : Type 0} → Stateful C.Entropy HpkeError A → Stateful (Session C) HpkeError A
  with_entropy m s = let (r, entropy) = m s.entropy in (r, record s { entropy = entropy })

  -- A step that holds the lock for writing from its begin to its end.
  unfoldable pub with_prng :
      {A : Type 0}
      → (C.HpkePrng → C.Entropy → Outcome HpkeError A × C.HpkePrng × C.Entropy)
      → Stateful (Session C) HpkeError A
  unfolding with_write
  with_prng body s =
      let (r, lock, entropy) = with_write s.hpke.prng s.entropy body in
      (r, record { hpke = record s.hpke { prng = lock }; entropy = entropy })

  -- The feature `hpke-test-prng` chooses the generator's method.
  unfoldable pub fill :
      ℕ → C.HpkePrng → C.Entropy → Outcome HpkeError Bytes × C.HpkePrng × C.Entropy
  fill len prng entropy =
      let (out, prng') =
        if b.test_prng then C.try_fill_test_bytes prng len else C.try_fill_bytes prng len in
      (map_err (λ _. insufficient_randomness) out, prng', entropy)

  unfoldable pub random : ℕ → Stateful (Session C) HpkeError Bytes
  unfolding with_prng fill
  random len = with_prng (fill len)

  unfoldable pub generate_key_pair : Stateful (Session C) HpkeError HpkeKeyPair
  unfolding with_prng
  generate_key_pair = do
    self ← get
    (sk, pk) ← with_prng (λ prng entropy.
        let (pair, prng', entropy') = Kem.key_gen b C self.hpke.kem_id prng entropy in
        (map_err from_error pair, prng', entropy'))
    pure (key_pair_new sk pk)

  unfoldable pub derive_key_pair : Hpke C → Bytes → Outcome HpkeError HpkeKeyPair
  derive_key_pair self ikm = elim (map_err from_error (Kem.derive_key_pair b C self.kem_id ikm)) [
    | ok (pk, sk) ↦ ok (key_pair_new sk pk)
    | err e ↦ err e
    | panic ↦ panic
  ]

  -- The `match self.mode` of `setup_sender`.
  unfoldable pub encapsulate :
      Mode
      → KemAlgorithm
      → HpkePublicKey
      → Option HpkePrivateKey
      → Bytes
      → Outcome HpkeError (Bytes × Bytes)
  encapsulate Mode.base kem_id pk_r sk_s randomness =
      map_err from_error (Kem.encaps b C kem_id pk_r.value randomness)
  encapsulate Mode.psk kem_id pk_r sk_s randomness =
      map_err from_error (Kem.encaps b C kem_id pk_r.value randomness)
  encapsulate Mode.auth kem_id pk_r none randomness = err invalid_input
  encapsulate Mode.auth kem_id pk_r (some s) randomness =
      map_err from_error (Kem.auth_encaps b C kem_id pk_r.value s.value randomness)
  encapsulate Mode.auth_psk kem_id pk_r none randomness = err invalid_input
  encapsulate Mode.auth_psk kem_id pk_r (some s) randomness =
      map_err from_error (Kem.auth_encaps b C kem_id pk_r.value s.value randomness)

  unfoldable pub setup_sender :
      HpkePublicKey
      → Bytes
      → Option Bytes
      → Option Bytes
      → Option HpkePrivateKey
      → Stateful (Session C) HpkeError (Bytes × Context C)
  unfolding with_entropy
  setup_sender pk_r info psk psk_id sk_s = do
    self ← get
    randomness ← random (private_key_len self.hpke.kem_id)
    (zz, enc) ← lift (encapsulate self.hpke.mode self.hpke.kem_id pk_r sk_s randomness)
    copy ← with_entropy (clone b C self.hpke)
    context ←
        with_entropy
          (key_schedule b C copy zz info (unwrap_or_default psk) (unwrap_or_default psk_id))
    pure (enc, context)

  -- The `match self.mode` of `setup_receiver`.
  unfoldable pub decapsulate :
      Mode → KemAlgorithm → Bytes → HpkePrivateKey → Option HpkePublicKey → Outcome HpkeError Bytes
  decapsulate Mode.base kem_id enc sk_r pk_s =
      map_err from_error (Kem.decaps b C kem_id enc sk_r.value)
  decapsulate Mode.psk kem_id enc sk_r pk_s =
      map_err from_error (Kem.decaps b C kem_id enc sk_r.value)
  decapsulate Mode.auth kem_id enc sk_r none = err invalid_input
  decapsulate Mode.auth kem_id enc sk_r (some s) =
      map_err from_error (Kem.auth_decaps b C kem_id enc sk_r.value s.value)
  decapsulate Mode.auth_psk kem_id enc sk_r none = err invalid_input
  decapsulate Mode.auth_psk kem_id enc sk_r (some s) =
      map_err from_error (Kem.auth_decaps b C kem_id enc sk_r.value s.value)

  unfoldable pub setup_receiver :
      Bytes
      → HpkePrivateKey
      → Bytes
      → Option Bytes
      → Option Bytes
      → Option HpkePublicKey
      → Stateful (Session C) HpkeError (Context C)
  unfolding with_entropy
  setup_receiver enc sk_r info psk psk_id pk_s = do
    self ← get
    zz ← lift (decapsulate self.hpke.mode self.hpke.kem_id enc sk_r pk_s)
    copy ← with_entropy (clone b C self.hpke)
    with_entropy (key_schedule b C copy zz info (unwrap_or_default psk) (unwrap_or_default psk_id))

  -- `test_util`: the state of the generator is set by the test.
  unfoldable pub seed : Bytes → Stateful (Session C) HpkeError (Unit {0})
  unfolding with_prng
  seed bytes = with_prng (λ prng entropy. (ok tt, C.seed prng bytes, entropy))
