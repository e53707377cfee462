-- ===== src/Hpke/Config.antt =====
-- src/lib.rs: the configuration `Hpke` with its generator behind a lock, and the parts of the
-- key schedule that read nothing else.
pub mod Psk
use hpke_rs.Prelude.{
  map_ok, or_panic, ℕ, List, [], ◌∷◌, Bool, true, false, not, ◌&&◌, ◌||◌, Outcome, ok, err, panic,
  is_empty, length, ltb, if◌then◌else◌,
}
use hpke_rs.Prelude.Bytes.{Bytes, as_bytes, u16_to_be_bytes}
use hpke_rs.Prelude.State.{Stateful}
use hpke_rs.Prelude.Lock.{RwLock, is_panic}
use hpke_rs.Build.{Build}
use hpke_rs.Traits.Types.{KemAlgorithm, KdfAlgorithm, AeadAlgorithm, kem_u16, kdf_u16, aead_u16}
use hpke_rs.Traits.Crypto.{HpkeCrypto}
use hpke_rs.Util.{concat}
use hpke_rs.Kdf.{labeled_extract}
use hpke_rs.Hpke.Errors.{
  HpkeError, inconsistent_psk, unnecessary_psk, missing_psk, insecure_psk, lock_poisoned,
}
use hpke_rs.Hpke.Mode.{Mode, mode_u8}

-- `let mut guard = lock.write().map_err(|_| LockPoisoned)?;` and the body that holds the guard.
-- `S` is what the body changes besides the value in the lock.
unfoldable pub with_write :
    {P S A : Type 0}
    → RwLock P
    → S
    → (P → S → Outcome HpkeError A × P × S)
    → Outcome HpkeError A × RwLock P × S
with_write lock s body =
    if lock.poisoned
    then (err lock_poisoned, lock, s)
    else (let (r, value, s') = body lock.value s in
        (r, record { value = value; poisoned = is_panic r }, s'))

pub record Hpke (C : HpkeCrypto) : Type 0 where
  pub mode : Mode
  pub kem_id : KemAlgorithm
  pub kdf_id : KdfAlgorithm
  pub aead_id : AeadAlgorithm
  pub prng : RwLock C.HpkePrng

-- `self.mode == Mode::…`
abbrev pub is_base : Mode → Bool
is_base Mode.base = true
is_base _ = false

abbrev pub is_psk : Mode → Bool
is_psk Mode.psk = true
is_psk _ = false

abbrev pub is_auth : Mode → Bool
is_auth Mode.auth = true
is_auth _ = false

abbrev pub is_auth_psk : Mode → Bool
is_auth_psk Mode.auth_psk = true
is_auth_psk _ = false

-- `Hpke::verify_psk_inputs`, which reads only the mode.
unfoldable pub verify_psk_inputs : Mode → Bytes → Bytes → Outcome HpkeError (Unit {0})
verify_psk_inputs mode psk psk_id =
    let got_psk = not (is_empty psk) in
    let got_psk_id = not (is_empty psk_id) in
    if (got_psk && not got_psk_id) || (not got_psk && got_psk_id)
    then err inconsistent_psk
    else if got_psk && (is_base mode || is_auth mode)
    then err unnecessary_psk
    else if not got_psk && (is_psk mode || is_auth_psk mode)
    then err missing_psk
    else if (is_psk mode || is_auth_psk mode) && ltb (length psk) 32
    then err insecure_psk
    else ok tt

module _ (b : Build) (C : HpkeCrypto) where
  -- A new generator for every configuration.
  unfoldable pub new :
      Mode → KemAlgorithm → KdfAlgorithm → AeadAlgorithm → Stateful C.Entropy HpkeError (Hpke C)
  new mode kem_id kdf_id aead_id entropy =
      let (prng, entropy') = C.prng entropy in
      let made =
        map_ok
          (λ prng. record {
            mode = mode;
            kem_id = kem_id;
            kdf_id = kdf_id;
            aead_id = aead_id;
            prng = record { value = prng; poisoned = false };
          })
          (or_panic prng) in
      (made, entropy')

  -- The clone has a generator of its own.
  unfoldable pub clone : Hpke C → Stateful C.Entropy HpkeError (Hpke C)
  clone self entropy =
      let (prng, entropy') = C.prng entropy in
      let made =
        map_ok (λ prng. record self { prng = record { value = prng; poisoned = false } })
          (or_panic prng) in
      (made, entropy')

  unfoldable pub ciphersuite : Hpke C → Bytes
  unfolding concat u16_to_be_bytes kem_u16 kdf_u16 aead_u16
  ciphersuite self = concat (
      as_bytes "HPKE"
      ∷ u16_to_be_bytes (kem_u16 self.kem_id)
      ∷ u16_to_be_bytes (kdf_u16 self.kdf_id)
      ∷ u16_to_be_bytes (aead_u16 self.aead_id)
      ∷ [])

  unfoldable pub key_schedule_context : Hpke C → Bytes → Bytes → Bytes → Bytes
  key_schedule_context self info psk_id suite_id =
      let psk_id_hash = labeled_extract b C self.kdf_id (0 ∷ []) suite_id "psk_id_hash" psk_id in
      let info_hash = labeled_extract b C self.kdf_id (0 ∷ []) suite_id "info_hash" info in
      concat ((mode_u8 self.mode ∷ []) ∷ psk_id_hash ∷ info_hash ∷ [])
