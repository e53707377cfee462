-- ===== src/RustCrypto/Prng.antt =====
-- rust_crypto_provider/src/lib.rs: the generator `HpkeRustCryptoPrng`. `deterministic` is the
-- Cargo feature `deterministic-prng`, without which the field `fake_rng` is not there: it stays
-- empty here, and nothing reads it.
pub mod Laws
use hpke_rs.Prelude.{
  Option, none, some, ℕ, ◌-◌, [], Bool, true, false, Outcome, ok, err, panic, length, take, drop,
  ltb, if◌then◌else◌,
}
use hpke_rs.Prelude.Bytes.{Bytes}
use hpke_rs.Prelude.Lock.{RwLock, is_panic}
use hpke_rs.Rand.{Rand}

pub record HpkeRustCryptoPrng (R : Rand) : Type 0 where
  pub rng : RwLock R.ChaCha20Rng
  pub fake_rng : Bytes

module _ (deterministic : Bool) (R : Rand) where
  -- A panic ends what follows.
  abbrev and_then :
      {A B : Type 0}
      → Option A × R.Entropy
      → (A → R.Entropy → Option B × R.Entropy)
      → Option B × R.Entropy
  and_then (none, entropy) f = (none, entropy)
  and_then (some a, entropy) f = f a entropy

  unfoldable pub prng : R.Entropy → Option (HpkeRustCryptoPrng R) × R.Entropy
  prng entropy =
      if deterministic
      then and_then (R.from_entropy entropy) (λ seeding entropy₁.
        and_then (R.from_entropy entropy₁) (λ rng entropy₂. (
          some (record {
            rng = record { value = rng; poisoned = false };
            fake_rng = (R.fill_bytes seeding 256).0;
          }),
          entropy₂,
        )))
      else and_then (R.from_entropy entropy) (λ rng entropy₁.
        (some (record { rng = record { value = rng; poisoned = false }; fake_rng = [] }), entropy₁))

  -- `let mut rng = self.rng.write().unwrap();` and the one call of the generator behind it.
  unfoldable pub with_rng :
      {E A : Type 0}
      → (R.ChaCha20Rng → Outcome E A × R.ChaCha20Rng)
      → HpkeRustCryptoPrng R
      → Outcome E A × HpkeRustCryptoPrng R
  with_rng call self =
      if self.rng.poisoned
      then (panic, self)
      else (let (r, value) = call self.rng.value in
          (r, record self { rng = record { value = value; poisoned = is_panic r } }))

  unfoldable pub next_u32 : HpkeRustCryptoPrng R → Outcome (Unit {0}) ℕ × HpkeRustCryptoPrng R
  unfolding with_rng
  next_u32 = with_rng (λ rng. let (x, rng') = R.next_u32 rng in (ok x, rng'))

  unfoldable pub next_u64 : HpkeRustCryptoPrng R → Outcome (Unit {0}) ℕ × HpkeRustCryptoPrng R
  unfolding with_rng
  next_u64 = with_rng (λ rng. let (x, rng') = R.next_u64 rng in (ok x, rng'))

  unfoldable pub fill_bytes :
      HpkeRustCryptoPrng R → ℕ → Outcome (Unit {0}) Bytes × HpkeRustCryptoPrng R
  unfolding with_rng
  fill_bytes self len =
      with_rng (λ rng. let (bytes, rng') = R.fill_bytes rng len in (ok bytes, rng')) self

  unfoldable pub try_fill_bytes :
      HpkeRustCryptoPrng R → ℕ → Outcome (Unit {0}) Bytes × HpkeRustCryptoPrng R
  unfolding with_rng
  try_fill_bytes self len = with_rng (λ rng. R.try_fill_bytes rng len) self

  -- The configured bytes are used up from their end.
  unfoldable pub try_fill_test_bytes :
      HpkeRustCryptoPrng R → ℕ → Outcome (Unit {0}) Bytes × HpkeRustCryptoPrng R
  unfolding try_fill_bytes
  try_fill_test_bytes self len =
      if deterministic
      then (if ltb (length self.fake_rng) len then (err tt, self) else (
        ok (drop (length self.fake_rng - len) self.fake_rng),
        record self { fake_rng = take (length self.fake_rng - len) self.fake_rng },
      ))
      else try_fill_bytes self len

  unfoldable pub seed : HpkeRustCryptoPrng R → Bytes → HpkeRustCryptoPrng R
  seed self bytes = if deterministic then record self { fake_rng = bytes } else self
