-- ===== src/Rand.antt =====
-- The crate rand_chacha, which both providers draw from, as parameters.
use hpke_rs.Prelude.{ℕ, ◌≡◌, Option, some, Outcome}
use hpke_rs.Prelude.Bytes.{Bytes}

-- `Entropy` is the system's randomness. `from_entropy` panics where the system has none to give:
-- that is `none`. A fill gives the bytes that it writes.
pub record Rand : Type 1 where
  pub Entropy : Type 0
  pub ChaCha20Rng : Type 0
  pub from_entropy : Entropy → Option ChaCha20Rng × Entropy
  pub fill_bytes : ChaCha20Rng → ℕ → Bytes × ChaCha20Rng
  pub try_fill_bytes : ChaCha20Rng → ℕ → Outcome (Unit {0}) Bytes × ChaCha20Rng
  pub next_u32 : ChaCha20Rng → ℕ × ChaCha20Rng
  pub next_u64 : ChaCha20Rng → ℕ × ChaCha20Rng

-- The system has randomness to give, at any time.
pub record IsAvailable (R : Rand) : Type 0 where
  pub from_entropy_some :
      (e : R.Entropy) → (rng : R.ChaCha20Rng) × ((R.from_entropy e).0 ≡ some rng)
