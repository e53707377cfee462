-- ===== src/Evercrypt/Prng.antt =====
-- evercrypt_provider/src/lib.rs: the generator `HpkeEvercryptPrng`, which is the same code as that
-- of rust_crypto_provider/src/lib.rs under another name.
use hpke_rs.Prelude.{ℕ, Bool, Option, Outcome}
use hpke_rs.Prelude.Bytes.{Bytes}
use hpke_rs.Rand.{Rand}
use hpke_rs.RustCrypto.Prng
use hpke_rs.RustCrypto.Prng.{HpkeRustCryptoPrng}

abbrev pub HpkeEvercryptPrng : Rand → Type 0
HpkeEvercryptPrng R = HpkeRustCryptoPrng R

module _ (deterministic : Bool) (R : Rand) where
  abbrev pub prng : R.Entropy → Option (HpkeEvercryptPrng R) × R.Entropy
  prng = Prng.prng deterministic R

  abbrev pub next_u32 : HpkeEvercryptPrng R → Outcome (Unit {0}) ℕ × HpkeEvercryptPrng R
  next_u32 = Prng.next_u32 deterministic R

  abbrev pub next_u64 : HpkeEvercryptPrng R → Outcome (Unit {0}) ℕ × HpkeEvercryptPrng R
  next_u64 = Prng.next_u64 deterministic R

  abbrev pub fill_bytes : HpkeEvercryptPrng R → ℕ → Outcome (Unit {0}) Bytes × HpkeEvercryptPrng R
  fill_bytes = Prng.fill_bytes deterministic R

  abbrev pub try_fill_bytes :
      HpkeEvercryptPrng R → ℕ → Outcome (Unit {0}) Bytes × HpkeEvercryptPrng R
  try_fill_bytes = Prng.try_fill_bytes deterministic R

  abbrev pub try_fill_test_bytes :
      HpkeEvercryptPrng R → ℕ → Outcome (Unit {0}) Bytes × HpkeEvercryptPrng R
  try_fill_test_bytes = Prng.try_fill_test_bytes deterministic R

  abbrev pub seed : HpkeEvercryptPrng R → Bytes → HpkeEvercryptPrng R
  seed = Prng.seed deterministic R
