-- ===== src/Build.antt =====
-- What a build of the workspace fixes: the profile's checks (Cargo profiles `debug-assertions`
-- and `overflow-checks`), the Cargo features `hpke-test-prng` and `hazmat` (Cargo.toml), and the
-- standard library's `Debug` forms of a text, of a byte vector and of a number.
use hpke_rs.Prelude.{
  ℕ, ◌+◌, ◌%◌, ◌^◌, Bool, true, false, String, Outcome, ok, panic, if◌then◌else◌, ltb, List,
}

pub record Build : Type 0 where
  pub debug_assertions : Bool
  pub overflow_checks : Bool
  pub test_prng : Bool
  pub hazmat : Bool
  pub debug_str : String → String
  pub debug_bytes : List ℕ → String
  pub debug_u32 : ℕ → String

module _ (b : Build) where
  -- `debug_assert!(c)`: a release build does not test `c`.
  abbrev pub debug_assert {ℓ} : {E : Type ℓ} → Bool → Outcome E (Unit {0})
  debug_assert c = if b.debug_assertions then (if c then ok tt else panic) else ok tt

  -- `x += 1` on a `u32`: a checked build panics on overflow, another one wraps.
  abbrev pub incr_u32 {ℓ} : {E : Type ℓ} → ℕ → Outcome E ℕ
  incr_u32 x =
      if ltb (x + 1) (2 ^ 32)
      then ok (x + 1)
      else if b.overflow_checks
      then panic
      else ok ((x + 1) % 2 ^ 32)

-- The two profiles of Cargo, without the test generator.
abbrev pub debug_build : Build
debug_build = record {
  debug_assertions = true;
  overflow_checks = true;
  test_prng = false;
  hazmat = false;
  debug_str = λ s. s;
  debug_bytes = λ bytes. "[]";
  debug_u32 = λ n. "0";
}

abbrev pub release_build : Build
release_build = record {
  debug_assertions = false;
  overflow_checks = false;
  test_prng = false;
  hazmat = false;
  debug_str = λ s. s;
  debug_bytes = λ bytes. "[]";
  debug_u32 = λ n. "0";
}
