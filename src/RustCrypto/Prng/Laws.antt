-- ===== src/RustCrypto/Prng/Laws.antt =====
-- The test generator of rust_crypto_provider/src/lib.rs, as the tests seed and read it.
use hpke_rs.Prelude.{
  Bool, some, ◌-◌, ◌≡◌, refl, ap, ◌++◌, [], ◌∷◌, true, false, ok, length, length-append, take, drop,
  ltb, arith,
}
use hpke_rs.Prelude.Bytes.{Bytes}
use hpke_rs.Rand.{Rand, IsAvailable}
use hpke_rs.RustCrypto.Prng
use hpke_rs.RustCrypto.Prng.{HpkeRustCryptoPrng, try_fill_test_bytes, seed}

drop-append : (xs ys : Bytes) → drop (length xs) (xs ++ ys) ≡ ys
drop-append [] ys = refl
drop-append (x ∷ xs) ys = drop-append xs ys

take-append : (xs ys : Bytes) → take (length xs) (xs ++ ys) ≡ xs
take-append [] ys = refl
take-append (x ∷ xs) ys = ap (λ zs. x ∷ zs) (take-append xs ys)

length-front : (xs ys : Bytes) → length (xs ++ ys) - length ys ≡ length xs
length-front xs ys = rw (length-append xs ys) (omega arith)

long_enough : (xs ys : Bytes) → ltb (length (xs ++ ys)) (length ys) ≡ false
long_enough xs ys = rw (length-append xs ys) (ground arith)

module _ (R : Rand) where
  -- In a build with the deterministic generator, after a seed that ends in some bytes a request
  -- for as many gives those bytes, and leaves the generator with the seed without them.
  pub try_fill_test_bytes-seed :
      (self : HpkeRustCryptoPrng R) (front back : Bytes)
      → try_fill_test_bytes true R (seed true R self (front ++ back)) (length back)
        ≡ (ok back, record self { fake_rng = front })
  unfolding try_fill_test_bytes seed
  try_fill_test_bytes-seed self front back = simp (
    long_enough front back,
    length-front front back,
    drop-append front back,
    take-append front back,
  )

module _ (R : Rand) (A : IsAvailable R) where
  alone_some :
      (e : R.Entropy)
      → (prng : HpkeRustCryptoPrng R) × ((Prng.prng false R e).0 ≡ some prng)
        × (prng.rng.poisoned ≡ false)
  unfolding Prng.prng
  alone_some e =
      let (rng, made) = A.from_entropy_some e in
      (
        record { rng = record { value = rng; poisoned = false }; fake_rng = [] },
        ground (arith, made),
        refl,
      )

  seeded_some :
      (e : R.Entropy)
      → (prng : HpkeRustCryptoPrng R) × ((Prng.prng true R e).0 ≡ some prng)
        × (prng.rng.poisoned ≡ false)
  unfolding Prng.prng
  seeded_some e =
      let (seeding, made) = A.from_entropy_some e in
      let (rng, again) = A.from_entropy_some (R.from_entropy e).1 in
      (
        record {
          rng = record { value = rng; poisoned = false };
          fake_rng = (R.fill_bytes seeding 256).0;
        },
        ground (arith, made, again),
        refl,
      )

  -- A generator is made, in either build, and its lock is sound.
  pub prng_some :
      (deterministic : Bool) (e : R.Entropy)
      → (prng : HpkeRustCryptoPrng R) × ((Prng.prng deterministic R e).0 ≡ some prng)
        × (prng.rng.poisoned ≡ false)
  prng_some false e = alone_some e
  prng_some true e = seeded_some e
