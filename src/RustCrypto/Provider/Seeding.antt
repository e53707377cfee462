-- ===== src/RustCrypto/Provider/Seeding.antt =====
-- Seeded sessions (`Hpke::seed`, src/lib.rs) over the deterministic generator of
-- rust_crypto_provider/src/lib.rs, as the known-answer tests use them.
use hpke_rs.Prelude.{ℕ, ◌≡◌, true, false, Option, ok, arith}
use hpke_rs.Prelude.Bytes.{Bytes}
use hpke_rs.Build.{Build}
use hpke_rs.Traits.Types.{private_key_len}
use hpke_rs.Hpke.Keys.{HpkePublicKey, HpkePrivateKey}
use hpke_rs.Hpke.Context.{Context}
use hpke_rs.Hpke.Schedule.Agreement.{SameConfig, SameConfig_symm, SameConfig_trans, Agrees}
use hpke_rs.Hpke.Setup.{Session, random, seed, setup_sender}
use hpke_rs.Hpke.Setup.Determinism.{setup_sender-Agrees}
use hpke_rs.Rand.{IsAvailable}
use hpke_rs.RustCrypto.Provider.Laws.{rust_crypto-IsSeeded}
use hpke_rs.RustCrypto.Libs.{RustLibs}
use hpke_rs.RustCrypto.Prng
use hpke_rs.RustCrypto.Provider.{rust_crypto}

module _ (b : Build) (L : RustLibs) where
  -- The last bytes of the seed are drawn, whatever the session.
  random-alike :
      (s t : Session (rust_crypto true L)) (len : ℕ) (bytes : Bytes)
      → b.test_prng ≡ true
      → s.hpke.prng.poisoned ≡ false
      → t.hpke.prng.poisoned ≡ false
      → (random b (rust_crypto true L) len (seed b (rust_crypto true L) bytes t).1).0
        ≡ (random b (rust_crypto true L) len (seed b (rust_crypto true L) bytes s).1).0
  unfolding random seed Prng.try_fill_test_bytes Prng.seed
  random-alike s t len bytes testing s_open t_open = ground arith

  seed-SameConfig :
      (s : Session (rust_crypto true L)) (bytes : Bytes)
      → SameConfig s.hpke (seed b (rust_crypto true L) bytes s).1.hpke
  unfolding seed
  seed-SameConfig s bytes = ground arith

  -- On a system that has randomness to give, in a build of the library with the feature for the
  -- test generator, over the RustCrypto provider with the deterministic generator, two sessions
  -- with the same algorithms and no poisoned lock that are seeded alike set up alike: when
  -- `setup_sender` succeeds in one, it succeeds on the same inputs in the other, with the same
  -- encapsulated key and a context that agrees.
  pub setup_sender-seed :
      IsAvailable L.rand
      → (s t : Session (rust_crypto true L)) (bytes : Bytes) (pk_r : HpkePublicKey) (info : Bytes)
        (psk psk_id : Option Bytes) (sk_s : Option HpkePrivateKey) (enc : Bytes)
        (ctx : Context (rust_crypto true L))
      → b.test_prng ≡ true
      → s.hpke.prng.poisoned ≡ false
      → t.hpke.prng.poisoned ≡ false
      → SameConfig s.hpke t.hpke
      → (setup_sender b
          (rust_crypto true L)
          pk_r
          info
          psk
          psk_id
          sk_s
          (seed b (rust_crypto true L) bytes s).1).0
        ≡ ok (enc, ctx)
      → (ctx' : Context (rust_crypto true L)) × ((setup_sender b
            (rust_crypto true L)
            pk_r
            info
            psk
            psk_id
            sk_s
            (seed b (rust_crypto true L) bytes t).1).0
          ≡ ok (enc, ctx'))
        × Agrees ctx ctx'
  setup_sender-seed A s t bytes pk_r info psk psk_id sk_s enc ctx testing s_open t_open same =
      let C = rust_crypto true L in
      let s' = (seed b C bytes s).1 in
      let t' = (seed b C bytes t).1 in
      let kept = seed-SameConfig s bytes in
      setup_sender-Agrees b C (rust_crypto-IsSeeded true L A) s' t' pk_r info psk psk_id sk_s enc
        ctx
        (SameConfig_trans (SameConfig_symm kept) (SameConfig_trans same (seed-SameConfig t bytes)))
        (random-alike s t (private_key_len s'.hpke.kem_id) bytes testing s_open t_open)
