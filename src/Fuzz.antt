-- ===== src/Fuzz.antt =====
-- fuzz/fuzz_targets/base.rs: the fuzz target, which seals to and opens with whatever it is given.
use hpke_rs.Prelude.{
  false, map_ok, ◌>>=◌, ℕ, [], ◌≡◌, ◌≢◌, ◌∙◌, refl, Bool, none, Outcome, ok, err, panic, arith,
}
use hpke_rs.Prelude.Bytes.{Bytes, as_bytes}
use hpke_rs.Build.{Build}
use hpke_rs.Traits.Types.{dh_kem_p256, hkdf_sha256, aes128_gcm, hpke_export}
use hpke_rs.Traits.Crypto.{HpkeCrypto}
use hpke_rs.Hpke.Errors.{HpkeError}
use hpke_rs.Hpke.Mode.{Mode}
use hpke_rs.Hpke.Keys.{public_key_new, private_key_new}
use hpke_rs.Hpke.Config.{new}
use hpke_rs.Hpke.Setup.{Session, random}
use hpke_rs.Hpke.SingleShot.{seal, open_message}
use hpke_rs.DhKem.Returns.{IsImplemented}
use hpke_rs.Hpke.Sessions.{seal-Keeps}
use hpke_rs.Hpke.Setup.Returns.{Fills}
use hpke_rs.Hpke.NoPanic.{seal_once-returns, open_once-returns}
use hpke_rs.RustCrypto.Libs.{RustLibs}
use hpke_rs.RustCrypto.Prng
use hpke_rs.RustCrypto.Prng.Laws.{prng_some}
use hpke_rs.Rand.{IsAvailable}
use hpke_rs.RustCrypto.Provider.{rust_crypto}
use hpke_rs.RustCrypto.Provider.Laws.{IsHkdf, rust_crypto-IsKdf, rust_crypto-IsSeeded}
use hpke_rs.RustCrypto.Provider.Panics.{
  HasKeySizes, IsFilling, rust_crypto-IsPanicFree, try_fill_bytes-fills, try_fill_test_bytes-fills,
}

-- `let _ = …`: a value and an error are dropped, a panic goes on.
abbrev discard {ℓ} :
    {A : Type ℓ} → Outcome HpkeError A → Outcome HpkeError (Unit {0}) → Outcome HpkeError (Unit {0})
discard (ok a) rest = rest
discard (err e) rest = rest
discard panic rest = panic

discard-returns {ℓ} :
    {A : Type ℓ} (m : Outcome HpkeError A) (rest : Outcome HpkeError (Unit {0}))
    → m ≢ panic
    → discard m rest ≡ rest
discard-returns (ok a) rest h = refl
discard-returns (err e) rest h = refl
discard-returns panic rest h = absurd (h refl)

module _ (b : Build) (deterministic : Bool) (L : RustLibs) where
  abbrev pub provider : HpkeCrypto
  provider = rust_crypto deterministic L

  -- The configuration of the target, which is made with a generator.
  unfoldable pub fresh : L.rand.Entropy → Outcome HpkeError (Session provider)
  unfolding new
  fresh entropy =
      let (hpke, entropy') = new b provider Mode.base dh_kem_p256 hkdf_sha256 aes128_gcm entropy in
      map_ok (λ hpke. record { hpke = hpke; entropy = entropy' }) hpke

  -- What the target does with it.
  unfoldable pub seal_and_open : Bytes → Session provider → Outcome HpkeError (Unit {0})
  unfolding public_key_new private_key_new
  seal_and_open input start =
      let pk_r = public_key_new input in
      let sk_r = private_key_new input in
      let info = as_bytes "HPKE self test info" in
      let aad = as_bytes "HPKE self test aad" in
      let plain_txt = as_bytes "HPKE self test plain text" in
      let (sealed, after) = seal b provider pk_r info aad plain_txt none none none start in
      let (opened, _) = open_message b provider input sk_r info aad input none none none after in
      discard sealed (discard opened (ok tt))

  unfoldable pub fuzz_target : L.rand.Entropy → Bytes → Outcome HpkeError (Unit {0})
  unfolding fresh seal_and_open
  fuzz_target entropy input = fresh entropy >>= seal_and_open input

  -- A session of the target's algorithms, with its lock sound.
  record IsFresh (s : Session provider) : Type 0 where
    kem_id : s.hpke.kem_id ≡ dh_kem_p256
    aead_id : s.hpke.aead_id ≡ aes128_gcm
    lock : s.hpke.prng.poisoned ≡ false
    generator : s.hpke.prng.value.rng.poisoned ≡ false

  fresh-IsFresh :
      IsAvailable L.rand
      → (entropy : L.rand.Entropy) → (s : Session provider) × (fresh entropy ≡ ok s) × IsFresh s
  unfolding fresh
  fresh-IsFresh A entropy =
      let (prng, made, sound) = prng_some L.rand A deterministic entropy in
      (
        record {
          hpke = record {
            mode = Mode.base;
            kem_id = dh_kem_p256;
            kdf_id = hkdf_sha256;
            aead_id = aes128_gcm;
            prng = record { value = prng; poisoned = false };
          };
          entropy = (Prng.prng deterministic L.rand entropy).1;
        },
        ground (arith, made),
        record { kem_id = refl; aead_id = refl; lock = refl; generator = sound },
      )

  IsFresh-IsImplemented : (s : Session provider) → IsFresh s → IsImplemented s.hpke.kem_id
  IsFresh-IsImplemented s new = rw new.kem_id tt

  IsFresh-Fills :
      (s : Session provider) (len : ℕ) → IsFilling L.rand → IsFresh s → Fills b provider s len
  unfolding random
  IsFresh-Fills s len I new =
      let prng = s.hpke.prng.value in
      (
        λ h. ground (
          arith,
          new.lock,
          (try_fill_bytes-fills deterministic L.rand I prng len [] new.generator).0,
          (try_fill_test_bytes-fills deterministic L.rand I prng len [] new.generator).0,
        ),
        λ bytes h. ground (
          arith,
          new.lock,
          (try_fill_bytes-fills deterministic L.rand I prng len bytes new.generator).1,
          (try_fill_test_bytes-fills deterministic L.rand I prng len bytes new.generator).1,
        ),
      )

  seal_and_open-returns :
      IsHkdf L
      → HasKeySizes L
      → IsFilling L.rand
      → IsAvailable L.rand
      → (s : Session provider) (input : Bytes) → IsFresh s
      → seal_and_open input s ≡ ok tt
  unfolding seal_and_open
  seal_and_open-returns K sizes I A start input new =
      let F = rust_crypto-IsPanicFree deterministic L sizes in
      let H = rust_crypto-IsKdf deterministic L K in
      let S = rust_crypto-IsSeeded deterministic L A in
      let info = as_bytes "HPKE self test info" in
      let aad = as_bytes "HPKE self test aad" in
      let plain_txt = as_bytes "HPKE self test plain text" in
      let pk_r = public_key_new input in
      let after = (seal b provider pk_r info aad plain_txt none none none start).1 in
      let seals : start.hpke.aead_id ≢ hpke_export = λ e. cc (new.aead_id) in
      let sealed =
        seal_once-returns b provider F S H start pk_r info aad plain_txt none none none
          (IsFresh-IsImplemented start new) seals (IsFresh-Fills start _ I new) in
      let kept = seal-Keeps b provider start pk_r info aad plain_txt none none none in
      let opened =
        open_once-returns b provider F S H after (private_key_new input) input info aad input none
          none none (λ e. seals (kept.config.aead_id ∙ e)) in
      discard-returns _ _ sealed ∙ discard-returns _ _ opened

  -- On a system that has randomness to give, with a key expansion that gives as many bytes as
  -- asked for, ciphers with the key sizes of the standard and a generator that fills its buffers
  -- and does not panic, the fuzz target ends without a panic on every input.
  pub fuzz_target-returns :
      IsHkdf L
      → HasKeySizes L
      → IsFilling L.rand
      → IsAvailable L.rand
      → (entropy : L.rand.Entropy) (input : Bytes) → fuzz_target entropy input ≡ ok tt
  unfolding fuzz_target
  fuzz_target-returns K sizes I A entropy input =
      let (s, made, new) = fresh-IsFresh A entropy in
      rw made (seal_and_open-returns K sizes I A s input new)
