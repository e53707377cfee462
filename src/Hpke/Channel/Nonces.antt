-- ===== src/Hpke/Channel/Nonces.antt =====
-- The nonces that a context uses in its life (`seal`, `open` and `compute_nonce`, src/lib.rs).
use hpke_rs.Prelude.{
  ℕ, ◌+◌, ◌%◌, ◌^◌, ◌≤◌, ◌<◌, ◌≡◌, ◌≢◌, ◌∙◌, refl, ap, List, [], ◌∷◌, Outcome, ok, err, panic,
  length, All, arith,
}
use hpke_rs.Prelude.Bytes.{Bytes}
use hpke_rs.Build.{Build}
use hpke_rs.Traits.Crypto.{HpkeCrypto}
use hpke_rs.Hpke.Errors.{HpkeError}
use hpke_rs.Hpke.Context.{Context, nonce_at, compute_nonce, increment_seq, seal, open_message}
use hpke_rs.Hpke.Context.Nonce.{nonce_at-injective}

-- No item stands twice.
abbrev pub AllDistinct : List (Outcome HpkeError Bytes) → Type 0
AllDistinct [] = Unit
AllDistinct (x ∷ xs) = All (λ y. x ≢ y) xs × AllDistinct xs

-- A call on a context.
pub data Event : Type 0 where
  sealing : (aad msg : Bytes) → Event
  opening : (aad ct : Bytes) → Event

-- The nonce of a call that returned is used, that of one that failed is not.
abbrev pub prepend :
    Outcome HpkeError Bytes
    → Outcome HpkeError Bytes
    → List (Outcome HpkeError Bytes)
    → List (Outcome HpkeError Bytes)
prepend (ok a) nonce rest = nonce ∷ rest
prepend (err e) nonce rest = rest
prepend panic nonce rest = rest

-- By how much a call moves the counter.
abbrev moves : Outcome HpkeError Bytes → ℕ
moves (ok a) = 1
moves (err e) = 0
moves panic = 0

prepend-All :
    (P : Outcome HpkeError Bytes → Type 0) (m nonce : Outcome HpkeError Bytes)
    (rest : List (Outcome HpkeError Bytes))
    → P nonce
    → All P rest
    → All P (prepend m nonce rest)
prepend-All P (ok a) nonce rest p ps = (p, ps)
prepend-All P (err e) nonce rest p ps = ps
prepend-All P panic nonce rest p ps = ps

prepend-AllDistinct :
    (m nonce : Outcome HpkeError Bytes) (rest : List (Outcome HpkeError Bytes))
    → (moves m ≡ 1 → All (λ y. nonce ≢ y) rest)
    → AllDistinct rest
    → AllDistinct (prepend m nonce rest)
prepend-AllDistinct (ok a) nonce rest p ps = (p refl, ps)
prepend-AllDistinct (err e) nonce rest p ps = ps
prepend-AllDistinct panic nonce rest p ps = ps

module _ (b : Build) (C : HpkeCrypto) where
  unfoldable pub perform : Event → Context C → Outcome HpkeError Bytes × Context C
  perform (sealing aad msg) s = seal b C aad msg s
  perform (opening aad ct) s = open_message b C aad ct s

  unfoldable pub used_nonces : List Event → Context C → List (Outcome HpkeError Bytes)
  unfolding perform
  used_nonces [] s = []
  used_nonces (e ∷ es) s =
      prepend (perform e s).0 (compute_nonce b C s) (used_nonces es (perform e s).1)

  -- A call that returns moves the counter on by one, and another one changes nothing.
  record Moved (s : Context C) (m : Outcome HpkeError Bytes) (t : Context C) : Type 0 where
    nonce : t.nonce ≡ s.nonce
    counter : t.sequence_number ≡ (s.sequence_number + moves m) % 2 ^ 32

  perform-Moved :
      (e : Event) (s : Context C)
      → s.sequence_number < 2 ^ 32
      → Moved s (perform e s).0 (perform e s).1
  unfolding perform seal open_message increment_seq
  perform-Moved (sealing aad msg) s small = record { nonce = ground arith; counter = ground arith }
  perform-Moved (opening aad ct) s small = record { nonce = ground arith; counter = ground arith }

  moves-le : (m : Outcome HpkeError Bytes) → moves m ≤ 1
  moves-le (ok a) = omega arith
  moves-le (err e) = omega arith
  moves-le panic = omega arith

  -- The nonce of a counter that lies `d` messages back is not used again.
  used_nonces-avoid :
      (es : List Event) (s : Context C) (nonce : Bytes) (a d : ℕ)
      → s.nonce ≡ nonce
      → 4 ≤ length nonce
      → a < 2 ^ 32
      → s.sequence_number ≡ (a + d) % 2 ^ 32
      → 0 < d
      → d + length es ≤ 2 ^ 32
      → All (λ y. nonce_at {E = HpkeError} nonce a ≢ y) (used_nonces es s)
  unfolding used_nonces compute_nonce
  used_nonces-avoid [] s nonce a d same room small some_back ahead few = tt
  used_nonces-avoid (e ∷ es) s nonce a d same room small some_back ahead few =
      let m = (perform e s).0 in
      let t = (perform e s).1 in
      let moved = perform-Moved e s (omega arith) in
      let one = moves-le m in
      let ih =
        used_nonces-avoid es t nonce a (d + moves m) (moved.nonce ∙ same) room small
          (omega (arith, moved.counter)) (omega arith) (omega arith) in
      prepend-All (λ y. nonce_at {E = HpkeError} nonce a ≢ y) m (nonce_at s.nonce s.sequence_number)
        (used_nonces es t)
        (λ e.
          let again =
            nonce_at-injective {E = HpkeError} nonce a s.sequence_number room small (omega arith)
              (rw same at e) in
          absurd (omega arith))
        ih

  -- In any sequence of at most 2 ^ 32 calls of `seal` and `open` on a context with a base nonce
  -- of at least four bytes and a counter below 2 ^ 32, those that fail or panic included, the
  -- nonces of the calls that return a text are pairwise different.
  pub used_nonces-AllDistinct :
      (es : List Event) (s : Context C)
      → 4 ≤ length s.nonce
      → s.sequence_number < 2 ^ 32
      → length es ≤ 2 ^ 32
      → AllDistinct (used_nonces es s)
  unfolding used_nonces compute_nonce
  used_nonces-AllDistinct [] s room small few = tt
  used_nonces-AllDistinct (e ∷ es) s room small few =
      let m = (perform e s).0 in
      let t = (perform e s).1 in
      let moved = perform-Moved e s small in
      let wide = ap length moved.nonce in
      prepend-AllDistinct m (nonce_at s.nonce s.sequence_number) (used_nonces es t)
        (λ returned.
          used_nonces-avoid es t s.nonce s.sequence_number 1 moved.nonce room small
            (omega (arith, moved.counter)) (omega arith) (omega arith))
        (used_nonces-AllDistinct es t (omega arith) (omega (arith, moved.counter)) (omega arith))
