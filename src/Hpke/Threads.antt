-- ===== src/Hpke/Threads.antt =====
-- Set-ups of several threads on one configuration (src/lib.rs). `setup_sender` takes the lock for
-- its draw alone; between the draw and the rest, other threads act on the session.
use hpke_rs.Prelude.{◌≡◌, ◌∙◌, sym, refl, Option, ok-injective, Outcome, ok, err, panic, arith}
use hpke_rs.Prelude.Bytes.{Bytes}
use hpke_rs.Prelude.State.{Stateful, ◌>>=◌, pure, get, lift, continue}
use hpke_rs.Prelude.Lock.{RwLock}
use hpke_rs.Build.{Build}
use hpke_rs.Traits.Types.{private_key_len}
use hpke_rs.Traits.Crypto.{HpkeCrypto, IsSeeded}
use hpke_rs.Hpke.Errors.{HpkeError}
use hpke_rs.Hpke.Keys.{HpkePublicKey, HpkePrivateKey}
use hpke_rs.Hpke.Config.{clone}
use hpke_rs.Hpke.Context.{Context}
use hpke_rs.Hpke.Schedule.{key_schedule}
use hpke_rs.Hpke.Schedule.Agreement.{
  SameConfig, SameConfig_symm, SameConfig_trans, clone-IsSeeded, Agrees, key_schedule-Agrees,
}
use hpke_rs.Hpke.Setup.{Session, random, encapsulate, setup_sender, unwrap_or_default, with_entropy}
use hpke_rs.Hpke.Setup.Steps.{SenderSteps, setup_sender-SenderSteps}
use hpke_rs.Hpke.Sessions.{Calls, Calls-Keeps, random-Keeps}

module _ (b : Build) (C : HpkeCrypto) where
  -- What `setup_sender` does with its randomness.
  unfoldable pub setup_rest :
      HpkePublicKey
      → Bytes
      → Option Bytes
      → Option Bytes
      → Option HpkePrivateKey
      → Bytes
      → Stateful (Session C) HpkeError (Bytes × Context C)
  unfolding with_entropy
  setup_rest pk_r info psk psk_id sk_s randomness = do
    self ← get
    (zz, enc) ← lift (encapsulate b C self.hpke.mode self.hpke.kem_id pk_r sk_s randomness)
    copy ← with_entropy b C (clone b C self.hpke)
    context ←
        with_entropy b C
          (key_schedule b C copy zz info (unwrap_or_default psk) (unwrap_or_default psk_id))
    pure (enc, context)

  -- The rest, in a session of the same algorithms, whatever its generator.
  setup_rest-Agrees :
      IsSeeded C
      → (s t : Session C) (pk_r : HpkePublicKey) (info : Bytes) (psk psk_id : Option Bytes)
        (sk_s : Option HpkePrivateKey) (enc : Bytes) (ctx : Context C)
      → SameConfig s.hpke t.hpke
      → (steps : SenderSteps b C s pk_r info
          (unwrap_or_default psk)
          (unwrap_or_default psk_id)
          sk_s
          enc
          ctx)
      → (ctx' : Context C) × ((setup_rest pk_r info psk psk_id sk_s steps.randomness t).0
          ≡ ok (enc, ctx'))
        × Agrees ctx ctx'
  unfolding setup_rest
  setup_rest-Agrees S s t pk_r info psk psk_id sk_s enc ctx same steps =
      let found : encapsulate b C t.hpke.mode t.hpke.kem_id pk_r sk_s steps.randomness
          ≡ ok (steps.zz, enc) =
        rw (← same.mode, ← same.kem_id) steps.encapsulated in
      let (copy, copied, like) = clone-IsSeeded b C S t.hpke t.entropy in
      let config = SameConfig_trans (SameConfig_symm steps.same) (SameConfig_trans same like) in
      let (ctx', scheduled, agrees) =
        key_schedule-Agrees b C S steps.copy copy steps.zz info (unwrap_or_default psk)
          (unwrap_or_default psk_id) steps.entropy (clone b C t.hpke t.entropy).1 ctx config
          steps.scheduled in
      (ctx', ground (arith, found, copied, scheduled), agrees)

  -- The rest reads no generator, so that it may read the session from before the draw.
  setup_rest-prng :
      (s : Session C) (lock : RwLock C.HpkePrng) (entropy : C.Entropy) (pk_r : HpkePublicKey)
      (info : Bytes) (psk psk_id : Option Bytes) (sk_s : Option HpkePrivateKey)
      (drawn : Outcome HpkeError Bytes)
      → continue
          (drawn, record { hpke = record s.hpke { prng = lock }; entropy = entropy })
          (setup_rest pk_r info psk psk_id sk_s)
        ≡ continue
            (drawn, record { hpke = record s.hpke { prng = lock }; entropy = entropy })
            (λ randomness. do
              (zz, enc) ← lift (encapsulate b C s.hpke.mode s.hpke.kem_id pk_r sk_s randomness)
              copy ← with_entropy b C (clone b C s.hpke)
              context ←
                  with_entropy b C (
                    key_schedule b C copy zz info
                      (unwrap_or_default psk)
                      (unwrap_or_default psk_id))
              pure (enc, context))
  unfolding setup_rest clone with_entropy
  setup_rest-prng s lock entropy pk_r info psk psk_id sk_s (ok a) = refl
  setup_rest-prng s lock entropy pk_r info psk psk_id sk_s (err e) = refl
  setup_rest-prng s lock entropy pk_r info psk psk_id sk_s panic = refl

  -- The draw and the rest, with no other thread between them, are the set-up.
  setup_rest-setup_sender :
      (s : Session C) (pk_r : HpkePublicKey) (info : Bytes) (psk psk_id : Option Bytes)
      (sk_s : Option HpkePrivateKey)
      → (random b C (private_key_len s.hpke.kem_id) >>= setup_rest pk_r info psk psk_id sk_s) s
        ≡ setup_sender b C pk_r info psk psk_id sk_s s
  unfolding setup_sender random
  setup_rest-setup_sender s pk_r info psk psk_id sk_s =
      let drawn = random b C (private_key_len s.hpke.kem_id) s in
      setup_rest-prng s drawn.1.hpke.prng drawn.1.entropy pk_r info psk psk_id sk_s drawn.0

  -- A set-up of a sender is its draw of randomness and then the rest; and over a provider whose
  -- generators can be made, when it succeeds on its own, it succeeds also with other threads'
  -- calls and draws between the draw and the rest, with the same encapsulated key and a context
  -- that agrees.
  pub setup_rest-Calls :
      IsSeeded C
      → (s u : Session C) (pk_r : HpkePublicKey) (info : Bytes) (psk psk_id : Option Bytes)
        (sk_s : Option HpkePrivateKey) (randomness enc : Bytes) (ctx : Context C)
      → (random b C (private_key_len s.hpke.kem_id) s).0 ≡ ok randomness
      → Calls b C (random b C (private_key_len s.hpke.kem_id) s).1 u
      → (setup_sender b C pk_r info psk psk_id sk_s s).0 ≡ ok (enc, ctx)
      → ((random b C (private_key_len s.hpke.kem_id) >>= setup_rest pk_r info psk psk_id sk_s) s
          ≡ setup_sender b C pk_r info psk psk_id sk_s s)
        × (ctx' : Context C) × ((setup_rest pk_r info psk psk_id sk_s randomness u).0
            ≡ ok (enc, ctx'))
        × Agrees ctx ctx'
  setup_rest-Calls S s u pk_r info psk psk_id sk_s randomness enc ctx drawn others h =
      let steps = setup_sender-SenderSteps b C s pk_r info psk psk_id sk_s enc ctx h in
      let same : steps.randomness ≡ randomness = ok-injective (sym steps.drawn ∙ drawn) in
      let kept = SameConfig_trans (random-Keeps b C s _).config (Calls-Keeps b C others).config in
      let (ctx', rest, agrees) =
        setup_rest-Agrees S s u pk_r info psk psk_id sk_s enc ctx kept steps in
      (setup_rest-setup_sender s pk_r info psk psk_id sk_s, ctx', rw (← same) rest, agrees)
