-- ===== src/Hpke/Schedule/Agreement.antt =====
-- The key schedule (src/lib.rs) on configurations that differ in their generators.
use hpke_rs.Prelude.{false, ◌≡◌, refl, sym, ◌∙◌, ok, arith}
use hpke_rs.Prelude.Bytes.{Bytes}
use hpke_rs.Prelude.Lock.{RwLock}
use hpke_rs.Build.{Build}
use hpke_rs.Traits.Crypto.{HpkeCrypto, IsSeeded}
use hpke_rs.Hpke.Config.{Hpke, clone, ciphersuite, key_schedule_context}
use hpke_rs.Hpke.Context.{Context}
use hpke_rs.Hpke.Schedule.{key_schedule}

-- The four algorithm choices of two configurations are the same.
pub record SameConfig {C : HpkeCrypto} (g h : Hpke C) : Type 0 where
  pub mode : g.mode ≡ h.mode
  pub kem_id : g.kem_id ≡ h.kem_id
  pub kdf_id : g.kdf_id ≡ h.kdf_id
  pub aead_id : g.aead_id ≡ h.aead_id

-- Two contexts use the same keys for the same algorithms, and stand at the same message.
pub record Agrees {C : HpkeCrypto} (s t : Context C) : Type 0 where
  pub key : s.key ≡ t.key
  pub nonce : s.nonce ≡ t.nonce
  pub exporter_secret : s.exporter_secret ≡ t.exporter_secret
  pub sequence_number : s.sequence_number ≡ t.sequence_number
  pub config : SameConfig s.hpke t.hpke

pub SameConfig-eq :
    {C : HpkeCrypto} (g h : Hpke C) → SameConfig g h → h ≡ record g { prng = h.prng }
SameConfig-eq g h same = λ i. record {
  mode = sym same.mode i;
  kem_id = sym same.kem_id i;
  kdf_id = sym same.kdf_id i;
  aead_id = sym same.aead_id i;
  prng = h.prng;
}

pub SameConfig_symm : {C : HpkeCrypto} {g h : Hpke C} → SameConfig g h → SameConfig h g
SameConfig_symm p = record {
  mode = sym p.mode;
  kem_id = sym p.kem_id;
  kdf_id = sym p.kdf_id;
  aead_id = sym p.aead_id;
}

pub SameConfig_trans :
    {C : HpkeCrypto} {f g h : Hpke C} → SameConfig f g → SameConfig g h → SameConfig f h
SameConfig_trans p q = record {
  mode = p.mode ∙ q.mode;
  kem_id = p.kem_id ∙ q.kem_id;
  kdf_id = p.kdf_id ∙ q.kdf_id;
  aead_id = p.aead_id ∙ q.aead_id;
}

module _ (b : Build) (C : HpkeCrypto) where
  pub clone-SameConfig :
      (self copy : Hpke C) (e : C.Entropy) → (clone b C self e).0 ≡ ok copy → SameConfig self copy
  unfolding clone
  clone-SameConfig self copy e h = ground arith

  pub clone-IsSeeded :
      IsSeeded C
      → (self : Hpke C) (e : C.Entropy)
      → (copy : Hpke C) × ((clone b C self e).0 ≡ ok copy) × SameConfig self copy
  unfolding clone
  clone-IsSeeded S self e =
      let (prng, made) = S.prng_some e in
      (
        record self { prng = record { value = prng; poisoned = false } },
        ground arith,
        record { mode = refl; kem_id = refl; kdf_id = refl; aead_id = refl },
      )

  -- A run on the same configuration under another lock.
  key_schedule-prng :
      (self copy : Hpke C) (lock : RwLock C.HpkePrng) (zz info psk psk_id : Bytes)
      (e e' : C.Entropy) (ctx : Context C)
      → (clone b C (record self { prng = lock }) e').0 ≡ ok copy
      → (key_schedule b C self zz info psk psk_id e).0 ≡ ok ctx
      → (key_schedule b C (record self { prng = lock }) zz info psk psk_id e').0
        ≡ ok (record ctx { hpke = copy })
  unfolding key_schedule ciphersuite key_schedule_context
  key_schedule-prng self copy lock zz info psk psk_id e e' ctx copied h = ground (arith, copied)

  -- The context keeps the configuration, and starts at the first message.
  pub key_schedule-SameConfig :
      (self : Hpke C) (zz info psk psk_id : Bytes) (e : C.Entropy) (ctx : Context C)
      → (key_schedule b C self zz info psk psk_id e).0 ≡ ok ctx
      → SameConfig self ctx.hpke × (ctx.sequence_number ≡ 0)
  unfolding key_schedule clone
  key_schedule-SameConfig self zz info psk psk_id e ctx h = ground arith

  pub key_schedule-Agrees :
      IsSeeded C
      → (self other : Hpke C) (zz info psk psk_id : Bytes) (e e' : C.Entropy) (ctx : Context C)
      → SameConfig self other
      → (key_schedule b C self zz info psk psk_id e).0 ≡ ok ctx
      → (ctx' : Context C) × ((key_schedule b C other zz info psk psk_id e').0 ≡ ok ctx')
        × Agrees ctx ctx'
  key_schedule-Agrees S self other zz info psk psk_id e e' ctx same h =
      let (copy, copied, like) = clone-IsSeeded S (record self { prng = other.prng }) e' in
      let kept = (key_schedule-SameConfig self zz info psk psk_id e ctx h).0 in
      (
        record ctx { hpke = copy },
        rw (SameConfig-eq self other same)
            (key_schedule-prng self copy other.prng zz info psk psk_id e e' ctx copied h),
        record {
          key = refl;
          nonce = refl;
          exporter_secret = refl;
          sequence_number = refl;
          config = SameConfig_trans (SameConfig_symm kept) (record {
            mode = like.mode;
            kem_id = like.kem_id;
            kdf_id = like.kdf_id;
            aead_id = like.aead_id;
          });
        },
      )
