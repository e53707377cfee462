-- ===== src/Hpke/Channel/Exports.antt =====
-- The secrets that the two sides export (`export`, src/lib.rs).
use hpke_rs.Prelude.{ℕ, ◌^◌, ◌<◌, ◌≡◌, ◌∙◌, sym, ap, arith}
use hpke_rs.Prelude.Bytes.{Bytes}
use hpke_rs.Build.{Build}
use hpke_rs.Traits.Crypto.{HpkeCrypto}
use hpke_rs.Hpke.Config.{Hpke, ciphersuite}
use hpke_rs.Hpke.Context.{Context, export}
use hpke_rs.Hpke.Schedule.Agreement.{SameConfig, SameConfig-eq, Agrees}
use hpke_rs.Hpke.Lifetime.{Reach, AtCounter, Reach-AtCounter}

module _ (b : Build) (C : HpkeCrypto) where
  export-AtCounter :
      (s t : Context C) (exporter_context : Bytes) (len : ℕ)
      → AtCounter b C s t
      → export b C t exporter_context len ≡ export b C s exporter_context len
  unfolding export ciphersuite
  export-AtCounter s t exporter_context len (n, small, moved) =
      ap (λ (x : Context C). export b C x exporter_context len) moved

  ciphersuite-SameConfig : (g h : Hpke C) → SameConfig g h → ciphersuite b C g ≡ ciphersuite b C h
  unfolding ciphersuite
  ciphersuite-SameConfig g h same = rw (SameConfig-eq g h same)

  -- Contexts that agree export the same secrets.
  pub export-Agrees :
      (s t : Context C) (exporter_context : Bytes) (len : ℕ)
      → Agrees s t
      → export b C s exporter_context len ≡ export b C t exporter_context len
  unfolding export
  export-Agrees s t exporter_context len same =
      ground (arith, ciphersuite-SameConfig s.hpke t.hpke same.config)

  -- Two contexts that agree, with a counter below 2 ^ 32, export the same secret for the same
  -- exporter context and length, or the same error or panic, after whatever calls of `seal` and
  -- `open` on either of them, those that fail or panic included.
  pub export-Reach :
      {s s' t t' : Context C} (exporter_context : Bytes) (len : ℕ)
      → s.sequence_number < 2 ^ 32
      → Agrees s t
      → Reach b C s s'
      → Reach b C t t'
      → export b C s' exporter_context len ≡ export b C t' exporter_context len
  export-Reach {s} {s'} {t} {t'} exporter_context len small same sent received =
      export-AtCounter s s' exporter_context len (Reach-AtCounter b C small sent)
      ∙ export-Agrees s t exporter_context len same
      ∙ sym (
          export-AtCounter t t' exporter_context len
            (Reach-AtCounter b C (omega (arith, same.sequence_number)) received))
