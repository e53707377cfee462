-- ===== src/DhKem/Rejection.antt =====
-- The rejection loop of `derive_key_pair` (src/dh_kem.rs) against a description with no loop.
use hpke_rs.Prelude.{
  ◌∙◌, ℕ, zero, suc, ◌+◌, ◌≤◌, ◌<◌, ◌≡◌, refl, ◌⊎◌, inl, inr, Bool-cases, ◌==◌, ==_iff, Option,
  some, Outcome, ok, err, panic, arith, if◌then◌else◌,
}
use hpke_rs.Prelude.Bytes.{Bytes}
use hpke_rs.Build.{Build}
use hpke_rs.Traits.Error.{Error}
use hpke_rs.Traits.Types.{dh_kem_p256}
use hpke_rs.Traits.Crypto.{HpkeCrypto}
use hpke_rs.DhKem.{sample, rejection_sample, attempt, derive_sk}

abbrev pub no_key_error : Error
no_key_error = Error.crypto_library_error "Unable to generate a valid P256 private key"

abbrev pub IsErr : Outcome Error Bytes → Type 0
IsErr (ok a) = ⊥
IsErr (err e) = Unit
IsErr panic = ⊥

module _ (attempt_at : ℕ → Outcome Error Bytes) where
  -- Every counter from `lo` to below `hi` yields an error.
  abbrev pub Rejects : ℕ → ℕ → Type 0
  Rejects lo hi = (c : ℕ) → lo ≤ c → c < hi → IsErr (attempt_at c)

  -- The first counter from `lo` that is not rejected gives the key.
  pub record IsAccepted (lo : ℕ) (r : Outcome Error Bytes) : Type 0 where
    pub ctr : ℕ
    pub sk : Bytes
    pub from : lo ≤ ctr
    pub below : ctr < 256
    pub found : attempt_at ctr ≡ ok sk
    pub earlier : Rejects lo ctr
    pub result : r ≡ ok sk

  pub record IsExhausted (lo : ℕ) (r : Outcome Error Bytes) : Type 0 where
    pub all : Rejects lo 256
    pub result : r ≡ err no_key_error

  pub record IsPanicked (lo : ℕ) (r : Outcome Error Bytes) : Type 0 where
    pub ctr : ℕ
    pub from : lo ≤ ctr
    pub below : ctr < 256
    pub found : attempt_at ctr ≡ panic
    pub earlier : Rejects lo ctr
    pub result : r ≡ panic

  abbrev pub IsFirst : ℕ → Outcome Error Bytes → Type 0
  IsFirst lo r = IsAccepted lo r ⊎ IsExhausted lo r ⊎ IsPanicked lo r

  Rejects-suc : (lo hi : ℕ) → IsErr (attempt_at lo) → Rejects (lo + 1) hi → Rejects lo hi
  Rejects-suc lo hi h rest c p q = elim (Bool-cases (lo == c)) [
    | inl same ↦ rw ((==_iff lo c).0 same) at h
    | inr other ↦ rest c (ground arith) q
  ]

  IsAccepted-now :
      (ctr : ℕ) (sk : Bytes) → ctr < 256 → attempt_at ctr ≡ ok sk → IsAccepted ctr (ok sk)
  IsAccepted-now ctr sk h e = record {
    ctr = ctr;
    sk = sk;
    from = omega arith;
    below = h;
    found = e;
    earlier = λ c p q. absurd (omega arith);
    result = refl;
  }

  IsPanicked-now : (ctr : ℕ) → ctr < 256 → attempt_at ctr ≡ panic → IsPanicked ctr panic
  IsPanicked-now ctr h e = record {
    ctr = ctr;
    from = omega arith;
    below = h;
    found = e;
    earlier = λ c p q. absurd (omega arith);
    result = refl;
  }

  -- A rejected counter in front changes nothing.
  IsFirst-suc :
      (lo : ℕ) (r : Outcome Error Bytes) → IsErr (attempt_at lo) → IsFirst (lo + 1) r → IsFirst lo r
  IsFirst-suc lo r h (inl a) = inl (record {
    ctr = a.ctr;
    sk = a.sk;
    from = omega (arith, a.from);
    below = a.below;
    found = a.found;
    earlier = Rejects-suc lo a.ctr h a.earlier;
    result = a.result;
  })
  IsFirst-suc lo r h (inr (inl e)) =
      inr (inl (record { all = Rejects-suc lo 256 h e.all; result = e.result }))
  IsFirst-suc lo r h (inr (inr p)) = inr (
      inr (record {
        ctr = p.ctr;
        from = omega (arith, p.from);
        below = p.below;
        found = p.found;
        earlier = Rejects-suc lo p.ctr h p.earlier;
        result = p.result;
      }))

  sample-ok :
      (fuel ctr : ℕ) (sk : Bytes)
      → attempt_at ctr ≡ ok sk
      → sample attempt_at (suc fuel) ctr ≡ some (ok sk)
  unfolding sample
  sample-ok fuel ctr sk h = rw (h, sample)

  sample-panic :
      (fuel ctr : ℕ) → attempt_at ctr ≡ panic → sample attempt_at (suc fuel) ctr ≡ some panic
  unfolding sample
  sample-panic fuel ctr h = rw (h, sample)

  sample-err :
      (fuel ctr : ℕ) (e : Error)
      → attempt_at ctr ≡ err e
      → sample attempt_at (suc fuel) ctr
        ≡ (if ctr == 255 then some (err no_key_error) else sample attempt_at fuel (ctr + 1))
  unfolding sample
  sample-err fuel ctr e h = rw (h, sample)

  Ends : Option (Outcome Error Bytes) → ℕ → Type 0
  Ends o ctr = (r : Outcome Error Bytes) × (o ≡ some r) × IsFirst ctr r

  -- The last counter: the loop ends on a rejection too.
  Ends-last :
      (fuel ctr : ℕ) (o : Outcome Error Bytes)
      → attempt_at ctr ≡ o
      → ctr ≡ 255
      → Ends (sample attempt_at (suc fuel) ctr) ctr
  unfolding Ends
  Ends-last fuel ctr (ok sk) h e =
      (ok sk, sample-ok fuel ctr sk h, inl (IsAccepted-now ctr sk (omega arith) h))
  Ends-last fuel ctr (err x) h e = (
    err no_key_error,
    sample-err fuel ctr x h ∙ rw ((==_iff ctr 255).1 e),
    inr (
        inl (record {
          all = Rejects-suc ctr 256 (rw h tt) (λ c p q. absurd (omega arith));
          result = refl;
        })),
  )
  Ends-last fuel ctr panic h e = (
    panic,
    sample-panic fuel ctr h,
    inr (
        inr (record {
          ctr = ctr;
          from = omega arith;
          below = omega arith;
          found = h;
          earlier = λ c p q. absurd (omega arith);
          result = refl;
        })),
  )

  Ends-step :
      (fuel ctr : ℕ) (o : Outcome Error Bytes)
      → attempt_at ctr ≡ o
      → ctr < 255
      → Ends (sample attempt_at fuel (ctr + 1)) (ctr + 1)
      → Ends (sample attempt_at (suc fuel) ctr) ctr
  unfolding Ends
  Ends-step fuel ctr (err x) h e (r, s, f) =
      (r, sample-err fuel ctr x h ∙ ground arith, IsFirst-suc ctr r (rw h tt) f)
  Ends-step fuel ctr (ok sk) h e rest =
      (ok sk, sample-ok fuel ctr sk h, inl (IsAccepted-now ctr sk (omega arith) h))
  Ends-step fuel ctr panic h e rest = (
    panic,
    sample-panic fuel ctr h,
    inr (
        inr (record {
          ctr = ctr;
          from = omega arith;
          below = omega arith;
          found = h;
          earlier = λ c p q. absurd (omega arith);
          result = refl;
        })),
  )

  -- With a unit of fuel for each counter left, the loop ends, as described.
  sample-IsFirst :
      (fuel ctr : ℕ) → fuel + ctr ≡ 256 → ctr < 256 → Ends (sample attempt_at fuel ctr) ctr
  sample-IsFirst zero ctr e h = absurd (omega arith)
  sample-IsFirst (suc fuel) ctr e h = elim (Bool-cases (ctr == 255)) [
    | inl last ↦ Ends-last fuel ctr (attempt_at ctr) refl ((==_iff ctr 255).0 last)
    | inr more ↦
        let left : ctr < 255 = ground arith in
        Ends-step fuel ctr (attempt_at ctr) refl left
          (sample-IsFirst fuel (ctr + 1) (omega arith) (omega arith))
  ]

  pub rejection_sample-IsFirst : IsFirst 0 (rejection_sample attempt_at)
  unfolding rejection_sample Ends
  rejection_sample-IsFirst =
      let ends = sample-IsFirst 256 0 (omega arith) (omega arith) in rw ends.1 ends.2

module _ (b : Build) (C : HpkeCrypto) where
  -- The derivation of a P-256 private key ends within 256 rounds. It gives the candidate of the
  -- first counter whose candidate is derived and validated, if each earlier counter yields an
  -- error; the library error, if each of the 256 counters yields an error; and a panic, if a
  -- counter panics and each earlier one yields an error.
  pub derive_sk-IsFirst :
      (suite_id dkp_prk : Bytes)
      → IsFirst
          (attempt b C dh_kem_p256 suite_id dkp_prk)
          0
          (derive_sk b C dh_kem_p256 suite_id dkp_prk)
  unfolding derive_sk
  derive_sk-IsFirst suite_id dkp_prk =
      rejection_sample-IsFirst (attempt b C dh_kem_p256 suite_id dkp_prk)
