-- ===== src/Prelude/Decode.antt =====
-- Conversions from a number back to an enumeration.
use Prim.Native.Nat.{ℕ}
use mathlib.Core.Path.{◌≡◌, refl}
use mathlib.Core.Logic.{◌≢◌, ◌↔◌, ◌⊎◌, inl, inr}
use hpke_rs.Prelude.Results.{Outcome, ok, err, panic}

-- `decode` gives the value that has the number, or `e` where no value has it.
abbrev pub IsDecoder {ℓ κ} :
    {E : Type ℓ} {A : Type κ} → (A → ℕ) → (ℕ → Outcome E A) → E → Type (ℓ ⊔ κ)
IsDecoder {A} number decode e =
    (x : ℕ)
    → ((a : A) × (number a ≡ x) × (decode x ≡ ok a))
      ⊎ (((a : A) → number a ≢ x) × (decode x ≡ err e))

module _ {ℓ κ} {E : Type ℓ} {A : Type κ} (number : A → ℕ) (decode : ℕ → Outcome E A) (e : E) where
  pub IsDecoder-of_iff :
      ((x : ℕ) (a : A) → (decode x ≡ ok a) ↔ (number a ≡ x))
      → ((x : ℕ) (f : E) → decode x ≡ err f → f ≡ e)
      → ((x : ℕ) → decode x ≢ panic)
      → IsDecoder number decode e
  IsDecoder-of_iff hits misses returns x = go (decode x) refl
    where
      go :
          (r : Outcome E A)
          → decode x ≡ r
          → ((a : A) × (number a ≡ x) × (decode x ≡ ok a))
            ⊎ (((a : A) → number a ≢ x) × (decode x ≡ err e))
      go (ok a) h = inl (a, (hits x a).0 h, h)
      go (err f) h = inr ((λ a p. cc (h, (hits x a).1 p)), cc (h, misses x f h))
      go panic h = absurd (returns x h)
