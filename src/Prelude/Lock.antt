-- ===== src/Prelude/Lock.antt =====
-- `std::sync::RwLock`: a panic while the lock is held for writing poisons it for good.
use mathlib.Core.Bool.{Bool, true, false}
use hpke_rs.Prelude.Results.{Outcome, ok, err, panic}

pub record RwLock {ℓ} (P : Type ℓ) : Type ℓ where
  pub value : P
  pub poisoned : Bool

abbrev pub is_panic {ℓ κ} : {E : Type ℓ} {A : Type κ} → Outcome E A → Bool
is_panic (ok a) = false
is_panic (err e) = false
is_panic panic = true
