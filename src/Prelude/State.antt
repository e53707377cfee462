-- ===== src/Prelude/State.antt =====
-- Methods on `&mut self`, or on a lock: a state is passed along, and kept where the call fails.
use mathlib.Core.Path.{◌≡◌, refl}
use mathlib.Core.Logic.{◌≢◌}
use hpke_rs.Prelude.Results.{Outcome, ok, err, panic}

abbrev pub Stateful {ℓ κ μ} : Type ℓ → Type κ → Type μ → Type (ℓ ⊔ κ ⊔ μ)
Stateful S E A = S → Outcome E A × S

-- What follows a step that has ended: nothing, if it failed.
abbrev pub continue {ℓ κ μ ν} :
    {S : Type ℓ} {E : Type κ} {A : Type μ} {B : Type ν}
    → Outcome E A × S
    → (A → Stateful S E B)
    → Outcome E B × S
continue (ok a, s) f = f a s
continue (err e, s) f = (err e, s)
continue (panic, s) f = (panic, s)

infixl 5 ◌>>=◌ ◌>>◌
abbrev pub ◌>>=◌ {ℓ κ μ ν} :
    {S : Type ℓ} {E : Type κ} {A : Type μ} {B : Type ν}
    → Stateful S E A
    → (A → Stateful S E B)
    → Stateful S E B
◌>>=◌ m f s = continue (m s) f

abbrev pub ◌>>◌ {ℓ κ μ} :
    {S : Type ℓ} {E : Type κ} {B : Type μ}
    → Stateful S E (Unit {0})
    → Stateful S E B
    → Stateful S E B
m >> k = m >>= λ _. k

abbrev pub pure {ℓ κ μ} : {S : Type ℓ} {E : Type κ} {A : Type μ} → A → Stateful S E A
pure a s = (ok a, s)

abbrev pub get {ℓ κ} : {S : Type ℓ} {E : Type κ} → Stateful S E S
get s = (ok s, s)

abbrev pub put {ℓ κ} : {S : Type ℓ} {E : Type κ} → S → Stateful S E (Unit {0})
put s' s = (ok tt, s')

-- A step that does not touch the state.
abbrev pub lift {ℓ κ μ} : {S : Type ℓ} {E : Type κ} {A : Type μ} → Outcome E A → Stateful S E A
lift r s = (r, s)

-- A chain does not panic if its first step does not, nor the rest after a first step that succeeds.
pub continue-returns {ℓ κ μ ν} :
    {S : Type ℓ} {E : Type κ} {A : Type μ} {B : Type ν} (r : Outcome E A × S)
    (f : A → Stateful S E B)
    → r.0 ≢ panic
    → ((a : A) → r.0 ≡ ok a → (f a r.1).0 ≢ panic)
    → (continue r f).0 ≢ panic
continue-returns (ok a, s) f h k = k a refl
continue-returns (err e, s) f h k = λ p. cc
continue-returns (panic, s) f h k = λ p. h refl
