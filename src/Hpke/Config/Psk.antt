-- ===== src/Hpke/Config/Psk.antt =====
-- Which PSK inputs each mode accepts (`verify_psk_inputs`, src/lib.rs).
use hpke_rs.Prelude.{
  ℕ, ◌≤◌, ◌<◌, ◌≡◌, ◌≢◌, ◌⊎◌, inl, inr, [], ◌∷◌, Outcome, ok, err, length, arith, refl, Bool-cases,
  ltb, ltb→lt, if◌then◌else◌,
}
use hpke_rs.Prelude.Bytes.{Bytes}
use hpke_rs.Hpke.Errors.{HpkeError, inconsistent_psk, unnecessary_psk, missing_psk, insecure_psk}
use hpke_rs.Hpke.Mode.{Mode}
use hpke_rs.Hpke.Config.{verify_psk_inputs}

-- RFC 9180, table 1: the modes with a PSK.
abbrev pub NeedsPsk : Mode → Type 0
NeedsPsk Mode.base = ⊥
NeedsPsk Mode.psk = Unit
NeedsPsk Mode.auth = ⊥
NeedsPsk Mode.auth_psk = Unit

-- The five answers, each with the inputs that it is given for.
pub data PskVerdict (mode : Mode) (key id : Bytes) : Outcome HpkeError (Unit {0}) → Type 0 where
  unused : ¬ NeedsPsk mode → key ≡ [] → id ≡ [] → PskVerdict mode key id (ok tt)
  used : NeedsPsk mode → id ≢ [] → 32 ≤ length key → PskVerdict mode key id (ok tt)
  half_given :
      ((key ≡ []) × (id ≢ [])) ⊎ ((key ≢ []) × (id ≡ []))
      → PskVerdict mode key id (err inconsistent_psk)
  not_needed : ¬ NeedsPsk mode → key ≢ [] → id ≢ [] → PskVerdict mode key id (err unnecessary_psk)
  missing : NeedsPsk mode → key ≡ [] → id ≡ [] → PskVerdict mode key id (err missing_psk)
  too_short :
      NeedsPsk mode
      → key ≢ []
      → id ≢ []
      → length key < 32
      → PskVerdict mode key id (err insecure_psk)

cons≢nil : (x : ℕ) (xs : Bytes) → x ∷ xs ≢ []
cons≢nil x xs e = cc

long_enough :
    (mode : Mode) (x y : ℕ) (xs ys : Bytes)
    → NeedsPsk mode
    → PskVerdict mode
        (x ∷ xs)
        (y ∷ ys)
        (if ltb (length (x ∷ xs)) 32 then err insecure_psk else ok tt)
long_enough mode x y xs ys needs = elim (Bool-cases (ltb (length (x ∷ xs)) 32)) [
  | inl short ↦ rw short (too_short needs (cons≢nil x xs) (cons≢nil y ys) (ltb→lt _ _ short))
  | inr long ↦ rw long (used needs (cons≢nil y ys) (ground arith))
]

-- In each mode and for each PSK and identifier, the verdict is the right one: accepted, when
-- neither is given and the mode takes none, or when both are given, the mode takes a PSK and it
-- has at least 32 bytes; InconsistentPsk, when exactly one is given; UnnecessaryPsk, when both
-- are given and the mode takes none; MissingPsk, when neither is given and the mode takes one;
-- InsecurePsk, when both are given, the mode takes a PSK and it is shorter than 32 bytes.
pub verify_psk_inputs-PskVerdict :
    (mode : Mode) (key id : Bytes) → PskVerdict mode key id (verify_psk_inputs mode key id)
unfolding verify_psk_inputs
verify_psk_inputs-PskVerdict Mode.base [] [] = unused (λ h. h) refl refl
verify_psk_inputs-PskVerdict Mode.psk [] [] = missing tt refl refl
verify_psk_inputs-PskVerdict Mode.auth [] [] = unused (λ h. h) refl refl
verify_psk_inputs-PskVerdict Mode.auth_psk [] [] = missing tt refl refl
verify_psk_inputs-PskVerdict mode [] (y ∷ ys) = half_given (inl (refl, cons≢nil y ys))
verify_psk_inputs-PskVerdict mode (x ∷ xs) [] = half_given (inr (cons≢nil x xs, refl))
verify_psk_inputs-PskVerdict Mode.base (x ∷ xs) (y ∷ ys) =
    not_needed (λ h. h) (cons≢nil x xs) (cons≢nil y ys)
verify_psk_inputs-PskVerdict Mode.psk (x ∷ xs) (y ∷ ys) = long_enough Mode.psk x y xs ys tt
verify_psk_inputs-PskVerdict Mode.auth (x ∷ xs) (y ∷ ys) =
    not_needed (λ h. h) (cons≢nil x xs) (cons≢nil y ys)
verify_psk_inputs-PskVerdict Mode.auth_psk (x ∷ xs) (y ∷ ys) =
    long_enough Mode.auth_psk x y xs ys tt
