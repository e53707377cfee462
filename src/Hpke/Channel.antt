-- ===== src/Hpke/Channel.antt =====
-- Conversations between two contexts (`seal` and `open`, src/lib.rs).
pub mod Nonces
pub mod Authentic
pub mod Progress
pub mod Exports
use hpke_rs.Prelude.{
  if◌then◌else◌, ◌≤◌, ◌≢◌, ap, ℕ, ◌+◌, ◌%◌, ◌^◌, ◌<◌, ◌≡◌, refl, ◌⊎◌, List, [], ◌∷◌, Outcome, ok,
  err, panic, length, All, arith, unwrap_or,
}
use hpke_rs.Prelude.Bytes.{Bytes}
use hpke_rs.Prelude.State.{Stateful, ◌>>=◌, pure}
use hpke_rs.Build.{Build}
use hpke_rs.Traits.Types.{hpke_export}
use hpke_rs.Traits.Crypto.{HpkeCrypto, IsAead, aead_nonce_length}
use hpke_rs.Hpke.Errors.{HpkeError}
use hpke_rs.Hpke.Context.Nonce.{nonce_at-injective}
use hpke_rs.Hpke.Context.{Context, compute_nonce, increment_seq, seal, open_message}
use hpke_rs.Hpke.Schedule.Agreement.{Agrees}

abbrev pub IsOk {ℓ κ} : {E : Type ℓ} {A : Type κ} → Outcome E A → Type 0
IsOk (ok a) = Unit
IsOk (err e) = ⊥
IsOk panic = ⊥

module _ (b : Build) (C : HpkeCrypto) where
  -- A call of `seal` or `open` that does not succeed leaves the context as it was.
  pub seal_open_failed :
      (s : Context C) (aad msg : Bytes)
      → (IsOk (seal b C aad msg s).0 ⊎ ((seal b C aad msg s).1 ≡ s))
        × (IsOk (open_message b C aad msg s).0 ⊎ ((open_message b C aad msg s).1 ≡ s))
  unfolding seal open_message increment_seq
  seal_open_failed s aad msg = ground arith

  -- A message that is sealed moves the counter on by one, modulo 2 ^ 32, and changes no more.
  pub seal-next :
      (s : Context C) (aad msg ct : Bytes)
      → (seal b C aad msg s).0 ≡ ok ct
      → (seal b C aad msg s).1 ≡ record s { sequence_number = (s.sequence_number + 1) % 2 ^ 32 }
  unfolding seal increment_seq
  seal-next s aad msg ct h = ground arith

  -- The receiver's step for the sender's.
  pub open-seal :
      IsAead C
      → (s t : Context C) (aad msg ct : Bytes) → Agrees s t
      → 0 < length msg
      → (seal b C aad msg s).0 ≡ ok ct
      → ((open_message b C aad ct t).0 ≡ ok msg)
        × Agrees (seal b C aad msg s).1 (open_message b C aad ct t).1
  unfolding seal open_message increment_seq compute_nonce
  open-seal A s t aad msg ct same pos h =
      let nonce = unwrap_or (compute_nonce b C s) [] in
      ground (arith, A.open_seal s.hpke.aead_id s.key nonce aad msg ct pos)

  -- A conversation: each message with its associated data, in order.
  unfoldable pub seal_all :
      List (Bytes × Bytes) → Stateful (Context C) HpkeError (List (Bytes × Bytes))
  seal_all [] = pure []
  seal_all ((aad, msg) ∷ msgs) = do
    ct ← seal b C aad msg
    cts ← seal_all msgs
    pure ((aad, ct) ∷ cts)

  unfoldable pub open_all :
      List (Bytes × Bytes) → Stateful (Context C) HpkeError (List (Bytes × Bytes))
  open_all [] = pure []
  open_all ((aad, ct) ∷ cts) = do
    msg ← open_message b C aad ct
    msgs ← open_all cts
    pure ((aad, msg) ∷ msgs)

  abbrev pub IsNonempty : Bytes × Bytes → Type 0
  IsNonempty (aad, msg) = 0 < length msg

  -- The first message and the rest of a conversation that was sealed.
  record SealsCons (aad msg : Bytes) (msgs cts : List (Bytes × Bytes)) (s : Context C)
      : Type 0 where
    ct : Bytes
    rest : List (Bytes × Bytes)
    first : (seal b C aad msg s).0 ≡ ok ct
    others : (seal_all msgs (seal b C aad msg s).1).0 ≡ ok rest
    joined : cts ≡ (aad, ct) ∷ rest
    state : (seal_all ((aad, msg) ∷ msgs) s).1 ≡ (seal_all msgs (seal b C aad msg s).1).1

  seal_all-SealsCons :
      (aad msg : Bytes) (msgs cts : List (Bytes × Bytes)) (s : Context C)
      → (seal_all ((aad, msg) ∷ msgs) s).0 ≡ ok cts
      → SealsCons aad msg msgs cts s
  unfolding seal_all
  seal_all-SealsCons aad msg msgs cts s h = record {
    ct = unwrap_or (seal b C aad msg s).0 [];
    rest = unwrap_or (seal_all msgs (seal b C aad msg s).1).0 [];
    first = ground arith;
    others = ground arith;
    joined = ground arith;
    state = ground arith;
  }

  pub seal_all-cons :
      (aad msg ct : Bytes) (msgs cts : List (Bytes × Bytes)) (s : Context C)
      → (seal b C aad msg s).0 ≡ ok ct
      → (seal_all msgs (seal b C aad msg s).1).0 ≡ ok cts
      → (seal_all ((aad, msg) ∷ msgs) s).0 ≡ ok ((aad, ct) ∷ cts)
  unfolding seal_all
  seal_all-cons aad msg ct msgs cts s h k = ground arith

  open_all-cons :
      (aad ct msg : Bytes) (cts msgs : List (Bytes × Bytes)) (t : Context C)
      → (open_message b C aad ct t).0 ≡ ok msg
      → (open_all cts (open_message b C aad ct t).1).0 ≡ ok msgs
      → ((open_all ((aad, ct) ∷ cts) t).0 ≡ ok ((aad, msg) ∷ msgs))
        × ((open_all ((aad, ct) ∷ cts) t).1 ≡ (open_all cts (open_message b C aad ct t).1).1)
  unfolding open_all
  open_all-cons aad ct msg cts msgs t h k = ground arith

  seal_all-nil :
      (cts : List (Bytes × Bytes)) (s : Context C) → (seal_all [] s).0 ≡ ok cts → [] ≡ cts
  unfolding seal_all
  seal_all-nil cts s h = ground arith

  -- Over a provider whose AEAD opens what it sealed, a context that agrees with the sender's
  -- opens every message of a conversation, in order, that the sender sealed with no error, and
  -- agrees with the sender's context at the end, if no message is empty.
  pub open_all-seal_all :
      IsAead C
      → (msgs cts : List (Bytes × Bytes)) (s t : Context C) → Agrees s t
      → All IsNonempty msgs
      → (seal_all msgs s).0 ≡ ok cts
      → ((open_all cts t).0 ≡ ok msgs) × Agrees (seal_all msgs s).1 (open_all cts t).1
  open_all-seal_all A [] cts s t same full h =
      let none_sent : [] ≡ cts = seal_all-nil cts s h in
      rw (← none_sent) (unfold seal_all open_all in (refl, same))
  open_all-seal_all A ((aad, msg) ∷ msgs) cts s t same full h =
      let sent = seal_all-SealsCons aad msg msgs cts s h in
      let (opened, same') = open-seal A s t aad msg sent.ct same full.0 sent.first in
      let (read, end) =
        open_all-seal_all A msgs sent.rest (seal b C aad msg s).1 (open_message b C aad sent.ct t).1
          same' full.1 sent.others in
      let (whole, last) = open_all-cons aad sent.ct msg sent.rest msgs t opened read in
      rw (sent.joined, sent.state, last) (whole, end)

  seal_all-sequence :
      (msgs cts : List (Bytes × Bytes)) (s : Context C)
      → s.sequence_number < 2 ^ 32
      → (seal_all msgs s).0 ≡ ok cts
      → (seal_all msgs s).1
        ≡ record s { sequence_number = (s.sequence_number + length msgs) % 2 ^ 32 }
  seal_all-sequence [] cts s small h = unfold seal_all in ground arith
  seal_all-sequence ((aad, msg) ∷ msgs) cts s small h =
      let sent = seal_all-SealsCons aad msg msgs cts s h in
      let moved = seal-next s aad msg sent.ct sent.first in
      let next = record s { sequence_number = (s.sequence_number + 1) % 2 ^ 32 } in
      let others : (seal_all msgs next).0 ≡ ok sent.rest = rw moved at sent.others in
      let ih = seal_all-sequence msgs sent.rest next (omega arith) others in
      rw (sent.state, moved, ih) (ap (λ (n : ℕ). record s { sequence_number = n }) (omega arith))

  -- After a context with a base nonce of at least four bytes and a counter below 2 ^ 32 has
  -- sealed at least one message and fewer than 2 ^ 32, its next nonce is not the one that it had
  -- before them.
  pub seal_all-compute_nonce :
      (msgs cts : List (Bytes × Bytes)) (s : Context C)
      → 4 ≤ length s.nonce
      → s.sequence_number < 2 ^ 32
      → 0 < length msgs
      → length msgs < 2 ^ 32
      → (seal_all msgs s).0 ≡ ok cts
      → compute_nonce b C (seal_all msgs s).1 ≢ compute_nonce b C s
  unfolding compute_nonce
  seal_all-compute_nonce msgs cts s room small some_sent few h same =
      let end = (s.sequence_number + length msgs) % 2 ^ 32 in
      let again : end ≡ s.sequence_number =
        nonce_at-injective s.nonce end s.sequence_number room (omega arith) small
          (rw (seal_all-sequence msgs cts s small h) at same) in
      absurd (omega arith)

  -- For an algorithm other than export-only, when the nonce is computed and the provider seals
  -- the message under the counter 2 ^ 32 - 1, a build with overflow checks panics and leaves the
  -- context as it was, and one without returns the ciphertext and sets the counter to 0.
  pub seal_last :
      (s : Context C) (aad msg nonce ct : Bytes)
      → s.hpke.aead_id ≢ hpke_export
      → s.sequence_number + 1 ≡ 2 ^ 32
      → compute_nonce b C s ≡ ok nonce
      → C.aead_seal s.hpke.aead_id s.key nonce aad msg ≡ ok ct
      → seal b C aad msg s
        ≡ (if b.overflow_checks then (panic, s) else (ok ct, record s { sequence_number = 0 }))
  unfolding seal increment_seq aead_nonce_length
  seal_last s aad msg nonce ct sealing last found sealed = ground arith
