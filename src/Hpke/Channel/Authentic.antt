-- ===== src/Hpke/Channel/Authentic.antt =====
-- What a receiver accepts (`open`, src/lib.rs), and what the sender's context seals.
use hpke_rs.Prelude.{◌≡◌, ◌↔◌, refl, List, [], ◌∷◌, ok, All, arith, unwrap_or}
use hpke_rs.Prelude.Bytes.{Bytes}
use hpke_rs.Build.{Build}
use hpke_rs.Traits.Crypto.{HpkeCrypto, IsAead, IsExactAead}
use hpke_rs.Hpke.Context.{Context, compute_nonce, increment_seq, seal, open_message}
use hpke_rs.Hpke.Schedule.Agreement.{Agrees}
use hpke_rs.Hpke.Channel.{seal_all, open_all, open_all-seal_all, seal_all-cons, IsNonempty}

module _ (b : Build) (C : HpkeCrypto) where
  -- The sender's step for the receiver's.
  seal-open :
      IsExactAead C
      → (s t : Context C) (aad msg ct : Bytes) → Agrees s t
      → (open_message b C aad ct t).0 ≡ ok msg
      → ((seal b C aad msg s).0 ≡ ok ct)
        × Agrees (seal b C aad msg s).1 (open_message b C aad ct t).1
  unfolding seal open_message increment_seq compute_nonce
  seal-open X s t aad msg ct same h =
      let nonce = unwrap_or (compute_nonce b C s) [] in
      ground (arith, X.seal_open s.hpke.aead_id s.key nonce aad ct msg)

  -- The first ciphertext and the rest of a conversation that was opened.
  record OpensCons (aad ct : Bytes) (cts msgs : List (Bytes × Bytes)) (t : Context C) : Type 0 where
    msg : Bytes
    rest : List (Bytes × Bytes)
    first : (open_message b C aad ct t).0 ≡ ok msg
    others : (open_all b C cts (open_message b C aad ct t).1).0 ≡ ok rest
    joined : msgs ≡ (aad, msg) ∷ rest

  open_all-OpensCons :
      (aad ct : Bytes) (cts msgs : List (Bytes × Bytes)) (t : Context C)
      → (open_all b C ((aad, ct) ∷ cts) t).0 ≡ ok msgs
      → OpensCons aad ct cts msgs t
  unfolding open_all
  open_all-OpensCons aad ct cts msgs t h = record {
    msg = unwrap_or (open_message b C aad ct t).0 [];
    rest = unwrap_or (open_all b C cts (open_message b C aad ct t).1).0 [];
    first = ground arith;
    others = ground arith;
    joined = ground arith;
  }

  open_all-nil :
      (msgs : List (Bytes × Bytes)) (t : Context C) → (open_all b C [] t).0 ≡ ok msgs → [] ≡ msgs
  unfolding open_all
  open_all-nil msgs t h = ground arith

  seal_all-open_all :
      IsExactAead C
      → (cts msgs : List (Bytes × Bytes)) (s t : Context C) → Agrees s t
      → (open_all b C cts t).0 ≡ ok msgs
      → (seal_all b C msgs s).0 ≡ ok cts
  seal_all-open_all X [] msgs s t same h =
      let none_read : [] ≡ msgs = open_all-nil msgs t h in
      rw (← none_read) (unfold seal_all in refl)
  seal_all-open_all X ((aad, ct) ∷ cts) msgs s t same h =
      let read = open_all-OpensCons aad ct cts msgs t h in
      let (sealed, same') = seal-open X s t aad read.msg ct same read.first in
      let rest =
        seal_all-open_all X cts read.rest (seal b C aad read.msg s).1 (open_message b C aad ct t).1
          same' read.others in
      rw read.joined (seal_all-cons b C aad read.msg ct read.rest cts s sealed rest)

  -- Over a provider whose AEAD opens what it sealed and nothing else, a receiver whose context
  -- agrees with the sender's opens a sequence of ciphertexts to given messages, none of them
  -- empty, exactly when the sender seals those messages to those ciphertexts.
  pub open_all_iff :
      IsAead C
      → IsExactAead C
      → (msgs cts : List (Bytes × Bytes)) (s t : Context C) → Agrees s t
      → All (IsNonempty b C) msgs
      → ((open_all b C cts t).0 ≡ ok msgs) ↔ ((seal_all b C msgs s).0 ≡ ok cts)
  open_all_iff A X msgs cts s t same full = (
    seal_all-open_all X cts msgs s t same,
    λ sent. (open_all-seal_all b C A msgs cts s t same full sent).0,
  )
