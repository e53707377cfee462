-- ===== src/Hpke/Channel/Progress.antt =====
-- Conversations below the limit of the counter (`seal`, src/lib.rs).
use hpke_rs.Prelude.{
  ◌+◌, ◌%◌, ◌^◌, ◌<◌, ◌≡◌, ◌≢◌, refl, ap, List, [], ◌∷◌, ok, length, All, arith, suc,
}
use hpke_rs.Prelude.Bytes.{Bytes}
use hpke_rs.Build.{Build}
use hpke_rs.Traits.Types.{AeadAlgorithm, hpke_export}
use hpke_rs.Traits.Crypto.{HpkeCrypto, IsTotalAead}
use hpke_rs.Hpke.Context.{Context, increment_seq, seal}
use hpke_rs.Hpke.Lifetime.{IsSound, AtCounter-IsSound, compute_nonce-IsBytes, nonce_length_12}
use hpke_rs.Hpke.Channel.{seal_all, seal-next, seal_all-cons}

module _ (b : Build) (C : HpkeCrypto) (Takes : AeadAlgorithm → Bytes → Bytes → Type 0)
    (T : IsTotalAead C Takes) where
  seal-progress :
      (s : Context C) (aad msg : Bytes)
      → IsSound C s
      → s.hpke.aead_id ≢ hpke_export
      → Takes s.hpke.aead_id aad msg
      → s.sequence_number + 1 < 2 ^ 32
      → (ct : Bytes) × ((seal b C aad msg s).0 ≡ ok ct)
  unfolding seal increment_seq
  seal-progress s aad msg sound sealing short more =
      let (nonce, found, width, bytes) = compute_nonce-IsBytes b C s sound sealing in
      let twelve = nonce_length_12 s.hpke.aead_id sealing in
      let (ct, done) =
        T.seal_total s.hpke.aead_id s.key nonce aad msg sealing sound.key_length (omega arith)
          short in
      (ct, ground arith)

  -- Over a provider whose AEAD seals every message and associated data that the algorithm takes,
  -- for any account of what it takes, under a key and a nonce of the right lengths, a context
  -- that has its keys in the right lengths and is not of the export-only algorithm seals every
  -- conversation of messages that its algorithm takes with no error, one ciphertext for each, as
  -- long as its counter stays below 2 ^ 32.
  pub seal_all-progress :
      (msgs : List (Bytes × Bytes)) (s : Context C)
      → IsSound C s
      → s.hpke.aead_id ≢ hpke_export
      → All (λ m. Takes s.hpke.aead_id m.0 m.1) msgs
      → s.sequence_number + length msgs < 2 ^ 32
      → (cts : List (Bytes × Bytes)) × ((seal_all b C msgs s).0 ≡ ok cts)
        × (length cts ≡ length msgs)
  unfolding seal_all
  seal_all-progress [] s sound sealing short more = ([], refl, refl)
  seal_all-progress ((aad, msg) ∷ msgs) s sound sealing short more =
      let (ct, first) = seal-progress s aad msg sound sealing short.0 (omega arith) in
      let moved = seal-next b C s aad msg ct first in
      let n = (s.sequence_number + 1) % 2 ^ 32 in
      let next = record s { sequence_number = n } in
      let sound' = AtCounter-IsSound b C s next (n, omega arith, refl) sound in
      let (cts, rest, same) = seal_all-progress msgs next sound' sealing short.1 (omega arith) in
      let others : (seal_all b C msgs (seal b C aad msg s).1).0 ≡ ok cts = rw moved rest in
      ((aad, ct) ∷ cts, seal_all-cons b C aad msg ct msgs cts s first others, ap suc same)
