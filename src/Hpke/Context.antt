-- ===== src/Hpke/Context.antt =====
-- src/lib.rs: the encryption context, `Context`.
pub mod Nonce
use hpke_rs.Prelude.{
  ℕ, ◌+◌, ◌-◌, ◌*◌, ◌^◌, String, List, [], ◌∷◌, ◌++◌, Outcome, ok, err, panic, map_err, length,
  replicate, ltb, leb, if◌then◌else◌,
}
use hpke_rs.Prelude.Bytes.{Bytes, u32_to_be_bytes}
use hpke_rs.Prelude.State.{Stateful, ◌>>=◌, ◌>>◌, pure, get, put, lift}
use hpke_rs.Build.{Build, incr_u32}
use hpke_rs.Traits.Crypto.{HpkeCrypto, aead_nonce_length}
use hpke_rs.Util.{xor_bytes}
use hpke_rs.Kdf.{labeled_expand}
use hpke_rs.Hpke.Errors.{HpkeError, from_error, crypto_failure, message_limit_reached}
use hpke_rs.Hpke.Config.{Hpke, ciphersuite}

pub record Context (C : HpkeCrypto) : Type 0 where
  pub key : Bytes
  pub nonce : Bytes
  pub exporter_secret : Bytes
  pub sequence_number : ℕ
  pub hpke : Hpke C

-- `compute_nonce` over the two fields that it reads. `self.nonce.len() - seq.len()` overflows for
-- a nonce of less than four bytes: a checked build panics on that, and in another one the
-- wrapped length is above `isize::MAX`, at which `vec!` panics.
unfoldable pub nonce_at {ℓ} : {E : Type ℓ} → Bytes → ℕ → Outcome E Bytes
nonce_at nonce sequence_number =
    let seq = u32_to_be_bytes sequence_number in
    if ltb (length nonce) (length seq)
    then panic
    else xor_bytes (replicate (length nonce - length seq) 0 ++ seq) nonce

module _ (b : Build) (C : HpkeCrypto) where
  unfoldable pub compute_nonce : Context C → Outcome HpkeError Bytes
  compute_nonce self = nonce_at self.nonce self.sequence_number

  -- The shift by `8 * Nn` is one by 96 or 0, below the width of a `u128`.
  unfoldable pub increment_seq : Stateful (Context C) HpkeError (Unit {0})
  increment_seq self =
      if leb (2 ^ (8 * aead_nonce_length self.hpke.aead_id) - 1) self.sequence_number
      then (err message_limit_reached, self)
      else (do
        next ← lift (incr_u32 b self.sequence_number)
        put (record self { sequence_number = next }))
          self

  unfoldable pub seal : Bytes → Bytes → Stateful (Context C) HpkeError Bytes
  seal aad plain_txt = do
    self ← get
    nonce ← lift (compute_nonce self)
    ctxt ← lift (map_err from_error (C.aead_seal self.hpke.aead_id self.key nonce aad plain_txt))
    increment_seq
    pure ctxt

  unfoldable pub open_message : Bytes → Bytes → Stateful (Context C) HpkeError Bytes
  open_message aad cipher_txt = do
    self ← get
    nonce ← lift (compute_nonce self)
    ptxt ← lift (map_err from_error (C.aead_open self.hpke.aead_id self.key nonce aad cipher_txt))
    increment_seq
    pure ptxt

  unfoldable pub export : Context C → Bytes → ℕ → Outcome HpkeError Bytes
  export self exporter_context length = map_err (crypto_failure b) (
      labeled_expand b C self.hpke.kdf_id self.exporter_secret (ciphersuite b C self.hpke) "sec"
        exporter_context length)
