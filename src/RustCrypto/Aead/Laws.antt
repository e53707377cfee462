-- ===== src/RustCrypto/Aead/Laws.antt =====
-- The provider's AEAD calls, for ciphers whose ciphertexts are a tag longer than the message.
use hpke_rs.Prelude.{◌+◌, ◌<◌, ◌≡◌, some, ok, err, [], length, arith}
use hpke_rs.Prelude.Bytes.{Bytes}
use hpke_rs.Traits.Error.{Error}
use hpke_rs.Traits.Types.{AeadAlgorithm}
use hpke_rs.Traits.Crypto.{aead_nonce_length, aead_tag_length}
use hpke_rs.RustCrypto.Libs.{RustLibs}
use hpke_rs.RustCrypto.Aead.{aead_seal, aead_open}

-- What the ciphers' documentation says: a ciphertext is the message with a 16-byte tag, and it
-- decrypts to the message under what it was encrypted with.
pub record IsCipher (L : RustLibs) : Type 0 where
  pub encrypt_length :
      (alg : AeadAlgorithm) (key nonce aad msg ct : Bytes)
      → L.encrypt alg key nonce aad msg ≡ some ct
      → length ct ≡ length msg + 16
  pub decrypt_encrypt :
      (alg : AeadAlgorithm) (key nonce aad msg ct : Bytes)
      → L.encrypt alg key nonce aad msg ≡ some ct
      → L.decrypt alg key nonce aad ct ≡ some msg

module _ (L : RustLibs) (I : IsCipher L) where
  -- With ciphers that lengthen a message by 16 bytes and decrypt what they encrypted, the
  -- RustCrypto provider opens what it sealed, for a message that is not empty.
  pub aead_open-aead_seal :
      (alg : AeadAlgorithm) (key nonce aad msg ct : Bytes)
      → 0 < length msg
      → aead_seal L alg key nonce aad msg ≡ ok ct
      → aead_open L alg key nonce aad ct ≡ ok msg
  unfolding aead_seal aead_open aead_nonce_length aead_tag_length
  aead_open-aead_seal alg key nonce aad msg ct pos h =
      ground (
        arith,
        I.encrypt_length alg key nonce aad msg ct,
        I.decrypt_encrypt alg key nonce aad msg ct,
      )

  -- With ciphers that lengthen a message by 16 bytes, the RustCrypto provider refuses as an
  -- invalid ciphertext whatever it sealed the empty message to.
  pub aead_open-aead_seal_empty :
      (alg : AeadAlgorithm) (key nonce aad ct : Bytes)
      → aead_seal L alg key nonce aad [] ≡ ok ct
      → aead_open L alg key nonce aad ct ≡ err Error.aead_invalid_ciphertext
  unfolding aead_seal aead_open aead_nonce_length aead_tag_length
  aead_open-aead_seal_empty alg key nonce aad ct h =
      ground (arith, I.encrypt_length alg key nonce aad [] ct)
