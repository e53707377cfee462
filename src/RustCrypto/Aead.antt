-- ===== src/RustCrypto/Aead.antt =====
-- rust_crypto_provider/src/aead.rs: what the macro `implement_aead` makes for each cipher, and
-- the dispatch of `aead_seal` and `aead_open` (rust_crypto_provider/src/lib.rs).
pub mod Laws
use Prim.Native.String.{◌++◌}
use hpke_rs.Prelude.{
  Bool, Option, none, some, Outcome, ok, err, panic, ◌>>=◌, ◌>>◌, length, not, ◌==◌, leb,
  if◌then◌else◌,
}
use hpke_rs.Prelude.Bytes.{Bytes}
use hpke_rs.Traits.Error.{Error}
use hpke_rs.Traits.Types.{AeadAlgorithm, aes128_gcm, aes256_gcm, cha_cha20_poly1305, hpke_export}
use hpke_rs.Traits.Crypto.{aead_nonce_length, aead_tag_length}
use hpke_rs.RustCrypto.Libs.{RustLibs}

-- `map_err` on a crate's result.
abbrev pub ok_or : {A : Type 0} → Option A → Error → Outcome Error A
ok_or none e = err e
ok_or (some a) e = ok a

abbrev pub check : Bool → Error → Outcome Error (Unit {0})
check c e = if c then err e else ok tt

module _ (L : RustLibs) where
  -- `$algorithm::new(key.into())`: the conversion of a slice panics at another length.
  abbrev new_cipher : AeadAlgorithm → Bytes → Outcome Error (Unit {0})
  new_cipher alg key = if length key == L.key_size alg then ok tt else panic

  -- `$name_seal`
  unfoldable pub cipher_seal : AeadAlgorithm → Bytes → Bytes → Bytes → Bytes → Outcome Error Bytes
  cipher_seal alg key nonce aad msg = do
    check (not (length nonce == 12)) Error.aead_invalid_nonce
    new_cipher alg key
    ok_or (L.encrypt alg key nonce aad msg)
        (Error.crypto_library_error ("AEAD error: " ++ L.aead_error))

  -- `$name_open`
  unfoldable pub cipher_open : AeadAlgorithm → Bytes → Bytes → Bytes → Bytes → Outcome Error Bytes
  cipher_open alg key nonce aad msg = do
    check (not (length nonce == aead_nonce_length alg)) Error.aead_invalid_nonce
    check (leb (length msg) (aead_tag_length alg)) Error.aead_invalid_ciphertext
    new_cipher alg key
    ok_or (L.decrypt alg key nonce aad msg) Error.aead_open_error

  unfoldable pub aead_seal : AeadAlgorithm → Bytes → Bytes → Bytes → Bytes → Outcome Error Bytes
  unfolding cipher_seal
  aead_seal aes128_gcm key nonce aad msg = cipher_seal aes128_gcm key nonce aad msg
  aead_seal aes256_gcm key nonce aad msg = cipher_seal aes256_gcm key nonce aad msg
  aead_seal cha_cha20_poly1305 key nonce aad msg = cipher_seal cha_cha20_poly1305 key nonce aad msg
  aead_seal hpke_export key nonce aad msg = err Error.unknown_aead_algorithm

  unfoldable pub aead_open : AeadAlgorithm → Bytes → Bytes → Bytes → Bytes → Outcome Error Bytes
  unfolding cipher_open
  aead_open aes128_gcm key nonce aad msg = cipher_open aes128_gcm key nonce aad msg
  aead_open aes256_gcm key nonce aad msg = cipher_open aes256_gcm key nonce aad msg
  aead_open cha_cha20_poly1305 key nonce aad msg = cipher_open cha_cha20_poly1305 key nonce aad msg
  aead_open hpke_export key nonce aad msg = err Error.unknown_aead_algorithm
