-- ===== src/RustCrypto/Hkdf.antt =====
-- rust_crypto_provider/src/hkdf.rs: what the macro `implement_hkdfs` makes for each hash, and the
-- dispatch of `kdf_extract` and `kdf_expand` (rust_crypto_provider/src/lib.rs).
use hpke_rs.Prelude.{ℕ, ◌^◌, Outcome, ok, panic, ◌>>=◌, ◌>>◌, ltb, if◌then◌else◌}
use hpke_rs.Prelude.Bytes.{Bytes}
use hpke_rs.Traits.Error.{Error}
use hpke_rs.Traits.Types.{KdfAlgorithm, hkdf_sha256, hkdf_sha384, hkdf_sha512}
use hpke_rs.RustCrypto.Libs.{RustLibs}
use hpke_rs.RustCrypto.Aead.{ok_or}

module _ (L : RustLibs) where
  -- `$name_extract`
  unfoldable pub hash_extract : KdfAlgorithm → Bytes → Bytes → Bytes
  hash_extract hash salt ikm = L.hkdf_extract hash salt ikm

  -- `vec![0u8; …]`: a vector has at most `isize::MAX` bytes, on a machine of 64 bits.
  abbrev allocate : ℕ → Outcome Error (Unit {0})
  allocate size = if ltb size (2 ^ 63) then ok tt else panic

  -- `$name_expand`
  unfoldable pub hash_expand : KdfAlgorithm → Bytes → Bytes → ℕ → Outcome Error Bytes
  hash_expand hash prk info output_size = do
    hkdf ← ok_or (L.hkdf_from_prk hash prk) Error.hpke_invalid_output_length
    allocate output_size
    ok_or (L.hkdf_expand hkdf info output_size) Error.hpke_invalid_output_length

  unfoldable pub kdf_extract : KdfAlgorithm → Bytes → Bytes → Bytes
  unfolding hash_extract
  kdf_extract hkdf_sha256 salt ikm = hash_extract hkdf_sha256 salt ikm
  kdf_extract hkdf_sha384 salt ikm = hash_extract hkdf_sha384 salt ikm
  kdf_extract hkdf_sha512 salt ikm = hash_extract hkdf_sha512 salt ikm

  unfoldable pub kdf_expand : KdfAlgorithm → Bytes → Bytes → ℕ → Outcome Error Bytes
  unfolding hash_expand
  kdf_expand hkdf_sha256 prk info output_size = hash_expand hkdf_sha256 prk info output_size
  kdf_expand hkdf_sha384 prk info output_size = hash_expand hkdf_sha384 prk info output_size
  kdf_expand hkdf_sha512 prk info output_size = hash_expand hkdf_sha512 prk info output_size
