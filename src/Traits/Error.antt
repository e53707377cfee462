-- ===== src/Traits/Error.antt =====
-- traits/src/error.rs: the errors of a crypto provider, with their `Debug` and `Display` text.
use Prim.Native.String.{◌++◌}
use hpke_rs.Prelude.{String}
use hpke_rs.Build.{Build}

pub data Error : Type 0 where
  hpke_invalid_output_length : Error
  unknown_kdf_algorithm : Error
  kem_invalid_secret_key : Error
  kem_invalid_public_key : Error
  unknown_kem_algorithm : Error
  unknown_aead_algorithm : Error
  aead_invalid_nonce : Error
  aead_open_error : Error
  aead_invalid_ciphertext : Error
  insufficient_randomness : Error
  crypto_library_error : String → Error

-- The derived `Debug`.
unfoldable pub debug : Build → Error → String
debug b Error.hpke_invalid_output_length = "HpkeInvalidOutputLength"
debug b Error.unknown_kdf_algorithm = "UnknownKdfAlgorithm"
debug b Error.kem_invalid_secret_key = "KemInvalidSecretKey"
debug b Error.kem_invalid_public_key = "KemInvalidPublicKey"
debug b Error.unknown_kem_algorithm = "UnknownKemAlgorithm"
debug b Error.unknown_aead_algorithm = "UnknownAeadAlgorithm"
debug b Error.aead_invalid_nonce = "AeadInvalidNonce"
debug b Error.aead_open_error = "AeadOpenError"
debug b Error.aead_invalid_ciphertext = "AeadInvalidCiphertext"
debug b Error.insufficient_randomness = "InsufficientRandomness"
debug b (Error.crypto_library_error s) = "CryptoLibraryError(" ++ (b.debug_str s ++ ")")

unfoldable pub fmt : Build → Error → String
unfolding debug
fmt b e = "HPKE Crypto Error: " ++ debug b e
