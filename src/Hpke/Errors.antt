-- ===== src/Hpke/Errors.antt =====
-- src/lib.rs: `HpkeError`, and the conversion of a provider's error into it.
use Prim.Native.String.{◌++◌}
use hpke_rs.Prelude.{String}
use hpke_rs.Build.{Build}
use hpke_rs.Traits.Error.{Error, fmt}

pub data HpkeError : Type 0 where
  open_error invalid_config invalid_input unknown_mode inconsistent_psk missing_psk : HpkeError
  unnecessary_psk insecure_psk : HpkeError
  crypto_error : String → HpkeError
  message_limit_reached insufficient_randomness lock_poisoned : HpkeError

-- `impl From<Error> for HpkeError`, which `?` applies.
unfoldable pub from_error : Error → HpkeError
from_error Error.aead_open_error = open_error
from_error Error.aead_invalid_nonce = invalid_input
from_error Error.aead_invalid_ciphertext = invalid_input
from_error Error.unknown_aead_algorithm = unknown_mode
from_error (Error.crypto_library_error s) = crypto_error s
from_error Error.hpke_invalid_output_length = crypto_error "Invalid HPKE output length"
from_error Error.unknown_kdf_algorithm = crypto_error "Unknown KDF algorithm."
from_error Error.kem_invalid_secret_key = crypto_error "Invalid KEM secret key"
from_error Error.kem_invalid_public_key = crypto_error "Invalid KEM public key"
from_error Error.unknown_kem_algorithm = crypto_error "Unknown KEM algorithm"
from_error Error.insufficient_randomness = insufficient_randomness

-- `|e| HpkeError::CryptoError(format!("Crypto error: {}", e))`, which the key derivations apply.
unfoldable pub crypto_failure : Build → Error → HpkeError
unfolding fmt
crypto_failure b e = crypto_error ("Crypto error: " ++ fmt b e)
