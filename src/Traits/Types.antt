-- ===== src/Traits/Types.antt =====
-- traits/src/types.rs: the algorithm identifiers, their registered numbers and lengths.
pub mod Laws
pub mod Display
use hpke_rs.Prelude.{ℕ, Outcome, ok, err, ◌==◌, if◌then◌else◌}
use hpke_rs.Traits.Error.{Error}

pub data KemAlgorithm : Type 0 where
  dh_kem_p256 dh_kem_p384 dh_kem_p521 dh_kem_25519 dh_kem_448 : KemAlgorithm

pub data AeadAlgorithm : Type 0 where
  aes128_gcm aes256_gcm cha_cha20_poly1305 hpke_export : AeadAlgorithm

pub data KdfAlgorithm : Type 0 where
  hkdf_sha256 hkdf_sha384 hkdf_sha512 : KdfAlgorithm

-- `alg as u16`.
unfoldable pub kem_u16 : KemAlgorithm → ℕ
kem_u16 dh_kem_p256 = 0x0010
kem_u16 dh_kem_p384 = 0x0011
kem_u16 dh_kem_p521 = 0x0012
kem_u16 dh_kem_25519 = 0x0020
kem_u16 dh_kem_448 = 0x0021

unfoldable pub kem_try_from : ℕ → Outcome Error KemAlgorithm
kem_try_from x =
    if x == 0x0010
    then ok dh_kem_p256
    else if x == 0x0011
    then ok dh_kem_p384
    else if x == 0x0012
    then ok dh_kem_p521
    else if x == 0x0020
    then ok dh_kem_25519
    else if x == 0x0021
    then ok dh_kem_448
    else err Error.unknown_kem_algorithm

unfoldable pub private_key_len : KemAlgorithm → ℕ
private_key_len dh_kem_p256 = 32
private_key_len dh_kem_p384 = 48
private_key_len dh_kem_p521 = 66
private_key_len dh_kem_25519 = 32
private_key_len dh_kem_448 = 56

unfoldable pub shared_secret_len : KemAlgorithm → ℕ
shared_secret_len dh_kem_p256 = 32
shared_secret_len dh_kem_p384 = 48
shared_secret_len dh_kem_p521 = 64
shared_secret_len dh_kem_25519 = 32
shared_secret_len dh_kem_448 = 64

unfoldable pub aead_u16 : AeadAlgorithm → ℕ
aead_u16 aes128_gcm = 0x0001
aead_u16 aes256_gcm = 0x0002
aead_u16 cha_cha20_poly1305 = 0x0003
aead_u16 hpke_export = 0xffff

unfoldable pub aead_try_from : ℕ → Outcome Error AeadAlgorithm
aead_try_from x =
    if x == 0x0001
    then ok aes128_gcm
    else if x == 0x0002
    then ok aes256_gcm
    else if x == 0x0003
    then ok cha_cha20_poly1305
    else if x == 0xffff
    then ok hpke_export
    else err Error.unknown_aead_algorithm

-- The sizes are 0 for the export-only algorithm.
unfoldable pub tag_length : AeadAlgorithm → ℕ
tag_length aes128_gcm = 16
tag_length aes256_gcm = 16
tag_length cha_cha20_poly1305 = 16
tag_length hpke_export = 0

unfoldable pub key_length : AeadAlgorithm → ℕ
key_length aes128_gcm = 16
key_length aes256_gcm = 32
key_length cha_cha20_poly1305 = 32
key_length hpke_export = 0

unfoldable pub nonce_length : AeadAlgorithm → ℕ
nonce_length aes128_gcm = 12
nonce_length aes256_gcm = 12
nonce_length cha_cha20_poly1305 = 12
nonce_length hpke_export = 0

unfoldable pub kdf_u16 : KdfAlgorithm → ℕ
kdf_u16 hkdf_sha256 = 0x0001
kdf_u16 hkdf_sha384 = 0x0002
kdf_u16 hkdf_sha512 = 0x0003

unfoldable pub kdf_try_from : ℕ → Outcome Error KdfAlgorithm
kdf_try_from x =
    if x == 0x0001
    then ok hkdf_sha256
    else if x == 0x0002
    then ok hkdf_sha384
    else if x == 0x0003
    then ok hkdf_sha512
    else err Error.unknown_kdf_algorithm

-- `impl From<KemAlgorithm> for KdfAlgorithm`: the hash that a KEM is built on.
unfoldable pub kem_kdf : KemAlgorithm → KdfAlgorithm
kem_kdf dh_kem_p256 = hkdf_sha256
kem_kdf dh_kem_p384 = hkdf_sha384
kem_kdf dh_kem_p521 = hkdf_sha512
kem_kdf dh_kem_25519 = hkdf_sha256
kem_kdf dh_kem_448 = hkdf_sha512
