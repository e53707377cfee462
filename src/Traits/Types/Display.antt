-- ===== src/Traits/Types/Display.antt =====
-- traits/src/types.rs: the texts of the algorithm identifiers, which `Display` takes from `Debug`.
use hpke_rs.Prelude.{String}
use hpke_rs.Traits.Types.{
  KemAlgorithm, KdfAlgorithm, AeadAlgorithm, dh_kem_p256, dh_kem_p384, dh_kem_p521, dh_kem_25519,
  dh_kem_448, hkdf_sha256, hkdf_sha384, hkdf_sha512, aes128_gcm, aes256_gcm, cha_cha20_poly1305,
  hpke_export,
}

-- The derived `Debug` of each type.
unfoldable pub kem_debug : KemAlgorithm → String
kem_debug dh_kem_p256 = "DhKemP256"
kem_debug dh_kem_p384 = "DhKemP384"
kem_debug dh_kem_p521 = "DhKemP521"
kem_debug dh_kem_25519 = "DhKem25519"
kem_debug dh_kem_448 = "DhKem448"

unfoldable pub kdf_debug : KdfAlgorithm → String
kdf_debug hkdf_sha256 = "HkdfSha256"
kdf_debug hkdf_sha384 = "HkdfSha384"
kdf_debug hkdf_sha512 = "HkdfSha512"

unfoldable pub aead_debug : AeadAlgorithm → String
aead_debug aes128_gcm = "Aes128Gcm"
aead_debug aes256_gcm = "Aes256Gcm"
aead_debug cha_cha20_poly1305 = "ChaCha20Poly1305"
aead_debug hpke_export = "HpkeExport"

-- `Display`
unfoldable pub kem_fmt : KemAlgorithm → String
unfolding kem_debug
kem_fmt alg = kem_debug alg

unfoldable pub kdf_fmt : KdfAlgorithm → String
unfolding kdf_debug
kdf_fmt alg = kdf_debug alg

unfoldable pub aead_fmt : AeadAlgorithm → String
unfolding aead_debug
aead_fmt alg = aead_debug alg
