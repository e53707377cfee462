-- ===== src/Evercrypt/Provider/Delivery.antt =====
-- The library (src/lib.rs) over the provider of evercrypt_provider/src/lib.rs: a conversation,
-- from what the crate documents.
use hpke_rs.Prelude.{true, ℕ, ◌^◌, ◌<◌, ◌≡◌, ok, length}
use hpke_rs.Prelude.Bytes.{Bytes, IsBytes}
use hpke_rs.Build.{Build}
use hpke_rs.Traits.Types.{AeadAlgorithm, aes128_gcm, aes256_gcm}
use hpke_rs.Hpke.Context.{Context}
use hpke_rs.Rand.{IsAvailable}
use hpke_rs.Evercrypt.Libs.{EvercryptLibs}
use hpke_rs.Evercrypt.Provider.{supports_aead, aes_support}
use hpke_rs.Evercrypt.Provider.Laws.{IsEcdh, IsCombined}

-- The crate expands to as many bytes as asked for.
pub record IsExpansion (E : EvercryptLibs) : Type 0 where
  pub expand_length :
      (mode : E.HmacMode) (prk info : Bytes) (len : ℕ)
      → (length (E.hkdf_expand mode prk info len) ≡ len) × IsBytes (E.hkdf_expand mode prk info len)

-- What the crate takes: AES only on the targets that have it, and sizes within the limits of each of
-- its ciphers, for the message and for the associated data.
abbrev pub Takes : EvercryptLibs → AeadAlgorithm → Bytes → Bytes → Type 0
Takes E alg aad msg = (supports_aead E alg ≡ ok tt) × (length aad < 2 ^ 16) × (length msg < 2 ^ 16)

-- A cipher is made from a key of its size, AES on the targets that have it, and encrypts within its
-- limits.
pub record IsTotalCombined (E : EvercryptLibs) : Type 0 where
  pub new_aes128 :
      (key : Bytes)
      → E.aes_support ≡ true
      → length key ≡ 16
      → (c : E.Aead) × (E.aead_new E.aes128_gcm key ≡ ok c)
  pub new_aes256 :
      (key : Bytes)
      → E.aes_support ≡ true
      → length key ≡ 32
      → (c : E.Aead) × (E.aead_new E.aes256_gcm key ≡ ok c)
  pub new_chacha20 :
      (key : Bytes) → length key ≡ 32 → (c : E.Aead) × (E.aead_new E.chacha20_poly1305 key ≡ ok c)
  pub encrypt_total :
      (cipher : E.Aead) (msg nonce aad : Bytes)
      → length nonce ≡ 12
      → length aad < 2 ^ 16
      → length msg < 2 ^ 16
      → (ct : Bytes) × (E.encrypt_combined cipher msg nonce aad ≡ ok ct)

-- The documented behaviour of the crate, taken together.
pub record IsFaithful (E : EvercryptLibs) : Type 0 where
  pub curves : IsEcdh E
  pub expansion : IsExpansion E
  pub cipher : IsCombined E
  pub total : IsTotalCombined E
  pub available : IsAvailable E.rand
