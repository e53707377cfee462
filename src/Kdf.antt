-- ===== src/Kdf.antt =====
-- src/kdf.rs: the labelled key derivation of RFC 9180, section 4.
pub mod Separation
use hpke_rs.Prelude.{ℕ, ◌%◌, ◌^◌, String, List, [], ◌∷◌, Outcome, ◌>>◌, ltb}
use hpke_rs.Prelude.Bytes.{Bytes, as_bytes, u16_to_be_bytes}
use hpke_rs.Build.{Build, debug_assert}
use hpke_rs.Traits.Error.{Error}
use hpke_rs.Traits.Types.{KdfAlgorithm}
use hpke_rs.Traits.Crypto.{HpkeCrypto}
use hpke_rs.Util.{concat}

abbrev pub hpke_version : Bytes
hpke_version = as_bytes "HPKE-v1"

unfoldable pub labeled_ikm : Bytes → String → Bytes → Bytes
unfolding concat
labeled_ikm suite_id label ikm = concat (hpke_version ∷ suite_id ∷ as_bytes label ∷ ikm ∷ [])

-- `len as u16` keeps the low 16 bits.
unfoldable pub labeled_info : ℕ → Bytes → String → Bytes → Bytes
unfolding concat u16_to_be_bytes
labeled_info len suite_id label info =
    concat (u16_to_be_bytes (len % 2 ^ 16) ∷ hpke_version ∷ suite_id ∷ as_bytes label ∷ info ∷ [])

module _ (b : Build) (C : HpkeCrypto) where
  unfoldable pub labeled_extract : KdfAlgorithm → Bytes → Bytes → String → Bytes → Bytes
  labeled_extract alg salt suite_id label ikm =
      C.kdf_extract alg salt (labeled_ikm suite_id label ikm)

  unfoldable pub labeled_expand :
      KdfAlgorithm → Bytes → Bytes → String → Bytes → ℕ → Outcome Error Bytes
  labeled_expand alg prk suite_id label info len = do
    debug_assert b (ltb len 256)
    C.kdf_expand alg prk (labeled_info len suite_id label info) len
