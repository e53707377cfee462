-- ===== src/Traits/Types/Laws.antt =====
-- The numbers of the algorithms and the conversions back, and the bounds on the lengths.
use hpke_rs.Prelude.{ℕ, ◌≡◌, ◌↔◌, ok, arith}
use hpke_rs.Prelude.Decode.{IsDecoder, IsDecoder-of_iff}
use hpke_rs.Traits.Error.{Error}
use hpke_rs.Traits.Types.{
  KemAlgorithm, AeadAlgorithm, KdfAlgorithm, kem_u16, kem_try_from, aead_u16, aead_try_from,
  kdf_u16, kdf_try_from,
}

pub kem_try_from_iff : (x : ℕ) (a : KemAlgorithm) → (kem_try_from x ≡ ok a) ↔ (kem_u16 a ≡ x)
unfolding kem_try_from kem_u16
kem_try_from_iff x a = ground arith

pub aead_try_from_iff : (x : ℕ) (a : AeadAlgorithm) → (aead_try_from x ≡ ok a) ↔ (aead_u16 a ≡ x)
unfolding aead_try_from aead_u16
aead_try_from_iff x a = ground arith

pub kdf_try_from_iff : (x : ℕ) (a : KdfAlgorithm) → (kdf_try_from x ≡ ok a) ↔ (kdf_u16 a ≡ x)
unfolding kdf_try_from kdf_u16
kdf_try_from_iff x a = ground arith

-- For KEM, AEAD and KDF identifiers, the conversion of each number gives the algorithm that has
-- the number, or, where no algorithm has it, the error for an unknown algorithm of its kind.
pub try_from-IsDecoder :
    IsDecoder kem_u16 kem_try_from Error.unknown_kem_algorithm
    × IsDecoder aead_u16 aead_try_from Error.unknown_aead_algorithm
    × IsDecoder kdf_u16 kdf_try_from Error.unknown_kdf_algorithm
unfolding kem_try_from aead_try_from kdf_try_from
try_from-IsDecoder = (
  IsDecoder-of_iff kem_u16 kem_try_from _ kem_try_from_iff (λ x f h. ground arith)
      (λ x h. ground arith),
  IsDecoder-of_iff aead_u16 aead_try_from _ aead_try_from_iff (λ x f h. ground arith)
      (λ x h. ground arith),
  IsDecoder-of_iff kdf_u16 kdf_try_from _ kdf_try_from_iff (λ x f h. ground arith)
      (λ x h. ground arith),
)
