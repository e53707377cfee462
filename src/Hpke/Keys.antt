-- ===== src/Hpke/Keys.antt =====
-- src/lib.rs: `HpkePublicKey`, `HpkePrivateKey` and `HpkeKeyPair`, and the comparison of private
-- keys. A key is a byte vector; the conversions from slices copy it.
pub mod Equality
use hpke_rs.Prelude.{
  ℕ, zero, suc, ◌+◌, ◌-◌, ◌*◌, ◌/◌, ◌%◌, ◌^◌, [], ◌∷◌, bit_and, bit_or, bit_xor, Bool, false,
  length, not, ◌==◌, if◌then◌else◌,
}
use hpke_rs.Prelude.Bytes.{Bytes}

pub record HpkePublicKey : Type 0 where
  pub value : Bytes

pub record HpkePrivateKey : Type 0 where
  pub value : Bytes

pub record HpkeKeyPair : Type 0 where
  pub private_key : HpkePrivateKey
  pub public_key : HpkePublicKey

unfoldable pub public_key_new : Bytes → HpkePublicKey
public_key_new b = record { value = b }

unfoldable pub private_key_new : Bytes → HpkePrivateKey
private_key_new b = record { value = b }

unfoldable pub key_pair_new : Bytes → Bytes → HpkeKeyPair
unfolding private_key_new public_key_new
key_pair_new sk pk = record { private_key = private_key_new sk; public_key = public_key_new pk }

unfoldable pub into_keys : HpkeKeyPair → HpkePrivateKey × HpkePublicKey
into_keys pair = (pair.private_key, pair.public_key)

unfoldable pub from_keys : HpkePrivateKey → HpkePublicKey → HpkeKeyPair
from_keys private_key public_key = record { private_key = private_key; public_key = public_key }

unfoldable pub private_key : HpkeKeyPair → HpkePrivateKey
private_key self = self.private_key

unfoldable pub public_key : HpkeKeyPair → HpkePublicKey
public_key self = self.public_key

-- `as_slice`, which private keys have with the feature hazmat.
unfoldable pub private_key_as_slice : HpkePrivateKey → Bytes
private_key_as_slice self = self.value

unfoldable pub public_key_as_slice : HpkePublicKey → Bytes
public_key_as_slice self = self.value

-- `From` for a pair of vectors, and for a pair of slices, which `to_vec` copies.
unfoldable pub key_pair_from : Bytes × Bytes → HpkeKeyPair
unfolding key_pair_new
key_pair_from (sk, pk) = key_pair_new sk pk

-- `From` for a vector, and for a slice.
unfoldable pub private_key_from : Bytes → HpkePrivateKey
unfolding private_key_new
private_key_from b = private_key_new b

unfoldable pub public_key_from : Bytes → HpkePublicKey
unfolding public_key_new
public_key_from b = public_key_new b

-- `u8::wrapping_sub`, and `u8::wrapping_shr`, which takes the count modulo the width 8.
abbrev pub wrapping_sub_u8 : ℕ → ℕ → ℕ
wrapping_sub_u8 x k = (x + 256 - k) % 256

abbrev pub wrapping_shr_u8 : ℕ → ℕ → ℕ
wrapping_shr_u8 x k = x / 2 ^ (k % 8)

-- The loop over `self.value.iter().zip(other.value.iter())`.
unfoldable pub different_bits : ℕ → Bytes → Bytes → ℕ
different_bits acc [] ys = acc
different_bits acc (x ∷ xs) [] = acc
different_bits acc (x ∷ xs) (y ∷ ys) = different_bits (bit_or acc (bit_xor x y)) xs ys

-- `HpkePrivateKey::eq`
unfoldable pub private_key_eq : HpkePrivateKey → HpkePrivateKey → Bool
unfolding different_bits
private_key_eq self other =
    if not (length self.value == length other.value)
    then false
    else bit_and 1 (
        wrapping_sub_u8
          (wrapping_shr_u8 (wrapping_sub_u8 (different_bits 0 self.value other.value) 1) 8) 1)
      == 0
