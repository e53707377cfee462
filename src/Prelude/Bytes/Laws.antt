-- ===== src/Prelude/Bytes/Laws.antt =====
-- Words are read back from their bytes, so equal bytes come from equal words.
use hpke_rs.Prelude.Lists.{length, head_or, tail_of}
use hpke_rs.Prelude.Bytes.{Bytes, IsBytes, u16_to_be_bytes, u32_to_be_bytes}
use Prim.Native.Nat.{ℕ, ◌<◌, ◌%◌, ◌^◌}
use mathlib.Core.Path.{◌≡◌, refl, ap}
use native.Mathlib.Omega.{arith}

pub u16_to_be_bytes-injective :
    (a b : ℕ) → u16_to_be_bytes a ≡ u16_to_be_bytes b → a % 2 ^ 16 ≡ b % 2 ^ 16
unfolding u16_to_be_bytes
u16_to_be_bytes-injective a b h =
    omega (arith, ap (head_or 0) h, ap (λ (xs : Bytes). head_or 0 (tail_of xs)) h)

pub u32_to_be_bytes-injective :
    (a b : ℕ) → a < 2 ^ 32 → b < 2 ^ 32 → u32_to_be_bytes a ≡ u32_to_be_bytes b → a ≡ b
unfolding u32_to_be_bytes
u32_to_be_bytes-injective a b p q h = omega (
  arith,
  ap (head_or 0) h,
  ap (λ (xs : Bytes). head_or 0 (tail_of xs)) h,
  ap (λ (xs : Bytes). head_or 0 (tail_of (tail_of xs))) h,
  ap (λ (xs : Bytes). head_or 0 (tail_of (tail_of (tail_of xs)))) h,
)

pub length-u32_to_be_bytes : (a : ℕ) → length (u32_to_be_bytes a) ≡ 4
unfolding u32_to_be_bytes
length-u32_to_be_bytes a = refl

pub length-u16_to_be_bytes : (a : ℕ) → length (u16_to_be_bytes a) ≡ 2
unfolding u16_to_be_bytes
length-u16_to_be_bytes a = refl

pub u32_to_be_bytes-IsBytes : (a : ℕ) → IsBytes (u32_to_be_bytes a)
unfolding u32_to_be_bytes
u32_to_be_bytes-IsBytes a = omega arith
