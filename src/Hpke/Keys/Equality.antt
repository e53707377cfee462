-- ===== src/Hpke/Keys/Equality.antt =====
-- What the comparison of private keys computes.
use hpke_rs.Prelude.{
  ℕ, ◌%◌, ◌≡◌, refl, ◌↔◌, [], ◌∷◌, bit_and, bit_or, bit_xor, true, length, ◌==◌, ==_iff, arith,
  Bool-cases, inl, inr,
}
use hpke_rs.Prelude.Bits.{one-bit_and, bit_or-bit_xor_low}
use hpke_rs.Prelude.Bytes.{Bytes}
use hpke_rs.Hpke.Keys.{
  HpkePrivateKey, private_key_eq, different_bits, wrapping_sub_u8, wrapping_shr_u8,
}

-- Byte strings of one length whose bytes agree in their lowest bits.
abbrev pub SameLowBits : Bytes → Bytes → Type 0
SameLowBits [] [] = Unit
SameLowBits (x ∷ xs) (y ∷ ys) = (x % 2 ≡ y % 2) × SameLowBits xs ys
SameLowBits [] (y ∷ ys) = ⊥
SameLowBits (x ∷ xs) [] = ⊥

-- The accumulated differences are even exactly when no pair of bytes differs in the lowest bit.
different_bits-low :
    (acc : ℕ) (xs ys : Bytes)
    → length xs ≡ length ys
    → (different_bits acc xs ys % 2 ≡ 0) ↔ ((acc % 2 ≡ 0) × SameLowBits xs ys)
unfolding different_bits
different_bits-low acc [] [] h = ground arith
different_bits-low acc [] (y ∷ ys) h = absurd (omega arith)
different_bits-low acc (x ∷ xs) [] h = absurd (omega arith)
different_bits-low acc (x ∷ xs) (y ∷ ys) h =
    let rest = different_bits-low (bit_or acc (bit_xor x y)) xs ys (omega arith) in
    let low = bit_or-bit_xor_low acc x y in
    (
      λ e. let (a, s) = rest.0 e in (omega (arith, low), (omega (arith, low), s)),
      λ (a, s). rest.1 (omega (arith, low, s.0), s.1),
    )

SameLowBits-length : (xs ys : Bytes) → SameLowBits xs ys → length xs ≡ length ys
SameLowBits-length [] [] h = refl
SameLowBits-length [] (y ∷ ys) h = absurd h
SameLowBits-length (x ∷ xs) [] h = absurd h
SameLowBits-length (x ∷ xs) (y ∷ ys) h = omega (arith, SameLowBits-length xs ys h.1)

-- The shift by 8 is a shift by 0, so that the test at the end reads the lowest bit.
low_test :
    (d : ℕ)
    → ((bit_and 1 (wrapping_sub_u8 (wrapping_shr_u8 (wrapping_sub_u8 d 1) 8) 1) == 0) ≡ true)
      ↔ (d % 2 ≡ 0)
low_test d =
    let bit = one-bit_and (wrapping_sub_u8 (wrapping_shr_u8 (wrapping_sub_u8 d 1) 8) 1) in
    let test = ==_iff (bit_and 1 (wrapping_sub_u8 (wrapping_shr_u8 (wrapping_sub_u8 d 1) 8) 1)) 0 in
    (λ h. omega (arith, bit, test.0 h), λ h. test.1 (omega (arith, bit)))

-- Two private keys compare equal exactly when they are equally long and each pair of their bytes
-- agrees in the lowest bit, whatever the other seven bits are.
pub private_key_eq_iff :
    (k l : HpkePrivateKey) → (private_key_eq k l ≡ true) ↔ SameLowBits k.value l.value
unfolding private_key_eq
private_key_eq_iff k l = elim (Bool-cases (length k.value == length l.value)) [
  | inl same ↦
      let equal = (==_iff (length k.value) (length l.value)).0 same in
      let bits = different_bits-low 0 k.value l.value equal in
      rw same (
        λ h. (bits.0 ((low_test _).0 h)).1,
        λ h. (low_test (different_bits 0 k.value l.value)).1 (bits.1 (refl, h)),
      )
  | inr other ↦
      rw other (λ h. cc, λ h. cc (other, (==_iff _ _).1 (SameLowBits-length k.value l.value h)))
]
