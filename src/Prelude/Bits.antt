-- ===== src/Prelude/Bits.antt =====
-- The native bit operations at variables: one equation for the lowest digit, and what follows.
use Prim.Native.Nat.{ℕ, zero, suc, ◌+◌, ◌-◌, ◌*◌, ◌/◌, ◌%◌, ◌^◌, ◌≤◌, ◌<◌, min, max, differ}
use Prim.Native.Nat.{digits, bitwise, bit_and, bit_or, bit_xor}
use Prim.Native.Nat.{bit_and-bitwise, bit_or-bitwise, bit_xor-bitwise}
use mathlib.Core.Path.{◌≡◌, refl, ap, ◌∙◌, sym}
use native.Mathlib.Nat.{pow-suc}
use native.Mathlib.Omega.{arith}

module _ (z : ℕ → ℕ) (f : ℕ → ℕ → ℕ) where
  -- A unit of fuel more than the first number changes nothing.
  digits_spare : (n a b : ℕ) → a ≤ n → digits z f (suc n) a b ≡ digits z f n a b
  digits_spare zero zero b h = refl
  digits_spare (suc n) zero b h = refl
  digits_spare zero (suc a) b h = absurd (omega arith)
  digits_spare (suc n) (suc a) b h =
      ap (λ (high : ℕ). high * 2 + f (suc a % 2) (b % 2))
        (digits_spare n (suc a / 2) (b / 2) (omega arith))

  -- No fuel beyond the first number changes anything.
  digits_settled : (k n a b : ℕ) → n ≡ k + a → digits z f n a b ≡ bitwise z f a b
  digits_settled zero n a b e = ap (λ (m : ℕ). digits z f m a b) (omega arith)
  digits_settled (suc k) n a b e =
      let more : n ≡ suc (k + a) = omega arith in
      ap (λ (m : ℕ). digits z f m a b) more
      ∙ (digits_spare (k + a) a b (omega arith) ∙ digits_settled k (k + a) a b refl)

-- An operation that means `bitwise` is given by its lowest digit, whatever its first argument.
lowest_digit :
    (op : ℕ → ℕ → ℕ) (z : ℕ → ℕ) (f : ℕ → ℕ → ℕ)
    → ((a b : ℕ) → op a b ≡ bitwise z f a b)
    → ((b : ℕ) → z b ≡ z (b / 2) * 2 + f 0 (b % 2))
    → (a b : ℕ) → op a b ≡ op (a / 2) (b / 2) * 2 + f (a % 2) (b % 2)
lowest_digit op z f meaning start zero b = rw (meaning 0 b, meaning 0 (b / 2)) (start b)
lowest_digit op z f meaning start (suc a) b =
    let half = suc a / 2 in
    let high : digits z f a half (b / 2) ≡ op half (b / 2) =
      digits_settled z f (a - half) a half (b / 2) (omega arith) ∙ sym (meaning half (b / 2)) in
    meaning (suc a) b ∙ ap (λ (h : ℕ). h * 2 + f (suc a % 2) (b % 2)) high

differ-eq-sub : (a b : ℕ) → differ a b ≡ (a - b) + (b - a)
differ-eq-sub zero b = omega arith
differ-eq-sub (suc a) zero = omega arith
differ-eq-sub (suc a) (suc b) = omega (arith, differ-eq-sub a b)

and_lowest : (a b : ℕ) → bit_and a b ≡ bit_and (a / 2) (b / 2) * 2 + min (a % 2) (b % 2)
and_lowest = lowest_digit bit_and (λ y. 0) min bit_and-bitwise (λ b. omega arith)

or_lowest : (a b : ℕ) → bit_or a b ≡ bit_or (a / 2) (b / 2) * 2 + max (a % 2) (b % 2)
or_lowest = lowest_digit bit_or (λ y. y) max bit_or-bitwise (λ b. omega arith)

differ_lowest : (a b : ℕ) → bit_xor a b ≡ bit_xor (a / 2) (b / 2) * 2 + differ (a % 2) (b % 2)
differ_lowest = lowest_digit bit_xor (λ y. y) differ bit_xor-bitwise (λ b. omega arith)

xor_lowest :
    (a b : ℕ) → bit_xor a b ≡ bit_xor (a / 2) (b / 2) * 2 + ((a % 2 - b % 2) + (b % 2 - a % 2))
xor_lowest a b = omega (arith, differ_lowest a b, differ-eq-sub (a % 2) (b % 2))

nothing_and : (b : ℕ) → bit_and 0 b ≡ 0
nothing_and b = simp bit_and-bitwise

-- A second exclusive or with the same mask undoes the first.
bit_xor-cancel_fuel : (n a b : ℕ) → a ≤ n → b ≤ n → bit_xor (bit_xor a b) b ≡ a
bit_xor-cancel_fuel zero a b h k =
    let a_zero : a ≡ 0 = omega arith in let b_zero : b ≡ 0 = omega arith in rw (a_zero, b_zero)
bit_xor-cancel_fuel (suc n) a b h k =
    let half : bit_xor a b / 2 ≡ bit_xor (a / 2) (b / 2) = omega (arith, xor_lowest a b) in
    let last : bit_xor (bit_xor a b / 2) (b / 2) ≡ a / 2 =
      rw half (bit_xor-cancel_fuel n (a / 2) (b / 2) (omega arith) (omega arith)) in
    omega (arith, xor_lowest a b, xor_lowest (bit_xor a b) b)

pub bit_xor-cancel : (a b : ℕ) → bit_xor (bit_xor a b) b ≡ a
bit_xor-cancel a b = bit_xor-cancel_fuel (a + b) a b (omega arith) (omega arith)

pub bit_xor-injective : (a b k : ℕ) → bit_xor a k ≡ bit_xor b k → a ≡ b
bit_xor-injective a b k h =
    sym (bit_xor-cancel a k) ∙ ap (λ (x : ℕ). bit_xor x k) h ∙ bit_xor-cancel b k

pub zero-bit_xor : (b : ℕ) → bit_xor 0 b ≡ b
zero-bit_xor b = simp bit_xor-bitwise

pub bit_xor-lt : (k a b : ℕ) → a < 2 ^ k → b < 2 ^ k → bit_xor a b < 2 ^ k
bit_xor-lt zero a b h i =
    let a_zero : a ≡ 0 = omega arith in rw a_zero (omega (arith, zero-bit_xor b))
bit_xor-lt (suc k) a b h i = omega (
  arith,
  xor_lowest a b,
  pow-suc 2 k,
  bit_xor-lt k (a / 2) (b / 2) (omega (arith, pow-suc 2 k)) (omega (arith, pow-suc 2 k)),
)

-- `1 & x` is the lowest bit.
pub one-bit_and : (x : ℕ) → bit_and 1 x ≡ x % 2
one-bit_and x = omega (arith, and_lowest 1 x, nothing_and (x / 2))

-- The lowest bit of `a | (x ^ y)`.
pub bit_or-bit_xor_low :
    (a x y : ℕ) → bit_or a (bit_xor x y) % 2 ≡ max (a % 2) ((x % 2 - y % 2) + (y % 2 - x % 2))
bit_or-bit_xor_low a x y = omega (arith, or_lowest a (bit_xor x y), xor_lowest x y)
