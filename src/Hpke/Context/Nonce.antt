-- ===== src/Hpke/Context/Nonce.antt =====
-- The nonces of a context (`compute_nonce`, src/lib.rs) against RFC 9180, section 5.2.
use hpke_rs.Prelude.{
  ℕ, zero, suc, ◌-◌, ◌/◌, ◌%◌, ◌^◌, ◌≤◌, ◌<◌, ◌≡◌, refl, sym, ap, ◌∙◌, [], ◌∷◌, ◌++◌, ok, panic,
  length, length-append, length-replicate, replicate, append_cancel, ltb, lt→ltb, arith, false,
  unwrap_or, All-append, All-replicate,
}
use hpke_rs.Prelude.Bytes.{Bytes, IsBytes, u32_to_be_bytes}
use hpke_rs.Prelude.Bytes.Laws.{
  u32_to_be_bytes-injective, u32_to_be_bytes-IsBytes, length-u32_to_be_bytes,
}
use mathlib.Core.List.{append_assoc}
use hpke_rs.Util.{zip_xor}
use hpke_rs.Util.Laws.{xor_bytes_lem, zip_xor-injective, length-zip_xor, zip_xor-IsBytes}
use hpke_rs.Hpke.Context.{nonce_at}

-- I2OSP of RFC 8017: `width` bytes of `x`, the lowest last.
pub i2osp : ℕ → ℕ → Bytes
i2osp zero x = []
i2osp (suc width) x = i2osp width (x / 256) ++ (x % 256 ∷ [])

padded : ℕ → ℕ → Bytes
padded n seq = replicate (n - 4) 0 ++ u32_to_be_bytes seq

length-padded : (n seq : ℕ) → 4 ≤ n → length (padded n seq) ≡ n
unfolding padded
length-padded n seq h = omega (
  arith,
  length-append {0} (replicate (n - 4) 0) (u32_to_be_bytes seq),
  length-replicate {0} {A = ℕ} (n - 4) 0,
  length-u32_to_be_bytes seq,
)

replicate-snoc : (width : ℕ) → replicate width 0 ++ (0 ∷ []) ≡ replicate {A = ℕ} (suc width) 0
replicate-snoc zero = refl
replicate-snoc (suc width) = ap (λ (xs : Bytes). 0 ∷ xs) (replicate-snoc width)

i2osp-zero : (width : ℕ) → i2osp width 0 ≡ replicate width 0
unfolding i2osp
i2osp-zero zero = refl
i2osp-zero (suc width) = rw (i2osp-zero width) (replicate-snoc width)

-- Four bytes of the counter, behind zeros.
i2osp_u32 :
    (width seq : ℕ)
    → seq < 2 ^ 32
    → i2osp (suc (suc (suc (suc width)))) seq ≡ replicate width 0 ++ u32_to_be_bytes seq
unfolding i2osp u32_to_be_bytes
i2osp_u32 width seq h =
    let high : seq / 256 / 256 / 256 / 256 ≡ 0 = omega arith in
    let third : seq / 2 ^ 16 / 256 ≡ seq / 2 ^ 24 = omega arith in
    let second : seq / 256 / 256 ≡ seq / 2 ^ 16 = omega arith in
    rw (high, i2osp-zero width) (simp (append_assoc, third, second))

padded-eq-i2osp : (n seq : ℕ) → 4 ≤ n → seq < 2 ^ 32 → padded n seq ≡ i2osp n seq
unfolding padded
padded-eq-i2osp n seq h k =
    let e : n ≡ suc (suc (suc (suc (n - 4)))) = omega arith in
    sym (i2osp_u32 (n - 4) seq k) ∙ ap (λ (m : ℕ). i2osp m seq) (sym e)

nonce_at-padded {ℓ} :
    {E : Type ℓ} (nonce : Bytes) (seq : ℕ)
    → 4 ≤ length nonce
    → nonce_at {E = E} nonce seq ≡ ok (zip_xor (padded (length nonce) seq) nonce)
unfolding nonce_at padded
nonce_at-padded nonce seq h =
    let room : ltb (length nonce) (length (u32_to_be_bytes seq)) ≡ false =
      rw (length-u32_to_be_bytes seq) (ground arith) in
    rw (room, length-u32_to_be_bytes seq)
      (xor_bytes_lem (padded (length nonce) seq) nonce (length-padded (length nonce) seq h))

-- For a base nonce of at least four bytes and a counter below 2 ^ 32, the computed nonce is the
-- one of RFC 9180: the exclusive or of the base nonce and the counter, written by I2OSP in as
-- many bytes as the nonce has.
pub nonce_at_lem {ℓ} :
    {E : Type ℓ} (nonce : Bytes) (seq : ℕ)
    → 4 ≤ length nonce
    → seq < 2 ^ 32
    → nonce_at {E = E} nonce seq ≡ ok (zip_xor (i2osp (length nonce) seq) nonce)
nonce_at_lem nonce seq h k =
    nonce_at-padded nonce seq h
    ∙ ap (λ (xs : Bytes). ok (zip_xor xs nonce)) (padded-eq-i2osp (length nonce) seq h k)

-- A context whose base nonce is shorter than the counter cannot be used.
pub nonce_at_short {ℓ} :
    {E : Type ℓ} (nonce : Bytes) (seq : ℕ) → length nonce < 4 → nonce_at {E = E} nonce seq ≡ panic
unfolding nonce_at
nonce_at_short nonce seq h = rw (length-u32_to_be_bytes seq, lt→ltb _ _ h)

-- Under one base nonce, two counters never give one nonce.
pub nonce_at-injective {ℓ} :
    {E : Type ℓ} (nonce : Bytes) (a b : ℕ)
    → 4 ≤ length nonce
    → a < 2 ^ 32
    → b < 2 ^ 32
    → nonce_at {E = E} nonce a ≡ nonce_at nonce b
    → a ≡ b
unfolding padded
nonce_at-injective nonce a b h p q e =
    let oks = sym (nonce_at-padded nonce a h) ∙ e ∙ nonce_at-padded nonce b h in
    let n = length nonce in
    let same =
      zip_xor-injective (padded n a) (padded n b) nonce (length-padded n a h) (length-padded n b h)
        (ap (λ o. unwrap_or o []) oks) in
    u32_to_be_bytes-injective a b p q (append_cancel (replicate (n - 4) 0) _ _ same)

-- The nonce of a base nonce of bytes consists of as many bytes.
pub nonce_at-IsBytes {ℓ} :
    {E : Type ℓ} (nonce : Bytes) (seq : ℕ)
    → 4 ≤ length nonce
    → IsBytes nonce
    → (x : Bytes) × (nonce_at {E = E} nonce seq ≡ ok x) × (length x ≡ length nonce) × IsBytes x
unfolding padded
nonce_at-IsBytes nonce seq h bytes =
    let n = length nonce in
    let zeros = All-replicate (λ x. x < 256) (n - 4) 0 (omega arith) in
    let front = All-append (λ x. x < 256) _ _ zeros (u32_to_be_bytes-IsBytes seq) in
    (
      zip_xor (padded n seq) nonce,
      nonce_at-padded nonce seq h,
      length-zip_xor (padded n seq) nonce (length-padded n seq h),
      zip_xor-IsBytes (padded n seq) nonce front bytes,
    )
