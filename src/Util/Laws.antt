-- ===== src/Util/Laws.antt =====
-- The exclusive or of src/util.rs with a fixed mask.
use hpke_rs.Prelude.{suc, ◌≡◌, refl, ap, [], ◌∷◌, ok, length, ==_refl, arith, head_or, tail_of}
use mathlib.Core.Path.{ap₂}
use hpke_rs.Prelude.Bits.{bit_xor-injective, bit_xor-lt}
use hpke_rs.Prelude.Bytes.{Bytes, IsBytes}
use hpke_rs.Util.{zip_xor, xor_bytes}

pub xor_bytes_lem {ℓ} :
    {E : Type ℓ} (a b : Bytes) → length a ≡ length b → xor_bytes {E = E} a b ≡ ok (zip_xor a b)
unfolding xor_bytes
xor_bytes_lem a b h = rw h (rw (==_refl (length b)))

pub length-zip_xor : (a b : Bytes) → length a ≡ length b → length (zip_xor a b) ≡ length b
unfolding zip_xor
length-zip_xor [] [] h = refl
length-zip_xor [] (y ∷ b) h = absurd (omega arith)
length-zip_xor (x ∷ a) [] h = absurd (omega arith)
length-zip_xor (x ∷ a) (y ∷ b) h = ap suc (length-zip_xor a b (omega arith))

pub zip_xor-injective :
    (a b k : Bytes) → length a ≡ length k → length b ≡ length k → zip_xor a k ≡ zip_xor b k → a ≡ b
unfolding zip_xor
zip_xor-injective [] [] k h i e = refl
zip_xor-injective [] (y ∷ b) [] h i e = absurd (omega arith)
zip_xor-injective [] (y ∷ b) (z ∷ k) h i e = absurd (omega arith)
zip_xor-injective (x ∷ a) b [] h i e = absurd (omega arith)
zip_xor-injective (x ∷ a) [] (z ∷ k) h i e = absurd (omega arith)
zip_xor-injective (x ∷ a) (y ∷ b) (z ∷ k) h i e =
    ap₂ ◌∷◌ (bit_xor-injective x y z (ap (head_or 0) e))
      (zip_xor-injective a b k (omega arith) (omega arith) (ap tail_of e))

pub zip_xor-IsBytes : (a b : Bytes) → IsBytes a → IsBytes b → IsBytes (zip_xor a b)
unfolding zip_xor
zip_xor-IsBytes [] b p q = tt
zip_xor-IsBytes (x ∷ a) [] p q = tt
zip_xor-IsBytes (x ∷ a) (y ∷ b) p q = (bit_xor-lt 8 x y p.0 q.0, zip_xor-IsBytes a b p.1 q.1)
