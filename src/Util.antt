-- ===== src/Util.antt =====
-- src/util.rs: joining byte slices, and the byte-wise exclusive or.
pub mod Laws
use hpke_rs.Prelude.{
  ℕ, List, [], ◌∷◌, ◌++◌, bit_xor, Outcome, ok, panic, length, ◌==◌, if◌then◌else◌,
}
use hpke_rs.Prelude.Bytes.{Bytes}

-- `values.join(&[][..])`
unfoldable pub concat : List Bytes → Bytes
concat [] = []
concat (v ∷ values) = v ++ concat values

-- `a.iter().zip(b).map(|(x, y)| x ^ y)`
unfoldable pub zip_xor : Bytes → Bytes → Bytes
zip_xor [] b = []
zip_xor (x ∷ a) [] = []
zip_xor (x ∷ a) (y ∷ b) = bit_xor x y ∷ zip_xor a b

unfoldable pub xor_bytes {ℓ} : {E : Type ℓ} → Bytes → Bytes → Outcome E Bytes
unfolding zip_xor
xor_bytes a b = if length a == length b then ok (zip_xor a b) else panic
