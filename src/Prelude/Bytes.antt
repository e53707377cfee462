-- ===== src/Prelude/Bytes.antt =====
-- Byte strings: the bytes of texts and of machine words.
pub mod Laws
use Prim.Native.Nat.{ℕ, ◌<◌, ◌/◌, ◌%◌, ◌^◌}
use Prim.Native.Char.{code}
use Prim.Native.String.{String}
use mathlib.Core.List.{List, [], ◌∷◌}
use hpke_rs.Prelude.Lists.{All}

abbrev pub Bytes : Type 0
Bytes = List ℕ

abbrev pub IsBytes : Bytes → Type 0
IsBytes = All (λ x. x < 256)

-- `as_bytes` of an ASCII text, where a character's code is its one byte.
abbrev pub as_bytes : String → Bytes
as_bytes String.[] = []
as_bytes (String.◌∷◌ c s) = code c ∷ as_bytes s

-- `to_be_bytes` of a `u16` and of a `u32`.
unfoldable pub u16_to_be_bytes : ℕ → Bytes
u16_to_be_bytes x = x / 2 ^ 8 % 256 ∷ x % 256 ∷ []

unfoldable pub u32_to_be_bytes : ℕ → Bytes
u32_to_be_bytes x = x / 2 ^ 24 % 256 ∷ x / 2 ^ 16 % 256 ∷ x / 2 ^ 8 % 256 ∷ x % 256 ∷ []
