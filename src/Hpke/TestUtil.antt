-- ===== src/Hpke/TestUtil.antt =====
-- src/lib.rs, `test_util`: the accessors of a context and the hex conversions. A text of hex digits
-- is the list of its bytes.
use hpke_rs.Prelude.{
  ℕ, ◌+◌, ◌-◌, ◌*◌, ◌/◌, ◌%◌, ◌<◌, ◌≡◌, refl, [], ◌∷◌, ◌&&◌, false, Option, none, some, Outcome, ok,
  panic, ◌>>=◌, length, ltb, leb, ◌==◌, is_empty, arith, if◌then◌else◌,
}
use hpke_rs.Prelude.Bytes.{Bytes, IsBytes}
use hpke_rs.Traits.Crypto.{HpkeCrypto}
use hpke_rs.Hpke.Errors.{HpkeError}
use hpke_rs.Hpke.Context.{Context}

-- What the tests read of a context.
module _ {C : HpkeCrypto} where
  unfoldable pub key : Context C → Bytes
  key self = self.key

  unfoldable pub nonce : Context C → Bytes
  nonce self = self.nonce

  unfoldable pub exporter_secret : Context C → Bytes
  exporter_secret self = self.exporter_secret

  unfoldable pub sequence_number : Context C → ℕ
  sequence_number self = self.sequence_number

-- The digit of `{:02X}` for a number below 16.
abbrev upper_digit : ℕ → ℕ
upper_digit n = if ltb n 10 then b'0' + n else (b'A' - 10) + n

unfoldable pub bytes_to_hex : Bytes → Bytes
bytes_to_hex [] = []
bytes_to_hex (b ∷ bytes) = upper_digit (b / 16) ∷ upper_digit (b % 16) ∷ bytes_to_hex bytes

-- `char::to_digit(16)`
unfoldable pub digit_value : ℕ → Option ℕ
digit_value c =
    if leb b'0' c && leb c b'9'
    then some (c - b'0')
    else if leb b'A' c && leb c b'F'
    then some (c - (b'A' - 10))
    else if leb b'a' c && leb c b'f'
    then some (c - (b'a' - 10))
    else none

-- `u8::from_str_radix(…, 16).unwrap()` of two bytes, where a plus sign may stand first.
unfoldable pub parse_byte : ℕ → ℕ → Outcome HpkeError ℕ
unfolding digit_value
parse_byte c d = elim (digit_value d) [
  | none ↦ panic
  | some low ↦
      if c == b'+'
      then ok low
      else elim (digit_value c) [ none ↦ panic | some high ↦ ok (high * 16 + low) ]
]

-- The loop over the pairs.
unfoldable pub decode_pairs : Bytes → Outcome HpkeError Bytes
unfolding parse_byte
decode_pairs [] = ok []
decode_pairs (c ∷ []) = panic
decode_pairs (c ∷ d ∷ hex) = parse_byte c d >>= λ b. decode_pairs hex >>= λ bytes. ok (b ∷ bytes)

unfoldable pub hex_to_bytes : Bytes → Outcome HpkeError Bytes
unfolding decode_pairs
hex_to_bytes hex = if length hex % 2 == 0 then decode_pairs hex else panic

unfoldable pub hex_to_bytes_option : Option Bytes → Outcome HpkeError Bytes
unfolding hex_to_bytes
hex_to_bytes_option (some s) = hex_to_bytes s
hex_to_bytes_option none = ok []

unfoldable pub vec_to_option_slice : Bytes → Option Bytes
vec_to_option_slice v = if is_empty v then none else some v

digit_value-upper_digit : (n : ℕ) → n < 16 → digit_value (upper_digit n) ≡ some n
unfolding digit_value
digit_value-upper_digit n h = ground arith

parse_byte-upper_digit :
    (high low : ℕ)
    → high < 16
    → low < 16
    → parse_byte (upper_digit high) (upper_digit low) ≡ ok (high * 16 + low)
unfolding parse_byte
parse_byte-upper_digit high low h k =
    let plus : (upper_digit high == b'+') ≡ false = ground arith in
    rw (parse_byte, digit_value-upper_digit low k, plus, digit_value-upper_digit high h)

even_length : (bytes : Bytes) → length (bytes_to_hex bytes) % 2 ≡ 0
unfolding bytes_to_hex
even_length [] = refl
even_length (b ∷ bytes) = omega (arith, even_length bytes)

decode_pairs-bytes_to_hex :
    (bytes : Bytes) → IsBytes bytes → decode_pairs (bytes_to_hex bytes) ≡ ok bytes
unfolding decode_pairs bytes_to_hex
decode_pairs-bytes_to_hex [] h = refl
decode_pairs-bytes_to_hex (b ∷ bytes) h =
    let whole : b / 16 * 16 + b % 16 ≡ b = omega arith in
    rw (
      parse_byte-upper_digit (b / 16) (b % 16) (omega (arith, h.0)) (omega arith),
      decode_pairs-bytes_to_hex bytes h.1,
      whole,
    )

-- Bytes below 256 that are written in hex are read back from it, with no panic.
pub hex_to_bytes-bytes_to_hex :
    (bytes : Bytes) → IsBytes bytes → hex_to_bytes (bytes_to_hex bytes) ≡ ok bytes
unfolding hex_to_bytes
hex_to_bytes-bytes_to_hex bytes h = rw (even_length bytes) (decode_pairs-bytes_to_hex bytes h)
