-- ===== src/Hpke/Mode.antt =====
-- src/lib.rs: the four modes of HPKE and their numbers.
use hpke_rs.Prelude.{ℕ, ◌≡◌, ◌↔◌, Outcome, ok, err, ◌==◌, if◌then◌else◌, arith}
use hpke_rs.Prelude.Decode.{IsDecoder, IsDecoder-of_iff}
use hpke_rs.Hpke.Errors.{HpkeError, unknown_mode}

pub data Mode : Type 0 where
  base psk auth auth_psk : Mode

-- `mode as u8`.
unfoldable pub mode_u8 : Mode → ℕ
mode_u8 base = 0x00
mode_u8 psk = 0x01
mode_u8 auth = 0x02
mode_u8 auth_psk = 0x03

unfoldable pub mode_try_from : ℕ → Outcome HpkeError Mode
mode_try_from x =
    if x == 0x00
    then ok base
    else if x == 0x01
    then ok psk
    else if x == 0x02
    then ok auth
    else if x == 0x03
    then ok auth_psk
    else err unknown_mode

mode_try_from_iff : (x : ℕ) (m : Mode) → (mode_try_from x ≡ ok m) ↔ (mode_u8 m ≡ x)
unfolding mode_try_from mode_u8
mode_try_from_iff x m = ground arith

-- The conversion of each number gives the mode that has the number, or, where no mode has it,
-- UnknownMode.
pub mode_try_from-IsDecoder : IsDecoder mode_u8 mode_try_from unknown_mode
unfolding mode_try_from
mode_try_from-IsDecoder =
    IsDecoder-of_iff mode_u8 mode_try_from _ mode_try_from_iff (λ x f h. ground arith)
      (λ x h. ground arith)
