-- ===== src/Hpke/Display.antt =====
-- src/lib.rs: the texts of the library's types.
pub mod Names
use Prim.Native.String as Text
use hpke_rs.Prelude.{
  ℕ, ◌+◌, ◌≡◌, ◌≢◌, ◌∙◌, refl, sym, ap, List, [], ◌∷◌, ◌++◌, map, ◌&&◌, String, arith, leb, All,
  if◌then◌else◌,
}
use hpke_rs.Prelude.Bytes.{Bytes, as_bytes}
use hpke_rs.Build.{Build}
use hpke_rs.Traits.Types.{KemAlgorithm, KdfAlgorithm, AeadAlgorithm}
use hpke_rs.Traits.Types.Display.{kem_fmt, kdf_fmt, aead_fmt}
use hpke_rs.Traits.Crypto.{HpkeCrypto}
use hpke_rs.Hpke.Errors.{
  HpkeError, open_error, invalid_config, invalid_input, unknown_mode, inconsistent_psk, missing_psk,
  unnecessary_psk, insecure_psk, crypto_error, message_limit_reached, insufficient_randomness,
  lock_poisoned,
}
use hpke_rs.Hpke.Mode.{Mode}
use hpke_rs.Hpke.Keys.{HpkePrivateKey}
use hpke_rs.Hpke.Config.{Hpke}
use hpke_rs.Hpke.Context.{Context}
use hpke_rs.Hpke.Schedule.Agreement.{SameConfig}

unfoldable pub mode_debug : Mode → String
mode_debug Mode.base = "Base"
mode_debug Mode.psk = "Psk"
mode_debug Mode.auth = "Auth"
mode_debug Mode.auth_psk = "AuthPsk"

-- `impl Display for Mode`
unfoldable pub mode_fmt : Mode → String
unfolding mode_debug
mode_fmt self = mode_debug self

unfoldable pub error_debug : Build → HpkeError → String
error_debug b open_error = "OpenError"
error_debug b invalid_config = "InvalidConfig"
error_debug b invalid_input = "InvalidInput"
error_debug b unknown_mode = "UnknownMode"
error_debug b inconsistent_psk = "InconsistentPsk"
error_debug b missing_psk = "MissingPsk"
error_debug b unnecessary_psk = "UnnecessaryPsk"
error_debug b insecure_psk = "InsecurePsk"
error_debug b (crypto_error s) = Text.◌++◌ "CryptoError(" (Text.◌++◌ (b.debug_str s) ")")
error_debug b message_limit_reached = "MessageLimitReached"
error_debug b insufficient_randomness = "InsufficientRandomness"
error_debug b lock_poisoned = "LockPoisoned"

-- `impl Display for HpkeError`
unfoldable pub error_fmt : Build → HpkeError → String
unfolding error_debug
error_fmt b self = Text.◌++◌ "HPKE Error: " (error_debug b self)

-- `str::to_lowercase` on the bytes of an ASCII text.
unfoldable pub to_lowercase : Bytes → Bytes
to_lowercase = map (λ c. if leb b'A' c && leb c b'Z' then c + 32 else c)

-- `impl Display for Hpke`, in bytes.
unfoldable pub hpke_fmt : {C : HpkeCrypto} → Hpke C → Bytes
unfolding mode_fmt kem_fmt kdf_fmt aead_fmt to_lowercase
hpke_fmt self =
    to_lowercase (as_bytes (mode_fmt self.mode))
    ++ (b'_'
        ∷ (to_lowercase (as_bytes (kem_fmt self.kem_id))
            ++ (b'_'
                ∷ (to_lowercase (as_bytes (kdf_fmt self.kdf_id))
                    ++ (b'_' ∷ to_lowercase (as_bytes (aead_fmt self.aead_id)))))))

-- A field of a `Debug` text: the feature hazmat shows it.
abbrev shown : Build → String → String
shown b text = if b.hazmat then text else b.debug_str "***"

-- `impl Debug for Context`
unfoldable pub context_debug : {C : HpkeCrypto} → Build → Context C → String
context_debug b self = Text.◌++◌ "Context {\n  key: " (
    Text.◌++◌ (shown b (b.debug_bytes self.key)) (
      Text.◌++◌ "\n  nonce: " (
        Text.◌++◌ (shown b (b.debug_bytes self.nonce)) (
          Text.◌++◌ "\n exporter_secret: " (
            Text.◌++◌ (shown b (b.debug_bytes self.exporter_secret)) (
              Text.◌++◌ "\n seq no: "
                (Text.◌++◌ (shown b (b.debug_u32 self.sequence_number)) "\n}")))))))

-- `impl Debug for HpkePrivateKey`, as `{:?}` writes it.
unfoldable pub private_key_debug : Build → HpkePrivateKey → String
private_key_debug b self =
    Text.◌++◌ "HpkePrivateKey { value: " (Text.◌++◌ (shown b (b.debug_bytes self.value)) " }")
