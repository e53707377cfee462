-- ===== src/Hpke/Display/Names.antt =====
-- The names of configurations (`Display for Hpke`, src/lib.rs).
use hpke_rs.Prelude.{
  ℕ, ◌+◌, ◌≡◌, ◌≢◌, ◌↔◌, ◌∙◌, refl, sym, ap, [], ◌∷◌, ◌++◌, String, arith, ◌==◌, All, if◌then◌else◌,
}
use hpke_rs.Prelude.Bytes.{Bytes, as_bytes}
use hpke_rs.Traits.Types.{
  KemAlgorithm, KdfAlgorithm, AeadAlgorithm, dh_kem_p256, dh_kem_p384, dh_kem_p521, dh_kem_25519,
  dh_kem_448, hkdf_sha256, hkdf_sha384, hkdf_sha512, aes128_gcm, aes256_gcm, cha_cha20_poly1305,
  hpke_export,
}
use hpke_rs.Traits.Types.Display.{kem_fmt, kdf_fmt, aead_fmt}
use hpke_rs.Traits.Crypto.{HpkeCrypto}
use hpke_rs.Hpke.Mode.{Mode}
use hpke_rs.Hpke.Config.{Hpke}
use hpke_rs.Hpke.Schedule.Agreement.{SameConfig}
use hpke_rs.Hpke.Display.{mode_fmt, to_lowercase, hpke_fmt}

abbrev lower : String → Bytes
unfolding to_lowercase
lower text = to_lowercase (as_bytes text)

-- No underscore in a name.
abbrev IsName : Bytes → Type 0
IsName = All (λ c. c ≢ b'_')

name_inj :
    (xs xs' ys ys' : Bytes)
    → IsName xs
    → IsName xs'
    → xs ++ b'_' ∷ ys ≡ xs' ++ b'_' ∷ ys'
    → (xs ≡ xs') × (ys ≡ ys')
name_inj [] [] ys ys' p q e = (refl, ground arith)
name_inj [] (x ∷ xs') ys ys' p q e = absurd (q.0 (ground arith))
name_inj (x ∷ xs) [] ys ys' p q e = absurd (p.0 (ground arith))
name_inj (x ∷ xs) (x' ∷ xs') ys ys' p q e =
    let (same, rest) = name_inj xs xs' ys ys' p.1 q.1 (ground arith) in (ground arith, rest)

-- Texts of the four kinds are names, and each is of one item.
mode-IsName : (m : Mode) → IsName (lower (mode_fmt m))
unfolding mode_fmt to_lowercase
mode-IsName Mode.base = omega arith
mode-IsName Mode.psk = omega arith
mode-IsName Mode.auth = omega arith
mode-IsName Mode.auth_psk = omega arith

kem-IsName : (m : KemAlgorithm) → IsName (lower (kem_fmt m))
unfolding kem_fmt to_lowercase
kem-IsName dh_kem_p256 = omega arith
kem-IsName dh_kem_p384 = omega arith
kem-IsName dh_kem_p521 = omega arith
kem-IsName dh_kem_25519 = omega arith
kem-IsName dh_kem_448 = omega arith

kdf-IsName : (m : KdfAlgorithm) → IsName (lower (kdf_fmt m))
unfolding kdf_fmt to_lowercase
kdf-IsName hkdf_sha256 = omega arith
kdf-IsName hkdf_sha384 = omega arith
kdf-IsName hkdf_sha512 = omega arith

-- The sum of the bytes tells the texts of a kind apart.
abbrev sum : Bytes → ℕ
sum [] = 0
sum (c ∷ text) = c + sum text

retract-injective :
    {A : Type 0} (text : A → Bytes) (read : ℕ → A)
    → ((a : A) → read (sum (text a)) ≡ a)
    → (a c : A) → text a ≡ text c
    → a ≡ c
retract-injective text read found a c e = sym (found a) ∙ ap (λ t. read (sum t)) e ∙ found c

abbrev mode_of : ℕ → Mode
mode_of n =
    if n == 411
    then Mode.base
    else if n == 334
    then Mode.psk
    else if n == 434
    then Mode.auth
    else Mode.auth_psk

mode_of-sum : (m : Mode) → mode_of (sum (lower (mode_fmt m))) ≡ m
unfolding mode_fmt to_lowercase
mode_of-sum Mode.base = refl
mode_of-sum Mode.psk = refl
mode_of-sum Mode.auth = refl
mode_of-sum Mode.auth_psk = refl

mode_fmt-injective : (m n : Mode) → lower (mode_fmt m) ≡ lower (mode_fmt n) → m ≡ n
mode_fmt-injective = retract-injective (λ m. lower (mode_fmt m)) mode_of mode_of-sum

abbrev kem_of : ℕ → KemAlgorithm
kem_of n =
    if n == 790
    then dh_kem_p256
    else if n == 792
    then dh_kem_p384
    else if n == 785
    then dh_kem_p521
    else if n == 783
    then dh_kem_25519
    else dh_kem_448

kem_of-sum : (m : KemAlgorithm) → kem_of (sum (lower (kem_fmt m))) ≡ m
unfolding kem_fmt to_lowercase
kem_of-sum dh_kem_p256 = refl
kem_of-sum dh_kem_p384 = refl
kem_of-sum dh_kem_p521 = refl
kem_of-sum dh_kem_25519 = refl
kem_of-sum dh_kem_448 = refl

kem_fmt-injective : (m n : KemAlgorithm) → lower (kem_fmt m) ≡ lower (kem_fmt n) → m ≡ n
kem_fmt-injective = retract-injective (λ m. lower (kem_fmt m)) kem_of kem_of-sum

abbrev kdf_of : ℕ → KdfAlgorithm
kdf_of n = if n == 886 then hkdf_sha256 else if n == 888 then hkdf_sha384 else hkdf_sha512

kdf_of-sum : (m : KdfAlgorithm) → kdf_of (sum (lower (kdf_fmt m))) ≡ m
unfolding kdf_fmt to_lowercase
kdf_of-sum hkdf_sha256 = refl
kdf_of-sum hkdf_sha384 = refl
kdf_of-sum hkdf_sha512 = refl

kdf_fmt-injective : (m n : KdfAlgorithm) → lower (kdf_fmt m) ≡ lower (kdf_fmt n) → m ≡ n
kdf_fmt-injective = retract-injective (λ m. lower (kdf_fmt m)) kdf_of kdf_of-sum

abbrev aead_of : ℕ → AeadAlgorithm
aead_of n =
    if n == 779
    then aes128_gcm
    else if n == 781
    then aes256_gcm
    else if n == 1351
    then cha_cha20_poly1305
    else hpke_export

aead_of-sum : (m : AeadAlgorithm) → aead_of (sum (lower (aead_fmt m))) ≡ m
unfolding aead_fmt to_lowercase
aead_of-sum aes128_gcm = refl
aead_of-sum aes256_gcm = refl
aead_of-sum cha_cha20_poly1305 = refl
aead_of-sum hpke_export = refl

aead_fmt-injective : (m n : AeadAlgorithm) → lower (aead_fmt m) ≡ lower (aead_fmt n) → m ≡ n
aead_fmt-injective = retract-injective (λ m. lower (aead_fmt m)) aead_of aead_of-sum

module _ {C : HpkeCrypto} where
  hpke_fmt-injective : (g h : Hpke C) → hpke_fmt g ≡ hpke_fmt h → SameConfig g h
  unfolding hpke_fmt mode_fmt kem_fmt kdf_fmt aead_fmt to_lowercase
  hpke_fmt-injective g h e =
      let (modes, rest) =
        name_inj (lower (mode_fmt g.mode)) (lower (mode_fmt h.mode)) _ _ (mode-IsName g.mode)
          (mode-IsName h.mode) e in
      let (kems, rest') =
        name_inj (lower (kem_fmt g.kem_id)) (lower (kem_fmt h.kem_id)) _ _ (kem-IsName g.kem_id)
          (kem-IsName h.kem_id) rest in
      let (kdfs, aeads) =
        name_inj (lower (kdf_fmt g.kdf_id)) (lower (kdf_fmt h.kdf_id)) _ _ (kdf-IsName g.kdf_id)
          (kdf-IsName h.kdf_id) rest' in
      record {
        mode = mode_fmt-injective g.mode h.mode modes;
        kem_id = kem_fmt-injective g.kem_id h.kem_id kems;
        kdf_id = kdf_fmt-injective g.kdf_id h.kdf_id kdfs;
        aead_id = aead_fmt-injective g.aead_id h.aead_id aeads;
      }

  -- Two configurations are displayed by the same name exactly when their mode and their three
  -- algorithms are the same.
  pub hpke_fmt_iff : (g h : Hpke C) → (hpke_fmt g ≡ hpke_fmt h) ↔ SameConfig g h
  unfolding hpke_fmt mode_fmt kem_fmt kdf_fmt aead_fmt to_lowercase
  hpke_fmt_iff g h =
      (hpke_fmt-injective g h, λ same. rw (same.mode, same.kem_id, same.kdf_id, same.aead_id))
