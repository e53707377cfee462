-- ===== src/Hpke/Suites.antt =====
-- The suite identifiers of the KEM (src/kem.rs) and of HPKE (src/lib.rs) in the inputs of the key
-- derivations.
use hpke_rs.Prelude.{
  ℕ, ◌%◌, ◌^◌, ◌≡◌, refl, ap, [], ◌++◌, ◌∙◌, sym, length, append_inj, append_cancel, head_or, arith,
}
use hpke_rs.Prelude.Bytes.{Bytes, as_bytes, u16_to_be_bytes}
use hpke_rs.Prelude.Bytes.Laws.{u16_to_be_bytes-injective, length-u16_to_be_bytes}
use hpke_rs.Build.{Build}
use hpke_rs.Traits.Types.{KemAlgorithm, KdfAlgorithm, AeadAlgorithm, kem_u16, kdf_u16, aead_u16}
use hpke_rs.Traits.Crypto.{HpkeCrypto}
use hpke_rs.Util.{concat}
use hpke_rs.Kdf.{hpke_version, labeled_info, labeled_ikm}
use hpke_rs.Kdf.Separation.{
  ExpandLabel, ExtractLabel, expand_text, extract_text, labeled_info-separates,
  labeled_ikm-separates, labeled_info_lem, labeled_ikm_lem,
}
use hpke_rs.Kem
use hpke_rs.Hpke.Config
use hpke_rs.Hpke.Config.{Hpke}

kem_u16-injective : (a c : KemAlgorithm) → kem_u16 a % 2 ^ 16 ≡ kem_u16 c % 2 ^ 16 → a ≡ c
unfolding kem_u16
kem_u16-injective a c h = ground arith

kdf_u16-injective : (a c : KdfAlgorithm) → kdf_u16 a % 2 ^ 16 ≡ kdf_u16 c % 2 ^ 16 → a ≡ c
unfolding kdf_u16
kdf_u16-injective a c h = ground arith

aead_u16-injective : (a c : AeadAlgorithm) → aead_u16 a % 2 ^ 16 ≡ aead_u16 c % 2 ^ 16 → a ≡ c
unfolding aead_u16
aead_u16-injective a c h = ground arith

-- Two words in front of the rest.
word_inj :
    (x y : ℕ) (xs ys : Bytes)
    → u16_to_be_bytes x ++ xs ≡ u16_to_be_bytes y ++ ys
    → (x % 2 ^ 16 ≡ y % 2 ^ 16) × (xs ≡ ys)
word_inj x y xs ys h =
    let (words, rest) =
      append_inj (u16_to_be_bytes x) (u16_to_be_bytes y) xs ys
        (length-u16_to_be_bytes x ∙ sym (length-u16_to_be_bytes y)) h in
    (u16_to_be_bytes-injective x y words, rest)

kem_suite-injective : (a c : KemAlgorithm) → Kem.ciphersuite a ≡ Kem.ciphersuite c → a ≡ c
unfolding Kem.ciphersuite concat
kem_suite-injective a c h =
    kem_u16-injective a c
      (word_inj (kem_u16 a) (kem_u16 c) [] [] (append_cancel (as_bytes "KEM") _ _ h)).0

module _ (b : Build) (C : HpkeCrypto) where
  -- The suites under which the crate derives: those of the KEMs, and those of the configurations.
  pub data Suite : Type 0 where
    kem : KemAlgorithm → Suite
    hpke : Hpke C → Suite

  abbrev pub suite_id : Suite → Bytes
  suite_id (kem alg) = Kem.ciphersuite alg
  suite_id (hpke h) = Config.ciphersuite b C h

  -- A KEM's suite is never a configuration's; those of a kind are the same for the same algorithms.
  abbrev pub SameSuite : Suite → Suite → Type 0
  SameSuite (kem a) (kem c) = a ≡ c
  SameSuite (hpke g) (hpke h) =
      (g.kem_id ≡ h.kem_id) × (g.kdf_id ≡ h.kdf_id) × (g.aead_id ≡ h.aead_id)
  SameSuite (kem a) (hpke h) = ⊥
  SameSuite (hpke g) (kem c) = ⊥

  hpke_suite-injective :
      (g h : Hpke C)
      → Config.ciphersuite b C g ≡ Config.ciphersuite b C h
      → SameSuite (hpke g) (hpke h)
  unfolding Config.ciphersuite concat
  hpke_suite-injective g h e =
      let (kems, rest) =
        word_inj (kem_u16 g.kem_id) (kem_u16 h.kem_id) _ _
          (append_cancel (as_bytes "HPKE") _ _ e) in
      let (kdfs, last) = word_inj (kdf_u16 g.kdf_id) (kdf_u16 h.kdf_id) _ _ rest in
      let (aeads, end) = word_inj (aead_u16 g.aead_id) (aead_u16 h.aead_id) _ _ last in
      (kem_u16-injective _ _ kems, kdf_u16-injective _ _ kdfs, aead_u16-injective _ _ aeads)

  -- The first byte tells the kinds apart.
  kinds_differ :
      (a : KemAlgorithm) (h : Hpke C) (xs ys : Bytes)
      → Kem.ciphersuite a ++ xs ≡ Config.ciphersuite b C h ++ ys
      → ⊥
  unfolding Kem.ciphersuite Config.ciphersuite concat
  kinds_differ a h xs ys e = omega (arith, ap (head_or 0) e)

  suite_id-separates :
      (S T : Suite) (xs ys : Bytes)
      → suite_id S ++ xs ≡ suite_id T ++ ys
      → SameSuite S T × (length (suite_id S) ≡ length (suite_id T))
  unfolding Kem.ciphersuite Config.ciphersuite concat u16_to_be_bytes
  suite_id-separates (kem a) (kem c) xs ys e =
      (kem_suite-injective a c (append_inj _ _ xs ys refl e).0, refl)
  suite_id-separates (hpke g) (hpke h) xs ys e =
      (hpke_suite-injective g h (append_inj _ _ xs ys refl e).0, refl)
  suite_id-separates (kem a) (hpke h) xs ys e = absurd (kinds_differ a h xs ys e)
  suite_id-separates (hpke g) (kem c) xs ys e = absurd (kinds_differ c g ys xs (sym e))

  -- Two inputs of the labelled expansion, under suite identifiers of KEMs or of configurations
  -- and labels of the crate, are equal only if both suites are of one kind and have the same
  -- algorithms, the labels and the contexts are equal, and the lengths agree modulo 2 ^ 16.
  pub labeled_info-SameSuite :
      (m n : ℕ) (S T : Suite) (k l : ExpandLabel) (x y : Bytes)
      → labeled_info m (suite_id S) (expand_text k) x
        ≡ labeled_info n (suite_id T) (expand_text l) y
      → (m % 2 ^ 16 ≡ n % 2 ^ 16) × SameSuite S T × (k ≡ l) × (x ≡ y)
  labeled_info-SameSuite m n S T k l x y h =
      let e =
        sym (labeled_info_lem m (suite_id S) (expand_text k) x)
        ∙ h
        ∙ labeled_info_lem n (suite_id T) (expand_text l) y in
      let tails = (word_inj (m % 2 ^ 16) (n % 2 ^ 16) _ _ e).1 in
      let (same, width) = suite_id-separates S T _ _ (append_cancel hpke_version _ _ tails) in
      let (lengths, _, labels, contexts) =
        labeled_info-separates m n (suite_id S) (suite_id T) k l x y width h in
      (lengths, same, labels, contexts)

  -- Two inputs of the labelled extraction, under suite identifiers of KEMs or of configurations
  -- and labels of the crate, are equal only if both suites are of one kind and have the same
  -- algorithms, and the labels and the keying materials are equal.
  pub labeled_ikm-SameSuite :
      (S T : Suite) (k l : ExtractLabel) (x y : Bytes)
      → labeled_ikm (suite_id S) (extract_text k) x ≡ labeled_ikm (suite_id T) (extract_text l) y
      → SameSuite S T × (k ≡ l) × (x ≡ y)
  labeled_ikm-SameSuite S T k l x y h =
      let e =
        sym (labeled_ikm_lem (suite_id S) (extract_text k) x)
        ∙ h
        ∙ labeled_ikm_lem (suite_id T) (extract_text l) y in
      let (same, width) = suite_id-separates S T _ _ (append_cancel hpke_version _ _ e) in
      let (_, labels, inputs) = labeled_ikm-separates (suite_id S) (suite_id T) k l x y width h in
      (same, labels, inputs)
