-- ===== src/Kdf/Separation.antt =====
-- Domain separation: what the labelled calls of src/kdf.rs hand to the key derivation.
use hpke_rs.Prelude.{
  ℕ, ◌%◌, ◌^◌, ◌≡◌, refl, ap, ◌∙◌, sym, String, ◌∷◌, ◌++◌, length, append_inj, append_cancel, arith,
  ◌==◌, if◌then◌else◌,
}
use hpke_rs.Prelude.Bytes.{Bytes, as_bytes, u16_to_be_bytes}
use hpke_rs.Prelude.Bytes.Laws.{u16_to_be_bytes-injective}
use hpke_rs.Kdf.{hpke_version, labeled_ikm, labeled_info}
use mathlib.Core.List.{append-nil}

-- The labels that the crate passes to `labeled_expand`, and those it passes to `labeled_extract`.
pub data ExpandLabel : Type 0 where
  key base_nonce exp sec shared_secret sk candidate : ExpandLabel

pub data ExtractLabel : Type 0 where
  psk_id_hash info_hash secret eae_prk dkp_prk : ExtractLabel

abbrev pub expand_text : ExpandLabel → String
expand_text key = "key"
expand_text base_nonce = "base_nonce"
expand_text exp = "exp"
expand_text sec = "sec"
expand_text shared_secret = "shared_secret"
expand_text sk = "sk"
expand_text candidate = "candidate"

abbrev pub extract_text : ExtractLabel → String
extract_text psk_id_hash = "psk_id_hash"
extract_text info_hash = "info_hash"
extract_text secret = "secret"
extract_text eae_prk = "eae_prk"
extract_text dkp_prk = "dkp_prk"

-- The first two bytes tell the labels apart.
expand_label_of : Bytes → ExpandLabel
expand_label_of (x ∷ y ∷ _) =
    if x == b'k'
    then key
    else if x == b'b'
    then base_nonce
    else if x == b'e'
    then exp
    else if x == b'c'
    then candidate
    else if y == b'e'
    then sec
    else if y == b'h'
    then shared_secret
    else sk
expand_label_of _ = sk

extract_label_of : Bytes → ExtractLabel
extract_label_of (x ∷ _) =
    if x == b'p'
    then psk_id_hash
    else if x == b'i'
    then info_hash
    else if x == b's'
    then secret
    else if x == b'e'
    then eae_prk
    else dkp_prk
extract_label_of _ = secret

expand_label_of-append :
    (l : ExpandLabel) (xs : Bytes) → expand_label_of (as_bytes (expand_text l) ++ xs) ≡ l
unfolding expand_label_of
expand_label_of-append key xs = refl
expand_label_of-append base_nonce xs = refl
expand_label_of-append exp xs = refl
expand_label_of-append sec xs = refl
expand_label_of-append shared_secret xs = refl
expand_label_of-append sk xs = refl
expand_label_of-append candidate xs = refl

extract_label_of-append :
    (l : ExtractLabel) (xs : Bytes) → extract_label_of (as_bytes (extract_text l) ++ xs) ≡ l
unfolding extract_label_of
extract_label_of-append psk_id_hash xs = refl
extract_label_of-append info_hash xs = refl
extract_label_of-append secret xs = refl
extract_label_of-append eae_prk xs = refl
extract_label_of-append dkp_prk xs = refl

pub labeled_info_lem :
    (len : ℕ) (suite_id : Bytes) (label : String) (info : Bytes)
    → labeled_info len suite_id label info
      ≡ u16_to_be_bytes (len % 2 ^ 16) ++ (hpke_version ++ (suite_id ++ (as_bytes label ++ info)))
unfolding labeled_info
labeled_info_lem len suite_id label info = simp append-nil

pub labeled_ikm_lem :
    (suite_id : Bytes) (label : String) (ikm : Bytes)
    → labeled_ikm suite_id label ikm ≡ hpke_version ++ (suite_id ++ (as_bytes label ++ ikm))
unfolding labeled_ikm
labeled_ikm_lem suite_id label ikm = simp append-nil

-- What follows the suite identifier.
expand-separates :
    (k l : ExpandLabel) (x y : Bytes)
    → as_bytes (expand_text k) ++ x ≡ as_bytes (expand_text l) ++ y
    → (k ≡ l) × (x ≡ y)
expand-separates k l x y h =
    let same : k ≡ l =
      sym (expand_label_of-append k x) ∙ ap expand_label_of h ∙ expand_label_of-append l y in
    (same, append_cancel (as_bytes (expand_text l)) x y (rw same at h))

extract-separates :
    (k l : ExtractLabel) (x y : Bytes)
    → as_bytes (extract_text k) ++ x ≡ as_bytes (extract_text l) ++ y
    → (k ≡ l) × (x ≡ y)
extract-separates k l x y h =
    let same : k ≡ l =
      sym (extract_label_of-append k x) ∙ ap extract_label_of h ∙ extract_label_of-append l y in
    (same, append_cancel (as_bytes (extract_text l)) x y (rw same at h))

-- Two inputs of the labelled expansion under labels of the crate are equal only if their suite
-- identifiers, labels and contexts are equal and their lengths agree modulo 2 ^ 16, if the two
-- suite identifiers are equally long.
pub labeled_info-separates :
    (m n : ℕ) (s t : Bytes) (k l : ExpandLabel) (x y : Bytes)
    → length s ≡ length t
    → labeled_info m s (expand_text k) x ≡ labeled_info n t (expand_text l) y
    → (m % 2 ^ 16 ≡ n % 2 ^ 16) × (s ≡ t) × (k ≡ l) × (x ≡ y)
labeled_info-separates m n s t k l x y same h =
    let e =
      sym (labeled_info_lem m s (expand_text k) x) ∙ h ∙ labeled_info_lem n t (expand_text l) y in
    let (words, rest) =
      append_inj (u16_to_be_bytes (m % 2 ^ 16)) (u16_to_be_bytes (n % 2 ^ 16)) _ _
        (unfold u16_to_be_bytes in refl) e in
    let (suites, tails) = append_inj s t _ _ same (append_cancel hpke_version _ _ rest) in
    let (labels, contexts) = expand-separates k l x y tails in
    (omega (arith, u16_to_be_bytes-injective _ _ words), suites, labels, contexts)

-- Two inputs of the labelled extraction under labels of the crate are equal only if their suite
-- identifiers, labels and keying materials are equal, if the two suite identifiers are equally
-- long.
pub labeled_ikm-separates :
    (s t : Bytes) (k l : ExtractLabel) (x y : Bytes)
    → length s ≡ length t
    → labeled_ikm s (extract_text k) x ≡ labeled_ikm t (extract_text l) y
    → (s ≡ t) × (k ≡ l) × (x ≡ y)
labeled_ikm-separates s t k l x y same h =
    let e = sym (labeled_ikm_lem s (extract_text k) x) ∙ h ∙ labeled_ikm_lem t (extract_text l) y in
    let (suites, tails) = append_inj s t _ _ same (append_cancel hpke_version _ _ e) in
    let (labels, inputs) = extract-separates k l x y tails in (suites, labels, inputs)
