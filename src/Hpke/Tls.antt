-- ===== src/Hpke/Tls.antt =====
-- src/lib.rs: the `tls_codec` traits of public keys, over the crate's codec of byte vectors.
use hpke_rs.Prelude.{ℕ, ◌≡◌, refl, String, Outcome, ok, err, map_ok}
use hpke_rs.Prelude.Bytes.{Bytes}
use hpke_rs.Hpke.Keys.{HpkePublicKey, public_key_as_slice}

-- The crate tls_codec: a writer that it writes to, a reader that it reads from, and the codec of
-- `VLByteSlice` and `VLBytes`.
pub record TlsCodec : Type 1 where
  pub Writer : Type 0
  pub Reader : Type 0
  pub Error : Type 0
  pub decoding_error : String → Error
  pub serialized_len : Bytes → ℕ
  pub serialize : Bytes → Writer → Outcome Error ℕ × Writer
  pub deserialize : Reader → Outcome Error Bytes × Reader

module _ (T : TlsCodec) where
  -- `Size` and `Serialize`
  unfoldable pub tls_serialized_len : HpkePublicKey → ℕ
  unfolding public_key_as_slice
  tls_serialized_len self = T.serialized_len (public_key_as_slice self)

  unfoldable pub tls_serialize : HpkePublicKey → T.Writer → Outcome T.Error ℕ × T.Writer
  unfolding public_key_as_slice
  tls_serialize self writer = T.serialize (public_key_as_slice self) writer

  -- The same for a reference to a key.
  unfoldable pub tls_serialized_len_ref : HpkePublicKey → ℕ
  unfolding public_key_as_slice
  tls_serialized_len_ref self = T.serialized_len (public_key_as_slice self)

  unfoldable pub tls_serialize_ref : HpkePublicKey → T.Writer → Outcome T.Error ℕ × T.Writer
  unfolding public_key_as_slice
  tls_serialize_ref self writer = T.serialize (public_key_as_slice self) writer

  -- `Deserialize`
  unfoldable pub tls_deserialize : T.Reader → Outcome T.Error HpkePublicKey × T.Reader
  tls_deserialize bytes =
      let (value, rest) = T.deserialize bytes in (map_ok (λ v. record { value = v }) value, rest)

  -- `Deserialize` for a reference, which nothing could own.
  unfoldable pub tls_deserialize_ref : T.Reader → Outcome T.Error HpkePublicKey × T.Reader
  tls_deserialize_ref bytes =
      (err (T.decoding_error "Error trying to deserialize a reference."), bytes)

-- What the crate documents: a reader of what was written to an empty writer reads it back, and
-- stands behind it.
pub record IsCodec (T : TlsCodec) (empty : T.Writer) (reader : T.Writer → T.Reader → T.Reader)
    : Type 0 where
  pub deserialize_serialize :
      (bytes : Bytes) (rest : T.Reader) (written : ℕ)
      → (T.serialize bytes empty).0 ≡ ok written
      → T.deserialize (reader (T.serialize bytes empty).1 rest) ≡ (ok bytes, rest)

-- A key that is written, by value or by reference, is read back.
pub tls_deserialize-tls_serialize :
    (T : TlsCodec) (empty : T.Writer) (reader : T.Writer → T.Reader → T.Reader)
    → IsCodec T empty reader
    → (key : HpkePublicKey) (rest : T.Reader) (written : ℕ)
    → (tls_serialize_ref T key empty).0 ≡ ok written
    → (tls_deserialize T (reader (tls_serialize T key empty).1 rest) ≡ (ok key, rest))
      × (tls_deserialize T (reader (tls_serialize_ref T key empty).1 rest) ≡ (ok key, rest))
unfolding tls_serialize tls_serialize_ref tls_deserialize
tls_deserialize-tls_serialize T empty reader I key rest written h =
    let read = I.deserialize_serialize key.value rest written h in (rw read refl, rw read refl)
