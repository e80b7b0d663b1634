-- ===== src/Wal/Codec/Fields.antt =====
-- log_manager.cpp: what each field of a record that AppendRecord laid out reads as.
use Prim.Native.Nat.{bit_xor}
use flintdb.Prelude.{
  ℕ, ◌+◌, ◌*◌, ◌%◌, ◌^◌, ◌<◌, ◌≤◌, ◌≡◌, refl, ap, sym, ◌∙◌, inr, List, [], ◌∷◌, arith, length,
  replicate, length-replicate,
}
use flintdb.Bytes.{
  read_bytes, write_bytes, read_at, write_at, length-write_at, length-write_bytes,
  read_at-write_at_self, read_at-write_at-Apart, read_at-write_bytes-Apart,
  read_bytes-write_at-Apart, read_bytes-write_bytes_self,
}
use flintdb.Wal.LogRecord.{LogRecordType, begin, update, commit, abort, type_code}
use flintdb.Wal.Codec.{
  header_size, checksum_size, fnv_step, fnv1a32, write_header, seal, encode_record,
}

fnv_step-lt : (hash : ℕ) (bs : List ℕ) → hash < 2 ^ 32 → fnv_step hash bs < 2 ^ 32
unfolding fnv_step
fnv_step-lt hash [] h = h
fnv_step-lt hash (b ∷ bs) h = fnv_step-lt (bit_xor hash b * 0x01000193 % 2 ^ 32) bs (omega arith)

pub fnv1a32-lt : (bs : List ℕ) → fnv1a32 bs < 2 ^ 32
unfolding fnv1a32
fnv1a32-lt bs = fnv_step-lt 0x811c9dc5 bs (omega arith)

type_code-lt : (kind : LogRecordType) → type_code kind < 256
type_code-lt begin = omega arith
type_code-lt update = omega arith
type_code-lt commit = omega arith
type_code-lt abort = omega arith

module _ (lsn : ℕ) (kind : LogRecordType) (txn_id object_id page_id : ℕ) (payload : List ℕ) where
  zeros : List ℕ
  zeros = replicate (header_size + length payload + checksum_size) 0

  header : List ℕ
  header = write_header zeros lsn kind txn_id object_id page_id (length payload)

  body : List ℕ
  body = write_bytes header header_size payload

  abbrev pub encoded : List ℕ
  encoded = encode_record lsn kind txn_id object_id page_id payload

  encoded-eq : encoded ≡ seal body (length payload)
  unfolding encode_record body header zeros
  encoded-eq = refl

  length-zeros : length zeros ≡ header_size + length payload + checksum_size
  unfolding zeros
  length-zeros = length-replicate _ (let z : ℕ = 0 in z)

  length-header : length header ≡ header_size + length payload + checksum_size
  unfolding header write_header
  length-header =
      length-write_at 4 _ 25 _
      ∙ length-write_at 4 _ 21 _
      ∙ length-write_at 4 _ 17 _
      ∙ length-write_at 8 _ 9 _
      ∙ length-write_at 1 _ 8 _
      ∙ length-write_at 8 zeros 0 lsn
      ∙ length-zeros

  length-body : length body ≡ header_size + length payload + checksum_size
  unfolding body
  length-body = length-write_bytes payload header header_size ∙ length-header

  pub length-encoded : length encoded ≡ header_size + length payload + checksum_size
  unfolding seal
  length-encoded = rw encoded-eq (length-write_at 4 body _ _ ∙ length-body)

  -- A header field is not touched by the payload and the checksum.
  field-encoded : (w j : ℕ) → j + w ≤ header_size → read_at w encoded j ≡ read_at w header j
  unfolding seal body
  field-encoded w j h = rw encoded-eq (
      read_at-write_at-Apart w 4 body (header_size + length payload) j _ (inr (omega arith))
      ∙ read_at-write_bytes-Apart w header payload header_size j (inr h))

  module _ (lsn-fits : lsn < 2 ^ 64) (txn-fits : txn_id < 2 ^ 64) (object-fits : object_id < 2 ^ 32)
      (page-fits : page_id < 2 ^ 32) (payload-fits : length payload < 2 ^ 32) where
    pub lsn-encoded : read_at 8 encoded 0 ≡ lsn
    unfolding header write_header
    lsn-encoded =
        field-encoded 8 0 (omega arith)
        ∙ read_at-write_at-Apart 8 4 _ 25 0 _ (inr (omega arith))
        ∙ read_at-write_at-Apart 8 4 _ 21 0 _ (inr (omega arith))
        ∙ read_at-write_at-Apart 8 4 _ 17 0 _ (inr (omega arith))
        ∙ read_at-write_at-Apart 8 8 _ 9 0 _ (inr (omega arith))
        ∙ read_at-write_at-Apart 8 1 _ 8 0 _ (inr (omega arith))
        ∙ read_at-write_at_self 8 zeros 0 lsn (omega (arith, length-zeros)) lsn-fits

    pub kind-encoded : read_at 1 encoded 8 ≡ type_code kind
    unfolding header write_header
    kind-encoded =
        field-encoded 1 8 (omega arith)
        ∙ read_at-write_at-Apart 1 4 _ 25 8 _ (inr (omega arith))
        ∙ read_at-write_at-Apart 1 4 _ 21 8 _ (inr (omega arith))
        ∙ read_at-write_at-Apart 1 4 _ 17 8 _ (inr (omega arith))
        ∙ read_at-write_at-Apart 1 8 _ 9 8 _ (inr (omega arith))
        ∙ read_at-write_at_self 1 _ 8 (type_code kind)
            (omega (arith, length-write_at 8 zeros 0 lsn, length-zeros)) (type_code-lt kind)

    pub txn_id-encoded : read_at 8 encoded 9 ≡ txn_id
    unfolding header write_header
    txn_id-encoded =
        field-encoded 8 9 (omega arith)
        ∙ read_at-write_at-Apart 8 4 _ 25 9 _ (inr (omega arith))
        ∙ read_at-write_at-Apart 8 4 _ 21 9 _ (inr (omega arith))
        ∙ read_at-write_at-Apart 8 4 _ 17 9 _ (inr (omega arith))
        ∙ read_at-write_at_self 8 _ 9 txn_id
            (omega (
              arith,
              length-write_at 1 (write_at 8 zeros 0 lsn) 8 (type_code kind),
              length-write_at 8 zeros 0 lsn,
              length-zeros,
            ))
            txn-fits

    pub object_id-encoded : read_at 4 encoded 17 ≡ object_id
    unfolding header write_header
    object_id-encoded =
        field-encoded 4 17 (omega arith)
        ∙ read_at-write_at-Apart 4 4 _ 25 17 _ (inr (omega arith))
        ∙ read_at-write_at-Apart 4 4 _ 21 17 _ (inr (omega arith))
        ∙ read_at-write_at_self 4 _ 17 object_id
            (fits _ 17
              (length-write_at 8 _ 9 txn_id
                ∙ length-write_at 1 _ 8 _
                ∙ length-write_at 8 zeros 0 lsn)
              (omega arith))
            object-fits
      where
        fits : (buf : List ℕ) (j : ℕ) → length buf ≡ length zeros → j + 4 ≤ 29 → j + 4 ≤ length buf
        fits buf j e h = omega (arith, length-zeros)

    pub page_id-encoded : read_at 4 encoded 21 ≡ page_id
    unfolding header write_header
    page_id-encoded =
        field-encoded 4 21 (omega arith)
        ∙ read_at-write_at-Apart 4 4 _ 25 21 _ (inr (omega arith))
        ∙ read_at-write_at_self 4 _ 21 page_id
            (fits _ 21
              (length-write_at 4 _ 17 _
                ∙ length-write_at 8 _ 9 txn_id
                ∙ length-write_at 1 _ 8 _
                ∙ length-write_at 8 zeros 0 lsn)
              (omega arith))
            page-fits
      where
        fits : (buf : List ℕ) (j : ℕ) → length buf ≡ length zeros → j + 4 ≤ 29 → j + 4 ≤ length buf
        fits buf j e h = omega (arith, length-zeros)

    pub payload_len-encoded : read_at 4 encoded 25 ≡ length payload
    unfolding header write_header
    payload_len-encoded =
        field-encoded 4 25 (omega arith)
        ∙ read_at-write_at_self 4 _ 25 (length payload)
            (fits _ 25
              (length-write_at 4 _ 21 _
                ∙ length-write_at 4 _ 17 _
                ∙ length-write_at 8 _ 9 txn_id
                ∙ length-write_at 1 _ 8 _
                ∙ length-write_at 8 zeros 0 lsn)
              (omega arith))
            payload-fits
      where
        fits : (buf : List ℕ) (j : ℕ) → length buf ≡ length zeros → j + 4 ≤ 29 → j + 4 ≤ length buf
        fits buf j e h = omega (arith, length-zeros)

  pub payload-encoded : read_bytes encoded header_size (length payload) ≡ payload
  unfolding seal body
  payload-encoded = rw encoded-eq (
      read_bytes-write_at-Apart 4 body (header_size + length payload) _ header_size (length payload)
        (inr (omega arith))
      ∙ read_bytes-write_bytes_self payload header header_size (omega (arith, length-header)))

  -- The checksum that is stored is that of the bytes before it.
  pub checksum-encoded :
      read_at 4 encoded (header_size + length payload)
      ≡ fnv1a32 (read_bytes encoded 0 (header_size + length payload))
  unfolding seal
  checksum-encoded = rw encoded-eq (
      read_at-write_at_self 4 body (header_size + length payload) _ (omega (arith, length-body))
        (fnv1a32-lt _)
      ∙ ap fnv1a32 (
          sym (
            read_bytes-write_at-Apart 4 body (header_size + length payload) _ 0
              (header_size + length payload) (inr (omega arith)))))
