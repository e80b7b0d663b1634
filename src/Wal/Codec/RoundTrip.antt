-- ===== src/Wal/Codec/RoundTrip.antt =====
-- log_manager.cpp: the constructor's scan reads back a record that AppendRecord wrote, wherever it
-- stands in the file, and stops at one that was cut short.
use native.Mathlib.Nat.{add_assoc}
use flintdb.Prelude.{
  ℕ, ◌+◌, ◌^◌, ◌<◌, ◌≤◌, ◌≡◌, refl, ap, sym, ◌∙◌, inl, inr, true, false, none, some, List, ◌++◌,
  arith, tests, length, length-append, ltb, ◌==◌, ==_self, Bool-cases, if◌then◌else◌,
}
use flintdb.Bytes.{
  read_bytes, read_at, read_at-append_left, read_at-append_right, read_bytes-append_left,
  read_bytes-append_right,
}
use flintdb.Storage.Page.{page_size}
use flintdb.Wal.LogRecord.{
  LogRecordType, begin, update, commit, abort, type_code, type_of_code, expected_payload_len,
  LogRecord, no_image, payload,
}
use flintdb.Wal.Codec.{
  header_size, checksum_size, fnv1a32, encode_record, parse_payload, parse_record,
}
use flintdb.Wal.Codec.Fields.{
  length-encoded, lsn-encoded, kind-encoded, txn_id-encoded, object_id-encoded, page_id-encoded,
  payload_len-encoded, payload-encoded, checksum-encoded,
}

abbrev pub ImageFits : LogRecordType → List ℕ → Type 0
ImageFits update image = length image ≡ page_size
ImageFits begin image = image ≡ no_image
ImageFits commit image = image ≡ no_image
ImageFits abort image = image ≡ no_image

-- A record whose fields fit their C++ types, with an image exactly if it is an update.
pub record IsWritable (r : LogRecord) : Type 0 where
  pub lsn_fits : r.lsn < 2 ^ 64
  pub txn_fits : r.txn_id < 2 ^ 64
  pub object_fits : r.object_id < 2 ^ 32
  pub page_fits : r.page_id < 2 ^ 32
  pub image_fits : ImageFits r.kind r.page_image

abbrev pub bytes_of : LogRecord → List ℕ
bytes_of r = encode_record r.lsn r.kind r.txn_id r.object_id r.page_id (payload r.kind r.page_image)

payload_len :
    (kind : LogRecordType) (image : List ℕ)
    → ImageFits kind image
    → length (payload kind image) ≡ expected_payload_len kind
payload_len begin image h = refl
payload_len update image h = h
payload_len commit image h = refl
payload_len abort image h = refl

expected-le : (kind : LogRecordType) → expected_payload_len kind ≤ page_size
expected-le begin = omega arith
expected-le update = omega arith
expected-le commit = omega arith
expected-le abort = omega arith

type_of_code_lem : (kind : LogRecordType) → type_of_code (type_code kind) ≡ some kind
unfolding type_of_code
type_of_code_lem begin = refl
type_of_code_lem update = refl
type_of_code_lem commit = refl
type_of_code_lem abort = refl

-- The image that the scan gives a record: the payload if there is one, zeros if not.
image_back :
    (kind : LogRecordType) (image : List ℕ)
    → ImageFits kind image
    → (if ltb 0 (length (payload kind image)) then payload kind image else no_image) ≡ image
image_back begin image h = sym h
image_back update image h = ground arith
image_back commit image h = sym h
image_back abort image h = sym h

module _ (r : LogRecord) (w : IsWritable r) where
  abbrev body : List ℕ
  body = payload r.kind r.page_image

  abbrev body_len : ℕ
  body_len = length body

  body_small : body_len < 2 ^ 32
  body_small = omega (arith, payload_len r.kind r.page_image w.image_fits, expected-le r.kind)

  pub length-bytes_of : length (bytes_of r) ≡ header_size + body_len + checksum_size
  length-bytes_of =
      length-encoded r.lsn r.kind r.txn_id r.object_id r.page_id (payload r.kind r.page_image)

  module _ (pre post : List ℕ) where
    abbrev file : List ℕ
    file = pre ++ (bytes_of r ++ post)

    at_field :
        (n j : ℕ)
        → j + n ≤ header_size + body_len + checksum_size
        → read_at n file (length pre + j) ≡ read_at n (bytes_of r) j
    at_field n j h =
        read_at-append_right n pre (bytes_of r ++ post) j (length pre + j) refl
        ∙ read_at-append_left n (bytes_of r) post j (omega (arith, length-bytes_of))

    at_range :
        (n i j : ℕ)
        → i ≡ length pre + j
        → j + n ≤ header_size + body_len + checksum_size
        → read_bytes file i n ≡ read_bytes (bytes_of r) j n
    at_range n i j e h =
        read_bytes-append_right pre (bytes_of r ++ post) j i n e
        ∙ read_bytes-append_left (bytes_of r) post j n (omega (arith, length-bytes_of))

    length-file : length file ≡ length pre + (header_size + body_len + checksum_size) + length post
    length-file = omega (
      arith,
      length-append pre (bytes_of r ++ post),
      length-append (bytes_of r) post,
      length-bytes_of,
    )

    back : LogRecord
    back = record {
      lsn = read_at 8 file (length pre + 0);
      kind = r.kind;
      txn_id = read_at 8 file (length pre + 9);
      object_id = read_at 4 file (length pre + 17);
      page_id = read_at 4 file (length pre + 21);
      page_image =
          if ltb 0 body_len then read_bytes file (length pre + header_size) body_len else no_image;
    }

    back-eq : back ≡ r
    unfolding back
    back-eq = λ i. record {
      lsn =
          (at_field 8 0 (omega arith)
              ∙ lsn-encoded r.lsn r.kind r.txn_id r.object_id r.page_id body w.lsn_fits w.txn_fits
                  w.object_fits w.page_fits body_small)
            i;
      kind = r.kind;
      txn_id =
          (at_field 8 9 (omega arith)
              ∙ txn_id-encoded r.lsn r.kind r.txn_id r.object_id r.page_id body w.lsn_fits
                  w.txn_fits w.object_fits w.page_fits body_small)
            i;
      object_id =
          (at_field 4 17 (omega arith)
              ∙ object_id-encoded r.lsn r.kind r.txn_id r.object_id r.page_id body w.lsn_fits
                  w.txn_fits w.object_fits w.page_fits body_small)
            i;
      page_id =
          (at_field 4 21 (omega arith)
              ∙ page_id-encoded r.lsn r.kind r.txn_id r.object_id r.page_id body w.lsn_fits
                  w.txn_fits w.object_fits w.page_fits body_small)
            i;
      page_image = image i;
    }
      where
        image :
            (if ltb 0 body_len
              then read_bytes file (length pre + header_size) body_len
              else no_image)
            ≡ r.page_image
        image =
            ap (λ (b : List ℕ). if ltb 0 body_len then b else no_image)
              (at_range body_len (length pre + header_size) header_size refl (omega arith)
                ∙ payload-encoded r.lsn r.kind r.txn_id r.object_id r.page_id body)
            ∙ image_back r.kind r.page_image w.image_fits

    long_enough : ltb (length file) (length pre + (header_size + body_len + checksum_size)) ≡ false
    long_enough = ground (arith, length-file)

    checksum_agrees :
        (read_at 4 file (length pre + header_size + body_len)
          == fnv1a32 (read_bytes file (length pre) (header_size + body_len)))
        ≡ true
    checksum_agrees =
        rw
          (
            add_assoc (length pre) header_size body_len,
            at_field 4 (header_size + body_len) (omega arith),
            at_range (header_size + body_len) (length pre) 0 (omega arith) (omega arith),
            checksum-encoded r.lsn r.kind r.txn_id r.object_id r.page_id body,
          )
          (==_self (fnv1a32 (read_bytes (bytes_of r) 0 (header_size + body_len))))

    parse_payload_lem :
        parse_payload file (length pre) r.kind body_len
        ≡ some (record { found = r; record_len = header_size + body_len + checksum_size })
    unfolding parse_payload back
    parse_payload_lem =
        rw (long_enough, checksum_agrees)
          (ap
            (λ x. some (record { found = x; record_len = header_size + body_len + checksum_size }))
            back-eq)

    -- A record that was written whole parses to itself, whatever stands before and after it.
    pub parse-bytes_of :
        parse_record file (length pre)
        ≡ some (record { found = r; record_len = header_size + body_len + checksum_size })
    unfolding parse_record
    parse-bytes_of =
        rw (header_there, kind_there, type_of_code_lem r.kind)
          (rw len_there (rw expected (parse_payload_lem)))
      where
        header_there : ltb (length file) (length pre + header_size) ≡ false
        header_there = ground (arith, length-file)

        kind_there : read_at 1 file (length pre + 8) ≡ type_code r.kind
        kind_there =
            at_field 1 8 (omega arith)
            ∙ kind-encoded r.lsn r.kind r.txn_id r.object_id r.page_id body w.lsn_fits w.txn_fits
                w.object_fits w.page_fits body_small

        len_there : read_at 4 file (length pre + 25) ≡ body_len
        len_there =
            at_field 4 25 (omega arith)
            ∙ payload_len-encoded r.lsn r.kind r.txn_id r.object_id r.page_id body w.lsn_fits
                w.txn_fits w.object_fits w.page_fits body_small

        expected : (body_len == expected_payload_len r.kind) ≡ true
        expected = ground (arith, payload_len r.kind r.page_image w.image_fits)

  -- A record that was cut short does not parse: the scan stops at it.
  pub parse-torn :
      (pre torn rest : List ℕ)
      → torn ++ rest ≡ bytes_of r
      → 0 < length rest
      → parse_record (pre ++ torn) (length pre) ≡ none
  unfolding parse_record
  parse-torn pre torn rest e h =
      elim (Bool-cases (ltb (length (pre ++ torn)) (length pre + header_size))) [
        | inl short ↦ rw short
        | inr full ↦ torn_body full
      ]
    where
      length-torn : length torn + length rest ≡ header_size + body_len + checksum_size
      length-torn = sym (length-append torn rest) ∙ ap length e ∙ length-bytes_of

      field :
          (n j : ℕ)
          → j + n ≤ length torn
          → read_at n (pre ++ torn) (length pre + j) ≡ read_at n (bytes_of r) j
      field n j b =
          read_at-append_right n pre torn j (length pre + j) refl
          ∙ sym (read_at-append_left n torn rest j b)
          ∙ ap (λ d. read_at n d j) e

      torn_body :
          ltb (length (pre ++ torn)) (length pre + header_size) ≡ false
          → parse_record (pre ++ torn) (length pre) ≡ none
      torn_body full =
          let enough : header_size ≤ length torn = omega (tests, length-append pre torn) in
          let kind_there : read_at 1 (pre ++ torn) (length pre + 8) ≡ type_code r.kind =
            field 1 8 (omega arith)
            ∙ kind-encoded r.lsn r.kind r.txn_id r.object_id r.page_id body w.lsn_fits w.txn_fits
                w.object_fits w.page_fits body_small in
          let len_there : read_at 4 (pre ++ torn) (length pre + 25) ≡ body_len =
            field 4 25 (omega arith)
            ∙ payload_len-encoded r.lsn r.kind r.txn_id r.object_id r.page_id body w.lsn_fits
                w.txn_fits w.object_fits w.page_fits body_small in
          let expected : (body_len == expected_payload_len r.kind) ≡ true =
            ground (arith, payload_len r.kind r.page_image w.image_fits) in
          let cut : ltb (length (pre ++ torn))
                (length pre + (header_size + body_len + checksum_size))
              ≡ true =
            ground (arith, length-append pre torn, length-torn) in
          rw (full, kind_there, type_of_code_lem r.kind)
            (rw len_there (rw expected (unfold parse_payload in rw cut)))
