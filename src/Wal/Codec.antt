-- ===== src/Wal/Codec.antt =====
-- src/wal/log_manager.cpp: the bytes of a record as AppendRecord lays them out, and the parse of one
-- record by the constructor's scan.
pub mod Fields
pub mod RoundTrip
use Prim.Native.Nat.{bit_xor}
use flintdb.Prelude.{
  ℕ, zero, suc, ◌+◌, ◌*◌, ◌%◌, ◌^◌, ◌<◌, ◌≤◌, ◌≡◌, refl, Bool, true, false, Option, none, some,
  List, [], ◌∷◌, arith, length, replicate, ltb, leb, ◌==◌, if◌then◌else◌,
}
use flintdb.Bytes.{read_bytes, write_bytes, read_at, write_at}
use flintdb.Wal.LogRecord.{
  LogRecordType, begin, update, commit, abort, type_code, type_of_code, expected_payload_len,
  LogRecord, no_image,
}

abbrev pub header_size : ℕ
header_size = 29

abbrev pub checksum_size : ℕ
checksum_size = 4

fnv_step : ℕ → List ℕ → ℕ
fnv_step hash [] = hash
fnv_step hash (b ∷ bs) = fnv_step (bit_xor hash b * 0x01000193 % 2 ^ 32) bs

unfoldable pub fnv1a32 : List ℕ → ℕ
unfolding fnv_step
fnv1a32 bytes = fnv_step 0x811c9dc5 bytes

-- The six header fields.
unfoldable pub write_header : List ℕ → ℕ → LogRecordType → ℕ → ℕ → ℕ → ℕ → List ℕ
write_header buf lsn kind txn_id object_id page_id payload_len =
    write_at 4
      (write_at 4
        (write_at 4 (write_at 8 (write_at 1 (write_at 8 buf 0 lsn) 8 (type_code kind)) 9 txn_id) 17
          object_id)
        21 page_id)
      25 payload_len

unfoldable pub seal : List ℕ → ℕ → List ℕ
seal buf payload_len =
    write_at 4 buf (header_size + payload_len)
      (fnv1a32 (read_bytes buf 0 (header_size + payload_len)))

-- The buffer that AppendRecord hands to write().
unfoldable pub encode_record : ℕ → LogRecordType → ℕ → ℕ → ℕ → List ℕ → List ℕ
encode_record lsn kind txn_id object_id page_id payload =
    let buf = replicate (header_size + length payload + checksum_size) 0 in
    seal
      (write_bytes (write_header buf lsn kind txn_id object_id page_id (length payload)) header_size
        payload)
      (length payload)

-- A record that parses, and the bytes that it takes up.
pub record Parsed : Type 0 where
  pub found : LogRecord
  pub record_len : ℕ

unfoldable pub parse_payload : List ℕ → ℕ → LogRecordType → ℕ → Option Parsed
parse_payload data' offset kind payload_len =
    let record_len = header_size + payload_len + checksum_size in
    if ltb (length data') (offset + record_len)
    then none
    else if read_at 4 data' (offset + header_size + payload_len)
        == fnv1a32 (read_bytes data' offset (header_size + payload_len))
    then some (record {
      found = record {
        lsn = read_at 8 data' (offset + 0);
        kind = kind;
        txn_id = read_at 8 data' (offset + 9);
        object_id = read_at 4 data' (offset + 17);
        page_id = read_at 4 data' (offset + 21);
        page_image =
            if ltb 0 payload_len
            then read_bytes data' (offset + header_size) payload_len
            else no_image;
      };
      record_len = record_len;
    })
    else none

-- One round of the constructor's loop; `none` is the end of the loop.
unfoldable pub parse_record : List ℕ → ℕ → Option Parsed
parse_record data' offset =
    if ltb (length data') (offset + header_size)
    then none
    else elim (type_of_code (read_at 1 data' (offset + 8))) [
      | none ↦ none
      | some kind ↦
          if read_at 4 data' (offset + 25) == expected_payload_len kind
          then parse_payload data' offset kind (read_at 4 data' (offset + 25))
          else none
    ]
