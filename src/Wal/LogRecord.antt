-- ===== src/Wal/LogRecord.antt =====
-- src/wal/log_record.h: the records of the write-ahead log.
use flintdb.Prelude.{ℕ, ◌-◌, ◌^◌, List, [], Option, none, some, ◌==◌, if◌then◌else◌}
use flintdb.Storage.Page.{page_size, zeroed}

pub data LogRecordType : Type 0 where
  begin update commit abort : LogRecordType

abbrev pub type_code : LogRecordType → ℕ
type_code begin = 1
type_code update = 2
type_code commit = 3
type_code abort = 4

-- IsValidType and the cast to the enumeration.
unfoldable pub type_of_code : ℕ → Option LogRecordType
type_of_code c =
    if c == 1
    then some begin
    else if c == 2
    then some update
    else if c == 3
    then some commit
    else if c == 4
    then some abort
    else none

-- ExpectedPayloadLen
abbrev pub expected_payload_len : LogRecordType → ℕ
expected_payload_len begin = 0
expected_payload_len update = page_size
expected_payload_len commit = 0
expected_payload_len abort = 0

abbrev pub invalid_object_id : ℕ
invalid_object_id = 2 ^ 32 - 1

abbrev pub invalid_page_id : ℕ
invalid_page_id = 2 ^ 32 - 1

pub record LogRecord : Type 0 where
  pub lsn : ℕ
  pub kind : LogRecordType
  pub txn_id : ℕ
  pub object_id : ℕ
  pub page_id : ℕ
  pub page_image : List ℕ

-- The default contents of `page_image`.
abbrev pub no_image : List ℕ
no_image = zeroed

-- What is written after the header of a record.
abbrev pub payload : LogRecordType → List ℕ → List ℕ
payload update image = image
payload begin image = []
payload commit image = []
payload abort image = []
