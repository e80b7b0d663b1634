-- ===== src/Wal/LogManager.antt =====
-- src/wal/log_manager.h and log_manager.cpp: the log file and its counters. Every call of the system
-- succeeds but fsync, whose result is an argument. `synced` is what the file held at the last fsync
-- that succeeded. FlushThrough is modelled for a thread that finds no flush in progress.
pub mod Reopen
pub mod Durable
use flintdb.Prelude.{
  ℕ, zero, suc, ◌+◌, ◌-◌, ◌%◌, ◌^◌, Bool, true, false, Option, none, some, List, [], ◌∷◌, ◌++◌,
  length, take, ltb, if◌then◌else◌,
}
use Prim.Native.Nat.{max}
use flintdb.Wal.LogRecord.{
  LogRecordType, begin, update, commit, abort, LogRecord, invalid_object_id, invalid_page_id,
}
use flintdb.Wal.Codec.{encode_record, parse_record}

pub record LogManager : Type 0 where
  pub file : List ℕ
  pub synced : List ℕ
  pub next_lsn : ℕ
  pub records_on_open : List LogRecord
  pub durable_lsn : ℕ

-- uint64_t
abbrev pub u64 : ℕ → ℕ
u64 v = v % 2 ^ 64

abbrev pub extend : LogRecord → Option (List LogRecord × ℕ) → Option (List LogRecord × ℕ)
extend r none = none
extend r (some (rs, good)) = some (r ∷ rs, good)

-- The constructor's loop over the records, from an offset: the records and the length that parsed.
unfoldable pub scan : ℕ → List ℕ → ℕ → Option (List LogRecord × ℕ)
scan zero data' offset = none
scan (suc fuel) data' offset = elim (parse_record data' offset) [
  | none ↦ some ([], offset)
  | some p ↦ extend p.found (scan fuel data' (offset + p.record_len))
]

-- `records_on_open_.back().lsn + 1`, or 1 where there is none.
unfoldable pub next_after : List LogRecord → ℕ
next_after [] = 1
next_after (r ∷ []) = u64 (r.lsn + 1)
next_after (r ∷ q ∷ rs) = next_after (q ∷ rs)

-- The LogManager that the constructor leaves. What it finds in the file is what a crash has left, so
-- these bytes count as synced, without an fsync.
abbrev pub opened : List ℕ → List LogRecord → ℕ → LogManager
opened data' rs good = record {
  file = if ltb good (length data') then take good data' else data';
  synced = data';
  next_lsn = next_after rs;
  records_on_open = rs;
  durable_lsn = 0;
}

-- The constructor, on what the file holds.
unfoldable pub open_log : List ℕ → Option LogManager
open_log data' = elim (scan (suc (length data')) data' 0) [
  | none ↦ none
  | some (rs, good) ↦ some (opened data' rs good)
]

unfoldable pub append_record : LogManager → LogRecordType → ℕ → ℕ → ℕ → List ℕ → LogManager × ℕ
append_record m kind txn_id object_id page_id payload =
    let lsn = m.next_lsn in
    (
      record m {
        file = m.file ++ encode_record lsn kind txn_id object_id page_id payload;
        next_lsn = u64 (lsn + 1);
      },
      lsn,
    )

unfoldable pub append_begin : LogManager → ℕ → LogManager × ℕ
append_begin m txn_id = append_record m begin txn_id invalid_object_id invalid_page_id []

unfoldable pub append_update : LogManager → ℕ → ℕ → ℕ → List ℕ → LogManager × ℕ
append_update m txn_id object_id page_id image =
    append_record m update txn_id object_id page_id image

unfoldable pub append_commit : LogManager → ℕ → LogManager × ℕ
append_commit m txn_id = append_record m commit txn_id invalid_object_id invalid_page_id []

unfoldable pub append_abort : LogManager → ℕ → LogManager × ℕ
append_abort m txn_id = append_record m abort txn_id invalid_object_id invalid_page_id []

-- fsync: the state after it, or an exception with the state as it was. The flag is the call's success.
pub data Flushed : Type 0 where
  done : LogManager → Flushed
  failed : LogManager → Flushed

unfoldable pub flush : LogManager → Bool → Flushed
flush m fsync_works = if fsync_works then done (record m { synced = m.file }) else failed m

unfoldable pub flush_through : LogManager → ℕ → Bool → Flushed
flush_through m target_lsn fsync_works =
    if ltb m.durable_lsn target_lsn
    then (let to_cover = max target_lsn (m.next_lsn - 1) in
        if fsync_works
        then done (record m { synced = m.file; durable_lsn = max m.durable_lsn to_cover })
        else failed m)
    else done m

unfoldable pub checkpoint : LogManager → LogManager
checkpoint m = record m { file = []; next_lsn = 1 }
