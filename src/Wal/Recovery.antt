-- ===== src/Wal/Recovery.antt =====
-- src/wal/recovery.h and recovery.cpp: redo of the committed transactions' pages.
pub mod Redo
pub mod Reuse
use flintdb.Prelude.{
  ℕ, suc, ◌+◌, Bool, true, false, Option, none, some, List, [], ◌∷◌, ◌==◌, if◌then◌else◌, nat_key,
  has, insert,
}
use flintdb.Storage.DiskManager.{DiskManager, write_page}
use flintdb.Wal.LogRecord.{LogRecord, LogRecordType, begin, update, commit, abort}

-- disk_managers_by_object
abbrev pub Disks : Type 0
Disks = ℕ → Option DiskManager

abbrev pub is_commit : LogRecordType → Bool
is_commit commit = true
is_commit begin = false
is_commit update = false
is_commit abort = false

abbrev pub is_update : LogRecordType → Bool
is_update update = true
is_update begin = false
is_update commit = false
is_update abort = false

-- The first pass: the ids with a commit record.
unfoldable pub collect_committed : List LogRecord → List ℕ → List ℕ
collect_committed [] committed = committed
collect_committed (r ∷ rs) committed =
    collect_committed rs (if is_commit r.kind then insert r.txn_id committed else committed)

-- How the second pass ends: the number of records replayed, or the exception of `.at()` or of
-- WritePage. What was written before an exception stays written.
pub data Outcome : Type 0 where
  replayed : ℕ → Outcome
  unknown_object : Outcome
  page_out_of_range : Outcome

unfoldable pub set_disk : Disks → ℕ → DiskManager → Disks
set_disk ds o d i = if i == o then some d else ds i

abbrev pub is_redone : List ℕ → LogRecord → Bool
is_redone committed r = if is_update r.kind then has r.txn_id committed else false

-- One record that is to be replayed.
unfoldable pub redo : LogRecord → Disks → Option Disks
redo r ds = elim (ds r.object_id) [
  | none ↦ none
  | some d ↦ elim (write_page d r.page_id r.page_image) [
    | none ↦ none
    | some d' ↦ some (set_disk ds r.object_id d')
  ]
]

unfoldable pub redo_failure : LogRecord → Disks → Outcome
redo_failure r ds = elim (ds r.object_id) [ none ↦ unknown_object | some d ↦ page_out_of_range ]

unfoldable pub replay : List LogRecord → List ℕ → ℕ → Disks → Outcome × Disks
replay [] committed n ds = (replayed n, ds)
replay (r ∷ rs) committed n ds = elim (is_redone committed r) [
  | false ↦ replay rs committed n ds
  | true ↦ elim (redo r ds) [
    | none ↦ (redo_failure r ds, ds)
    | some ds' ↦ replay rs committed (suc n) ds'
  ]
]

unfoldable pub run_recovery : List LogRecord → Disks → Outcome × Disks
run_recovery records ds = replay records (collect_committed records []) 0 ds
