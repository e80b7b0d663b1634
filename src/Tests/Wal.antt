-- ===== src/Tests/Wal.antt =====
-- A log of one transaction, written, torn, reopened and recovered, as in tests/test_log_manager.cpp and
-- tests/test_recovery.cpp.
use flintdb.Prelude.{
  ℕ, ◌+◌, ◌≤◌, ◌≡◌, refl, true, false, none, some, List, [], ◌∷◌, ◌++◌, arith, take, ltb, ◌==◌,
  if◌then◌else◌, has, insert,
}
use flintdb.Bytes.{read_at, write_at, read_bytes, write_bytes, to_bytes, from_bytes}
use flintdb.Storage.DiskManager.{DiskManager, write_page}
use flintdb.Wal.LogRecord.{
  LogRecord, begin, update, commit, type_of_code, no_image, invalid_object_id, invalid_page_id,
}
use flintdb.Wal.Codec.{fnv1a32, write_header, seal, encode_record, parse_payload, parse_record}
use flintdb.Wal.Codec.RoundTrip.{IsWritable, bytes_of}
use flintdb.Wal.LogManager.{
  LogManager, scan, next_after, open_log, append_record, append_begin, append_commit, done, failed,
  flush, flush_through, checkpoint, u64,
}
use flintdb.Wal.LogManager.Reopen.{bytes_of_all, Tail, torn, open_log_total, open_log-written}
use flintdb.Wal.LogManager.Durable.{
  Holds, written, append_record-reopen, flush_through_lem, commit_after_checkpoint_not_synced,
}
use flintdb.Wal.Recovery.{
  Disks, replayed, set_disk, redo, redo_failure, collect_committed, replay, run_recovery,
}
use flintdb.Wal.Recovery.Redo.{
  committed_in, page_at, last_image, count_updates, run_recovery-last_image, run_recovery_idem,
}
use flintdb.Wal.Recovery.Reuse.{
  unfinished_commit_leaves_no_trace, reused_id_replays_unfinished_commit,
}

program : Unit {0}
unfolding read_at write_at read_bytes write_bytes to_bytes from_bytes fnv1a32 write_header seal
    encode_record type_of_code parse_payload parse_record scan next_after open_log append_record
    append_begin append_commit flush flush_through checkpoint set_disk redo redo_failure
    collect_committed replay run_recovery write_page has insert committed_in last_image
    count_updates
program = tt

abbrev begins : LogRecord
begins = record {
  lsn = 1;
  kind = begin;
  txn_id = 9;
  object_id = invalid_object_id;
  page_id = invalid_page_id;
  page_image = no_image;
}

abbrev commits : LogRecord
commits = record begins { lsn = 2; kind = commit }

begins-IsWritable : IsWritable begins
begins-IsWritable = record {
  lsn_fits = omega arith;
  txn_fits = omega arith;
  object_fits = omega arith;
  page_fits = omega arith;
  image_fits = refl;
}

commits-IsWritable : IsWritable commits
commits-IsWritable = record {
  lsn_fits = omega arith;
  txn_fits = omega arith;
  object_fits = omega arith;
  page_fits = omega arith;
  image_fits = refl;
}

abbrev new_log : LogManager
new_log = record { file = []; synced = []; next_lsn = 1; records_on_open = []; durable_lsn = 0 }

opened_empty : open_log [] ≡ some new_log
unfolding program
opened_empty = refl

-- The first ten bytes of a commit record after a whole record.
torn-Tail : Tail (take 10 (bytes_of commits))
unfolding program
torn-Tail = torn commits (drop_ten (bytes_of commits)) commits-IsWritable refl (omega arith)
  where
    drop_ten : List ℕ → List ℕ
    drop_ten (a ∷ b ∷ c ∷ d ∷ e ∷ f ∷ g ∷ h ∷ i ∷ j ∷ rest) = rest
    drop_ten _ = []

open_log_total_example :
    (m : LogManager) × (good : ℕ) × (open_log (7 ∷ 7 ∷ []) ≡ some m)
    × (good ≤ 2)
    × (m.file ≡ (if ltb good 2 then take good (7 ∷ 7 ∷ []) else 7 ∷ 7 ∷ []))
open_log_total_example = open_log_total (7 ∷ 7 ∷ [])

open_log-written_example :
    open_log (bytes_of_all (begins ∷ []) ++ take 10 (bytes_of commits))
    ≡ some (record {
      file = bytes_of_all (begins ∷ []);
      synced = bytes_of_all (begins ∷ []) ++ take 10 (bytes_of commits);
      next_lsn = next_after (begins ∷ []);
      records_on_open = begins ∷ [];
      durable_lsn = 0;
    })
open_log-written_example =
    open_log-written (begins ∷ []) (take 10 (bytes_of commits)) (begins-IsWritable, tt) torn-Tail

new_log-Holds : Holds new_log []
unfolding program
new_log-Holds = record { file_is = refl; writable = tt; counter = refl }

append_record-reopen_example :
    let (m', lsn) = append_record new_log begin 9 invalid_object_id invalid_page_id [] in
    (lsn ≡ 1)
    × Holds m' (begins ∷ [])
    × (open_log m'.file
        ≡ some (record {
          file = m'.file;
          synced = m'.file;
          next_lsn = u64 (lsn + 1);
          records_on_open = begins ∷ [];
          durable_lsn = 0;
        }))
append_record-reopen_example =
    append_record-reopen new_log [] begin 9 invalid_object_id invalid_page_id no_image new_log-Holds
      begins-IsWritable

flush_through_lem_example :
    (m' : LogManager) × (flush_through new_log 1 true ≡ done m')
    × (1 ≤ m'.durable_lsn)
    × (0 ≤ m'.durable_lsn)
    × (m'.synced ≡ [])
    × (flush_through new_log 1 false ≡ failed new_log)
flush_through_lem_example = flush_through_lem new_log 1

abbrev busy_log : LogManager
busy_log = record new_log { next_lsn = 5; durable_lsn = 4 }

commit_after_checkpoint_not_synced_example :
    let (m', lsn) = append_commit (checkpoint busy_log) 9 in
    (flush_through m' lsn true ≡ done m')
    × (m'.file
        ≡ bytes_of (written (checkpoint busy_log) commit 9 invalid_object_id invalid_page_id []))
    × (m'.synced ≡ [])
commit_after_checkpoint_not_synced_example =
    commit_after_checkpoint_not_synced busy_log 9 true (omega arith)

abbrev updates : LogRecord
updates = record begins { lsn = 2; kind = update; object_id = 0; page_id = 0; page_image = 5 ∷ [] }

abbrev disk : DiskManager
disk = record { pages = λ _. []; next_page_id = 1 }

abbrev disks : Disks
disks = λ o. if o == 0 then some disk else none

abbrev log : List LogRecord
log = begins ∷ updates ∷ commits ∷ []

abbrev recovered : Disks
recovered = set_disk disks 0 (record disk { pages = λ p. if p == 0 then 5 ∷ [] else [] })

runs : run_recovery log disks ≡ (replayed 1, recovered)
unfolding program
runs = refl

runs_again : (run_recovery log recovered).0 ≡ replayed 1
unfolding program
runs_again = refl

run_recovery-last_image_example :
    (page_at recovered 0 0 ≡ last_image log (committed_in log) 0 0 (some []))
    × (1 ≡ count_updates log (committed_in log))
run_recovery-last_image_example = run_recovery-last_image log 1 disks recovered 0 0 runs

run_recovery_idem_example :
    (page_at (run_recovery log recovered).1 0 0 ≡ page_at recovered 0 0) × ◌≡◌ {A = ℕ} 1 1
unfolding program
run_recovery_idem_example =
    run_recovery_idem log 1 1 disks recovered (run_recovery log recovered).1 0 0 runs refl

abbrev unfinished : List LogRecord
unfinished = record updates { txn_id = 8; page_image = 6 ∷ [] } ∷ []

unfinished_commit_leaves_no_trace_example :
    page_at (run_recovery (log ++ unfinished) disks).1 0 0
    ≡ last_image log (committed_in log) 0 0 (some [])
unfolding program
unfinished_commit_leaves_no_trace_example =
    unfinished_commit_leaves_no_trace log unfinished 8 1 disks
      (run_recovery (log ++ unfinished) disks).1 0 0 ((refl, refl), tt) refl refl

abbrev reused : LogRecord
reused = record updates { page_image = 6 ∷ [] }

reused_id_replays_unfinished_commit_example :
    page_at (run_recovery (log ++ reused ∷ []) disks).1 0 0 ≡ some (6 ∷ [])
unfolding program
reused_id_replays_unfinished_commit_example =
    reused_id_replays_unfinished_commit log reused 2 disks
      (run_recovery (log ++ reused ∷ []) disks).1 refl refl refl
