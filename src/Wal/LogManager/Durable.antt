-- ===== src/Wal/LogManager/Durable.antt =====
-- log_manager.cpp: appending, flushing and checkpointing.
use Prim.Native.Nat.{max}
use mathlib.Core.Path.{subst}
use flintdb.Prelude.{
  ℕ, ◌+◌, ◌-◌, ◌≤◌, ◌≡◌, refl, ap, sym, ◌∙◌, inl, inr, Bool, true, false, some, List, [], ◌∷◌, ◌++◌,
  append-nil, append_assoc, arith, tests, All, Bool-cases, ltb, if◌then◌else◌,
}
use flintdb.Wal.LogRecord.{
  LogRecordType, commit, LogRecord, payload, invalid_object_id, invalid_page_id,
}
use flintdb.Wal.Codec.RoundTrip.{IsWritable, bytes_of}
use flintdb.Wal.LogManager.{
  LogManager, next_after, open_log, append_record, append_commit, done, failed, flush_through,
  checkpoint, u64,
}
use flintdb.Wal.LogManager.Reopen.{bytes_of_all, open_log-written, clean}

-- The file of the manager holds exactly these records, and its counter follows them.
pub record Holds (m : LogManager) (rs : List LogRecord) : Type 0 where
  pub file_is : m.file ≡ bytes_of_all rs
  pub writable : All IsWritable rs
  pub counter : m.next_lsn ≡ next_after rs

bytes_of_all-append :
    (rs : List LogRecord) (r : LogRecord)
    → bytes_of_all (rs ++ r ∷ []) ≡ bytes_of_all rs ++ bytes_of r
bytes_of_all-append [] r = append-nil (bytes_of r)
bytes_of_all-append (q ∷ rs) r =
    ap (λ d. bytes_of q ++ d) (bytes_of_all-append rs r)
    ∙ sym (append_assoc (bytes_of q) (bytes_of_all rs) (bytes_of r))

All-append :
    (rs : List LogRecord) (r : LogRecord)
    → All IsWritable rs
    → IsWritable r
    → All IsWritable (rs ++ r ∷ [])
All-append [] r w v = (v, tt)
All-append (q ∷ rs) r w v = (w.0, All-append rs r w.1 v)

next_after-append :
    (rs : List LogRecord) (r : LogRecord) → next_after (rs ++ r ∷ []) ≡ u64 (r.lsn + 1)
unfolding next_after
next_after-append [] r = refl
next_after-append (q ∷ []) r = refl
next_after-append (q ∷ p ∷ rs) r = next_after-append (p ∷ rs) r

-- The record that an Append* call writes, as the constructor of a later manager will report it.
abbrev pub written : LogManager → LogRecordType → ℕ → ℕ → ℕ → List ℕ → LogRecord
written m kind txn_id object_id page_id image = record {
  lsn = m.next_lsn;
  kind = kind;
  txn_id = txn_id;
  object_id = object_id;
  page_id = page_id;
  page_image = image;
}

-- On a manager whose file holds the records rs, an append of a record that fits its fields returns the
-- counter as the LSN and leaves a file that holds rs and then the new record; a manager opened on that
-- file reports these records and counts on from the new one.
pub append_record-reopen :
    (m : LogManager) (rs : List LogRecord) (kind : LogRecordType) (txn_id object_id page_id : ℕ)
    (image : List ℕ)
    → Holds m rs
    → IsWritable (written m kind txn_id object_id page_id image)
    → let (m', lsn) = append_record m kind txn_id object_id page_id (payload kind image) in
      (lsn ≡ m.next_lsn)
      × Holds m' (rs ++ written m kind txn_id object_id page_id image ∷ [])
      × (open_log m'.file
          ≡ some (record {
            file = m'.file;
            synced = m'.file;
            next_lsn = u64 (lsn + 1);
            records_on_open = rs ++ written m kind txn_id object_id page_id image ∷ [];
            durable_lsn = 0;
          }))
unfolding append_record
append_record-reopen m rs kind txn_id object_id page_id image h w = (refl, holds, reopens)
  where
    r : LogRecord
    r = written m kind txn_id object_id page_id image

    file_is : m.file ++ bytes_of r ≡ bytes_of_all (rs ++ r ∷ [])
    file_is = ap (λ d. d ++ bytes_of r) h.file_is ∙ sym (bytes_of_all-append rs r)

    reopens :
        open_log (m.file ++ bytes_of r)
        ≡ some (record {
          file = m.file ++ bytes_of r;
          synced = m.file ++ bytes_of r;
          next_lsn = u64 (m.next_lsn + 1);
          records_on_open = rs ++ r ∷ [];
          durable_lsn = 0;
        })
    reopens =
        rw (file_is, ← next_after-append rs r)
          (subst
            (λ f.
              open_log f
              ≡ some (record {
                file = bytes_of_all (rs ++ r ∷ []);
                synced = f;
                next_lsn = next_after (rs ++ r ∷ []);
                records_on_open = rs ++ r ∷ [];
                durable_lsn = 0;
              }))
            (append-nil (bytes_of_all (rs ++ r ∷ [])))
            (open_log-written (rs ++ r ∷ []) [] (All-append rs r h.writable w) clean))

    holds :
        Holds (append_record m kind txn_id object_id page_id (payload kind image)).0 (rs ++ r ∷ [])
    holds = record {
      file_is = file_is;
      writable = All-append rs r h.writable w;
      counter = sym (next_after-append rs r);
    }

-- FlushThrough, when its fsync works, returns with the target covered
-- and never lowers what is covered; it calls fsync exactly if the target was not covered before.
pub flush_through_lem :
    (m : LogManager) (target : ℕ)
    → (m' : LogManager) × (flush_through m target true ≡ done m')
      × (target ≤ m'.durable_lsn)
      × (m.durable_lsn ≤ m'.durable_lsn)
      × (m'.synced ≡ (if ltb m.durable_lsn target then m.file else m.synced))
      × (flush_through m target false ≡ (if ltb m.durable_lsn target then failed m else done m))
unfolding flush_through
flush_through_lem m target = elim (Bool-cases (ltb m.durable_lsn target)) [
  | inl behind ↦ (
    record m { synced = m.file; durable_lsn = max m.durable_lsn (max target (m.next_lsn - 1)) },
    rw behind,
    omega arith,
    omega arith,
    rw behind,
    rw behind,
  )
  | inr covered ↦ (m, rw covered, omega tests, omega arith, rw covered, rw covered)
]

-- After a checkpoint the LSNs start again from 1 while the covered LSN stays: once some LSN has been
-- covered, FlushThrough of the first commit after the checkpoint returns without an fsync, so the file
-- holds that commit's record only, and what is synced is still what was synced before.
pub commit_after_checkpoint_not_synced :
    (m : LogManager) (txn_id : ℕ) (fsync_works : Bool)
    → 1 ≤ m.durable_lsn
    → let (m', lsn) = append_commit (checkpoint m) txn_id in
      (flush_through m' lsn fsync_works ≡ done m')
      × (m'.file
          ≡ bytes_of (written (checkpoint m) commit txn_id invalid_object_id invalid_page_id []))
      × (m'.synced ≡ m.synced)
unfolding flush_through append_commit append_record checkpoint
commit_after_checkpoint_not_synced m txn_id fsync_works h = (ground arith, refl, refl)
