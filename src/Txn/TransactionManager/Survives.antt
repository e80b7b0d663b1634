-- ===== src/Txn/TransactionManager/Survives.antt =====
-- transaction_manager.cpp with log_manager.cpp and recovery.cpp: a crash after a commit.
use mathlib.Core.Path.{subst}
use flintdb.Prelude.{
  ℕ, ◌≡◌, refl, sym, ap, ◌∙◌, Bool, true, ◌||◌, Option, none, some, List, [], ◌∷◌, ◌++◌, append-nil,
  ==_iff, if◌then◌else◌, has, arith, All, ◌<◌, ◌^◌,
}
use flintdb.Wal.LogRecord.{LogRecord, LogRecordType, no_image, invalid_object_id, invalid_page_id}
use flintdb.Wal.LogManager.{LogManager, open_log}
use flintdb.Wal.LogManager.Reopen.{bytes_of_all, open_log-written, clean}
use flintdb.Wal.LogManager.Durable.{Holds, written}
use flintdb.Wal.Recovery.{Disks, replayed, run_recovery}
use flintdb.Wal.Recovery.Redo.{committed_in, page_at, last_image, run_recovery-last_image}
use flintdb.Txn.LockManager.{page_key}
use flintdb.Txn.TransactionManager.{TransactionManager, dirtied_groups, reached, commit}
use flintdb.Txn.TransactionManager.Logging.{image_at}
use flintdb.Txn.TransactionManager.Records.{
  Fits, group_records, in_groups, last_image-append, last_image-group_records,
}
use flintdb.Txn.TransactionManager.Groups.{key_of, in_groups-group}
use flintdb.Txn.TransactionManager.PoolsView.{dirtied, IsReady}
use flintdb.Txn.TransactionManager.Commit.{log_of_updates, commit_records, Committed, commit_lem}

pub committed_in-append :
    (xs ys : List LogRecord) (t : ℕ)
    → committed_in (xs ++ ys) t ≡ (committed_in xs t || committed_in ys t)
unfolding committed_in
committed_in-append [] ys t = refl
committed_in-append (x ∷ xs) ys t = ground (arith, committed_in-append xs ys t)

-- The log that a commit leaves has the transaction among the committed ones.
pub committed_in-commit_records :
    (m : TransactionManager) (t : ℕ) (rs : List LogRecord)
    → committed_in (rs ++ commit_records m t) t ≡ true
unfolding committed_in
committed_in-commit_records m t rs = ground (
  arith,
  committed_in-append rs (commit_records m t) t,
  committed_in-append (group_records m.log_manager t (image_at m.buffer_pools) (dirtied_groups m t))
      (written (log_of_updates m t) LogRecordType.commit t invalid_object_id invalid_page_id
          no_image
        ∷ [])
      t,
  ==_iff t t,
)

pub last_image-commit_records :
    (m : TransactionManager) (t : ℕ) (wins : ℕ → Bool) (o q : ℕ) (old : Option (List ℕ))
    → wins t ≡ true
    → last_image (commit_records m t) wins o q old
      ≡ (if has (key_of o q) (dirtied m t) then some (image_at m.buffer_pools o q) else old)
unfolding last_image in_groups
last_image-commit_records m t wins o q old w =
    last_image-append (group_records m.log_manager t (image_at m.buffer_pools) (dirtied_groups m t))
      _ wins o q old
    ∙ last_image-group_records m.log_manager t (dirtied_groups m t) (image_at m.buffer_pools) wins o
        q old w
    ∙ ground (arith, in_groups-group (dirtied m t) [] o q)

records_reopened :
    (l l' : LogManager) (rs : List LogRecord)
    → Holds l rs
    → l.synced ≡ l.file
    → open_log l.synced ≡ some l'
    → l'.records_on_open ≡ rs
records_reopened l l' rs h s e =
    subst (λ o. elim o [ none ↦ Unit | some x ↦ x.records_on_open ≡ rs ])
      (sym (open_log-written rs [] h.writable clean)
        ∙ ap open_log (append-nil (bytes_of_all rs) ∙ sym (s ∙ h.file_is))
        ∙ e)
      refl

Committed-survives :
    (thread : ℕ) (m m' : TransactionManager) (t : ℕ) (rs : List LogRecord) (reopened : LogManager)
    (n : ℕ) (ds ds' : Disks) (o q : ℕ)
    → Committed thread m t rs m'
    → open_log m'.log_manager.synced ≡ some reopened
    → run_recovery reopened.records_on_open ds ≡ (replayed n, ds')
    → page_at ds' o q ≡ (
        if has (key_of o q) (dirtied m t)
        then some (image_at m.buffer_pools o q)
        else last_image rs (committed_in (rs ++ commit_records m t)) o q (page_at ds o q))
Committed-survives thread m m' t rs reopened n ds ds' o q c e h =
    let records =
      records_reopened m'.log_manager reopened (rs ++ commit_records m t) c.logged c.synced e in
    let wins = committed_in (rs ++ commit_records m t) in
    (run_recovery-last_image (rs ++ commit_records m t) n ds ds' o q
      (ap (λ x. run_recovery x ds) (sym records) ∙ h)).0
    ∙ last_image-append rs (commit_records m t) wins o q (page_at ds o q)
    ∙ last_image-commit_records m t wins o q _ (committed_in-commit_records m t rs)

reached_once : {a b : TransactionManager} → reached a ≡ reached b → a ≡ b
reached_once h = cc

-- A crash after Commit loses nothing of it. Let Commit of the calling thread's transaction reach its
-- end, where fsync works, the pools are coherent with their files, the pages that the transaction
-- dirtied are dirty in them and of a page's size, the log file holds the records rs, the identifiers
-- fit their fields, and the synced LSN is below that of the commit record. Then from the synced bytes
-- of the log, whatever the files hold after the crash, a recovery that ends without an exception gives
-- every page that the transaction dirtied the bytes that clients saw when Commit was called, and every
-- other page the image that rs decides.
pub commit_survives_crash :
    (thread : ℕ) (m m' : TransactionManager) (t : ℕ) (rs : List LogRecord) (reopened : LogManager)
    (n : ℕ) (ds ds' : Disks) (o q : ℕ)
    → m.current_txn thread ≡ some t
    → IsReady m t
    → Holds m.log_manager rs
    → t < 2 ^ 64
    → All (λ k. Fits (image_at m.buffer_pools) t k.object_id k.page_id) (dirtied m t)
    → m.log_manager.durable_lsn < (log_of_updates m t).next_lsn
    → commit thread m t true ≡ reached m'
    → open_log m'.log_manager.synced ≡ some reopened
    → run_recovery reopened.records_on_open ds ≡ (replayed n, ds')
    → page_at ds' o q ≡ (
        if has (key_of o q) (dirtied m t)
        then some (image_at m.buffer_pools o q)
        else last_image rs (committed_in (rs ++ commit_records m t)) o q (page_at ds o q))
commit_survives_crash thread m m' t rs reopened n ds ds' o q current ready h small fits behind
      ends =
    let (m1, ends1, c) = commit_lem thread m t rs current ready h small fits behind in
    Committed-survives thread m m' t rs reopened n ds ds' o q
      (subst (Committed thread m t rs) (reached_once (sym ends1 ∙ ends)) c)
