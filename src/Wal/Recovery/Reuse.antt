-- ===== src/Wal/Recovery/Reuse.antt =====
-- recovery.cpp: which transactions count as committed. TransactionManager starts its ids from 1 in
-- every process, and a database that is opened again goes on with the log that it recovered from.
use mathlib.Core.Path.{fun_ext}
use flintdb.Prelude.{
  ℕ, ◌≡◌, refl, ap, ◌∙◌, Bool, true, false, ◌||◌, ◌&&◌, Option, some, List, [], ◌∷◌, ◌++◌, arith,
  All, ◌==◌, if◌then◌else◌,
}
use flintdb.Wal.LogRecord.{LogRecord, update}
use flintdb.Wal.Recovery.{Disks, is_commit, is_update, replayed, run_recovery}
use flintdb.Wal.Recovery.Redo.{committed_in, page_at, last_image, run_recovery-last_image}

committed_in-append :
    (xs ys : List LogRecord) (t : ℕ)
    → committed_in (xs ++ ys) t ≡ (committed_in xs t || committed_in ys t)
unfolding committed_in
committed_in-append [] ys t = refl
committed_in-append (r ∷ xs) ys t = ground (arith, committed_in-append xs ys t)

last_image-append :
    (xs ys : List LogRecord) (wins : ℕ → Bool) (o p : ℕ) (old : Option (List ℕ))
    → last_image (xs ++ ys) wins o p old ≡ last_image ys wins o p (last_image xs wins o p old)
unfolding last_image
last_image-append [] ys wins o p old = refl
last_image-append (r ∷ xs) ys wins o p old = last_image-append xs ys wins o p _

abbrev pub OfTxn : ℕ → LogRecord → Type 0
OfTxn t r = (r.txn_id ≡ t) × (is_commit r.kind ≡ false)

uncommitted_records :
    (t : ℕ) (rs : List LogRecord) (wins : ℕ → Bool) (o p : ℕ) (old : Option (List ℕ))
    → All (OfTxn t) rs
    → wins t ≡ false
    → last_image rs wins o p old ≡ old
unfolding last_image
uncommitted_records t [] wins o p old h w = refl
uncommitted_records t (r ∷ rs) wins o p old h w =
    ap (last_image rs wins o p) (skipped r h.0) ∙ uncommitted_records t rs wins o p old h.1 w
  where
    skipped :
        (r : LogRecord)
        → OfTxn t r
        → (if is_update r.kind && (wins r.txn_id && ((o == r.object_id) && (p == r.page_id)))
            then some r.page_image
            else old)
          ≡ old
    skipped r (e, c) = ground (arith, ap wins e)

no_commit : (t u : ℕ) (rs : List LogRecord) → All (OfTxn t) rs → committed_in rs u ≡ false
unfolding committed_in
no_commit t u [] h = refl
no_commit t u (r ∷ rs) h = ground (arith, no_commit t u rs h.1, h.0.1)

-- A crash in the middle of a commit leaves a log that ends in records of a transaction without its
-- commit record. If no earlier record commits that id, recovery leaves every page as the earlier
-- records alone decide it.
pub unfinished_commit_leaves_no_trace :
    (log tail : List LogRecord) (t m : ℕ) (ds ds' : Disks) (o p : ℕ)
    → All (OfTxn t) tail
    → committed_in log t ≡ false
    → run_recovery (log ++ tail) ds ≡ (replayed m, ds')
    → page_at ds' o p ≡ last_image log (committed_in log) o p (page_at ds o p)
unfinished_commit_leaves_no_trace log tail t m ds ds' o p of_t fresh h =
    (run_recovery-last_image (log ++ tail) m ds ds' o p h).0
    ∙ ap (λ wins. last_image (log ++ tail) wins o p (page_at ds o p)) (fun_ext same)
    ∙ last_image-append log tail (committed_in log) o p (page_at ds o p)
    ∙ uncommitted_records t tail (committed_in log) o p _ of_t fresh
  where
    same : (u : ℕ) → committed_in (log ++ tail) u ≡ committed_in log u
    same u = ground (arith, committed_in-append log tail u, no_commit t u tail of_t)

-- If an earlier record commits the same id, which a process that reopens the database hands out again,
-- the same crash is not undone: a page that the unfinished transaction's last record updates holds
-- that record's image after recovery.
pub reused_id_replays_unfinished_commit :
    (log : List LogRecord) (r : LogRecord) (m : ℕ) (ds ds' : Disks)
    → r.kind ≡ update
    → committed_in log r.txn_id ≡ true
    → run_recovery (log ++ r ∷ []) ds ≡ (replayed m, ds')
    → page_at ds' r.object_id r.page_id ≡ some r.page_image
unfolding last_image
reused_id_replays_unfinished_commit log r m ds ds' k c h =
    (run_recovery-last_image (log ++ r ∷ []) m ds ds' r.object_id r.page_id h).0
    ∙ last_image-append log (r ∷ []) _ _ _ _
    ∙ ground (arith, committed_in-append log (r ∷ []) r.txn_id)
