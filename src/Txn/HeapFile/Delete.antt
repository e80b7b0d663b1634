-- ===== src/Txn/HeapFile/Delete.antt =====
-- heap_file.cpp: Delete.
use flintdb.Prelude.{
  ℕ, ◌≡◌, refl, ◌∙◌, Bool, true, false, none, some, List, arith, ◌==◌, if◌then◌else◌, nat_key, has,
  Bool-cases, inl, inr,
}
use flintdb.Storage.Page.{Page, get_record, delete_record}
use flintdb.Storage.Page.WellFormed.{IsWellFormed}
use flintdb.Storage.Page.Delete.{delete_record_lem}
use flintdb.Storage.BufferPool.{BufferPool}
use flintdb.Storage.BufferPool.Coherent.{view, IsCoherent, Fetched}
use flintdb.Txn.LockManager.{LockMode, LockManager}
use flintdb.Txn.TransactionManager.{TransactionManager}
use flintdb.Txn.PageAccess.{Stop, Call, gave, stopped, give, fetch, store}
use flintdb.Txn.HeapFile.{Rid, rid_eq, HeapFile, is_missing, row_in, delete_in, delete_row}
use flintdb.Txn.HeapFile.Rows.{
  row_at, IsHeap, Refusal, view-exists, fetch_seen, set_pool_same, store_seen,
}
use flintdb.Txn.HeapFile.Access.{
  Unchanged, with_locks, fetched_at, locked, gave_then, fetched-Unchanged, locked-Unchanged,
  row_at-page, row_in-missing, row_in-present, present-in_use, one_row, row_at-Wrote, Wrote-IsHeap,
}

-- Deletes of one slot, on the page.
row_in-delete_record :
    (p : Page) (s j : ℕ)
    → IsWellFormed p
    → is_missing p s ≡ false
    → row_in (delete_record p s) j ≡ (if j == s then none else row_in p j)
unfolding row_in
row_in-delete_record p s j w h =
    let d = delete_record_lem p s w (ground (arith, h)) in
    ground (arith, d.count, d.dead, d.kept j, d.kept_state j)

pub data Deletes (thread : ℕ) (m : TransactionManager) (h : HeapFile) (rid : Rid)
    : Call Bool → Type 0 where
  deleted :
      {m' : TransactionManager} (row : List ℕ)
      → row_at m h rid ≡ some row
      → IsHeap m' h
      → ((r : Rid) → row_at m' h r ≡ (if rid_eq r rid then none else row_at m h r))
      → Deletes thread m h rid (gave true m')
  absent :
      {m' : TransactionManager}
      → row_at m h rid ≡ none
      → Unchanged m h m'
      → Deletes thread m h rid (gave false m')
  not_locked :
      {why : Stop} {m' : TransactionManager} (t : ℕ)
      → m.current_txn thread ≡ some t
      → Refusal why
      → Unchanged m h m'
      → Deletes thread m h rid (stopped why m')

module _ (thread : ℕ) (m : TransactionManager) (h : HeapFile) (rid : Rid) (w : IsHeap m h)
    (owned : has rid.page_id h.page_ids ≡ true) (locks : LockManager) (b' : BufferPool)
    (page : Page) (seen : view w.pool rid.page_id ≡ some page.buf) (ok : IsWellFormed page)
    (f : Fetched w.pool rid.page_id page b') (c : IsCoherent b') where
  delete_in-Deletes : Deletes thread m h rid (delete_in thread h rid page (fetched_at m h locks b'))
  unfolding delete_in
  delete_in-Deletes = elim (Bool-cases (is_missing page rid.slot_id)) [
    | inl gone ↦
        rw (gone, delete_in)
          (absent (row_at-page m h rid page w owned seen ∙ row_in-missing page rid.slot_id gone)
            (fetched-Unchanged m h locks b' rid.page_id page w f c))
    | inr there ↦
        let (m', stored, wrote) =
          store_seen thread h.object_id rid.page_id (fetched_at m h locks b') b'
            (delete_record page rid.slot_id) (set_pool_same (with_locks m locks) h.object_id b') c
            (view-exists b' rid.page_id page.buf c (f.kept rid.page_id ∙ seen)) in
        let d = delete_record_lem page rid.slot_id ok (present-in_use page rid.slot_id there) in
        rw (there, delete_in)
          (gave_then (Deletes thread m h rid)
            (store thread h.object_id rid.page_id (delete_record page rid.slot_id)) (λ u. give true)
            (fetched_at m h locks b') stored
            (deleted (get_record page rid.slot_id)
              (row_at-page m h rid page w owned seen ∙ row_in-present page rid.slot_id there)
              (Wrote-IsHeap m (fetched_at m h locks b') m' h b' rid.page_id
                (delete_record page rid.slot_id) w f.kept wrote d.well_formed)
              (λ r.
                row_at-Wrote m (fetched_at m h locks b') m' h b' rid.page_id
                  (delete_record page rid.slot_id) r w f.kept wrote owned
                ∙ one_row m h rid r page (delete_record page rid.slot_id) none w owned seen
                    (row_in-delete_record page rid.slot_id r.slot_id ok there))))
  ]

-- Delete on a heap file takes away the row of the id and keeps every other row, or returns false and
-- changes no row where there is no row of the id. It stops, with every row kept, only where the calling
-- thread has a transaction that waits or dies in AcquireLock. The file stays a heap file.
pub delete_row_lem :
    (thread : ℕ) (m : TransactionManager) (h : HeapFile) (rid : Rid)
    → IsHeap m h
    → Deletes thread m h rid (delete_row thread h rid m)
unfolding delete_row
delete_row_lem thread m h rid w = elim (Bool-cases (has rid.page_id h.page_ids)) [
  | inr foreign ↦
      rw (foreign, delete_row) (absent (rw foreign refl) (record { heap = w; same = λ r. refl }))
  | inl owned ↦
      let (page, seen, ok) = w.whole rid.page_id owned in
      rw (owned, delete_row)
        (locked (Deletes thread m h rid) thread h.object_id rid.page_id LockMode.exclusive m _
          (λ locks.
            let (b', f, done, c) =
              fetch_seen h.object_id rid.page_id (with_locks m locks) w.pool page w.is_pool
                w.coherent seen in
            gave_then (Deletes thread m h rid) (fetch h.object_id rid.page_id) _
              (with_locks m locks) f
              (delete_in-Deletes thread m h rid w owned locks b' page seen ok done c))
          (λ why locks t e r. not_locked t e r (locked-Unchanged m h locks w)))
]
