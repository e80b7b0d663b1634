-- ===== src/Txn/HeapFile/Insert.antt =====
-- heap_file.cpp: Insert.
use mathlib.Core.Path.{subst}
use flintdb.Prelude.{
  ℕ, ◌+◌, ◌^◌, ◌<◌, ◌≤◌, ◌≡◌, refl, sym, ap, ◌∙◌, true, some, List, length, arith, tests, ltb,
  if◌then◌else◌, nat_key, has, Bool-cases, Option-cases, inl, inr,
}
use flintdb.Storage.Page.{insert_record}
use flintdb.Storage.BufferPool.{BufferPool}
use flintdb.Txn.LockManager.{LockMode}
use flintdb.Txn.TransactionManager.{TransactionManager}
use flintdb.Txn.PageAccess.{Call, fetch}
use flintdb.Txn.HeapFile.{
  Rid, rid_eq, HeapFile, max_row_size, last_page, put_in_page, insert_in_page, insert_row,
}
use flintdb.Txn.HeapFile.Rows.{row_at, IsHeap, fetch_seen, set_pool_same}
use flintdb.Txn.HeapFile.Access.{
  with_locks, fetched_at, locked, gave_then, fetched-Unchanged, locked-Unchanged,
}
use flintdb.Txn.HeapFile.PutRow.{
  last_page-has, Inserts, inserted, too_large, not_locked, put_in_page-Inserts,
}
use flintdb.Txn.HeapFile.NewPage.{insert_in_new_page-Inserts}

Inserts-Unchanged :
    {thread : ℕ} {m m1 : TransactionManager} {h : HeapFile} {row : List ℕ}
    {r : Call (Rid × HeapFile)}
    → m1.current_txn ≡ m.current_txn
    → ((q : Rid) → row_at m1 h q ≡ row_at m h q)
    → length row ≤ max_row_size
    → Inserts thread m1 h row r
    → Inserts thread m h row r
Inserts-Unchanged {row} current same small (inserted {rid} none_there heap rows) =
    inserted (sym (same rid) ∙ none_there) heap
      (λ q. rows q ∙ ap (λ v. if rid_eq q rid then some row else v) (same q))
Inserts-Unchanged current same small (too_large big) = absurd (omega (arith, small, big))
Inserts-Unchanged {thread} current same small (not_locked t e r u) =
    not_locked t (ap (λ g. g thread) (sym current) ∙ e) r
      (record { heap = u.heap; same = λ q. u.same q ∙ same q })

pool_inj : {a b : BufferPool} → some a ≡ some b → a ≡ b
pool_inj h = cc

put_in_last-Inserts :
    (thread : ℕ) (m : TransactionManager) (h : HeapFile) (row : List ℕ) (pid : ℕ) (w : IsHeap m h)
    → has pid h.page_ids ≡ true
    → w.pool.disk_manager.next_page_id + 1 < 2 ^ 32
    → length row ≤ max_row_size
    → Inserts thread m h row (insert_in_page thread h pid row m)
unfolding insert_in_page put_in_page
put_in_last-Inserts thread m h row pid w owned room small =
    let (page, seen, ok) = w.whole pid owned in
    locked (Inserts thread m h row) thread h.object_id pid LockMode.exclusive m _
      (λ locks.
        let (b', got, f, c) =
          fetch_seen h.object_id pid (with_locks m locks) w.pool page w.is_pool w.coherent seen in
        let u = fetched-Unchanged m h locks b' pid page w f c in
        gave_then (Inserts thread m h row) (fetch h.object_id pid) _ (with_locks m locks) got
          (elim (Option-cases (insert_record page row)) [
            | inr ((slot, changed), put) ↦ rw put (
                put_in_page-Inserts thread m h row w pid owned locks b' page seen ok f c slot
                  changed put)
            | inl full ↦ rw full (
                Inserts-Unchanged refl u.same small (
                  insert_in_new_page-Inserts (fetched_at m h locks b') h u.heap thread row
                    (subst (λ d. d.next_page_id + 1 < 2 ^ 32)
                      (sym (f.same_disk)
                        ∙ ap (λ b. b.disk_manager)
                            (pool_inj (
                              sym (set_pool_same (with_locks m locks) h.object_id b')
                              ∙ u.heap.is_pool)))
                      room)
                    small))
          ]))
      (λ why locks t e r. not_locked t e r (locked-Unchanged m h locks w))

-- Insert on a heap file puts the row under an id that had none and keeps every other row, and the file
-- stays a heap file. A row that is larger than a page can hold is refused and nothing changes. Else it
-- stops, with every row kept, only where the calling thread has a transaction that waits or dies in
-- AcquireLock; the row always fits on the new page. The pool has fewer than 2 ^ 32 - 1 pages.
pub insert_row_lem :
    (thread : ℕ) (m : TransactionManager) (h : HeapFile) (row : List ℕ) (w : IsHeap m h)
    → w.pool.disk_manager.next_page_id + 1 < 2 ^ 32
    → Inserts thread m h row (insert_row thread h row m)
unfolding insert_row
insert_row_lem thread m h row w room = elim (Bool-cases (ltb max_row_size (length row))) [
  | inl big ↦ rw (big, insert_row) (too_large (omega (tests, big)))
  | inr small ↦
      let fits : length row ≤ max_row_size = omega (tests, small) in
      elim (Option-cases (last_page h.page_ids)) [
        | inl e ↦ rw (small, e, insert_row) (insert_in_new_page-Inserts m h w thread row room fits)
        | inr (pid, e) ↦
            rw (small, e, insert_row)
              (put_in_last-Inserts thread m h row pid w (last_page-has h.page_ids pid e) room fits)
      ]
]
