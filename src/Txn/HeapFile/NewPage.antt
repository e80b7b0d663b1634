-- ===== src/Txn/HeapFile/NewPage.antt =====
-- heap_file.cpp: how Insert adds a page to the file.
use flintdb.Prelude.{
  ℕ, ◌+◌, ◌^◌, ◌<◌, ◌≤◌, ◌≡◌, refl, sym, ap, ◌∙◌, true, false, none, some, List, [], ◌∷◌, ◌++◌,
  length, arith, ◌==◌, ==_iff, ==_self, if◌then◌else◌, nat_key, has, Bool-cases, inl, inr,
}
use flintdb.Storage.Page.{Page, get_slot_count, insert_record, init_heap_page, new_page}
use flintdb.Storage.Page.WellFormed.{IsWellFormed, init_heap_page-IsWellFormed}
use flintdb.Storage.Page.Insert.{insert_record_lem}
use flintdb.Storage.BufferPool.{BufferPool}
use flintdb.Storage.BufferPool.Coherent.{view, IsCoherent}
use flintdb.Txn.LockManager.{LockMode}
use flintdb.Txn.TransactionManager.{TransactionManager}
use flintdb.Txn.PageAccess.{give, fetch, store, allocate_heap_page}
use flintdb.Txn.HeapFile.{
  Rid, HeapFile, max_row_size, row_in, at_page, put_in_new_page, insert_in_new_page,
}
use flintdb.Txn.HeapFile.Rows.{
  row_at, IsHeap, view-exists, fetch_seen, set_pool_same, store_seen, allocate_seen,
}
use flintdb.Txn.HeapFile.Access.{Unchanged, with_locks, fetched_at, locked, gave_then, row_at-view}
use flintdb.Txn.HeapFile.PutRow.{
  has-append, row_in-insert_record, new_page-fits, Inserts, inserted, not_locked,
}

-- A file after a page was added to its pool, which is not among the file's own yet.
module _ (m : TransactionManager) (h : HeapFile) (w : IsHeap m h) where
  next_id : ℕ
  next_id = w.pool.disk_manager.next_page_id

  next_id-foreign : has next_id h.page_ids ≡ false
  unfolding next_id
  next_id-foreign = elim (Bool-cases (has next_id h.page_ids)) [
    | inr foreign ↦ foreign
    | inl own ↦
        let (page, seen, ok) = w.whole next_id own in
        absurd (omega (arith, view-exists w.pool next_id page.buf w.coherent seen))
  ]

  own-other : (q : ℕ) → has q h.page_ids ≡ true → (q == next_id) ≡ false
  own-other q e = elim (Bool-cases (q == next_id)) [
    | inr other ↦ other
    | inl same ↦ absurd (
        ground
          (arith, next_id-foreign, ap (λ i. has i h.page_ids) (sym ((==_iff q next_id).0 same)), e))
  ]

  -- Clients see the file's own pages as before.
  SeesOwn : BufferPool → Type 0
  SeesOwn b = (q : ℕ) → (q == next_id) ≡ false → view b q ≡ view w.pool q

  grown-Unchanged :
      (m' : TransactionManager) (b : BufferPool)
      → m'.buffer_pools h.object_id ≡ some b
      → IsCoherent b
      → SeesOwn b
      → Unchanged m h m'
  unfolding SeesOwn
  grown-Unchanged m' b e c s = record {
    heap = record {
      pool = b;
      is_pool = e;
      coherent = c;
      whole =
          λ q own. let (page, seen, ok) = w.whole q own in (page, s q (own-other q own) ∙ seen, ok);
    };
    same = λ r. row_at-view m' h b r e ∙ elim (Bool-cases (has r.page_id h.page_ids)) [
      | inr foreign ↦ rw foreign refl
      | inl own ↦
          rw (s r.page_id (own-other r.page_id own)) (sym (row_at-view m h w.pool r w.is_pool))
    ];
  }

  -- The file with the new page, on which the row is.
  extended : HeapFile
  extended = record h { page_ids = h.page_ids ++ next_id ∷ [] }

  extended-IsHeap :
      (m' : TransactionManager) (b : BufferPool) (page : Page)
      → m'.buffer_pools h.object_id ≡ some b
      → IsCoherent b
      → SeesOwn b
      → view b next_id ≡ some page.buf
      → IsWellFormed page
      → IsHeap m' extended
  unfolding SeesOwn extended has
  extended-IsHeap m' b page e c s seen ok = record {
    pool = b;
    is_pool = e;
    coherent = c;
    whole = λ q own. elim (Bool-cases (q == next_id)) [
      | inl same ↦ (page, ap (view b) ((==_iff q next_id).0 same) ∙ seen, ok)
      | inr other ↦
          let (p, before, good) =
            w.whole q (ground (arith, own, other, has-append q h.page_ids (next_id ∷ []))) in
          (p, s q other ∙ before, good)
    ];
  }

  row_at-extended :
      (m' : TransactionManager) (b : BufferPool) (page : Page) (r : Rid)
      → m'.buffer_pools h.object_id ≡ some b
      → SeesOwn b
      → view b next_id ≡ some page.buf
      → row_at m' extended r
        ≡ (if r.page_id == next_id then row_in page r.slot_id else row_at m h r)
  unfolding SeesOwn extended has
  row_at-extended m' b page r e s seen =
      row_at-view m' extended b r e ∙ elim (Bool-cases (r.page_id == next_id)) [
        | inl same ↦
            let there : view b r.page_id ≡ some page.buf =
              ap (view b) ((==_iff r.page_id next_id).0 same) ∙ seen in
            let mine : has r.page_id (h.page_ids ++ next_id ∷ []) ≡ true =
              ground (arith, has-append r.page_id h.page_ids (next_id ∷ []), same) in
            rw (mine, there, same) refl
        | inr other ↦
            let before : has r.page_id (h.page_ids ++ next_id ∷ []) ≡ has r.page_id h.page_ids =
              ground (arith, has-append r.page_id h.page_ids (next_id ∷ []), other) in
            rw (before, other, s r.page_id other) (sym (row_at-view m h w.pool r w.is_pool))
      ]

  row_at-next_id : (r : Rid) → (r.page_id == next_id) ≡ true → row_at m h r ≡ none
  row_at-next_id r same =
      rw (ap (λ i. has i h.page_ids) ((==_iff r.page_id next_id).0 same) ∙ next_id-foreign) refl

  put_in_new_page-Inserts :
      (thread : ℕ) (row : List ℕ) (at : TransactionManager) (b : BufferPool) (blank : Page)
      (slot : ℕ) (page : Page)
      → at.buffer_pools h.object_id ≡ some b
      → IsCoherent b
      → SeesOwn b
      → view b next_id ≡ some blank.buf
      → IsWellFormed blank
      → get_slot_count blank ≡ 0
      → insert_record blank row ≡ some (slot, page)
      → Inserts thread m h row (put_in_new_page thread h next_id row (some (slot, page)) at)
  unfolding put_in_new_page extended SeesOwn row_in
  put_in_new_page-Inserts thread row at b blank slot page e c s seen ok empty put =
      let (m', stored, wrote) =
        store_seen thread h.object_id next_id at b page e c
          (view-exists b next_id blank.buf c seen) in
      let i = insert_record_lem blank page slot row ok put in
      let own : SeesOwn wrote.pool = λ q other. wrote.seen q ∙ rw other (s q other) in
      let there : view wrote.pool next_id ≡ some page.buf =
        wrote.seen next_id ∙ rw (==_self next_id) refl in
      gave_then (Inserts thread m h row) (store thread h.object_id next_id page)
        (λ u. give (at_page next_id slot, extended)) at stored
        (inserted (row_at-next_id (at_page next_id slot) (==_self next_id))
          (extended-IsHeap m' wrote.pool page wrote.is_pool wrote.coherent own there i.well_formed)
          (λ r.
            row_at-extended m' wrote.pool page r wrote.is_pool own there
            ∙ elim (Bool-cases (r.page_id == next_id)) [
              | inr other ↦ rw other refl
              | inl same ↦
                  rw (same, row_at-next_id r same)
                    (row_in-insert_record blank page slot r.slot_id row ok put
                      ∙ ap (λ v. if r.slot_id == slot then some row else v) (ground (arith, empty)))
            ]))

  pub insert_in_new_page-Inserts :
      (thread : ℕ) (row : List ℕ)
      → w.pool.disk_manager.next_page_id + 1 < 2 ^ 32
      → length row ≤ max_row_size
      → Inserts thread m h row (insert_in_new_page thread h row m)
  unfolding insert_in_new_page SeesOwn next_id
  insert_in_new_page-Inserts thread row room small =
      let (m1, made, wrote) = allocate_seen thread h.object_id m w.pool w.is_pool w.coherent room in
      let blank = init_heap_page new_page next_id in
      let (ok, empty, space) = init_heap_page-IsWellFormed new_page next_id in
      let ((slot, page), put) = new_page-fits new_page next_id row small in
      let own : SeesOwn wrote.pool = λ q other. wrote.seen q ∙ rw other refl in
      let there : view wrote.pool next_id ≡ some blank.buf =
        wrote.seen next_id ∙ rw (==_self next_id) refl in
      gave_then (Inserts thread m h row) (allocate_heap_page thread h.object_id) _ m made (
        locked (Inserts thread m h row) thread h.object_id next_id LockMode.exclusive m1 _
          (λ locks.
            let (b2, got, f, c) =
              fetch_seen h.object_id next_id (with_locks m1 locks) wrote.pool blank wrote.is_pool
                wrote.coherent there in
            gave_then (Inserts thread m h row) (fetch h.object_id next_id) _ (with_locks m1 locks)
              got
              (rw put (
                put_in_new_page-Inserts thread row (fetched_at m1 h locks b2) b2 blank slot page
                  (set_pool_same (with_locks m1 locks) h.object_id b2) c
                  (λ q other. f.kept q ∙ own q other) (f.kept next_id ∙ there) ok empty put)))
          (λ why locks t e r.
            not_locked t (ap (λ g. g thread) (sym wrote.same_current) ∙ e) r
              (grown-Unchanged (with_locks m1 locks) wrote.pool wrote.is_pool wrote.coherent own)))
