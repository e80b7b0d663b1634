-- ===== src/Txn/HeapFile/PutRow.antt =====
-- heap_file.cpp: how Insert puts a row on a page that has room for it.
use flintdb.Prelude.{
  ℕ, ◌<◌, ◌≤◌, ◌≡◌, refl, ap, ◌∙◌, true, ◌||◌, none, some, List, [], ◌∷◌, ◌++◌, length, arith, ◌==◌,
  ==_iff, ==_self, if◌then◌else◌, nat_key, has, Bool-cases, Option-cases, inl, inr,
}
use flintdb.Storage.Page.{Page, insert_record, init_heap_page}
use flintdb.Storage.Page.WellFormed.{IsWellFormed, init_heap_page-IsWellFormed}
use flintdb.Storage.Page.Insert.{insert_record_lem, insert_record-eq-none}
use flintdb.Storage.BufferPool.{BufferPool}
use flintdb.Storage.BufferPool.Coherent.{view, IsCoherent, Fetched}
use flintdb.Txn.LockManager.{LockManager}
use flintdb.Txn.TransactionManager.{TransactionManager}
use flintdb.Txn.PageAccess.{Stop, bad_argument, Call, gave, stopped, give, store}
use flintdb.Txn.HeapFile.{
  Rid, rid_eq, HeapFile, max_row_size, row_in, at_page, last_page, put_in_page,
}
use flintdb.Txn.HeapFile.Rows.{row_at, IsHeap, Refusal, view-exists, set_pool_same, store_seen}
use flintdb.Txn.HeapFile.Access.{
  Unchanged, with_locks, fetched_at, gave_then, row_at-page, row_in-present, one_row, row_at-Wrote,
  Wrote-IsHeap,
}

pub has-append : (q : ℕ) (xs ys : List ℕ) → has q (xs ++ ys) ≡ (has q xs || has q ys)
unfolding has
has-append q [] ys = refl
has-append q (x ∷ xs) ys = ground (arith, has-append q xs ys)

pub last_page-has : (ids : List ℕ) (pid : ℕ) → last_page ids ≡ some pid → has pid ids ≡ true
unfolding last_page has
last_page-has [] pid e = ground (arith, e)
last_page-has (p ∷ []) pid e = ground (arith, ==_self p, e)
last_page-has (p ∷ q ∷ ps) pid e = ground (arith, last_page-has (q ∷ ps) pid e)

pub row_in-insert_record :
    (p q : Page) (s j : ℕ) (row : List ℕ)
    → IsWellFormed p
    → insert_record p row ≡ some (s, q)
    → row_in q j ≡ (if j == s then some row else row_in p j)
unfolding row_in
row_in-insert_record p q s j row w h =
    let i = insert_record_lem p q s row w h in
    elim (Bool-cases (j == s)) [
      | inl same ↦ rw same (
          ap (row_in q) ((==_iff j s).0 same)
          ∙ row_in-present q s (ground (arith, i.slot, i.count, i.live))
          ∙ ap some i.stored)
      | inr other ↦ rw other (ground (arith, other, i.slot, i.count, i.kept j, i.kept_state j))
    ]

pub free_slot :
    (p q : Page) (s : ℕ) (row : List ℕ)
    → IsWellFormed p
    → insert_record p row ≡ some (s, q)
    → row_in p s ≡ none
unfolding row_in
free_slot p q s row w h = ground (arith, (insert_record_lem p q s row w h).slot)

-- A row that is put on a page that is new and empty fits.
pub new_page-fits :
    (p : Page) (pid : ℕ) (row : List ℕ)
    → length row ≤ max_row_size
    → (found : ℕ × Page) × (insert_record (init_heap_page p pid) row ≡ some found)
new_page-fits p pid row small = elim (Option-cases (insert_record (init_heap_page p pid) row)) [
  | inr found ↦ found
  | inl full ↦
      let (ok, empty, room) = init_heap_page-IsWellFormed p pid in
      absurd (omega (arith, (insert_record-eq-none (init_heap_page p pid) row ok).0 full, room))
]

pub data Inserts (thread : ℕ) (m : TransactionManager) (h : HeapFile) (row : List ℕ)
    : Call (Rid × HeapFile) → Type 0 where
  inserted :
      {rid : Rid} {h' : HeapFile} {m' : TransactionManager}
      → row_at m h rid ≡ none
      → IsHeap m' h'
      → ((r : Rid) → row_at m' h' r ≡ (if rid_eq r rid then some row else row_at m h r))
      → Inserts thread m h row (gave (rid, h') m')
  too_large : max_row_size < length row → Inserts thread m h row (stopped bad_argument m)
  not_locked :
      {why : Stop} {m' : TransactionManager} (t : ℕ)
      → m.current_txn thread ≡ some t
      → Refusal why
      → Unchanged m h m'
      → Inserts thread m h row (stopped why m')

module _ (thread : ℕ) (m : TransactionManager) (h : HeapFile) (row : List ℕ) (w : IsHeap m h)
    (pid : ℕ) (owned : has pid h.page_ids ≡ true) (locks : LockManager) (b' : BufferPool)
    (page : Page) (seen : view w.pool pid ≡ some page.buf) (ok : IsWellFormed page)
    (f : Fetched w.pool pid page b') (c : IsCoherent b') where
  pub put_in_page-Inserts :
      (slot : ℕ) (changed : Page)
      → insert_record page row ≡ some (slot, changed)
      → Inserts thread m h row
          (put_in_page thread h pid row (some (slot, changed)) (fetched_at m h locks b'))
  unfolding put_in_page
  put_in_page-Inserts slot changed e =
      let at = fetched_at m h locks b' in
      let (m', stored, wrote) =
        store_seen thread h.object_id pid at b' changed
          (set_pool_same (with_locks m locks) h.object_id b') c
          (view-exists b' pid page.buf c (f.kept pid ∙ seen)) in
      let i = insert_record_lem page changed slot row ok e in
      gave_then (Inserts thread m h row) (store thread h.object_id pid changed)
        (λ u. give (at_page pid slot, h)) at stored
        (inserted
          (row_at-page m h (at_page pid slot) page w owned seen
            ∙ free_slot page changed slot row ok e)
          (Wrote-IsHeap m at m' h b' pid changed w f.kept wrote i.well_formed)
          (λ r.
            row_at-Wrote m at m' h b' pid changed r w f.kept wrote owned
            ∙ one_row m h (at_page pid slot) r page changed (some row) w owned seen
                (row_in-insert_record page changed slot r.slot_id row ok e)))
