-- ===== src/Txn/HeapFile/Access.antt =====
-- heap_file.cpp: what the steps of a method, a lock, a fetch and a store, do to the rows that clients see.
use flintdb.Prelude.{
  ℕ, ◌<◌, ◌≡◌, refl, sym, ap, ◌∙◌, true, false, Option, none, some, List, arith, ◌==◌, ==_iff,
  if◌then◌else◌, nat_key, has, Bool-cases, inl, inr,
}
use flintdb.Storage.Page.{Page, get_slot_count, get_record}
use flintdb.Storage.Page.WellFormed.{IsWellFormed}
use flintdb.Storage.BufferPool.{BufferPool}
use flintdb.Storage.BufferPool.Coherent.{view, IsCoherent, Fetched}
use flintdb.Txn.LockManager.{LockMode, LockManager}
use flintdb.Txn.TransactionManager.{TransactionManager, set_pool}
use flintdb.Txn.TransactionManager.Logging.{pool_view}
use flintdb.Txn.PageAccess.{Stop, Call, gave, stopped, Op, ◌>>=◌, ◌>>◌, lock_page}
use flintdb.Txn.HeapFile.{Rid, rid_eq, HeapFile, is_missing, row_in}
use flintdb.Txn.HeapFile.Rows.{
  row_seen, row_at, IsHeap, Refusal, Locks, got, refused, lock_page-Locks, Wrote, set_pool_same,
}

-- The manager has changed, and clients see the rows that they saw.
pub record Unchanged (m : TransactionManager) (h : HeapFile) (m' : TransactionManager)
    : Type 0 where
  pub heap : IsHeap m' h
  pub same : (r : Rid) → row_at m' h r ≡ row_at m h r

abbrev pub with_locks : TransactionManager → LockManager → TransactionManager
with_locks m locks = record m { lock_manager = locks }

-- The manager once the page is locked and fetched.
abbrev pub fetched_at :
    TransactionManager → HeapFile → LockManager → BufferPool → TransactionManager
fetched_at m h locks b' = set_pool (with_locks m locks) h.object_id b'

pub with_locks-IsHeap :
    (m : TransactionManager) (h : HeapFile) (locks : LockManager)
    → IsHeap m h
    → IsHeap (with_locks m locks) h
with_locks-IsHeap m h locks w = record {
  pool = w.pool;
  is_pool = w.is_pool;
  coherent = w.coherent;
  whole = w.whole;
}

-- LockPage before what comes next: it has the lock, or the call stops.
pub locked {ℓ} :
    {A : Type ℓ} (P : Call A → Type 0) (thread o pid : ℕ) (mode : LockMode) (m : TransactionManager)
    (next : Op A)
    → ((locks : LockManager) → P (next (with_locks m locks)))
    → ((why : Stop) (locks : LockManager) (t : ℕ)
        → m.current_txn thread ≡ some t
        → Refusal why
        → P (stopped why (with_locks m locks)))
    → P ((lock_page thread o pid mode >> next) m)
locked P thread o pid mode m next f g = after (lock_page-Locks thread o pid mode m)
  where
    after :
        {r : Call (Unit {0})}
        → Locks thread m r
        → P (elim r [ gave a m' ↦ next m' | stopped why m' ↦ stopped why m' ])
    after (got locks) = f locks
    after (refused {why} locks t e r) = g why locks t e r

-- What comes after an operation that returns.
pub gave_then {ℓ κ} :
    {A : Type ℓ} {B : Type κ} (P : Call B → Type 0) (op : Op A) (next : A → Op B)
    (m : TransactionManager) {a : A} {m' : TransactionManager}
    → op m ≡ gave a m'
    → P (next a m')
    → P ((op >>= next) m)
gave_then P op next m e p = rw (e, ◌>>=◌) p

abbrev pub rows_of : List ℕ → (ℕ → Option (List ℕ)) → Rid → Option (List ℕ)
rows_of ids v r = if has r.page_id ids then row_seen (v r.page_id) r.slot_id else none

-- The rows of a file, from the bytes of its pages.
pub row_at-view :
    (m : TransactionManager) (h : HeapFile) (b : BufferPool) (r : Rid)
    → m.buffer_pools h.object_id ≡ some b
    → row_at m h r ≡ rows_of h.page_ids (view b) r
row_at-view m h b r e = ap (λ p. rows_of h.page_ids (pool_view p) r) e

pub fetched-Unchanged :
    (m : TransactionManager) (h : HeapFile) (locks : LockManager) (b' : BufferPool) (pid : ℕ)
    (page : Page) (w : IsHeap m h)
    → Fetched w.pool pid page b'
    → IsCoherent b'
    → Unchanged m h (set_pool (with_locks m locks) h.object_id b')
fetched-Unchanged m h locks b' pid page w f c =
    let is_pool = set_pool_same (with_locks m locks) h.object_id b' in
    record {
      heap = record {
        pool = b';
        is_pool = is_pool;
        coherent = c;
        whole = λ q e. let (p, s, ok) = w.whole q e in (p, f.kept q ∙ s, ok);
      };
      same = λ r.
          row_at-view (set_pool (with_locks m locks) h.object_id b') h b' r is_pool
          ∙ ap (λ o. if has r.page_id h.page_ids then row_seen o r.slot_id else none)
              (f.kept r.page_id)
          ∙ sym (row_at-view m h w.pool r w.is_pool);
    }

pub locked-Unchanged :
    (m : TransactionManager) (h : HeapFile) (locks : LockManager)
    → IsHeap m h
    → Unchanged m h (with_locks m locks)
locked-Unchanged m h locks w = record { heap = with_locks-IsHeap m h locks w; same = λ r. refl }

pub row_at-page :
    (m : TransactionManager) (h : HeapFile) (rid : Rid) (page : Page) (w : IsHeap m h)
    → has rid.page_id h.page_ids ≡ true
    → view w.pool rid.page_id ≡ some page.buf
    → row_at m h rid ≡ row_in page rid.slot_id
row_at-page m h rid page w owned seen = row_at-view m h w.pool rid w.is_pool ∙ rw (owned, seen) refl

pub row_in-missing : (p : Page) (s : ℕ) → is_missing p s ≡ true → row_in p s ≡ none
unfolding row_in
row_in-missing p s e = rw (e, row_in) refl

pub row_in-present :
    (p : Page) (s : ℕ) → is_missing p s ≡ false → row_in p s ≡ some (get_record p s)
unfolding row_in
row_in-present p s e = rw (e, row_in) refl

pub present-in_use : (p : Page) (s : ℕ) → is_missing p s ≡ false → s < get_slot_count p
present-in_use p s e = ground (arith, e)

-- A change of one slot of one page, seen on the whole file.
pub one_row :
    (m : TransactionManager) (h : HeapFile) (rid r : Rid) (page changed : Page)
    (v : Option (List ℕ)) (w : IsHeap m h)
    → has rid.page_id h.page_ids ≡ true
    → view w.pool rid.page_id ≡ some page.buf
    → row_in changed r.slot_id ≡ (if r.slot_id == rid.slot_id then v else row_in page r.slot_id)
    → (if r.page_id == rid.page_id then row_in changed r.slot_id else row_at m h r)
      ≡ (if rid_eq r rid then v else row_at m h r)
one_row m h rid r page changed v w owned seen e = elim (Bool-cases (r.page_id == rid.page_id)) [
  | inr other ↦ rw other refl
  | inl same ↦
      let at : r.page_id ≡ rid.page_id = (==_iff r.page_id rid.page_id).0 same in
      let old : row_at m h r ≡ row_in page r.slot_id =
        row_at-page m h r page w (ap (λ q. has q h.page_ids) at ∙ owned)
          (ap (view w.pool) at ∙ seen) in
      rw (same, old) e
]

-- What clients see after a page of the file was written: the rows of that page, and no other, are those of
-- the new page.
pub row_at-Wrote :
    (m m0 m' : TransactionManager) (h : HeapFile) (b : BufferPool) (pid : ℕ) (page : Page) (r : Rid)
    (w : IsHeap m h)
    → ((q : ℕ) → view b q ≡ view w.pool q)
    → Wrote m0 b h.object_id pid page m'
    → has pid h.page_ids ≡ true
    → row_at m' h r ≡ (if r.page_id == pid then row_in page r.slot_id else row_at m h r)
row_at-Wrote m m0 m' h b pid page r w kept wrote owned =
    row_at-view m' h wrote.pool r wrote.is_pool ∙ elim (Bool-cases (r.page_id == pid)) [
      | inl same ↦
          let mine : has r.page_id h.page_ids ≡ true =
            ap (λ q. has q h.page_ids) ((==_iff r.page_id pid).0 same) ∙ owned in
          let seen : view wrote.pool r.page_id ≡ some page.buf =
            wrote.seen r.page_id ∙ rw same refl in
          rw (mine, seen, same) refl
      | inr other ↦ rw (other) (
          ap (λ o. if has r.page_id h.page_ids then row_seen o r.slot_id else none)
            (wrote.seen r.page_id ∙ rw other (kept r.page_id))
          ∙ sym (row_at-view m h w.pool r w.is_pool))
    ]

pub Wrote-IsHeap :
    (m m0 m' : TransactionManager) (h : HeapFile) (b : BufferPool) (pid : ℕ) (page : Page)
    (w : IsHeap m h)
    → ((q : ℕ) → view b q ≡ view w.pool q)
    → Wrote m0 b h.object_id pid page m'
    → IsWellFormed page
    → IsHeap m' h
Wrote-IsHeap m m0 m' h b pid page w kept wrote ok = record {
  pool = wrote.pool;
  is_pool = wrote.is_pool;
  coherent = wrote.coherent;
  whole = λ q e. elim (Bool-cases (q == pid)) [
    | inl same ↦ (page, wrote.seen q ∙ rw same refl, ok)
    | inr other ↦ let (p, s, good) = w.whole q e in (p, wrote.seen q ∙ rw other (kept q ∙ s), good)
  ];
}
