-- ===== src/Storage/BufferPool/Coherent.antt =====
-- buffer_pool.cpp: what a client sees of a page, and the invariant that ties cache and file together.
use flintdb.Prelude.{
  ℕ, ◌<◌, ◌≡◌, refl, true, false, Option, none, some, List, ◌==◌, ==_iff, arith, nat_key, has,
  Bool-cases, Option-cases, inl, inr,
}
use flintdb.Storage.Page.{Page}
use flintdb.Storage.DiskManager.{DiskManager, read_page}
use flintdb.Storage.BufferPool.{BufferPool, set_page, fetch_page}

abbrev pub on_disk : BufferPool → ℕ → Option (List ℕ)
on_disk b pid = read_page b.disk_manager pid

abbrev pub bytes_of : Option Page → Option (List ℕ)
bytes_of none = none
bytes_of (some page) = some page.buf

abbrev pub cached_or : Option Page → Option (List ℕ) → Option (List ℕ)
cached_or none bytes = bytes
cached_or (some page) bytes = some page.buf

abbrev pub cached : BufferPool → ℕ → Option (List ℕ)
cached b pid = bytes_of (b.pages pid)

-- The bytes that FetchPage leads a client to.
abbrev pub view : BufferPool → ℕ → Option (List ℕ)
view b pid = cached_or (b.pages pid) (on_disk b pid)

-- A cached page exists in the file, and is the file's unless it is dirty; a dirty page is cached.
pub record IsCoherent (b : BufferPool) : Type 0 where
  pub exists : (pid : ℕ) (page : Page) → b.pages pid ≡ some page → pid < b.disk_manager.next_page_id
  pub matches :
      (pid : ℕ) (page : Page)
      → b.pages pid ≡ some page
      → has pid b.dirty ≡ false
      → on_disk b pid ≡ some page.buf
  pub is_cached : (pid : ℕ) → has pid b.dirty ≡ true → (page : Page) × (b.pages pid ≡ some page)

read_page-eq-some :
    (d : DiskManager) (pid : ℕ) (bytes : List ℕ)
    → read_page d pid ≡ some bytes
    → pid < d.next_page_id
unfolding read_page
read_page-eq-some d pid bytes h = ground arith

-- What FetchPage does when it returns a page.
pub record Fetched (b : BufferPool) (pid : ℕ) (page : Page) (b' : BufferPool) : Type 0 where
  pub seen : view b pid ≡ some page.buf
  pub is_cached : b'.pages pid ≡ some page
  pub kept : (q : ℕ) → view b' q ≡ view b q
  pub same_disk : b'.disk_manager ≡ b.disk_manager
  pub same_dirty : b'.dirty ≡ b.dirty
  pub same_observers : b'.observers_by_thread ≡ b.observers_by_thread

pub data Fetches (b : BufferPool) (pid : ℕ) : Option (Page × BufferPool) → Type 0 where
  refuses : view b pid ≡ none → Fetches b pid none
  returns :
      {page : Page} {b' : BufferPool} → Fetched b pid page b' → Fetches b pid (some (page, b'))

read_in-Fetched :
    (b : BufferPool) (pid : ℕ) (bytes : List ℕ)
    → b.pages pid ≡ none
    → on_disk b pid ≡ some bytes
    → Fetched b pid (record { buf = bytes }) (set_page b pid (record { buf = bytes }))
read_in-Fetched b pid bytes e f = record {
  seen = rw (e, view) f;
  is_cached = ground (arith, ==_iff pid pid);
  kept = λ q. elim (Bool-cases (q == pid)) [
    | inl same ↦
        let at : q ≡ pid = (==_iff q pid).0 same in rw (at, e) (ground (arith, ==_iff pid pid, f))
    | inr other ↦ rw other refl
  ];
  same_disk = refl;
  same_dirty = refl;
  same_observers = refl;
}

-- FetchPage throws exactly for a page that is neither cached nor in the file. Else it returns the page
-- as a client sees it, which is cached from then on; no page's contents change for a client, nor do
-- the file and the dirty set.
pub fetch_page_lem : (b : BufferPool) (pid : ℕ) → Fetches b pid (fetch_page b pid)
unfolding fetch_page
fetch_page_lem b pid = elim (Option-cases (b.pages pid)) [
  | inr (page, e) ↦
      rw (e, fetch_page)
        (returns (record {
          seen = rw e refl;
          is_cached = e;
          kept = λ q. refl;
          same_disk = refl;
          same_dirty = refl;
          same_observers = refl;
        }))
  | inl e ↦ elim (Option-cases (on_disk b pid)) [
    | inl f ↦ rw (e, f, fetch_page) (refuses (rw e f))
    | inr (bytes, f) ↦ rw (e, f, fetch_page) (returns (read_in-Fetched b pid bytes e f))
  ]
]
