-- ===== src/Storage/BufferPool/Steps.antt =====
-- buffer_pool.cpp: each method keeps the pool coherent.
use mathlib.Core.Path.{subst}
use flintdb.Prelude.{
  ℕ, ◌+◌, ◌^◌, ◌<◌, ◌≡◌, refl, sym, ap, ◌∙◌, true, false, Option, none, some, List, ◌==◌, ==_iff,
  arith, if◌then◌else◌, nat_key, has, erase, has-insert, has-erase, Bool-cases, Option-cases, inl,
  inr,
}
use flintdb.Storage.Page.{Page, new_page, init_heap_page}
use flintdb.Storage.DiskManager.{DiskManager, allocate_page, read_page}
use flintdb.Storage.BufferPool.{
  BufferPool, set_page, mark_dirty, new_pool_page, new_heap_page, fetch_page, discard_page,
}
use flintdb.Storage.BufferPool.Coherent.{on_disk, view, cached_or, IsCoherent}

pub read_page-eq-some :
    (d : DiskManager) (pid : ℕ) (bytes : List ℕ)
    → read_page d pid ≡ some bytes
    → pid < d.next_page_id
unfolding read_page
read_page-eq-some d pid bytes h = ground arith

-- A page read in from the file: not dirty, whatever it was before.
pub reread-IsCoherent :
    {b : BufferPool} (pid : ℕ) (bytes : List ℕ) (remaining : List ℕ)
    → IsCoherent b
    → on_disk b pid ≡ some bytes
    → ((q : ℕ) → has q remaining ≡ (if pid == q then false else has q b.dirty))
    → IsCoherent (record (set_page b pid (record { buf = bytes })) { dirty = remaining })
reread-IsCoherent {b} pid bytes remaining c h left = record {
  exists = λ q page e.
      ground (arith, ==_iff q pid, c.exists q page, read_page-eq-some b.disk_manager pid bytes);
  matches = λ q page e clean. elim (Bool-cases (q == pid)) [
    | inl same ↦ ground (arith, ==_iff q pid, h)
    | inr other ↦ ground (arith, left q, c.matches q page)
  ];
  is_cached = λ q h. ground (arith, left q, c.is_cached q);
}

-- A client writes a page through its pointer, and marks it.
pub touch-IsCoherent :
    {b : BufferPool} (thread pid : ℕ) (page : Page)
    → IsCoherent b
    → pid < b.disk_manager.next_page_id
    → IsCoherent (mark_dirty thread (set_page b pid page) pid).0
unfolding mark_dirty
touch-IsCoherent {b} thread pid page c h = record {
  exists = λ q p e. ground (arith, ==_iff q pid, c.exists q p);
  matches = λ q p e clean. ground (arith, ==_iff q pid, has-insert pid q b.dirty, c.matches q p);
  is_cached = λ q d. elim (Bool-cases (q == pid)) [
    | inl same ↦ (page, rw same refl)
    | inr other ↦ rw other (c.is_cached q (ground (arith, has-insert pid q b.dirty)))
  ];
}

pub new_pool_page-IsCoherent :
    {b : BufferPool} (thread : ℕ)
    → IsCoherent b
    → b.disk_manager.next_page_id + 1 < 2 ^ 32
    → IsCoherent (new_pool_page thread b).0
unfolding new_pool_page mark_dirty allocate_page read_page
new_pool_page-IsCoherent {b} thread c h = record {
  exists = λ q p e. ground (arith, c.exists q p);
  matches = λ q p e clean.
      ground (arith, has-insert b.disk_manager.next_page_id q b.dirty, c.exists q p, c.matches q p);
  is_cached = λ q d. elim (Bool-cases (q == b.disk_manager.next_page_id)) [
    | inl same ↦ (new_page, rw same refl)
    | inr other ↦
        rw other (c.is_cached q (ground (arith, has-insert b.disk_manager.next_page_id q b.dirty)))
  ];
}

not_cached-clean :
    {b : BufferPool} (pid : ℕ) → IsCoherent b → b.pages pid ≡ none → has pid b.dirty ≡ false
not_cached-clean {b} pid c e = elim (Bool-cases (has pid b.dirty)) [
  | inr clean ↦ clean
  | inl d ↦ let (page, f) = c.is_cached pid d in cc
]

read_page_in_range :
    (d : DiskManager) (pid : ℕ) → pid < d.next_page_id → read_page d pid ≡ some (d.pages pid)
unfolding read_page
read_page_in_range d pid h = ground arith

abbrev KeepsCoherent : Option (Page × BufferPool) → Type 0
KeepsCoherent none = Unit
KeepsCoherent (some (page, b)) = IsCoherent b

fetch_page-KeepsCoherent :
    (b : BufferPool) (pid : ℕ) → IsCoherent b → KeepsCoherent (fetch_page b pid)
unfolding fetch_page
fetch_page-KeepsCoherent b pid c = elim (Option-cases (b.pages pid)) [
  | inr (page, e) ↦ rw (e, fetch_page) c
  | inl e ↦ elim (Option-cases (on_disk b pid)) [
    | inl f ↦ rw (e, f, fetch_page) tt
    | inr (bytes, f) ↦
        rw (e, f, fetch_page)
          (reread-IsCoherent pid bytes b.dirty c f
            (λ q. ground (arith, ==_iff pid q, not_cached-clean pid c e)))
  ]
]

pub fetch_page-IsCoherent :
    {b b' : BufferPool} (pid : ℕ) (page : Page)
    → IsCoherent b
    → fetch_page b pid ≡ some (page, b')
    → IsCoherent b'
fetch_page-IsCoherent {b} pid page c h = subst KeepsCoherent h (fetch_page-KeepsCoherent b pid c)

-- What DiscardPage does on a coherent pool.
pub record Discarded (b : BufferPool) (pid : ℕ) (b' : BufferPool) : Type 0 where
  pub coherent : IsCoherent b'
  pub same_disk : b'.disk_manager ≡ b.disk_manager
  pub seen : (q : ℕ) → view b' q ≡ (if q == pid then on_disk b q else view b q)
  pub still_dirty : (q : ℕ) → has q b'.dirty ≡ (if pid == q then false else has q b.dirty)

-- On a coherent pool DiscardPage never throws. A client then sees the file's bytes of the page, which
-- is no longer dirty; every other page is seen as before and the file is unchanged. The pool is
-- coherent still.
pub discard_page_lem :
    (b : BufferPool) (pid : ℕ)
    → IsCoherent b
    → (b' : BufferPool) × (discard_page b pid ≡ some b') × Discarded b pid b'
unfolding discard_page
discard_page_lem b pid c = elim (Option-cases (b.pages pid)) [
  | inl e ↦ (
    b,
    rw (e, discard_page) refl,
    record {
      coherent = c;
      same_disk = refl;
      seen = λ q. elim (Bool-cases (q == pid)) [
        | inl same ↦
            rw same (ap (λ o. cached_or o (on_disk b q)) (ap b.pages ((==_iff q pid).0 same) ∙ e))
        | inr other ↦ rw other refl
      ];
      still_dirty = λ q. ground (arith, ==_iff pid q, not_cached-clean pid c e);
    },
  )
  | inr (page, e) ↦
      let found = read_page_in_range b.disk_manager pid (c.exists pid page e) in
      (
        record (set_page b pid (record { buf = b.disk_manager.pages pid })) {
          dirty = erase pid b.dirty;
        },
        rw (e, found, discard_page) refl,
        record {
          coherent =
              reread-IsCoherent pid (b.disk_manager.pages pid) (erase pid b.dirty) c found
                (λ q. has-erase pid q b.dirty);
          same_disk = refl;
          seen = λ q. elim (Bool-cases (q == pid)) [
            | inl same ↦ rw same (sym found ∙ ap (on_disk b) (sym ((==_iff q pid).0 same)))
            | inr other ↦ rw other refl
          ];
          still_dirty = λ q. has-erase pid q b.dirty;
        },
      )
]

-- A client writes again to a page that is dirty.
pub set_dirty_page-IsCoherent :
    {b : BufferPool} (pid : ℕ) (page : Page)
    → IsCoherent b
    → has pid b.dirty ≡ true
    → IsCoherent (set_page b pid page)
set_dirty_page-IsCoherent {b} pid page c d =
    let (before, e) = c.is_cached pid d in
    record {
      exists = λ q p f. ground (arith, ==_iff q pid, c.exists q p, c.exists pid before e);
      matches = λ q p f clean. ground (arith, ==_iff q pid, c.matches q p, d);
      is_cached = λ q h. elim (Bool-cases (q == pid)) [
        | inl same ↦ (page, rw same refl)
        | inr other ↦ rw other (c.is_cached q h)
      ];
    }

pub new_heap_page-IsCoherent :
    {b : BufferPool} (thread : ℕ)
    → IsCoherent b
    → b.disk_manager.next_page_id + 1 < 2 ^ 32
    → IsCoherent (new_heap_page thread b).0
unfolding new_heap_page new_pool_page mark_dirty allocate_page
new_heap_page-IsCoherent {b} thread c h =
    set_dirty_page-IsCoherent b.disk_manager.next_page_id
      (init_heap_page new_page b.disk_manager.next_page_id) (new_pool_page-IsCoherent thread c h)
      (ground (
        arith,
        has-insert b.disk_manager.next_page_id b.disk_manager.next_page_id b.dirty,
        ==_iff b.disk_manager.next_page_id b.disk_manager.next_page_id,
      ))
