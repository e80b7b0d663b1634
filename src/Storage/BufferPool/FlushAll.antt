-- ===== src/Storage/BufferPool/FlushAll.antt =====
-- buffer_pool.cpp: FlushAll brings the whole file up to date.
use flintdb.Prelude.{
  ℕ, ◌<◌, ◌≡◌, refl, sym, ◌∙◌, false, none, some, List, [], ◌∷◌, ◌==◌, ==_iff, arith, if◌then◌else◌,
  nat_key, has, Option-cases, inl, inr,
}
use flintdb.Storage.Page.{Page}
use flintdb.Storage.DiskManager.{read_page, write_page}
use flintdb.Storage.BufferPool.{BufferPool, flushed, write_back, flush_each, flush_all}
use flintdb.Storage.BufferPool.Coherent.{on_disk, view, IsCoherent}

-- Every cached page is the file's, but for those still to be written.
record IsCurrentBut (b : BufferPool) (pids : List ℕ) : Type 0 where
  pub exists : (q : ℕ) (page : Page) → b.pages q ≡ some page → q < b.disk_manager.next_page_id
  pub current :
      (q : ℕ) (page : Page)
      → b.pages q ≡ some page
      → has q pids ≡ false
      → on_disk b q ≡ some page.buf

pub record FlushesAll (b b' : BufferPool) : Type 0 where
  pub same_pages : (q : ℕ) → b'.pages q ≡ b.pages q
  pub same_length : b'.disk_manager.next_page_id ≡ b.disk_manager.next_page_id
  pub all_clean : b'.dirty ≡ []
  pub written : (q : ℕ) → on_disk b' q ≡ view b q

abbrev after_write : BufferPool → ℕ → Page → BufferPool
after_write b pid page = record b {
  disk_manager = record (b.disk_manager) {
    pages = λ p. if p == pid then page.buf else b.disk_manager.pages p;
  };
}

write_back_after :
    (b : BufferPool) (pid : ℕ) (page : Page)
    → pid < b.disk_manager.next_page_id
    → write_back b pid page ≡ some (after_write b pid page)
unfolding write_back write_page
write_back_after b pid page h = ground arith

on_disk-after_write :
    (b : BufferPool) (pid : ℕ) (page : Page) (q : ℕ)
    → pid < b.disk_manager.next_page_id
    → on_disk (after_write b pid page) q ≡ (if q == pid then some page.buf else on_disk b q)
unfolding read_page
on_disk-after_write b pid page q h = ground arith

after_write-IsCurrentBut :
    (b : BufferPool) (pid : ℕ) (pids : List ℕ) (page : Page)
    → b.pages pid ≡ some page
    → IsCurrentBut b (pid ∷ pids)
    → IsCurrentBut (after_write b pid page) pids
unfolding has
after_write-IsCurrentBut b pid pids page e c = record {
  exists = c.exists;
  current = λ q p f h. ground (
    arith,
    on_disk-after_write b pid page q (c.exists pid page e),
    ==_iff q pid,
    e,
    c.current q p f,
  );
}

view-after_write :
    (b : BufferPool) (pid : ℕ) (page : Page) (q : ℕ)
    → b.pages pid ≡ some page
    → pid < b.disk_manager.next_page_id
    → view (after_write b pid page) q ≡ view b q
view-after_write b pid page q e h = elim (Option-cases (b.pages q)) [
  | inr (other, f) ↦ rw (f, view) refl
  | inl f ↦ rw (f, view) (ground (arith, on_disk-after_write b pid page q h, ==_iff q pid, e))
]

skip-IsCurrentBut :
    (b : BufferPool) (pid : ℕ) (pids : List ℕ)
    → b.pages pid ≡ none
    → IsCurrentBut b (pid ∷ pids)
    → IsCurrentBut b pids
unfolding has
skip-IsCurrentBut b pid pids e c = record {
  exists = c.exists;
  current = λ q p f h. c.current q p f (ground (arith, ==_iff q pid, e, f));
}

flush_each_lem :
    (b : BufferPool) (pids : List ℕ)
    → IsCurrentBut b pids
    → (b' : BufferPool) × (flush_each b pids ≡ flushed b') × FlushesAll b b'
unfolding flush_each has
flush_each_lem b [] c = (
  record b { dirty = [] },
  refl,
  record {
    same_pages = λ q. refl;
    same_length = refl;
    all_clean = refl;
    written = λ q. elim (Option-cases (b.pages q)) [
      | inl e ↦ rw (e, view) refl
      | inr (page, e) ↦ rw (e, view) (c.current q page e refl)
    ];
  },
)
flush_each_lem b (pid ∷ pids) c = elim (Option-cases (b.pages pid)) [
  | inl e ↦
      let (b', f, all) = flush_each_lem b pids (skip-IsCurrentBut b pid pids e c) in
      (b', rw (e, flush_each) f, all)
  | inr (page, e) ↦
      let h = c.exists pid page e in
      let (b', f, all) =
        flush_each_lem (after_write b pid page) pids
          (after_write-IsCurrentBut b pid pids page e c) in
      (
        b',
        rw (e, write_back_after b pid page h, flush_each) f,
        record {
          same_pages = all.same_pages;
          same_length = all.same_length;
          all_clean = all.all_clean;
          written = λ q. all.written q ∙ view-after_write b pid page q e h;
        },
      )
]

-- On a coherent pool FlushAll never throws. After it no page is dirty, and the file holds of every page
-- what a client sees; the cache is unchanged.
pub flush_all_lem :
    (b : BufferPool)
    → IsCoherent b
    → (b' : BufferPool) × (flush_all b ≡ flushed b') × FlushesAll b b'
unfolding flush_all
flush_all_lem b c = flush_each_lem b b.dirty (record { exists = c.exists; current = c.matches })

pub FlushesAll-IsCoherent : (b b' : BufferPool) → IsCoherent b → FlushesAll b b' → IsCoherent b'
unfolding has
FlushesAll-IsCoherent b b' c f = record {
  exists = λ q p e. rw f.same_length (c.exists q p (sym (f.same_pages q) ∙ e));
  matches = λ q p e clean. f.written q ∙ (rw (sym (f.same_pages q) ∙ e, view) refl);
  is_cached = λ q h. ground (arith, f.all_clean);
}
