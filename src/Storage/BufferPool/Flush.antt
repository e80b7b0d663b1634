-- ===== src/Storage/BufferPool/Flush.antt =====
-- buffer_pool.cpp: FlushPages writes the dirty pages it is given, and no others.
use flintdb.Prelude.{
  ℕ, ◌<◌, ◌≡◌, refl, ap, ◌∙◌, Bool, true, false, ◌&&◌, ◌||◌, not, some, List, [], ◌∷◌, ◌==◌, ==_iff,
  arith, if◌then◌else◌, nat_key, has, erase, has-erase, Bool-cases, Option-cases, inl, inr,
}
use flintdb.Storage.Page.{Page}
use flintdb.Storage.DiskManager.{read_page, write_page}
use flintdb.Storage.BufferPool.{BufferPool, flushed, write_back, flush_pages}
use flintdb.Storage.BufferPool.Coherent.{on_disk, cached, bytes_of, view, IsCoherent}

-- What a flush of the pages that are asked for does to a pool.
pub record Flushes (b : BufferPool) (asked : ℕ → Bool) (b' : BufferPool) : Type 0 where
  pub coherent : IsCoherent b'
  pub same_pages : (q : ℕ) → b'.pages q ≡ b.pages q
  pub same_observers : (t : ℕ) → b'.observers_by_thread t ≡ b.observers_by_thread t
  pub same_length : b'.disk_manager.next_page_id ≡ b.disk_manager.next_page_id
  pub written :
      (q : ℕ) → on_disk b' q ≡ (if asked q && has q b.dirty then cached b q else on_disk b q)
  pub still_dirty : (q : ℕ) → has q b'.dirty ≡ (has q b.dirty && not (asked q))

-- The pool after one page is written back.
abbrev flushed_one : BufferPool → ℕ → Page → BufferPool
flushed_one b pid page = record b {
  disk_manager = record (b.disk_manager) {
    pages = λ p. if p == pid then page.buf else b.disk_manager.pages p;
  };
  dirty = erase pid b.dirty;
}

write_back_in_range :
    (b : BufferPool) (pid : ℕ) (page : Page)
    → pid < b.disk_manager.next_page_id
    → write_back b pid page
      ≡ some (record b { disk_manager = (flushed_one b pid page).disk_manager })
unfolding write_back write_page
write_back_in_range b pid page h = ground arith

on_disk-flushed_one :
    (b : BufferPool) (pid : ℕ) (page : Page) (q : ℕ)
    → pid < b.disk_manager.next_page_id
    → on_disk (flushed_one b pid page) q ≡ (if q == pid then some page.buf else on_disk b q)
unfolding read_page
on_disk-flushed_one b pid page q h = ground arith

flushed_one-Flushes :
    (b : BufferPool) (pid : ℕ) (page : Page)
    → IsCoherent b
    → b.pages pid ≡ some page
    → has pid b.dirty ≡ true
    → Flushes b (λ q. q == pid) (flushed_one b pid page)
flushed_one-Flushes b pid page c e d = record {
  coherent = record {
    exists = c.exists;
    matches = λ q p f clean. ground (
      arith,
      on_disk-flushed_one b pid page q (c.exists pid page e),
      has-erase pid q b.dirty,
      ==_iff q pid,
      ==_iff pid q,
      c.matches q p f,
      e,
    );
    is_cached = λ q h. c.is_cached q (ground (arith, has-erase pid q b.dirty));
  };
  same_pages = λ q. refl;
  same_observers = λ t. refl;
  same_length = refl;
  written = λ q. ground (
    arith,
    on_disk-flushed_one b pid page q (c.exists pid page e),
    ==_iff q pid,
    d,
    ap bytes_of e,
  );
  still_dirty = λ q. ground (arith, has-erase pid q b.dirty, ==_iff q pid);
}

pub Flushes-nothing : (b : BufferPool) → IsCoherent b → Flushes b (λ q. false) b
Flushes-nothing b c = record {
  coherent = c;
  same_pages = λ q. refl;
  same_observers = λ t. refl;
  same_length = refl;
  written = λ q. refl;
  still_dirty = λ q. ground arith;
}

-- Asking for pages that are not dirty makes no difference.
pub Flushes-ext :
    (b b' : BufferPool) (asked wanted : ℕ → Bool)
    → ((q : ℕ) → has q b.dirty ≡ true → wanted q ≡ asked q)
    → Flushes b asked b'
    → Flushes b wanted b'
Flushes-ext b b' asked wanted same f = record {
  coherent = f.coherent;
  same_pages = f.same_pages;
  same_observers = f.same_observers;
  same_length = f.same_length;
  written = λ q. ground (arith, f.written q, same q);
  still_dirty = λ q. ground (arith, f.still_dirty q, same q);
}

-- One flush after another.
pub Flushes-trans :
    (b b1 b2 : BufferPool) (asked wanted : ℕ → Bool)
    → Flushes b asked b1
    → Flushes b1 wanted b2
    → Flushes b (λ q. asked q || wanted q) b2
Flushes-trans b b1 b2 asked wanted f g = record {
  coherent = g.coherent;
  same_pages = λ q. g.same_pages q ∙ f.same_pages q;
  same_observers = λ t. g.same_observers t ∙ f.same_observers t;
  same_length = g.same_length ∙ f.same_length;
  written =
      λ q. ground (arith, g.written q, f.written q, f.still_dirty q, ap bytes_of (f.same_pages q));
  still_dirty = λ q. ground (arith, g.still_dirty q, f.still_dirty q);
}

-- On a coherent pool FlushPages never throws. Of the given pages it writes those that are dirty, with
-- their cached bytes, and these are clean after it; no other page of the file changes and no other
-- page becomes clean. What clients see is unchanged, and the pool is coherent still.
pub flush_pages_lem :
    (b : BufferPool) (ids : List ℕ)
    → IsCoherent b
    → (b' : BufferPool) × (flush_pages b ids ≡ flushed b') × Flushes b (λ q. has q ids) b'
unfolding flush_pages has
flush_pages_lem b [] c = (b, refl, Flushes-nothing b c)
flush_pages_lem b (pid ∷ pids) c = elim (Bool-cases (has pid b.dirty)) [
  | inr clean ↦
      let (b', e, f) = flush_pages_lem b pids c in
      (
        b',
        rw (clean, flush_pages) e,
        Flushes-ext b b' (λ q. has q pids) (λ q. (q == pid) || has q pids)
            (λ q h. ground (arith, ==_iff q pid)) f,
      )
  | inl d ↦
      let (page, e) = c.is_cached pid d in
      let one = flushed_one-Flushes b pid page c e d in
      let (b', g, f) = flush_pages_lem (flushed_one b pid page) pids one.coherent in
      (
        b',
        rw (d, e, write_back_in_range b pid page (c.exists pid page e), flush_pages) g,
        Flushes-trans b (flushed_one b pid page) b' (λ q. q == pid) (λ q. has q pids) one f,
      )
]

-- A flush changes nothing for clients.
pub view-Flushes :
    (b b' : BufferPool) (asked : ℕ → Bool) (q : ℕ)
    → IsCoherent b
    → Flushes b asked b'
    → view b' q ≡ view b q
view-Flushes b b' asked q c f = elim (Option-cases (b.pages q)) [
  | inr (page, e) ↦ rw (f.same_pages q, e, view) refl
  | inl e ↦ rw (f.same_pages q, e, view) (ground (arith, f.written q, c.is_cached q))
]
