-- ===== src/Txn/TransactionManager/Records.antt =====
-- transaction_manager.cpp: the records that Commit writes, and what recovery makes of them.
use flintdb.Prelude.{
  ℕ, ◌^◌, ◌<◌, ◌≡◌, refl, sym, ◌∙◌, Bool, true, false, ◌&&◌, ◌||◌, Option, some, List, [], ◌∷◌,
  ◌++◌, append_assoc, append-nil, ◌==◌, ==_iff, if◌then◌else◌, nat_key, has, arith, All, length,
}
use flintdb.Storage.Page.{page_size}
use flintdb.Wal.LogRecord.{
  LogRecord, update, commit, abort, no_image, invalid_object_id, invalid_page_id,
}
use flintdb.Wal.LogManager.{LogManager, append_update, append_commit, append_abort, next_after}
use flintdb.Wal.LogManager.Durable.{Holds, written, append_record-reopen}
use flintdb.Wal.Recovery.Redo.{last_image}
use flintdb.Txn.TransactionManager.Logging.{Images, append_updates, append_groups}

-- The numbers fit their C++ types and the page is a whole one.
pub record Fits (images : Images) (t o pid : ℕ) : Type 0 where
  pub txn_fits : t < 2 ^ 64
  pub object_fits : o < 2 ^ 32
  pub page_fits : pid < 2 ^ 32
  pub is_whole : length (images o pid) ≡ page_size

unfoldable pub update_records : LogManager → ℕ → Images → ℕ → List ℕ → List LogRecord
update_records l t images o [] = []
update_records l t images o (pid ∷ pids) =
    written l update t o pid (images o pid)
    ∷ update_records (append_update l t o pid (images o pid)).0 t images o pids

-- The update records of the dirtied pages, with the images that clients see.
unfoldable pub group_records : LogManager → ℕ → Images → List (ℕ × List ℕ) → List LogRecord
group_records l t images [] = []
group_records l t images (g ∷ gs) =
    update_records l t images g.0 g.1
    ++ group_records (append_updates l t images g.0 g.1) t images gs

next_after-lt : (rs : List LogRecord) → next_after rs < 2 ^ 64
unfolding next_after
next_after-lt [] = omega arith
next_after-lt (r ∷ []) = omega arith
next_after-lt (r ∷ q ∷ rs) = next_after-lt (q ∷ rs)

append_update-Holds :
    (l : LogManager) (rs : List LogRecord) (t o pid : ℕ) (images : Images)
    → Holds l rs
    → Fits images t o pid
    → Holds
        (append_update l t o pid (images o pid)).0
        (rs ++ written l update t o pid (images o pid) ∷ [])
unfolding append_update
append_update-Holds l rs t o pid images h f =
    (append_record-reopen l rs update t o pid (images o pid) h (record {
      lsn_fits = omega (arith, h.counter, next_after-lt rs);
      txn_fits = f.txn_fits;
      object_fits = f.object_fits;
      page_fits = f.page_fits;
      image_fits = f.is_whole;
    })).1

pub append_commit-Holds :
    (l : LogManager) (rs : List LogRecord) (t : ℕ)
    → Holds l rs
    → t < 2 ^ 64
    → Holds
        (append_commit l t).0
        (rs ++ written l commit t invalid_object_id invalid_page_id no_image ∷ [])
unfolding append_commit
append_commit-Holds l rs t h f =
    (append_record-reopen l rs commit t invalid_object_id invalid_page_id no_image h (record {
      lsn_fits = omega (arith, h.counter, next_after-lt rs);
      txn_fits = f;
      object_fits = omega arith;
      page_fits = omega arith;
      image_fits = refl;
    })).1

pub append_abort-Holds :
    (l : LogManager) (rs : List LogRecord) (t : ℕ)
    → Holds l rs
    → t < 2 ^ 64
    → Holds
        (append_abort l t).0
        (rs ++ written l abort t invalid_object_id invalid_page_id no_image ∷ [])
unfolding append_abort
append_abort-Holds l rs t h f =
    (append_record-reopen l rs abort t invalid_object_id invalid_page_id no_image h (record {
      lsn_fits = omega (arith, h.counter, next_after-lt rs);
      txn_fits = f;
      object_fits = omega arith;
      page_fits = omega arith;
      image_fits = refl;
    })).1

append_updates-Holds :
    (l : LogManager) (rs : List LogRecord) (t o : ℕ) (pids : List ℕ) (images : Images)
    → Holds l rs
    → All (Fits images t o) pids
    → Holds (append_updates l t images o pids) (rs ++ update_records l t images o pids)
unfolding append_updates update_records
append_updates-Holds l rs t o [] images h f = rw (append-nil rs) h
append_updates-Holds l rs t o (pid ∷ pids) images h f =
    rw
      (sym (
        append_assoc rs (written l update t o pid (images o pid) ∷ [])
          (update_records (append_update l t o pid (images o pid)).0 t images o pids)))
      (append_updates-Holds (append_update l t o pid (images o pid)).0
        (rs ++ written l update t o pid (images o pid) ∷ []) t o pids images
        (append_update-Holds l rs t o pid images h f.0) f.1)

pub append_groups-Holds :
    (l : LogManager) (rs : List LogRecord) (t : ℕ) (gs : List (ℕ × List ℕ)) (images : Images)
    → Holds l rs
    → All (λ g. All (Fits images t g.0) g.1) gs
    → Holds (append_groups l t images gs) (rs ++ group_records l t images gs)
unfolding append_groups group_records
append_groups-Holds l rs t [] images h f = rw (append-nil rs) h
append_groups-Holds l rs t (g ∷ gs) images h f =
    rw
      (sym (
        append_assoc rs (update_records l t images g.0 g.1)
          (group_records (append_updates l t images g.0 g.1) t images gs)))
      (append_groups-Holds (append_updates l t images g.0 g.1)
        (rs ++ update_records l t images g.0 g.1) t gs images
        (append_updates-Holds l rs t g.0 g.1 images h f.0) f.1)

-- Is the page in one of the groups?
unfoldable pub in_groups : ℕ → ℕ → List (ℕ × List ℕ) → Bool
in_groups o q [] = false
in_groups o q (g ∷ gs) = ((o == g.0) && has q g.1) || in_groups o q gs

pub last_image-append :
    (xs ys : List LogRecord) (wins : ℕ → Bool) (o q : ℕ) (old : Option (List ℕ))
    → last_image (xs ++ ys) wins o q old ≡ last_image ys wins o q (last_image xs wins o q old)
unfolding last_image
last_image-append [] ys wins o q old = refl
last_image-append (x ∷ xs) ys wins o q old = last_image-append xs ys wins o q _

last_image-update_records :
    (l : LogManager) (t o : ℕ) (pids : List ℕ) (images : Images) (wins : ℕ → Bool) (i q : ℕ)
    (old : Option (List ℕ))
    → wins t ≡ true
    → last_image (update_records l t images o pids) wins i q old
      ≡ (if (i == o) && has q pids then some (images i q) else old)
unfolding last_image update_records has
last_image-update_records l t o [] images wins i q old w = ground arith
last_image-update_records l t o (pid ∷ pids) images wins i q old w =
    last_image-update_records (append_update l t o pid (images o pid)).0 t o pids images wins i q _
      w
    ∙ ground (arith, w, ==_iff i o, ==_iff q pid)

pub last_image-group_records :
    (l : LogManager) (t : ℕ) (gs : List (ℕ × List ℕ)) (images : Images) (wins : ℕ → Bool) (o q : ℕ)
    (old : Option (List ℕ))
    → wins t ≡ true
    → last_image (group_records l t images gs) wins o q old
      ≡ (if in_groups o q gs then some (images o q) else old)
unfolding last_image group_records in_groups
last_image-group_records l t [] images wins o q old w = refl
last_image-group_records l t (g ∷ gs) images wins o q old w =
    last_image-append (update_records l t images g.0 g.1)
      (group_records (append_updates l t images g.0 g.1) t images gs) wins o q old
    ∙ last_image-group_records (append_updates l t images g.0 g.1) t gs images wins o q _ w
    ∙ ground (arith, last_image-update_records l t g.0 g.1 images wins o q old w)
