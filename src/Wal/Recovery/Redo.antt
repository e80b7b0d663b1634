-- ===== src/Wal/Recovery/Redo.antt =====
-- recovery.cpp: what the files hold after a recovery that ends without an exception.
use flintdb.Prelude.{
  ℕ, suc, ◌+◌, ◌≡◌, refl, ap, sym, ◌∙◌, ◌⊎◌, inl, inr, Bool, false, ◌||◌, ◌&&◌, Option, none, some,
  List, [], ◌∷◌, arith, ◌==◌, Bool-cases, Option-cases, if◌then◌else◌, nat_key, has, insert,
  has-insert,
}
use flintdb.Storage.DiskManager.{write_page}
use flintdb.Wal.LogRecord.{LogRecord}
use flintdb.Wal.Recovery.{
  Disks, is_commit, is_update, collect_committed, replayed, set_disk, is_redone, redo, redo_failure,
  replay, run_recovery,
}

-- A transaction is committed if the log has a commit record of it.
unfoldable pub committed_in : List LogRecord → ℕ → Bool
committed_in [] t = false
committed_in (r ∷ rs) t = (is_commit r.kind && (t == r.txn_id)) || committed_in rs t

pub has-collect_committed :
    (rs : List LogRecord) (acc : List ℕ) (t : ℕ)
    → has t (collect_committed rs acc) ≡ (has t acc || committed_in rs t)
unfolding collect_committed committed_in
has-collect_committed [] acc t = ground arith
has-collect_committed (r ∷ rs) acc t = ground (
  arith,
  has-collect_committed rs (if is_commit r.kind then insert r.txn_id acc else acc) t,
  has-insert r.txn_id t acc,
)

-- The page that a file map holds.
abbrev pub page_at : Disks → ℕ → ℕ → Option (List ℕ)
page_at ds o p = elim (ds o) [ none ↦ none | some d ↦ some (d.pages p) ]

-- The specification: the image that the last update record of a committed transaction gives the page.
unfoldable pub last_image : List LogRecord → (ℕ → Bool) → ℕ → ℕ → Option (List ℕ) → Option (List ℕ)
last_image [] wins o p old = old
last_image (r ∷ rs) wins o p old = last_image rs wins o p (
    if is_update r.kind && (wins r.txn_id && ((o == r.object_id) && (p == r.page_id)))
    then some r.page_image
    else old)

-- The number of update records of committed transactions.
unfoldable pub count_updates : List LogRecord → (ℕ → Bool) → ℕ
count_updates [] wins = 0
count_updates (r ∷ rs) wins =
    (if is_update r.kind && wins r.txn_id then 1 else 0) + count_updates rs wins

page_at-redo :
    (r : LogRecord) (ds ds' : Disks) (o p : ℕ)
    → redo r ds ≡ some ds'
    → page_at ds' o p
      ≡ (if (o == r.object_id) && (p == r.page_id) then some r.page_image else page_at ds o p)
unfolding redo write_page set_disk
page_at-redo r ds ds' o p h = ground arith

module _ (wins : ℕ → Bool) (committed : List ℕ) (same : (t : ℕ) → has t committed ≡ wins t) where
  replay-last_image :
      (rs : List LogRecord) (n m : ℕ) (ds ds' : Disks) (o p : ℕ)
      → replay rs committed n ds ≡ (replayed m, ds')
      → (page_at ds' o p ≡ last_image rs wins o p (page_at ds o p))
        × (m ≡ n + count_updates rs wins)
  unfolding replay redo_failure last_image count_updates
  replay-last_image [] n m ds ds' o p h =
      (ap (λ x. page_at x o p) (sym (ap (λ x. x.1) h)), ground arith)
  replay-last_image (r ∷ rs) n m ds ds' o p h = elim (Bool-cases (is_redone committed r)) [
    | inl redone ↦ elim (Option-cases (redo r ds)) [
      | inl e ↦ absurd (ground arith)
      | inr (ds1, e) ↦
          let ih = replay-last_image rs (suc n) m ds1 ds' o p (ground arith) in
          (
            ih.0
                ∙ ap (last_image rs wins o p)
                    (ground (arith, page_at-redo r ds ds1 o p e, same r.txn_id)),
            ground (arith, ih.1, same r.txn_id),
          )
    ]
    | inr skipped ↦
        let ih = replay-last_image rs n m ds ds' o p (ground arith) in
        (
          ih.0 ∙ ap (last_image rs wins o p) (ground (arith, same r.txn_id)),
          ground (arith, ih.1, same r.txn_id),
        )
  ]

-- When recovery ends without an exception, every page of every file holds the image of the last update
-- record that a transaction with a commit record made of it, or what it held before if there is none,
-- and the number returned is that of the update records of such transactions.
pub run_recovery-last_image :
    (records : List LogRecord) (m : ℕ) (ds ds' : Disks) (o p : ℕ)
    → run_recovery records ds ≡ (replayed m, ds')
    → (page_at ds' o p ≡ last_image records (committed_in records) o p (page_at ds o p))
      × (m ≡ count_updates records (committed_in records))
unfolding run_recovery has
run_recovery-last_image records m ds ds' o p h =
    let (pages, count) =
      replay-last_image (committed_in records) (collect_committed records [])
        (λ t. has-collect_committed records [] t) records 0 m ds ds' o p h in
    (pages, omega (arith, count))

-- A log either leaves a page alone or decides its image.
last_image-cases :
    (rs : List LogRecord) (wins : ℕ → Bool) (o p : ℕ)
    → ((old : Option (List ℕ)) → last_image rs wins o p old ≡ old)
      ⊎ ((v : Option (List ℕ)) × ((old : Option (List ℕ)) → last_image rs wins o p old ≡ v))
unfolding last_image
last_image-cases [] wins o p = inl (λ old. refl)
last_image-cases (r ∷ rs) wins o p =
    elim (Bool-cases
      (is_update r.kind && (wins r.txn_id && ((o == r.object_id) && (p == r.page_id))))) [
        | inl hit ↦ inr (last_image rs wins o p (some r.page_image), λ old. rw hit)
        | inr miss ↦ elim (last_image-cases rs wins o p) [
          | inl alone ↦ inl (λ old. rw miss (alone old))
          | inr (v, decided) ↦ inr (v, λ old. rw miss (decided old))
        ]
      ]

last_image_idem :
    (rs : List LogRecord) (wins : ℕ → Bool) (o p : ℕ) (old : Option (List ℕ))
    → last_image rs wins o p (last_image rs wins o p old) ≡ last_image rs wins o p old
last_image_idem rs wins o p old = elim (last_image-cases rs wins o p) [
  | inl alone ↦ alone (last_image rs wins o p old)
  | inr (v, decided) ↦ decided (last_image rs wins o p old) ∙ sym (decided old)
]

-- Running recovery again on the same log, as after a crash during or just after the first run, leaves
-- every page as the first run left it.
pub run_recovery_idem :
    (records : List LogRecord) (m m' : ℕ) (ds ds' ds'' : Disks) (o p : ℕ)
    → run_recovery records ds ≡ (replayed m, ds')
    → run_recovery records ds' ≡ (replayed m', ds'')
    → (page_at ds'' o p ≡ page_at ds' o p) × (m' ≡ m)
run_recovery_idem records m m' ds ds' ds'' o p h h' =
    let (first, n) = run_recovery-last_image records m ds ds' o p h in
    let (second, n') = run_recovery-last_image records m' ds' ds'' o p h' in
    (
      second
          ∙ ap (last_image records (committed_in records) o p) first
          ∙ last_image_idem records (committed_in records) o p (page_at ds o p)
          ∙ sym first,
      omega arith,
    )
