-- ===== src/Txn/LockManager/Invariant.antt =====
-- lock_manager.cpp: the two maps of the lock table agree, no entry is left without a holder, and an
-- exclusive holder is alone.
use flintdb.Prelude.{
  ℕ, ◌≡◌, ◌≢◌, refl, true, false, ◌&&◌, Option, none, some, List, [], ◌∷◌, arith, ◌==◌, Bool-cases,
  Option-cases, ◌⊎◌, inl, inr, if◌then◌else◌, nat_key, has, insert, has-erase,
}
use flintdb.Txn.LockManager.{
  LockMode, shared, exclusive, PageKey, page_eq, page_eq_iff, page_key, LockEntry, LockManager,
  conflicts_with_others, empty, grant_entry, fresh_entry, already_sufficient, Outcome, granted,
  waits, dies, note_held, acquire_entry, acquire_step, release_entry, release_page, release_pages,
  release_all, holds, is_free, without, set_lock, older_than_all, other_holders,
}
use flintdb.Txn.LockManager.Entries.{any_other-has}
use flintdb.Txn.LockManager.Table.{
  already_sufficient-holds, listed, listed-note_held, acquire-holds, acquire-refused,
  release_pages-holds,
}
use flintdb.Txn.LockManager.System.{
  System, Step, Reach, begins, acquires, parks, throws, wakes, notifies, releases_nothing, here,
  next, start,
}

-- An entry has a holder, and beside an exclusive holder there is no shared one.
pub record IsSound (e : LockEntry) : Type 0 where
  pub held : is_free e ≡ false
  pub alone : (u w : ℕ) → e.exclusive_holder ≡ some u → has w e.shared_holders ≡ false

abbrev pub EntryIsSound : Option LockEntry → Type 0
EntryIsSound none = Unit
EntryIsSound (some e) = IsSound e

pub record IsConsistent (m : LockManager) : Type 0 where
  pub agrees : (t : ℕ) (k : PageKey) → holds m t k ≡ listed m t k
  pub sound : (k : PageKey) → EntryIsSound (m.locks k)

pub empty-IsConsistent : IsConsistent empty
unfolding empty
empty-IsConsistent = record { agrees = λ t k. refl; sound = λ k. tt }

fresh_entry-IsSound : (t : ℕ) (mode : LockMode) → IsSound (fresh_entry t mode)
unfolding fresh_entry has insert
fresh_entry-IsSound t shared = record { held = refl; alone = λ u w h. ground arith }
fresh_entry-IsSound t exclusive = record { held = refl; alone = λ u w h. refl }

insert-not-nil : (t : ℕ) (xs : List ℕ) → insert t xs ≢ []
unfolding insert
insert-not-nil t [] = ground arith
insert-not-nil t (x ∷ xs) = ground arith

grant_entry-IsSound :
    (e : LockEntry) (t : ℕ) (mode : LockMode)
    → IsSound e
    → already_sufficient e t mode ≡ false
    → conflicts_with_others e t mode ≡ false
    → IsSound (grant_entry e t mode)
unfolding grant_entry conflicts_with_others already_sufficient
grant_entry-IsSound e t shared s a c = record {
  held = ground (arith, insert-not-nil t e.shared_holders);
  alone = λ u w h. ground arith;
}
grant_entry-IsSound e t exclusive s a c = record {
  held = ground arith;
  alone =
      λ u w h. ground (arith, has-erase t w e.shared_holders, any_other-has e.shared_holders t w);
}

kept-IsSound :
    (e : LockEntry)
    → ((u w : ℕ) → e.exclusive_holder ≡ some u → has w e.shared_holders ≡ false)
    → EntryIsSound (if is_free e then none else some e)
kept-IsSound e alone = elim (Bool-cases (is_free e)) [
  | inl free ↦ rw free tt
  | inr taken ↦ rw taken (record { held = taken; alone = alone })
]

release_entry-IsSound : (e : LockEntry) (t : ℕ) → IsSound e → EntryIsSound (release_entry e t)
unfolding release_entry
release_entry-IsSound e t s =
    kept-IsSound (without e t) λ u w h. ground (arith, has-erase t w e.shared_holders, s.alone u w)

set_lock_sound :
    (m : LockManager) (k j : PageKey) (v : Option LockEntry)
    → ((i : PageKey) → EntryIsSound (m.locks i))
    → EntryIsSound v
    → EntryIsSound ((set_lock m k v).locks j)
set_lock_sound m k j v s h = elim (Bool-cases (page_eq k j)) [
  | inl same ↦ rw same h
  | inr other ↦ rw other (s j)
]

IsSound-of :
    (m : LockManager) (k : PageKey) (e : LockEntry)
    → IsConsistent m
    → m.locks k ≡ some e
    → IsSound e
IsSound-of m k e c h = rw h at (c.sound k)

acquire_entry_sound :
    (m : LockManager) (t : ℕ) (k j : PageKey) (mode : LockMode) (e : LockEntry)
    → IsConsistent m
    → IsSound e
    → EntryIsSound ((acquire_entry m t k mode e).0.locks j)
unfolding acquire_entry note_held
acquire_entry_sound m t k j mode e c s = elim (Bool-cases (already_sufficient e t mode)) [
  | inl enough ↦ rw enough (c.sound j)
  | inr more ↦ elim (Bool-cases (conflicts_with_others e t mode)) [
    | inl conflict ↦ elim (Bool-cases (older_than_all t (other_holders e t))) [
      | inl older ↦ rw (more, conflict, older) (c.sound j)
      | inr younger ↦ rw (more, conflict, younger) (c.sound j)
    ]
    | inr free ↦
        rw (more, free)
          (set_lock_sound m k j (some (grant_entry e t mode)) c.sound
            (grant_entry-IsSound e t mode s more free))
  ]
]

acquire_sound :
    (m : LockManager) (t : ℕ) (k j : PageKey) (mode : LockMode)
    → IsConsistent m
    → EntryIsSound ((acquire_step m t k mode).0.locks j)
unfolding acquire_step note_held
acquire_sound m t k j mode c = elim (Option-cases (m.locks k)) [
  | inl e ↦
      rw (e, acquire_step)
        (set_lock_sound m k j (some (fresh_entry t mode)) c.sound (fresh_entry-IsSound t mode))
  | inr (x, e) ↦ rw (e, acquire_step) (acquire_entry_sound m t k j mode x c (IsSound-of m k x c e))
]

acquire-listed :
    (m : LockManager) (t u : ℕ) (k j : PageKey) (mode : LockMode)
    → IsConsistent m
    → (acquire_step m t k mode).1 ≡ granted
    → listed (acquire_step m t k mode).0 u j
      ≡ (if (t == u) && page_eq k j then true else listed m u j)
unfolding acquire_step acquire_entry
acquire-listed m t u k j mode c g = elim (Option-cases (m.locks k)) [
  | inl e ↦ ground (
    arith,
    listed-note_held (set_lock m k (some (fresh_entry t mode))) t u k j,
    page_eq_iff k j,
    page_eq_iff j k,
  )
  | inr (x, e) ↦ ground (
    arith,
    listed-note_held (set_lock m k (some (grant_entry x t mode))) t u k j,
    page_eq_iff k j,
    page_eq_iff j k,
    c.agrees t k,
    already_sufficient-holds x t mode,
  )
]

granted-cases : (o : Outcome) → (o ≡ granted) ⊎ (o ≢ granted)
granted-cases granted = inl refl
granted-cases waits = inr (λ e. cc)
granted-cases dies = inr (λ e. cc)

acquire-agrees :
    (m : LockManager) (t u : ℕ) (k j : PageKey) (mode : LockMode)
    → IsConsistent m
    → holds (acquire_step m t k mode).0 u j ≡ listed (acquire_step m t k mode).0 u j
acquire-agrees m t u k j mode c = elim (granted-cases (acquire_step m t k mode).1) [
  | inl g ↦ cc (acquire-holds m t u k j mode g, acquire-listed m t u k j mode c g, c.agrees u j)
  | inr r ↦ rw (acquire-refused m t k mode r) (c.agrees u j)
]

-- A round of AcquireLock keeps the table consistent, whatever it ends in.
pub acquire-IsConsistent :
    (m : LockManager) (t : ℕ) (k : PageKey) (mode : LockMode)
    → IsConsistent m
    → IsConsistent (acquire_step m t k mode).0
acquire-IsConsistent m t k mode c = record {
  agrees = λ u j. acquire-agrees m t u k j mode c;
  sound = λ j. acquire_sound m t k j mode c;
}

release_page_sound :
    (m : LockManager) (t : ℕ) (k : PageKey)
    → ((i : PageKey) → EntryIsSound (m.locks i))
    → (j : PageKey) → EntryIsSound ((release_page m t k).locks j)
unfolding release_page
release_page_sound m t k s j = elim (Option-cases (m.locks k)) [
  | inl e ↦ rw (e, release_page) (s j)
  | inr (x, e) ↦
      rw (e, release_page)
        (set_lock_sound m k j (release_entry x t) s (release_entry-IsSound x t (rw e at (s k))))
]

release_pages_sound :
    (m : LockManager) (t : ℕ) (ks : List PageKey)
    → ((i : PageKey) → EntryIsSound (m.locks i))
    → (j : PageKey) → EntryIsSound ((release_pages m t ks).locks j)
unfolding release_pages
release_pages_sound m t [] s j = s j
release_pages_sound m t (k ∷ ks) s j =
    release_pages_sound (release_page m t k) t ks (release_page_sound m t k s) j

held-release_pages :
    (m : LockManager) (t : ℕ) (ks : List PageKey)
    → (release_pages m t ks).held_by_txn ≡ m.held_by_txn
unfolding release_pages release_page
held-release_pages m t [] = refl
held-release_pages m t (k ∷ ks) = ground (arith, held-release_pages (release_page m t k) t ks)

-- ReleaseAll takes every hold of the transaction out of the table, and no other.
pub release_all-holds :
    (m : LockManager) (t u : ℕ) (j : PageKey)
    → IsConsistent m
    → holds (release_all m t).0 u j ≡ (if t == u then false else holds m u j)
unfolding release_all
release_all-holds m t u j c = elim (Option-cases (m.held_by_txn t)) [
  | inl e ↦ ground (arith, c.agrees t j)
  | inr (ks, e) ↦ ground (arith, release_pages-holds m t u ks j, c.agrees t j)
]

release_all-listed :
    (m : LockManager) (t u : ℕ) (j : PageKey)
    → listed (release_all m t).0 u j ≡ (if t == u then false else listed m u j)
unfolding release_all
release_all-listed m t u j = elim (Option-cases (m.held_by_txn t)) [
  | inl e ↦ ground arith
  | inr (ks, e) ↦ ground (arith, held-release_pages m t ks)
]

pub release_all-IsConsistent :
    (m : LockManager) (t : ℕ) → IsConsistent m → IsConsistent (release_all m t).0
unfolding release_all
release_all-IsConsistent m t c = record {
  agrees = λ u j. cc (release_all-holds m t u j c, release_all-listed m t u j, c.agrees u j);
  sound = elim (Option-cases (m.held_by_txn t)) [
    | inl e ↦ rw (e, release_all) c.sound
    | inr (ks, e) ↦ rw (e, release_all) (release_pages_sound m t ks c.sound)
  ];
}

-- A ReleaseAll that notifies nobody changed nothing.
pub release_all-quiet :
    (m : LockManager) (t : ℕ) → (release_all m t).1 ≡ false → (release_all m t).0 ≡ m
unfolding release_all
release_all-quiet m t q = ground arith

Step-IsConsistent : {s s' : System} → Step s s' → IsConsistent s.manager → IsConsistent s'.manager
Step-IsConsistent (begins e) c = rw e c
Step-IsConsistent {s} (acquires t r h w g e) c =
    rw e (acquire-IsConsistent s.manager t r.key r.mode c)
Step-IsConsistent (parks t r h w g e) c = rw e c
Step-IsConsistent (throws t r h w g e) c = rw e c
Step-IsConsistent (wakes t e) c = rw e c
Step-IsConsistent {s} (notifies t w g e) c = rw e (release_all-IsConsistent s.manager t c)
Step-IsConsistent {s} (releases_nothing t w g e) c = rw e (release_all-IsConsistent s.manager t c)

pub Reach-IsConsistent : {s : System} → Reach start s → IsConsistent s.manager
Reach-IsConsistent here = empty-IsConsistent
Reach-IsConsistent (next r st) = Step-IsConsistent st (Reach-IsConsistent r)
