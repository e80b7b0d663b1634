-- ===== src/Txn/LockManager/Entries.antt =====
-- lock_manager.cpp: lemmas on one lock entry and its holders.
use flintdb.Prelude.{
  ℕ, ◌<◌, ◌≤◌, ◌≡◌, ◌≢◌, refl, true, false, ◌||◌, none, some, List, [], ◌∷◌, arith, ltb, ◌==◌,
  Bool-cases, Option-cases, inl, inr, if◌then◌else◌, nat_key, has, insert, has-insert, has-erase,
}
use flintdb.Txn.LockManager.{
  LockMode, shared, exclusive, LockEntry, any_other, conflicts_with_others, insert_others,
  other_holders, older_than_all, fresh_entry, grant_entry, release_entry, entry_holds,
}

pub any_other-has : (us : List ℕ) (t u : ℕ) → any_other us t ≡ false → u ≢ t → has u us ≡ false
unfolding any_other has
any_other-has [] t u h ne = refl
any_other-has (v ∷ us) t u h ne = ground (arith, any_other-has us t u)

-- Some holder but `t` is there to be found.
pub any_other-witness :
    (us : List ℕ) (t : ℕ) → any_other us t ≡ true → (u : ℕ) × (u ≢ t) × (has u us ≡ true)
unfolding any_other has
any_other-witness [] t h = absurd (ground arith)
any_other-witness (v ∷ us) t h = elim (Bool-cases (v == t)) [
  | inl same ↦ let (u, ne, m) = any_other-witness us t (ground arith) in (u, ne, ground arith)
  | inr other ↦ (v, ground arith, ground arith)
]

has-insert_others :
    (us acc : List ℕ) (t u : ℕ)
    → has u (insert_others us t acc) ≡ (has u acc || (if u == t then false else has u us))
unfolding insert_others has
has-insert_others [] acc t u = ground arith
has-insert_others (v ∷ us) acc t u =
    ground
      (arith, has-insert_others us (if v == t then acc else insert v acc) t u, has-insert v u acc)

-- The set that wait-die looks at: every holder but the requester.
pub has-other_holders :
    (e : LockEntry) (t u : ℕ)
    → has u (other_holders e t) ≡ (if u == t then false else entry_holds (some e) u)
unfolding other_holders has
has-other_holders e t u = ground (
  arith,
  has-insert_others e.shared_holders [] t u,
  has-insert_others e.shared_holders
      (elim e.exclusive_holder [ none ↦ [] | some v ↦ if v == t then [] else v ∷ [] ]) t u,
)

pub older_than_all-lt :
    (t : ℕ) (us : List ℕ) (u : ℕ) → older_than_all t us ≡ true → has u us ≡ true → t < u
unfolding older_than_all has
older_than_all-lt t [] u h m = absurd (ground arith)
older_than_all-lt t (v ∷ us) u h m = ground (arith, older_than_all-lt t us u)

pub older_than_all-witness :
    (t : ℕ) (us : List ℕ) → older_than_all t us ≡ false → (u : ℕ) × (u ≤ t) × (has u us ≡ true)
unfolding older_than_all has
older_than_all-witness t [] h = absurd (ground arith)
older_than_all-witness t (v ∷ us) h = elim (Bool-cases (ltb t v)) [
  | inl lt ↦ let (u, le, m) = older_than_all-witness t us (ground arith) in (u, le, ground arith)
  | inr ge ↦ (v, ground arith, ground arith)
]

-- A conflict has a holder behind it.
pub conflict-witness :
    (e : LockEntry) (t : ℕ) (mode : LockMode)
    → conflicts_with_others e t mode ≡ true
    → (u : ℕ) × (u ≢ t) × (entry_holds (some e) u ≡ true)
unfolding conflicts_with_others
conflict-witness e t mode h = elim (Option-cases e.exclusive_holder) [
  | inl free ↦
      let (u, ne, m) = any_other-witness e.shared_holders t (in_shared mode h free) in
      (u, ne, ground arith)
  | inr (u, held) ↦ elim (Bool-cases (u == t)) [
    | inl same ↦
        let (w, ne, m) = any_other-witness e.shared_holders t (in_shared' mode h u held same) in
        (w, ne, ground arith)
    | inr other ↦ (u, ground arith, ground arith)
  ]
]
  where
    in_shared :
        (mode : LockMode)
        → conflicts_with_others e t mode ≡ true
        → e.exclusive_holder ≡ none
        → any_other e.shared_holders t ≡ true
    in_shared shared h free = ground arith
    in_shared exclusive h free = ground arith

    in_shared' :
        (mode : LockMode)
        → conflicts_with_others e t mode ≡ true
        → (u : ℕ) → e.exclusive_holder ≡ some u
        → (u == t) ≡ true
        → any_other e.shared_holders t ≡ true
    in_shared' shared h u held same = ground arith
    in_shared' exclusive h u held same = ground arith

-- What a grant makes of the holders, where nobody else stands in the way.
pub grant_entry-holds :
    (e : LockEntry) (t u : ℕ) (mode : LockMode)
    → conflicts_with_others e t mode ≡ false
    → entry_holds (some (grant_entry e t mode)) u
      ≡ (if t == u then true else entry_holds (some e) u)
unfolding grant_entry conflicts_with_others
grant_entry-holds e t u shared h = ground (arith, has-insert t u e.shared_holders)
grant_entry-holds e t u exclusive h =
    ground (arith, has-erase t u e.shared_holders, any_other-has e.shared_holders t u)

pub fresh_entry-holds :
    (t u : ℕ) (mode : LockMode) → entry_holds (some (fresh_entry t mode)) u ≡ (t == u)
unfolding fresh_entry has insert
fresh_entry-holds t u shared = ground arith
fresh_entry-holds t u exclusive = ground arith

pub release_entry-holds :
    (e : LockEntry) (t u : ℕ)
    → entry_holds (release_entry e t) u ≡ (if t == u then false else entry_holds (some e) u)
unfolding release_entry has
release_entry-holds e t u = ground (arith, has-erase t u e.shared_holders, has_nil u)
  where
    has_nil : (u : ℕ) → has u [] ≡ false
    has_nil u = refl
