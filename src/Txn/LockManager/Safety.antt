-- ===== src/Txn/LockManager/Safety.antt =====
-- lock_manager.cpp: what AcquireLock and ReleaseAll promise their callers.
use flintdb.Prelude.{
  ℕ, ◌<◌, ◌≡◌, ◌≢◌, ◌↔◌, refl, true, false, none, some, arith, ◌==◌, Option-cases, inl, inr,
  if◌then◌else◌, nat_key, has, insert, has-insert,
}
use flintdb.Txn.LockManager.{
  LockMode, shared, exclusive, PageKey, page_eq, page_eq_iff, LockEntry, LockManager,
  conflicts_with_others, grant_entry, fresh_entry, already_sufficient, Outcome, granted, waits,
  dies, note_held, acquire_entry, acquire_step, release_all, entry_holds, holds, has_lock,
  has_any_lock, other_holders, older_than_all,
}
use flintdb.Txn.LockManager.Entries.{
  conflict-witness, has-other_holders, older_than_all-lt, older_than_all-witness,
}
use flintdb.Txn.LockManager.Table.{acquire-holds, acquire-refused}
use flintdb.Txn.LockManager.Invariant.{IsSound, IsConsistent, release_all-holds, Reach-IsConsistent}
use flintdb.Txn.LockManager.System.{System, Reach, start}

exclusive-alone :
    (e : LockEntry) (t u : ℕ)
    → IsSound e
    → already_sufficient e t exclusive ≡ true
    → entry_holds (some e) u ≡ true
    → t ≡ u
unfolding already_sufficient
exclusive-alone e t u s x h = ground (arith, s.alone t u)

pub consistent-excludes :
    (m : LockManager) (t u : ℕ) (k : PageKey)
    → IsConsistent m
    → has_lock m t k exclusive ≡ true
    → holds m u k ≡ true
    → t ≡ u
consistent-excludes m t u k c x h = elim (Option-cases (m.locks k)) [
  | inl e ↦ absurd (ground arith)
  | inr (y, e) ↦
      exclusive-alone y t u (rw e at (c.sound k)) (rw (e, has_lock) at x) (rw (e, holds) at h)
]

-- In every state that the threads can reach, a page that one transaction holds exclusively is held by
-- no other transaction, in any mode.
pub exclusive_lock_excludes :
    {s : System} (t u : ℕ) (k : PageKey)
    → Reach start s
    → has_lock s.manager t k exclusive ≡ true
    → holds s.manager u k ≡ true
    → t ≡ u
exclusive_lock_excludes {s} t u k r = consistent-excludes s.manager t u k (Reach-IsConsistent r)

has_lock-fresh : (t : ℕ) (mode : LockMode) → already_sufficient (fresh_entry t mode) t mode ≡ true
unfolding already_sufficient fresh_entry has insert
has_lock-fresh t shared = ground arith
has_lock-fresh t exclusive = ground arith

has_lock-grant :
    (e : LockEntry) (t : ℕ) (mode : LockMode)
    → already_sufficient (grant_entry e t mode) t mode ≡ true
unfolding already_sufficient grant_entry
has_lock-grant e t shared = ground (arith, has-insert t t e.shared_holders)
has_lock-grant e t exclusive = ground arith

pub acquire-has_lock :
    (m : LockManager) (t : ℕ) (k : PageKey) (mode : LockMode)
    → (acquire_step m t k mode).1 ≡ granted
    → has_lock (acquire_step m t k mode).0 t k mode ≡ true
unfolding acquire_step acquire_entry note_held
acquire-has_lock m t k mode g = elim (Option-cases (m.locks k)) [
  | inl e ↦ ground (arith, has_lock-fresh t mode, page_eq_iff k k)
  | inr (x, e) ↦ ground (arith, has_lock-grant x t mode, page_eq_iff k k)
]

refused-conflict :
    (m : LockManager) (t : ℕ) (k : PageKey) (mode : LockMode)
    → (acquire_step m t k mode).1 ≢ granted
    → (e : LockEntry) × (m.locks k ≡ some e) × (conflicts_with_others e t mode ≡ true)
unfolding acquire_step acquire_entry
refused-conflict m t k mode h = elim (Option-cases (m.locks k)) [
  | inl e ↦ absurd (ground arith)
  | inr (x, e) ↦ (x, e, ground arith)
]

waits-older :
    (m : LockManager) (t : ℕ) (k : PageKey) (mode : LockMode) (e : LockEntry)
    → (acquire_step m t k mode).1 ≡ waits
    → m.locks k ≡ some e
    → older_than_all t (other_holders e t) ≡ true
unfolding acquire_step acquire_entry
waits-older m t k mode e w at = ground arith

dies-younger :
    (m : LockManager) (t : ℕ) (k : PageKey) (mode : LockMode) (e : LockEntry)
    → (acquire_step m t k mode).1 ≡ dies
    → m.locks k ≡ some e
    → older_than_all t (other_holders e t) ≡ false
unfolding acquire_step acquire_entry
dies-younger m t k mode e w at = ground arith

-- What each outcome of a round says of the table before (m) and after (m').
pub record Grants (m m' : LockManager) (t : ℕ) (k : PageKey) (mode : LockMode) : Type 0 where
  pub enough : has_lock m' t k mode ≡ true
  pub others_kept : (u : ℕ) (j : PageKey) → u ≢ t → holds m' u j ≡ holds m u j
  pub own_kept : (j : PageKey) → holds m' t j ≡ (if page_eq k j then true else holds m t j)

pub record Parks (m m' : LockManager) (t : ℕ) (k : PageKey) : Type 0 where
  pub unchanged : m' ≡ m
  pub blocker : (u : ℕ) × (t < u) × (holds m u k ≡ true)
  pub older : (u : ℕ) → u ≢ t → holds m u k ≡ true → t < u

pub record Kills (m m' : LockManager) (t : ℕ) (k : PageKey) : Type 0 where
  pub unchanged : m' ≡ m
  pub elder : (u : ℕ) × (u < t) × (holds m u k ≡ true)

abbrev pub RoundSpec : LockManager → LockManager → ℕ → PageKey → LockMode → Outcome → Type 0
RoundSpec m m' t k mode granted = Grants m m' t k mode
RoundSpec m m' t k mode waits = Parks m m' t k
RoundSpec m m' t k mode dies = Kills m m' t k

all_older :
    (m : LockManager) (t : ℕ) (k : PageKey) (mode : LockMode)
    → (acquire_step m t k mode).1 ≡ waits
    → (u : ℕ) → u ≢ t
    → holds m u k ≡ true
    → t < u
all_older m t k mode w u ne h = elim (Option-cases (m.locks k)) [
  | inl e ↦ absurd (ground arith)
  | inr (x, e) ↦
      older_than_all-lt t (other_holders x t) u (waits-older m t k mode x w e)
        (ground (arith, has-other_holders x t u))
]

pub parks_lem :
    (m : LockManager) (t : ℕ) (k : PageKey) (mode : LockMode)
    → (acquire_step m t k mode).1 ≡ waits
    → Parks m (acquire_step m t k mode).0 t k
parks_lem m t k mode w =
    let (x, e, c) = refused-conflict m t k mode (λ g. cc) in
    let (u, ne, h) = conflict-witness x t mode c in
    let h' : holds m u k ≡ true = rw e h in
    record {
      unchanged = acquire-refused m t k mode (λ g. cc);
      blocker = (u, all_older m t k mode w u ne h', h');
      older = all_older m t k mode w;
    }

kills_lem :
    (m : LockManager) (t : ℕ) (k : PageKey) (mode : LockMode)
    → (acquire_step m t k mode).1 ≡ dies
    → Kills m (acquire_step m t k mode).0 t k
kills_lem m t k mode d =
    let (x, e, c) = refused-conflict m t k mode (λ g. cc) in
    let (u, le, h) = older_than_all-witness t (other_holders x t) (dies-younger m t k mode x d e) in
    record {
      unchanged = acquire-refused m t k mode (λ g. cc);
      elder = (u, ground (arith, has-other_holders x t u), ground (arith, has-other_holders x t u));
    }

-- A round of AcquireLock either grants, and then the requester has a sufficient lock on the page, its
-- own holds stay and every other transaction's holds are as before; or it waits, and then the table is
-- unchanged, some other transaction holds the page, and every other holder is younger; or it throws,
-- and then the table is unchanged and some holder of the page is older than the requester.
pub acquire_round :
    (m : LockManager) (t : ℕ) (k : PageKey) (mode : LockMode)
    → RoundSpec m (acquire_step m t k mode).0 t k mode (acquire_step m t k mode).1
acquire_round m t k mode = go (acquire_step m t k mode).1 refl
  where
    go :
        (o : Outcome)
        → (acquire_step m t k mode).1 ≡ o
        → RoundSpec m (acquire_step m t k mode).0 t k mode o
    go granted g = record {
      enough = acquire-has_lock m t k mode g;
      others_kept = λ u j ne. ground (arith, acquire-holds m t u k j mode g);
      own_kept = λ j. ground (arith, acquire-holds m t t k j mode g);
    }
    go waits w = parks_lem m t k mode w
    go dies d = kills_lem m t k mode d

-- ReleaseAll on a consistent table leaves the transaction with no page and no entry of its own, leaves
-- every hold of the others as it was, and notifies the waiters exactly if the transaction had an entry.
pub release_all_lem :
    (m : LockManager) (t : ℕ)
    → IsConsistent m
    → ((u : ℕ) (j : PageKey)
        → holds (release_all m t).0 u j ≡ (if t == u then false else holds m u j))
      × (has_any_lock (release_all m t).0 t ≡ false)
      × (((release_all m t).1 ≡ false) ↔ (m.held_by_txn t ≡ none))
unfolding release_all has_any_lock
release_all_lem m t c = (λ u j. release_all-holds m t u j c, ground arith, ground arith)
