-- ===== src/Txn/LockManager.antt =====
-- src/txn/lock_manager.h and lock_manager.cpp: the lock table of strict two-phase locking. One call
-- of `acquire_step` is one round of the loop of `AcquireLock`, from the lookup to a return, a throw or
-- the wait on the condition variable.
mod Entries
mod Table
pub mod System
pub mod Invariant
pub mod Safety
pub mod Deadlock
use flintdb.Prelude.{
  ℕ, ◌≡◌, ◌↔◌, Bool, true, false, ◌&&◌, ◌||◌, not, Option, none, some, List, [], ◌∷◌, arith, ltb,
  ◌==◌, if◌then◌else◌, SetKey, nat_key, has, insert, erase,
}

pub data LockMode : Type 0 where
  shared exclusive : LockMode

-- A page of one object's file.
pub record PageKey : Type 0 where
  pub object_id : ℕ
  pub page_id : ℕ

abbrev pub page_eq : PageKey → PageKey → Bool
page_eq a b = (a.object_id == b.object_id) && (a.page_id == b.page_id)

abbrev pub page_lt : PageKey → PageKey → Bool
page_lt a b =
    if a.object_id == b.object_id then ltb a.page_id b.page_id else ltb a.object_id b.object_id

pub page_eq_iff : (a b : PageKey) → (page_eq a b ≡ true) ↔ (a ≡ b)
page_eq_iff a b = ground arith

instance abbrev pub page_key : SetKey PageKey
page_key = record { beq = page_eq; blt = page_lt; beq_iff = page_eq_iff }

pub record LockEntry : Type 0 where
  pub shared_holders : List ℕ
  pub exclusive_holder : Option ℕ

-- The two hash maps of the class, from their keys to what they hold.
pub record LockManager : Type 0 where
  pub locks : PageKey → Option LockEntry
  pub held_by_txn : ℕ → Option (List PageKey)

unfoldable pub empty : LockManager
empty = record { locks = λ _. none; held_by_txn = λ _. none }

-- `locks_[key] = e`, `locks_.erase(key)` and `held_by_txn_[txn] = ks`, `held_by_txn_.erase(txn)`.
abbrev pub set_lock : LockManager → PageKey → Option LockEntry → LockManager
set_lock m k e = record m { locks = λ j. if page_eq k j then e else m.locks j }

abbrev pub set_held : LockManager → ℕ → Option (List PageKey) → LockManager
set_held m t ks = record m { held_by_txn = λ u. if t == u then ks else m.held_by_txn u }

-- `*entry.exclusive_holder == txn_id` where there is one.
abbrev pub is_holder : Option ℕ → ℕ → Bool
is_holder none t = false
is_holder (some u) t = u == t

abbrev pub other_exclusive : Option ℕ → ℕ → Bool
other_exclusive none t = false
other_exclusive (some u) t = not (u == t)

-- The loop over `shared_holders`: is there a holder but `t`?
unfoldable pub any_other : List ℕ → ℕ → Bool
any_other [] t = false
any_other (u ∷ us) t = if u == t then any_other us t else true

unfoldable pub conflicts_with_others : LockEntry → ℕ → LockMode → Bool
unfolding any_other
conflicts_with_others e t shared = other_exclusive e.exclusive_holder t
conflicts_with_others e t exclusive =
    if other_exclusive e.exclusive_holder t then true else any_other e.shared_holders t

insert_others : List ℕ → ℕ → List ℕ → List ℕ
insert_others [] t acc = acc
insert_others (u ∷ us) t acc = insert_others us t (if u == t then acc else insert u acc)

unfoldable pub other_holders : LockEntry → ℕ → List ℕ
unfolding insert_others
other_holders e t =
    insert_others e.shared_holders t
      (elim e.exclusive_holder [ none ↦ [] | some u ↦ if u == t then [] else u ∷ [] ])

-- The loop that computes `older_than_all`.
unfoldable pub older_than_all : ℕ → List ℕ → Bool
older_than_all t [] = true
older_than_all t (u ∷ us) = if ltb t u then older_than_all t us else false

-- What a round ends in: the lock, the wait on the condition variable, or the exception.
pub data Outcome : Type 0 where
  granted waits dies : Outcome

unfoldable pub note_held : LockManager → ℕ → PageKey → LockManager
note_held m t k =
    set_held m t (some (elim (m.held_by_txn t) [ none ↦ insert k [] | some ks ↦ insert k ks ]))

unfoldable pub fresh_entry : ℕ → LockMode → LockEntry
fresh_entry t shared = record { shared_holders = insert t []; exclusive_holder = none }
fresh_entry t exclusive = record { shared_holders = []; exclusive_holder = some t }

unfoldable pub grant_entry : LockEntry → ℕ → LockMode → LockEntry
grant_entry e t shared = record e { shared_holders = insert t e.shared_holders }
grant_entry e t exclusive = record e {
  shared_holders = erase t e.shared_holders;
  exclusive_holder = some t;
}

unfoldable pub already_sufficient : LockEntry → ℕ → LockMode → Bool
already_sufficient e t shared = is_holder e.exclusive_holder t || has t e.shared_holders
already_sufficient e t exclusive = is_holder e.exclusive_holder t

unfoldable pub acquire_entry :
    LockManager → ℕ → PageKey → LockMode → LockEntry → LockManager × Outcome
acquire_entry m t k mode e =
    if already_sufficient e t mode
    then (m, granted)
    else if conflicts_with_others e t mode
    then (if older_than_all t (other_holders e t) then (m, waits) else (m, dies))
    else (note_held (set_lock m k (some (grant_entry e t mode))) t k, granted)

unfoldable pub acquire_step : LockManager → ℕ → PageKey → LockMode → LockManager × Outcome
acquire_step m t k mode = elim (m.locks k) [
  | none ↦ (note_held (set_lock m k (some (fresh_entry t mode))) t k, granted)
  | some e ↦ acquire_entry m t k mode e
]

abbrev pub is_free : LockEntry → Bool
is_free e = elim e.shared_holders [
  | [] ↦ elim e.exclusive_holder [ none ↦ true | some u ↦ false ]
  | u ∷ us ↦ false
]

abbrev pub without : LockEntry → ℕ → LockEntry
without e t = record {
  shared_holders = erase t e.shared_holders;
  exclusive_holder = if is_holder e.exclusive_holder t then none else e.exclusive_holder;
}

-- An entry that nobody holds is taken out of the map.
unfoldable pub release_entry : LockEntry → ℕ → Option LockEntry
release_entry e t = if is_free (without e t) then none else some (without e t)

unfoldable pub release_page : LockManager → ℕ → PageKey → LockManager
unfolding release_entry
release_page m t k = elim (m.locks k) [ none ↦ m | some e ↦ set_lock m k (release_entry e t) ]

unfoldable pub release_pages : LockManager → ℕ → List PageKey → LockManager
release_pages m t [] = m
release_pages m t (k ∷ ks) = release_pages (release_page m t k) t ks

-- The second part says whether the waiters were notified.
unfoldable pub release_all : LockManager → ℕ → LockManager × Bool
release_all m t = elim (m.held_by_txn t) [
  | none ↦ (m, false)
  | some ks ↦ (set_held (release_pages m t ks) t none, true)
]

unfoldable pub has_any_lock : LockManager → ℕ → Bool
has_any_lock m t = elim (m.held_by_txn t) [
  | none ↦ false
  | some ks ↦ elim ks [ [] ↦ false | k ∷ rest ↦ true ]
]

-- What the table says of a transaction and a page.
abbrev pub entry_holds : Option LockEntry → ℕ → Bool
entry_holds none t = false
entry_holds (some e) t = is_holder e.exclusive_holder t || has t e.shared_holders

abbrev pub holds : LockManager → ℕ → PageKey → Bool
holds m t k = entry_holds (m.locks k) t

-- The hold is enough for the mode.
abbrev pub has_lock : LockManager → ℕ → PageKey → LockMode → Bool
has_lock m t k mode = elim (m.locks k) [ none ↦ false | some e ↦ already_sufficient e t mode ]
