-- ===== src/Tests/LockManager.antt =====
-- Transactions 1 and 2 contend for a page; the names and the runs follow tests/test_lock_manager.cpp.
use flintdb.Prelude.{
  ℕ, ◌≡◌, ◌↔◌, refl, false, none, [], ◌∷◌, arith, has, insert, erase, if◌then◌else◌, ◌==◌,
}
use flintdb.Txn.LockManager.{
  shared, exclusive, PageKey, LockManager, empty, granted, dies, acquire_step, acquire_entry,
  note_held, fresh_entry, grant_entry, already_sufficient, conflicts_with_others, other_holders,
  older_than_all, release_all, release_pages, release_page, release_entry, has_any_lock, holds,
}
use flintdb.Txn.LockManager.System.{
  System, Request, Reach, begins, acquires, parks, here, next, start, park,
}
use flintdb.Txn.LockManager.Invariant.{IsConsistent, Reach-IsConsistent}
use flintdb.Txn.LockManager.Safety.{
  RoundSpec, exclusive_lock_excludes, acquire_round, release_all_lem,
}
use flintdb.Txn.LockManager.Deadlock.{Runs, waiter_has_runner, older_joins_past_waiter}

program : Unit {0}
unfolding empty acquire_step acquire_entry note_held fresh_entry grant_entry already_sufficient
    conflicts_with_others other_holders older_than_all release_all release_pages release_page
    release_entry has_any_lock has insert erase
program = tt

abbrev page : PageKey
page = record { object_id = 7; page_id = 3 }

abbrev wants_exclusive : Request
wants_exclusive = record { key = page; mode = exclusive }

abbrev wants_shared : Request
wants_shared = record { key = page; mode = shared }

abbrev begun : System
begun = record start { next_txn_id = 3 }

begun-Reach : Reach start begun
begun-Reach = next (next here (begins refl)) (begins refl)

abbrev after : System → ℕ → Request → System
after s t r = record s { manager = (acquire_step s.manager t r.key r.mode).0 }

-- Transaction 2 holds the page exclusively, and transaction 1 waits for it.
abbrev taken : System
taken = after begun 2 wants_exclusive

taken-Reach : Reach start taken
unfolding program
taken-Reach = next begun-Reach (acquires 2 wants_exclusive (omega arith) refl refl refl)

abbrev contended : System
contended = park taken 1 wants_exclusive

contended-Reach : Reach start contended
unfolding program
contended-Reach = next taken-Reach (parks 1 wants_exclusive (omega arith) refl refl refl)

-- Younger requests die, and a release lets the next one in.
runs :
    ((acquire_step taken.manager 3 page shared).1 ≡ dies)
    × ((acquire_step taken.manager 2 page shared).1 ≡ granted)
    × (has_any_lock (release_all taken.manager 2).0 2 ≡ false)
    × ((acquire_step (release_all taken.manager 2).0 1 page exclusive).1 ≡ granted)
unfolding program
runs = (refl, refl, refl, refl)

exclusive_lock_excludes_example : ◌≡◌ {A = ℕ} 2 2
unfolding program
exclusive_lock_excludes_example = exclusive_lock_excludes {s = taken} 2 2 page taken-Reach refl refl

acquire_round_example :
    RoundSpec taken.manager
      (acquire_step taken.manager 1 page exclusive).0
      1
      page
      exclusive
      (acquire_step taken.manager 1 page exclusive).1
acquire_round_example = acquire_round taken.manager 1 page exclusive

release_all_lem_example :
    ((u : ℕ) (j : PageKey)
      → holds (release_all taken.manager 2).0 u j
        ≡ (if 2 == u then false else holds taken.manager u j))
    × (has_any_lock (release_all taken.manager 2).0 2 ≡ false)
    × (((release_all taken.manager 2).1 ≡ false) ↔ (taken.manager.held_by_txn 2 ≡ none))
release_all_lem_example = release_all_lem taken.manager 2 (Reach-IsConsistent taken-Reach)

waiter_has_runner_example : Runs contended 1
waiter_has_runner_example = waiter_has_runner {s = contended} 1 wants_exclusive contended-Reach refl

-- Transactions 2 and 3 share the page, 2 waits to hold it alone, and 1 comes to read it.
abbrev both_share : LockManager
both_share = (acquire_step (acquire_step empty 2 page shared).0 3 page shared).0

both_share-IsConsistent : IsConsistent both_share
unfolding program
both_share-IsConsistent = Reach-IsConsistent (
    next
      (next (next begun-Reach (begins refl)) (acquires 2 wants_shared (omega arith) refl refl refl))
      (acquires 3 wants_shared (omega arith) refl refl refl))

older_joins_past_waiter_example :
    ((acquire_step both_share 1 page shared).1 ≡ granted)
    × ((acquire_step (acquire_step both_share 1 page shared).0 2 page exclusive).1 ≡ dies)
unfolding program
older_joins_past_waiter_example =
    older_joins_past_waiter both_share 2 1 page
      (record { shared_holders = 2 ∷ 3 ∷ []; exclusive_holder = none }) both_share-IsConsistent refl
      refl refl (omega arith)
