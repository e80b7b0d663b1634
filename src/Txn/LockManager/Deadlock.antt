-- ===== src/Txn/LockManager/Deadlock.antt =====
-- lock_manager.cpp: wait-die leaves no set of transactions waiting for each other for ever.
use flintdb.Prelude.{
  ℕ, zero, suc, ◌+◌, ◌<◌, ◌≤◌, ◌≡◌, refl, ◌∙◌, true, none, some, arith, ◌==◌, Bool-cases,
  Option-cases, inl, inr,
}
use flintdb.Txn.LockManager.{
  shared, exclusive, PageKey, page_eq_iff, LockManager, granted, waits, dies, empty, acquire_step,
  holds, acquire_entry, conflicts_with_others, LockEntry, Outcome,
}
use flintdb.Txn.LockManager.Table.{acquire-holds}
use flintdb.Txn.LockManager.Invariant.{
  IsConsistent, release_all-holds, release_all-quiet, acquire-IsConsistent, Reach-IsConsistent,
}
use flintdb.Txn.LockManager.Safety.{RoundSpec, parks_lem, acquire_round, consistent-excludes}
use flintdb.Txn.LockManager.System.{
  System, Request, Step, Reach, begins, acquires, parks, throws, wakes, notifies, releases_nothing,
  here, next, start,
}

-- A holder of the page that is younger than the waiter.
abbrev Blocked : LockManager → ℕ → Request → Type 0
Blocked m t r = (u : ℕ) × (t < u) × (holds m u r.key ≡ true)

record IsLive (s : System) : Type 0 where
  begun : (u : ℕ) (k : PageKey) → holds s.manager u k ≡ true → u < s.next_txn_id
  blocked : (t : ℕ) (r : Request) → s.waiting t ≡ some r → Blocked s.manager t r

start-IsLive : IsLive start
unfolding empty
start-IsLive = record {
  begun = λ u k h. absurd (ground arith);
  blocked = λ t r h. absurd (ground arith);
}

Blocked-acquire :
    (m : LockManager) (t u : ℕ) (r q : Request)
    → (acquire_step m u q.key q.mode).1 ≡ granted
    → Blocked m t r
    → Blocked (acquire_step m u q.key q.mode).0 t r
Blocked-acquire m t u r q g (w, lt, h) =
    (w, lt, ground (arith, acquire-holds m u w q.key r.key q.mode g))

Step-IsLive : {s s' : System} → IsConsistent s.manager → Step s s' → IsLive s → IsLive s'
Step-IsLive c (begins e) v =
    rw e (record { begun = λ u k h. omega (arith, v.begun u k h); blocked = v.blocked })
Step-IsLive {s} c (acquires t r lt w g e) v = rw e (record {
  begun = λ u k h. ground (arith, acquire-holds s.manager t u r.key k r.mode g, v.begun u k);
  blocked = λ u q h. Blocked-acquire s.manager u t q r g (v.blocked u q h);
})
Step-IsLive {s} c (parks t r lt w g e) v = rw e (record {
  begun = v.begun;
  blocked = λ u q h. elim (Bool-cases (t == u)) [
    | inl same ↦
        let b = (parks_lem s.manager t r.key r.mode g).blocker in (b.0, ground arith, ground arith)
    | inr other ↦ v.blocked u q (ground arith)
  ];
})
Step-IsLive c (throws t r lt w g e) v = rw e v
Step-IsLive c (wakes t e) v =
    rw e (record { begun = v.begun; blocked = λ u q h. v.blocked u q (ground arith) })
Step-IsLive {s} c (notifies t w g e) v = rw e (record {
  begun = λ u k h. ground (arith, release_all-holds s.manager t u k c, v.begun u k);
  blocked = λ u q h. absurd (ground arith);
})
Step-IsLive {s} c (releases_nothing t w g e) v = rw (e, release_all-quiet s.manager t g) v

Reach-IsLive : {s : System} → Reach start s → IsLive s
Reach-IsLive here = start-IsLive
Reach-IsLive (next r st) = Step-IsLive (Reach-IsConsistent r) st (Reach-IsLive r)

-- A begun transaction that is younger than `t`, holds a page, and does not wait.
abbrev pub Runs : System → ℕ → Type 0
Runs s t =
    (u : ℕ) × (k : PageKey) × (t < u)
    × (u < s.next_txn_id)
    × (holds s.manager u k ≡ true)
    × (s.waiting u ≡ none)

climb :
    (n : ℕ) (s : System) (t : ℕ) (r : Request)
    → IsLive s
    → s.next_txn_id ≤ t + n
    → s.waiting t ≡ some r
    → Runs s t
climb zero s t r v h w =
    let (u, lt, held) = v.blocked t r w in absurd (omega (arith, v.begun u r.key held))
climb (suc n) s t r v h w =
    let (u, lt, held) = v.blocked t r w in
    elim (Option-cases (s.waiting u)) [
      | inl free ↦ (u, r.key, lt, v.begun u r.key held, held, free)
      | inr (q, more) ↦
          let (x, k, lt', b, held', free) = climb n s u q v (omega arith) more in
          (x, k, omega arith, b, held', free)
    ]

-- In every reachable state in which some transaction waits, there is a begun transaction, younger than
-- the waiter, that holds a page and does not wait: the threads are never deadlocked.
pub waiter_has_runner :
    {s : System} (t : ℕ) (r : Request) → Reach start s → s.waiting t ≡ some r → Runs s t
waiter_has_runner {s} t r reach w = climb s.next_txn_id s t r (Reach-IsLive reach) (omega arith) w

shared_joins :
    (m : LockManager) (u : ℕ) (k : PageKey) (e : LockEntry)
    → m.locks k ≡ some e
    → e.exclusive_holder ≡ none
    → (acquire_step m u k shared).1 ≡ granted
unfolding acquire_step acquire_entry conflicts_with_others
shared_joins m u k e at free = ground arith

killed_of_older :
    (m : LockManager) (t u : ℕ) (k : PageKey) (o : Outcome)
    → IsConsistent m
    → (acquire_step m t k exclusive).1 ≡ o
    → RoundSpec m (acquire_step m t k exclusive).0 t k exclusive o
    → u < t
    → holds m u k ≡ true
    → (acquire_step m t k exclusive).1 ≡ dies
killed_of_older m t u k granted c e g lt h = absurd (
    omega (
      arith,
      consistent-excludes _ t u k (acquire-IsConsistent m t k exclusive c) g.enough
          (g.others_kept u k (omega arith) ∙ h),
    ))
killed_of_older m t u k waits c e w lt h = absurd (omega (arith, w.older u (omega arith) h))
killed_of_older m t u k dies c e d lt h = e

-- On a page that is held in shared mode only, an older transaction is granted a shared lock past a
-- younger one that waits to hold the page exclusively; the waiter, which then waits for an older
-- transaction too, throws when it is next woken.
pub older_joins_past_waiter :
    (m : LockManager) (t u : ℕ) (k : PageKey) (e : LockEntry)
    → IsConsistent m
    → m.locks k ≡ some e
    → e.exclusive_holder ≡ none
    → (acquire_step m t k exclusive).1 ≡ waits
    → u < t
    → ((acquire_step m u k shared).1 ≡ granted)
      × ((acquire_step (acquire_step m u k shared).0 t k exclusive).1 ≡ dies)
older_joins_past_waiter m t u k e c at free w lt = (
  joined,
  killed_of_older m' t u k (acquire_step m' t k exclusive).1 (acquire-IsConsistent m u k shared c)
      refl (acquire_round m' t k exclusive) lt
      (ground (arith, acquire-holds m u u k k shared joined, page_eq_iff k k)),
)
  where
    m' : LockManager
    m' = (acquire_step m u k shared).0

    joined : (acquire_step m u k shared).1 ≡ granted
    joined = shared_joins m u k e at free
