-- ===== src/Txn/TransactionManager/Flushing.antt =====
-- transaction_manager.cpp: the flush of Commit, over the pools of all objects.
use mathlib.Core.Path.{subst}
use flintdb.Prelude.{
  ℕ, ◌≡◌, refl, ap, ◌∙◌, Bool, false, ◌&&◌, ◌||◌, Option, none, some, List, [], ◌∷◌, ◌==◌, ==_iff,
  nat_key, has, All, All-imp, Bool-cases, inl, inr,
}
use flintdb.Storage.BufferPool.{BufferPool}
use flintdb.Storage.BufferPool.Coherent.{IsCoherent}
use flintdb.Storage.BufferPool.Flush.{
  Flushes, flush_pages_lem, Flushes-nothing, Flushes-trans, Flushes-ext,
}
use flintdb.Txn.TransactionManager.{
  TransactionManager, set_pool, reached, flush_group, flush_groups,
}
use flintdb.Txn.TransactionManager.Logging.{Pools}
use flintdb.Txn.TransactionManager.Records.{in_groups}

abbrev pub with_pools : TransactionManager → Pools → TransactionManager
with_pools m pools = record m { buffer_pools = pools }

-- A flush of one object's pool, if there is one.
pub data PoolFlushes : Option BufferPool → (ℕ → Bool) → Option BufferPool → Type 0 where
  unregistered : {asked : ℕ → Bool} → PoolFlushes none asked none
  in_pool :
      {b b' : BufferPool} {asked : ℕ → Bool}
      → Flushes b asked b'
      → PoolFlushes (some b) asked (some b')

abbrev pub AreCoherent : Pools → Type 0
AreCoherent pools = (o : ℕ) (b : BufferPool) → pools o ≡ some b → IsCoherent b

PoolFlushes-nothing :
    (o : Option BufferPool)
    → ((b : BufferPool) → o ≡ some b → IsCoherent b)
    → PoolFlushes o (λ q. false) o
PoolFlushes-nothing none c = unregistered
PoolFlushes-nothing (some b) c = in_pool (Flushes-nothing b (c b refl))

PoolFlushes-ext :
    {x y : Option BufferPool} {asked : ℕ → Bool} (wanted : ℕ → Bool)
    → ((q : ℕ) → wanted q ≡ asked q)
    → PoolFlushes x asked y
    → PoolFlushes x wanted y
PoolFlushes-ext wanted same unregistered = unregistered
PoolFlushes-ext wanted same (in_pool f) = in_pool (Flushes-ext _ _ _ wanted (λ q h. same q) f)

PoolFlushes-trans :
    {x y z : Option BufferPool} {asked wanted : ℕ → Bool}
    → PoolFlushes x asked y
    → PoolFlushes y wanted z
    → PoolFlushes x (λ q. asked q || wanted q) z
PoolFlushes-trans unregistered unregistered = unregistered
PoolFlushes-trans (in_pool f) (in_pool g) = in_pool (Flushes-trans _ _ _ _ _ f g)

abbrev pub Registered : Pools → ℕ → Type 0
Registered pools o = (b : BufferPool) × (pools o ≡ some b)

PoolFlushes-IsCoherent :
    {x y : Option BufferPool} {asked : ℕ → Bool} (b : BufferPool)
    → PoolFlushes x asked y
    → y ≡ some b
    → IsCoherent b
PoolFlushes-IsCoherent b unregistered e = absurd (cc)
PoolFlushes-IsCoherent b (in_pool f) e =
    subst (λ o. elim o [ none ↦ Unit | some c ↦ IsCoherent c ]) e f.coherent

PoolFlushes-registered :
    {x y : Option BufferPool} {asked : ℕ → Bool}
    → PoolFlushes x asked y
    → (b : BufferPool) × (x ≡ some b)
    → (b' : BufferPool) × (y ≡ some b')
PoolFlushes-registered unregistered (b, e) = (b, e)
PoolFlushes-registered (in_pool {b' = b'} f) h = (b', refl)

-- What FlushPages on one object's pool does to all pools.
one_group :
    (m : TransactionManager) (o : ℕ) (pids : List ℕ) (b b' : BufferPool)
    → AreCoherent m.buffer_pools
    → m.buffer_pools o ≡ some b
    → Flushes b (λ q. has q pids) b'
    → (i : ℕ)
    → PoolFlushes
        (m.buffer_pools i)
        (λ q. (i == o) && has q pids)
        ((set_pool m o b').buffer_pools i)
one_group m o pids b b' c e f i = elim (Bool-cases (i == o)) [
  | inl same ↦ rw (same, ap m.buffer_pools ((==_iff i o).0 same) ∙ e) (in_pool f)
  | inr other ↦ rw other (PoolFlushes-nothing (m.buffer_pools i) (c i))
]

-- The flushes of Commit on coherent pools, all of them registered: each pool is flushed of its own
-- pages, and no exception is thrown.
pub flush_groups_lem :
    (m : TransactionManager) (gs : List (ℕ × List ℕ))
    → AreCoherent m.buffer_pools
    → All (λ g. Registered m.buffer_pools g.0) gs
    → (pools : Pools) × (flush_groups m gs ≡ reached (with_pools m pools))
      × ((o : ℕ) → PoolFlushes (m.buffer_pools o) (λ q. in_groups o q gs) (pools o))
unfolding flush_groups flush_group in_groups
flush_groups_lem m [] c r =
    (m.buffer_pools, refl, λ o. PoolFlushes-nothing (m.buffer_pools o) (c o))
flush_groups_lem m (g ∷ gs) c r =
    let (b, e) = r.0 in
    let (b', flushes, f) = flush_pages_lem b g.1 (c g.0 b e) in
    let one = one_group m g.0 g.1 b b' c e f in
    let (pools, rest, all) =
      flush_groups_lem (set_pool m g.0 b') gs (λ o x. PoolFlushes-IsCoherent x (one o))
        (All-imp gs (λ h reg. PoolFlushes-registered (one h.0) reg) r.1) in
    (pools, rw (e, flushes, flush_group) rest, λ o. PoolFlushes-trans (one o) (all o))
