-- ===== src/Txn/TransactionManager/Discarding.antt =====
-- transaction_manager.cpp: the loop of Abort that discards pages, over the pools of all objects.
use mathlib.Core.Path.{subst}
use flintdb.Prelude.{
  ℕ, ◌≡◌, refl, ap, ◌∙◌, Bool, false, ◌&&◌, ◌||◌, Option, none, some, List, [], ◌∷◌, ◌==◌, ==_iff,
  if◌then◌else◌, nat_key, has, arith, All, All-imp, Bool-cases, inl, inr,
}
use flintdb.Storage.BufferPool.{BufferPool}
use flintdb.Storage.BufferPool.Coherent.{IsCoherent}
use flintdb.Storage.BufferPool.Steps.{Discarded, discard_page_lem}
use flintdb.Txn.TransactionManager.{
  TransactionManager, set_pool, reached, discard_pages, discard_groups,
}
use flintdb.Txn.TransactionManager.Logging.{Pools, pool_view}
use flintdb.Txn.TransactionManager.Records.{in_groups}
use flintdb.Txn.TransactionManager.Flushing.{with_pools, AreCoherent, Registered}
use flintdb.Txn.TransactionManager.PoolsView.{pool_disk}

-- The pages asked for are seen as the file has them, the others as before; the files are unchanged.
pub record PoolDiscards (x : Option BufferPool) (asked : ℕ → Bool) (y : Option BufferPool)
    : Type 0 where
  pub coherent : (b : BufferPool) → y ≡ some b → IsCoherent b
  pub registered : (b : BufferPool) → x ≡ some b → (b' : BufferPool) × (y ≡ some b')
  pub same_file : (q : ℕ) → pool_disk y q ≡ pool_disk x q
  pub seen : (q : ℕ) → pool_view y q ≡ (if asked q then pool_disk x q else pool_view x q)

PoolDiscards-nothing :
    (x : Option BufferPool)
    → ((b : BufferPool) → x ≡ some b → IsCoherent b)
    → PoolDiscards x (λ q. false) x
PoolDiscards-nothing x c = record {
  coherent = c;
  registered = λ b e. (b, e);
  same_file = λ q. refl;
  seen = λ q. refl;
}

PoolDiscards-trans :
    {x y z : Option BufferPool} (asked wanted : ℕ → Bool)
    → PoolDiscards x asked y
    → PoolDiscards y wanted z
    → PoolDiscards x (λ q. asked q || wanted q) z
PoolDiscards-trans asked wanted f g = record {
  coherent = g.coherent;
  registered = λ b e. let (b', e') = f.registered b e in g.registered b' e';
  same_file = λ q. g.same_file q ∙ f.same_file q;
  seen = λ q. ground (arith, g.seen q, f.seen q, f.same_file q);
}

Discarded-PoolDiscards :
    (b b' : BufferPool) (pid : ℕ)
    → Discarded b pid b'
    → PoolDiscards (some b) (λ q. q == pid) (some b')
Discarded-PoolDiscards b b' pid d = record {
  coherent = λ x e. subst (λ o. elim o [ none ↦ Unit | some y ↦ IsCoherent y ]) e d.coherent;
  registered = λ x e. (b', refl);
  same_file = λ q. ap (λ x. pool_disk (some (record b' { disk_manager = x })) q) d.same_disk;
  seen = d.seen;
}

one_page :
    (m : TransactionManager) (o pid : ℕ) (b b' : BufferPool)
    → AreCoherent m.buffer_pools
    → m.buffer_pools o ≡ some b
    → Discarded b pid b'
    → (i : ℕ)
    → PoolDiscards
        (m.buffer_pools i)
        (λ q. (i == o) && (q == pid))
        ((set_pool m o b').buffer_pools i)
one_page m o pid b b' c e d i = elim (Bool-cases (i == o)) [
  | inl same ↦
      rw (same, ap m.buffer_pools ((==_iff i o).0 same) ∙ e) (Discarded-PoolDiscards b b' pid d)
  | inr other ↦ rw other (PoolDiscards-nothing (m.buffer_pools i) (c i))
]

PoolDiscards-ext :
    {x y : Option BufferPool} (asked wanted : ℕ → Bool)
    → ((q : ℕ) → wanted q ≡ asked q)
    → PoolDiscards x asked y
    → PoolDiscards x wanted y
PoolDiscards-ext asked wanted same f = record {
  coherent = f.coherent;
  registered = f.registered;
  same_file = f.same_file;
  seen = λ q. ground (arith, same q, f.seen q);
}

discard_pages_lem :
    (m : TransactionManager) (o : ℕ) (pids : List ℕ)
    → AreCoherent m.buffer_pools
    → Registered m.buffer_pools o
    → (pools : Pools) × (discard_pages m o pids ≡ reached (with_pools m pools))
      × ((i : ℕ) → PoolDiscards (m.buffer_pools i) (λ q. (i == o) && has q pids) (pools i))
unfolding discard_pages has
discard_pages_lem m o [] c r = (
  m.buffer_pools,
  refl,
  λ i.
      PoolDiscards-ext (λ q. false) _ (λ q. ground arith)
        (PoolDiscards-nothing (m.buffer_pools i) (c i)),
)
discard_pages_lem m o (pid ∷ pids) c r =
    let (b, e) = r in
    let (b', discarded, d) = discard_page_lem b pid (c o b e) in
    let one = one_page m o pid b b' c e d in
    let (pools, rest, all) =
      discard_pages_lem (set_pool m o b') o pids (λ i. (one i).coherent) ((one o).registered b e) in
    (
      pools,
      rw (e, discarded, discard_pages) rest,
      λ i. PoolDiscards-ext _ _ (λ q. ground arith) (PoolDiscards-trans _ _ (one i) (all i)),
    )

-- Discarding pages of registered objects on coherent pools throws no exception.
pub discard_groups_lem :
    (m : TransactionManager) (gs : List (ℕ × List ℕ))
    → AreCoherent m.buffer_pools
    → All (λ g. Registered m.buffer_pools g.0) gs
    → (pools : Pools) × (discard_groups m gs ≡ reached (with_pools m pools))
      × ((o : ℕ) → PoolDiscards (m.buffer_pools o) (λ q. in_groups o q gs) (pools o))
unfolding discard_groups in_groups
discard_groups_lem m [] c r =
    (m.buffer_pools, refl, λ o. PoolDiscards-nothing (m.buffer_pools o) (c o))
discard_groups_lem m (g ∷ gs) c r =
    let (pools1, first, one) = discard_pages_lem m g.0 g.1 c r.0 in
    let (pools, rest, all) =
      discard_groups_lem (with_pools m pools1) gs (λ o. (one o).coherent)
        (All-imp gs (λ h reg. (one h.0).registered reg.0 reg.1) r.1) in
    (pools, rw first rest, λ o. PoolDiscards-trans _ _ (one o) (all o))
