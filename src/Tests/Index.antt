-- ===== src/Tests/Index.antt =====
-- Nodes of a B+ tree with repeated keys, as in tests/test_btree.cpp.
use flintdb.Prelude.{zero, suc, ◌≡◌, refl, none, some, [], ◌∷◌, arith, List}
use flintdb.Prelude.Int.{ℤ, pos, negsuc, int_eq, int_lt}
use flintdb.Txn.HeapFile.{at_page}
use flintdb.Index.Node.{
  LeafNode, serialize_leaf, deserialize_leaf, serialize_internal, deserialize_internal, no_page_id,
  changes_at, boundary_from, boundary_down, find_split_boundary, rebalance_from,
  find_rebalance_split, upper_bound,
}
use flintdb.Index.Node.Split.{IsSorted, Boundary, find_split_boundary_lem}
use flintdb.Index.Node.Rebalance.{Rebalanced, find_rebalance_split_lem}
use flintdb.Index.Node.RoundTrip.{LeafFits, deserialize_leaf-serialize_leaf}
use flintdb.Index.Node.Internal.{deserialize_internal-serialize_internal}

program : Unit {0}
unfolding changes_at boundary_from boundary_down find_split_boundary rebalance_from
    find_rebalance_split upper_bound int_eq int_lt
program = tt

-- -1, 4, 4, 4, 9
abbrev keys : List ℤ
keys = negsuc 0 ∷ pos 4 ∷ pos 4 ∷ pos 4 ∷ pos 9 ∷ []

runs :
    (find_split_boundary keys 2 ≡ 4)
    × (find_split_boundary (pos 4 ∷ pos 4 ∷ pos 4 ∷ []) 1 ≡ 1)
    × (find_rebalance_split keys 1 3 2 ≡ some 1)
    × (find_rebalance_split keys 2 3 2 ≡ none)
    × (upper_bound keys (pos 4) ≡ 4)
unfolding program
runs = (refl, refl, refl, refl, refl)

keys-IsSorted : IsSorted keys
unfolding program
keys-IsSorted zero h = refl
keys-IsSorted (suc zero) h = refl
keys-IsSorted (suc (suc zero)) h = refl
keys-IsSorted (suc (suc (suc zero))) h = refl
keys-IsSorted (suc (suc (suc (suc i)))) h = absurd (omega (arith, h))

find_split_boundary_lem_example : Boundary keys 2 (find_split_boundary keys 2)
find_split_boundary_lem_example =
    find_split_boundary_lem keys 2 keys-IsSorted (omega arith) (omega arith)

find_rebalance_split_lem_example : Rebalanced keys 1 3 (find_rebalance_split keys 1 3 2)
find_rebalance_split_lem_example =
    find_rebalance_split_lem keys 1 3 2 keys-IsSorted (omega arith) (omega arith) (omega arith)

abbrev leaf : LeafNode
leaf = record {
  page_id = 3;
  next_leaf = no_page_id;
  keys = negsuc 0 ∷ pos 4 ∷ [];
  values = at_page 0 1 ∷ at_page 2 0 ∷ [];
}

abbrev leaf-LeafFits : LeafFits leaf
leaf-LeafFits = record {
  page_fits = omega arith;
  next_fits = omega arith;
  paired = refl;
  room = omega arith;
  keys_fit = (omega arith, (omega arith, tt));
  values_fit = (
    record { page_fits = omega arith; slot_fits = omega arith },
    (record { page_fits = omega arith; slot_fits = omega arith }, tt),
  );
}

deserialize_leaf-serialize_leaf_example : deserialize_leaf (serialize_leaf leaf) ≡ leaf
deserialize_leaf-serialize_leaf_example = deserialize_leaf-serialize_leaf leaf leaf-LeafFits

deserialize_internal-serialize_internal_example :
    deserialize_internal
      (serialize_internal (record { page_id = 4; keys = pos 4 ∷ []; children = 3 ∷ 7 ∷ [] }))
    ≡ record { page_id = 4; keys = pos 4 ∷ []; children = 3 ∷ 7 ∷ [] }
deserialize_internal-serialize_internal_example =
    deserialize_internal-serialize_internal 4 (pos 4 ∷ []) 3 (7 ∷ []) (record {
      page_fits = omega arith;
      first_fits = omega arith;
      paired = refl;
      room = omega arith;
      keys_fit = (omega arith, tt);
      children_fit = (omega arith, tt);
    })
