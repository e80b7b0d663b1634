-- ===== src/Index/Node/Rebalance.antt =====
-- btree.cpp: FindRebalanceSplit finds the place where the keys of two siblings are divided anew.
use mathlib.Core.Path.{subst}
use flintdb.Prelude.{
  ℕ, zero, suc, ◌+◌, ◌-◌, ◌<◌, ◌≤◌, ◌≡◌, inl, inr, true, false, ◌&&◌, Option, none, some, List,
  arith, length, leb, ◌==◌, Bool-cases,
}
use flintdb.Prelude.Int.{ℤ}
use flintdb.Index.Node.{changes_at, clamp, rebalance_from, find_rebalance_split}
use flintdb.Index.Node.Split.{IsSorted, Divides, changes_at-Divides}

-- How the search for a place within bounds ends.
data Found (keys : List ℤ) (low high : ℕ) : Option ℕ → Type 0 where
  found : {s : ℕ} → low ≤ s → s ≤ high → changes_at keys s ≡ true → Found keys low high (some s)
  nowhere : ((p : ℕ) → low ≤ p → p ≤ high → changes_at keys p ≡ false) → Found keys low high none

-- No place nearer to the ideal one than the offset is one.
abbrev Nearer : List ℤ → ℕ → ℕ → ℕ → ℕ → Type 0
Nearer keys low high ideal offset =
    (p : ℕ)
    → low ≤ p
    → p ≤ high
    → p < ideal + offset
    → ideal < p + offset
    → changes_at keys p ≡ false

-- The rest of the search, when no place nearer than the offset is one.
same_at : (keys : List ℤ) (q p : ℕ) → q ≡ p → changes_at keys q ≡ false → changes_at keys p ≡ false
same_at keys q p e = subst (λ x. changes_at keys x ≡ false) e

Nearer-farther :
    (keys : List ℤ) (low high ideal offset : ℕ)
    → (leb (ideal + offset) high && changes_at keys (ideal + offset)) ≡ false
    → (leb offset (ideal - low) && changes_at keys (ideal - offset)) ≡ false
    → Nearer keys low high ideal offset
    → Nearer keys low high ideal (offset + 1)
Nearer-farther keys low high ideal offset up down near p l h a b =
    elim (Bool-cases (p == ideal + offset)) [
      | inl top ↦ same_at keys (ideal + offset) p (ground (arith, top)) (ground (arith, up, top, h))
      | inr other ↦ elim (Bool-cases (p + offset == ideal)) [
        | inl bottom ↦
            same_at keys (ideal - offset) p (ground (arith, bottom))
              (ground (arith, down, bottom, l))
        | inr inside ↦ near p l h (ground (arith, other)) (ground (arith, inside))
      ]
    ]

rebalance_from-Found :
    (fuel : ℕ) (keys : List ℤ) (low high ideal offset : ℕ)
    → low ≤ ideal
    → ideal ≤ high
    → high < fuel + offset
    → Nearer keys low high ideal offset
    → Found keys low high (rebalance_from fuel keys low high ideal offset)
unfolding rebalance_from
rebalance_from-Found zero keys low high ideal offset a b c near =
    nowhere (λ p l h. near p l h (omega arith) (omega arith))
rebalance_from-Found (suc fuel) keys low high ideal offset a b c near =
    let above = leb (ideal + offset) high in
    let below = leb offset (ideal - low) in
    elim (Bool-cases (above && changes_at keys (ideal + offset))) [
      | inl up ↦ rw up (found (omega arith) (ground (arith, up)) (ground (arith, up)))
      | inr up ↦ elim (Bool-cases (below && changes_at keys (ideal - offset))) [
        | inl down ↦
            rw (up, down) (found (ground (arith, down)) (omega arith) (ground (arith, down)))
        | inr down ↦
            let farther = Nearer-farther keys low high ideal offset up down near in
            let rest =
              rebalance_from-Found fuel keys low high ideal (offset + 1) a b (omega arith)
                farther in
            elim (Bool-cases above) [
              | inl more ↦ rw (up, down, more) rest
              | inr top ↦ elim (Bool-cases below) [
                | inl more ↦ rw (up, down, top, more) rest
                | inr bottom ↦
                    rw (up, down, top, bottom)
                      (nowhere
                        (λ p l h. farther p l h (ground (arith, top)) (ground (arith, bottom))))
              ]
            ]
      ]
    ]

-- How FindRebalanceSplit ends within its bounds.
pub data Rebalanced (keys : List ℤ) (low high : ℕ) : Option ℕ → Type 0 where
  splits : {s : ℕ} → low ≤ s → s ≤ high → Divides keys s → Rebalanced keys low high (some s)
  no_place :
      ((p : ℕ) → low ≤ p → p ≤ high → changes_at keys p ≡ false) → Rebalanced keys low high none

divided :
    {keys : List ℤ} {low high : ℕ} {r : Option ℕ}
    → IsSorted keys
    → 0 < low
    → high < length keys
    → Found keys low high r
    → Rebalanced keys low high r
divided o p h (found {s} l u e) =
    splits l u (changes_at-Divides _ s o (omega arith) (omega arith) e)
divided o p h (nowhere none_there) = no_place none_there

-- On keys in order and bounds between which every place has keys on both sides, FindRebalanceSplit
-- returns a place within the bounds such that every key before it is smaller than every key from it
-- on, or nothing, and then no key within the bounds differs from the one before it.
pub find_rebalance_split_lem :
    (keys : List ℤ) (low high ideal : ℕ)
    → IsSorted keys
    → 0 < low
    → low ≤ high
    → high < length keys
    → Rebalanced keys low high (find_rebalance_split keys low high ideal)
unfolding find_rebalance_split
find_rebalance_split_lem keys low high ideal o p b h =
    let at = clamp low high ideal in
    let l : low ≤ at = ground arith in
    let u : at ≤ high = ground arith in
    elim (Bool-cases (changes_at keys at)) [
      | inl here ↦
          rw (here, find_rebalance_split)
            (splits l u (changes_at-Divides keys at o (omega arith) (omega arith) here))
      | inr same ↦
          rw (same, find_rebalance_split)
            (divided o p h (
              rebalance_from-Found (suc high) keys low high at 1 l u (omega arith)
                (λ q c d e f. same_at keys at q (omega arith) same)))
    ]
