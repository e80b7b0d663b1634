-- ===== src/Index/Node/Split.antt =====
-- btree.cpp: FindSplitBoundary and FindRebalanceSplit find a place where keys in order change.
use mathlib.Core.Path.{subst}
use flintdb.Prelude.{
  ℕ, zero, suc, ◌+◌, ◌-◌, ◌<◌, ◌≤◌, ◌≡◌, inl, inr, refl, ap, ◌∙◌, true, false, none, some, List,
  arith, tests, length, get_or, ltb, Bool-cases, Option-cases,
}
use flintdb.Prelude.Int.{ℤ, pos, negsuc, int_eq, int_lt}
use flintdb.Index.Node.{changes_at, boundary_from, boundary_down, find_split_boundary}

abbrev pub key_at : List ℤ → ℕ → ℤ
key_at keys i = get_or keys i (pos 0)

-- No key is followed by a smaller one.
abbrev pub IsSorted : List ℤ → Type 0
IsSorted keys = (i : ℕ) → suc i < length keys → int_lt (key_at keys (suc i)) (key_at keys i) ≡ false

pub int_eq_sound : (a b : ℤ) → int_eq a b ≡ true → a ≡ b
unfolding int_eq
int_eq_sound (pos m) (pos n) e = ap pos (ground (arith, e))
int_eq_sound (negsuc m) (negsuc n) e = ap negsuc (ground (arith, e))
int_eq_sound (pos m) (negsuc n) e = ground (arith, e)
int_eq_sound (negsuc m) (pos n) e = ground (arith, e)

pub int_le_trans : (a b c : ℤ) → int_lt b a ≡ false → int_lt c b ≡ false → int_lt c a ≡ false
unfolding int_lt
int_le_trans (pos a) (pos b) (pos c) h k = ground (arith, h, k)
int_le_trans (pos a) (pos b) (negsuc c) h k = ground (arith, h, k)
int_le_trans (pos a) (negsuc b) (pos c) h k = ground (arith, h, k)
int_le_trans (pos a) (negsuc b) (negsuc c) h k = ground (arith, h, k)
int_le_trans (negsuc a) (pos b) (pos c) h k = ground (arith, h, k)
int_le_trans (negsuc a) (pos b) (negsuc c) h k = ground (arith, h, k)
int_le_trans (negsuc a) (negsuc b) (pos c) h k = ground (arith, h, k)
int_le_trans (negsuc a) (negsuc b) (negsuc c) h k = ground (arith, h, k)

int_lt_of_ne : (a b : ℤ) → int_lt b a ≡ false → int_eq b a ≡ false → int_lt a b ≡ true
unfolding int_lt int_eq
int_lt_of_ne (pos a) (pos b) h n = ground (arith, h, n)
int_lt_of_ne (pos a) (negsuc b) h n = ground (arith, h, n)
int_lt_of_ne (negsuc a) (pos b) h n = ground (arith, h, n)
int_lt_of_ne (negsuc a) (negsuc b) h n = ground (arith, h, n)

int_lt_between :
    (a b c d : ℤ)
    → int_lt b a ≡ false
    → int_lt c b ≡ false
    → int_eq c b ≡ false
    → int_lt d c ≡ false
    → int_lt a d ≡ true
int_lt_between a b c d h k n l = elim (Bool-cases (int_lt a d)) [
  | inl above ↦ above
  | inr below ↦
      let back : int_lt b c ≡ false = int_le_trans c a b (int_le_trans c d a l below) h in
      absurd (ground (arith, back, int_lt_of_ne b c k n))
]

int_le_refl : (a : ℤ) → int_lt a a ≡ false
unfolding int_lt
int_le_refl (pos m) = ground arith
int_le_refl (negsuc m) = ground arith

same_place : (keys : List ℤ) (i j : ℕ) → i ≡ j → int_lt (key_at keys j) (key_at keys i) ≡ false
same_place keys i j e =
    subst (λ x. int_lt (key_at keys x) (key_at keys i) ≡ false) e (int_le_refl (key_at keys i))

sorted_le :
    (keys : List ℤ) (i j : ℕ)
    → IsSorted keys
    → i ≤ j
    → j < length keys
    → int_lt (key_at keys j) (key_at keys i) ≡ false
sorted_le keys i zero o a h = same_place keys i zero (omega arith)
sorted_le keys i (suc j) o a h = elim (Bool-cases (ltb i (suc j))) [
  | inl before ↦
      int_le_trans (key_at keys i) (key_at keys j) (key_at keys (suc j))
        (sorted_le keys i j o (omega tests) (omega arith)) (o j h)
  | inr last ↦ same_place keys i (suc j) (omega tests)
]

-- A place of the keys: every key before it is smaller than every key from it on.
abbrev pub Divides : List ℤ → ℕ → Type 0
Divides keys s =
    (i j : ℕ) → i < s → s ≤ j → j < length keys → int_lt (key_at keys i) (key_at keys j) ≡ true

pub changes_at-Divides :
    (keys : List ℤ) (s : ℕ)
    → IsSorted keys
    → 0 < s
    → s < length keys
    → changes_at keys s ≡ true
    → Divides keys s
unfolding changes_at
changes_at-Divides keys zero o p h e i j below from within = absurd (omega arith)
changes_at-Divides keys (suc s) o p h e i j below from within =
    int_lt_between (key_at keys i) (key_at keys s) (key_at keys (suc s)) (key_at keys j)
      (sorted_le keys i s o (omega arith) (omega arith)) (o s h) (ground (arith, e))
      (sorted_le keys (suc s) j o from within)

boundary_from-eq-some :
    (keys : List ℤ) (i n s : ℕ)
    → boundary_from keys i n ≡ some s
    → (i ≤ s) × (s < i + n) × (changes_at keys s ≡ true)
unfolding boundary_from
boundary_from-eq-some keys i zero s e = ground (arith, e)
boundary_from-eq-some keys i (suc n) s e = elim (Bool-cases (changes_at keys i)) [
  | inl here ↦ ground (arith, e, here)
  | inr same ↦
      let (a, b, c) = boundary_from-eq-some keys (i + 1) n s (rw same at e) in
      (omega arith, omega arith, c)
]

boundary_from-eq-none :
    (keys : List ℤ) (i n p : ℕ)
    → boundary_from keys i n ≡ none
    → i ≤ p
    → p < i + n
    → changes_at keys p ≡ false
unfolding boundary_from
boundary_from-eq-none keys i zero p e a b = absurd (omega arith)
boundary_from-eq-none keys i (suc n) p e a b = elim (Bool-cases (changes_at keys i)) [
  | inl here ↦ absurd (ground (arith, e, here))
  | inr same ↦ ground (arith, same, boundary_from-eq-none keys (i + 1) n p (rw same at e))
]

boundary_down-eq-some :
    (keys : List ℤ) (i s : ℕ)
    → boundary_down keys i ≡ some s
    → (0 < s) × (s ≤ i) × (changes_at keys s ≡ true)
unfolding boundary_down
boundary_down-eq-some keys zero s e = ground (arith, e)
boundary_down-eq-some keys (suc i) s e = elim (Bool-cases (changes_at keys (suc i))) [
  | inl here ↦ ground (arith, e, here)
  | inr same ↦ let (a, b, c) = boundary_down-eq-some keys i s (rw same at e) in (a, omega arith, c)
]

boundary_down-eq-none :
    (keys : List ℤ) (i p : ℕ)
    → boundary_down keys i ≡ none
    → 0 < p
    → p ≤ i
    → changes_at keys p ≡ false
unfolding boundary_down
boundary_down-eq-none keys zero p e a b = absurd (omega arith)
boundary_down-eq-none keys (suc i) p e a b = elim (Bool-cases (changes_at keys (suc i))) [
  | inl here ↦ absurd (ground (arith, e, here))
  | inr same ↦ ground (arith, same, boundary_down-eq-none keys i p (rw same at e))
]

-- No place where the keys change: they are all one key.
all_one :
    (keys : List ℤ)
    → ((p : ℕ) → 0 < p → p < length keys → changes_at keys p ≡ false)
    → (i : ℕ) → i < length keys
    → key_at keys i ≡ key_at keys 0
unfolding changes_at
all_one keys same zero h = refl
all_one keys same (suc i) h =
    int_eq_sound (key_at keys (suc i)) (key_at keys i)
      (ground (arith, same (suc i) (omega arith) h))
    ∙ all_one keys same i (omega arith)

-- Where FindSplitBoundary puts the boundary of keys in order, from a middle that has keys on both sides.
pub data Boundary (keys : List ℤ) (naive_mid s : ℕ) : Type 0 where
  divides : 0 < s → s < length keys → Divides keys s → Boundary keys naive_mid s
  one_key :
      s ≡ naive_mid
      → ((i : ℕ) → i < length keys → key_at keys i ≡ key_at keys 0)
      → Boundary keys naive_mid s

-- On keys in order, from a middle with keys on both sides, FindSplitBoundary returns a place with keys on
-- both sides such that every key before it is smaller than every key from it on. Only where all the
-- keys are one key does it return the middle that it was given.
pub find_split_boundary_lem :
    (keys : List ℤ) (naive_mid : ℕ)
    → IsSorted keys
    → 0 < naive_mid
    → naive_mid < length keys
    → Boundary keys naive_mid (find_split_boundary keys naive_mid)
unfolding find_split_boundary
find_split_boundary_lem keys mid o p h =
    elim (Option-cases (boundary_from keys mid (length keys - mid))) [
      | inr (s, e) ↦
          let (a, b, c) = boundary_from-eq-some keys mid (length keys - mid) s e in
          rw (e, find_split_boundary)
            (divides (omega arith) (omega arith)
              (changes_at-Divides keys s o (omega arith) (omega arith) c))
      | inl e ↦ elim (Option-cases (boundary_down keys mid)) [
        | inr (s, f) ↦
            let (a, b, c) = boundary_down-eq-some keys mid s f in
            rw (e, f, find_split_boundary)
              (divides a (omega arith) (changes_at-Divides keys s o a (omega arith) c))
        | inl f ↦
            rw (e, f, find_split_boundary)
              (one_key refl (
                all_one keys (λ q above within. elim (Bool-cases (ltb q mid)) [
                  | inl low ↦ boundary_down-eq-none keys mid q f above (omega tests)
                  | inr high ↦
                      boundary_from-eq-none keys mid (length keys - mid) q e (omega tests)
                        (omega arith)
                ])))
      ]
    ]
