-- ===== src/Prelude/Sets.antt =====
-- `std::set`: a list in increasing order. What the code asks of a set is membership, and the laws
-- below give it for every operation, whatever the list.
use Prim.Native.Nat.{ℕ}
use mathlib.Core.Path.{◌≡◌, refl}
use mathlib.Core.Logic.{◌↔◌}
use mathlib.Core.Bool.{Bool, true, false, ◌||◌}
use mathlib.Core.List.{List, [], ◌∷◌}
use native.Mathlib.Omega.{arith}
use flintdb.Prelude.Tests.{ltb, ◌==◌, ==_iff, if◌then◌else◌}

-- What `std::set` asks of its elements.
pub record SetKey {ℓ} (A : Type ℓ) : Type ℓ where
  pub beq : A → A → Bool
  pub blt : A → A → Bool
  pub beq_iff : (a b : A) → (beq a b ≡ true) ↔ (a ≡ b)

instance abbrev pub nat_key : SetKey ℕ
nat_key = record { beq = ◌==◌; blt = ltb; beq_iff = ==_iff }

module _ {ℓ} {A : Type ℓ} ⦃k : SetKey A⦄ where
  -- count(a) > 0
  unfoldable pub has : A → List A → Bool
  has a [] = false
  has a (x ∷ xs) = k.beq a x || has a xs

  unfoldable pub insert : A → List A → List A
  insert a [] = a ∷ []
  insert a (x ∷ xs) =
      if k.beq a x then x ∷ xs else if k.blt a x then a ∷ x ∷ xs else x ∷ insert a xs

  unfoldable pub erase : A → List A → List A
  erase a [] = []
  erase a (x ∷ xs) = let rest = erase a xs in if k.beq a x then rest else x ∷ rest

  pub has-insert : (a b : A) (xs : List A) → has b (insert a xs) ≡ (k.beq b a || has b xs)
  unfolding has insert
  has-insert a b [] = refl
  has-insert a b (x ∷ xs) =
      ground (arith, has-insert a b xs, k.beq_iff a x, k.beq_iff b x, k.beq_iff b a)

  pub has-erase :
      (a b : A) (xs : List A) → has b (erase a xs) ≡ (if k.beq a b then false else has b xs)
  unfolding has erase
  has-erase a b [] = ground arith
  has-erase a b (x ∷ xs) =
      ground (arith, has-erase a b xs, k.beq_iff a x, k.beq_iff b x, k.beq_iff a b)
