-- ===== src/Prelude/Int.antt =====
-- Signed integers, and the two's complement patterns of `int64_t`.
use Prim.Native.Nat.{ℕ, ◌-◌, ◌^◌, ◌<◌}
use mathlib.Core.Path.{◌≡◌}
use mathlib.Core.Bool.{Bool, true, false}
use native.Mathlib.Omega.{arith}
use flintdb.Prelude.Tests.{ltb, ◌==◌, if◌then◌else◌}

-- `negsuc n` is -(n + 1).
pub data ℤ : Type 0 where
  pos : ℕ → ℤ
  negsuc : ℕ → ℤ

-- The values of an `int64_t`.
abbrev pub InRange64 : ℤ → Type 0
InRange64 (pos n) = n < 2 ^ 63
InRange64 (negsuc n) = n < 2 ^ 63

-- The bit pattern of an `int64_t`, and the value of a pattern.
unfoldable pub pattern64 : ℤ → ℕ
pattern64 (pos n) = n
pattern64 (negsuc n) = 2 ^ 64 - 1 - n

unfoldable pub value64 : ℕ → ℤ
value64 w = if ltb w (2 ^ 63) then pos w else negsuc (2 ^ 64 - 1 - w)

pub pattern64-lt : (v : ℤ) → InRange64 v → pattern64 v < 2 ^ 64
unfolding pattern64
pattern64-lt (pos n) h = omega arith
pattern64-lt (negsuc n) h = omega arith

pub value64-pattern64 : (v : ℤ) → InRange64 v → value64 (pattern64 v) ≡ v
unfolding value64 pattern64
value64-pattern64 (pos n) h = ground arith
value64-pattern64 (negsuc n) h = ground arith

unfoldable pub int_eq : ℤ → ℤ → Bool
int_eq (pos m) (pos n) = m == n
int_eq (negsuc m) (negsuc n) = m == n
int_eq (pos m) (negsuc n) = false
int_eq (negsuc m) (pos n) = false

unfoldable pub int_lt : ℤ → ℤ → Bool
int_lt (pos m) (pos n) = ltb m n
int_lt (negsuc m) (negsuc n) = ltb n m
int_lt (pos m) (negsuc n) = false
int_lt (negsuc m) (pos n) = true
