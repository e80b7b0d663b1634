-- ===== src/Bytes/Codec.antt =====
-- The bytes of an unsigned integer of a given width, the lowest first.
use flintdb.Prelude.{
  ℕ, zero, suc, ◌+◌, ◌*◌, ◌/◌, ◌%◌, ◌^◌, ◌<◌, ◌≡◌, refl, List, [], ◌∷◌, arith, length, All,
}
use native.Mathlib.Nat.{pow-suc}

unfoldable pub to_bytes : ℕ → ℕ → List ℕ
to_bytes zero v = []
to_bytes (suc w) v = v % 256 ∷ to_bytes w (v / 256)

unfoldable pub from_bytes : List ℕ → ℕ
from_bytes [] = 0
from_bytes (b ∷ bs) = b + 256 * from_bytes bs

-- Every element is a byte.
abbrev pub IsByte : ℕ → Type 0
IsByte b = b < 256

pub length-to_bytes : (w v : ℕ) → length (to_bytes w v) ≡ w
unfolding to_bytes
length-to_bytes zero v = refl
length-to_bytes (suc w) v = omega (arith, length-to_bytes w (v / 256))

pub to_bytes-IsByte : (w v : ℕ) → All IsByte (to_bytes w v)
unfolding to_bytes
to_bytes-IsByte zero v = tt
to_bytes-IsByte (suc w) v = (omega arith, to_bytes-IsByte w (v / 256))

div-lt-pow : (w v : ℕ) → v < 256 ^ suc w → v / 256 < 256 ^ w
div-lt-pow w v h = omega (arith, pow-suc 256 w)

pub from_bytes-to_bytes : (w v : ℕ) → v < 256 ^ w → from_bytes (to_bytes w v) ≡ v
unfolding to_bytes from_bytes
from_bytes-to_bytes zero v h = omega arith
from_bytes-to_bytes (suc w) v h = omega (arith, from_bytes-to_bytes w (v / 256) (div-lt-pow w v h))

pub from_bytes-lt : (bs : List ℕ) → All IsByte bs → from_bytes bs < 256 ^ length bs
unfolding from_bytes
from_bytes-lt [] h = omega arith
from_bytes-lt (b ∷ bs) h = omega (arith, from_bytes-lt bs h.1, h.0, pow-suc 256 (length bs))
