-- ===== src/Bytes/Embedded.antt =====
-- A buffer that stands inside a longer one is read at an offset as it is read alone.
use flintdb.Prelude.{
  ℕ, zero, suc, ◌+◌, ◌<◌, ◌≤◌, ◌≡◌, refl, ap, ap₂, ◌∙◌, List, [], ◌∷◌, ◌++◌, arith, length, get_or,
}
use flintdb.Bytes.Codec.{from_bytes}
use flintdb.Bytes.Buffer.{read_bytes, read_at}

get_or-append_left :
    (xs ys : List ℕ) (i : ℕ) → i < length xs → get_or (xs ++ ys) i 0 ≡ get_or xs i 0
get_or-append_left [] ys i h = elim h [ ]
get_or-append_left (x ∷ xs) ys zero h = refl
get_or-append_left (x ∷ xs) ys (suc i) h = get_or-append_left xs ys i (omega arith)

get_or-append_right :
    (xs ys : List ℕ) (i j : ℕ) → j ≡ length xs + i → get_or (xs ++ ys) j 0 ≡ get_or ys i 0
get_or-append_right [] ys i j h = ap (λ k. get_or ys k 0) (omega arith)
get_or-append_right (x ∷ xs) ys i zero h = absurd (omega arith)
get_or-append_right (x ∷ xs) ys i (suc j) h = get_or-append_right xs ys i j (omega arith)

pub read_bytes-append_left :
    (xs ys : List ℕ) (i n : ℕ) → i + n ≤ length xs → read_bytes (xs ++ ys) i n ≡ read_bytes xs i n
unfolding read_bytes
read_bytes-append_left xs ys i zero h = refl
read_bytes-append_left xs ys i (suc n) h =
    ap₂ ◌∷◌ (get_or-append_left xs ys i (omega arith))
      (read_bytes-append_left xs ys (i + 1) n (omega arith))

pub read_bytes-append_right :
    (xs ys : List ℕ) (i j n : ℕ) → j ≡ length xs + i → read_bytes (xs ++ ys) j n ≡ read_bytes ys i n
unfolding read_bytes
read_bytes-append_right xs ys i j zero h = refl
read_bytes-append_right xs ys i j (suc n) h =
    ap₂ ◌∷◌ (get_or-append_right xs ys i j h)
      (read_bytes-append_right xs ys (i + 1) (j + 1) n (omega arith))

pub read_at-append_left :
    (w : ℕ) (xs ys : List ℕ) (i : ℕ) → i + w ≤ length xs → read_at w (xs ++ ys) i ≡ read_at w xs i
unfolding read_at
read_at-append_left w xs ys i h = ap from_bytes (read_bytes-append_left xs ys i w h)

pub read_at-append_right :
    (w : ℕ) (xs ys : List ℕ) (i j : ℕ) → j ≡ length xs + i → read_at w (xs ++ ys) j ≡ read_at w ys i
unfolding read_at
read_at-append_right w xs ys i j h = ap from_bytes (read_bytes-append_right xs ys i j w h)

-- Reading back all of a buffer gives the buffer.
pub read_bytes-all : (xs : List ℕ) → read_bytes xs 0 (length xs) ≡ xs
unfolding read_bytes
read_bytes-all [] = refl
read_bytes-all (x ∷ xs) =
    ap (◌∷◌ x)
      (read_bytes-append_right (x ∷ []) xs 0 1 (length xs) (omega arith) ∙ read_bytes-all xs)
