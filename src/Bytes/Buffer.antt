-- ===== src/Bytes/Buffer.antt =====
-- Reads and writes at an offset of a buffer. A write past the end is dropped and a read past the end
-- gives zeros; the C++ has no meaning there, and the users' theorems show the offsets in range.
use flintdb.Prelude.{
  ℕ, zero, suc, ◌+◌, ◌^◌, ◌<◌, ◌≤◌, ◌≡◌, ◌≢◌, refl, sym, ap, ap₂, ◌∙◌, ◌⊎◌, inl, inr, List, [], ◌∷◌,
  arith, length, get_or, set, length-set, get_or-set_self, get_or-set_ne,
}
use flintdb.Bytes.Codec.{to_bytes, from_bytes, length-to_bytes, from_bytes-to_bytes}

unfoldable pub read_bytes : List ℕ → ℕ → ℕ → List ℕ
read_bytes buf off zero = []
read_bytes buf off (suc n) = get_or buf off 0 ∷ read_bytes buf (off + 1) n

unfoldable pub write_bytes : List ℕ → ℕ → List ℕ → List ℕ
write_bytes buf off [] = buf
write_bytes buf off (b ∷ bs) = write_bytes (set buf off b) (off + 1) bs

-- WriteAt<T> and ReadAt<T> for an unsigned type of `w` bytes.
unfoldable pub write_at : ℕ → List ℕ → ℕ → ℕ → List ℕ
write_at w buf off v = write_bytes buf off (to_bytes w v)

unfoldable pub read_at : ℕ → List ℕ → ℕ → ℕ
read_at w buf off = from_bytes (read_bytes buf off w)

pub length-read_bytes : (buf : List ℕ) (off n : ℕ) → length (read_bytes buf off n) ≡ n
unfolding read_bytes
length-read_bytes buf off zero = refl
length-read_bytes buf off (suc n) = omega (arith, length-read_bytes buf (off + 1) n)

pub length-write_bytes : (bs buf : List ℕ) (off : ℕ) → length (write_bytes buf off bs) ≡ length buf
unfolding write_bytes
length-write_bytes [] buf off = refl
length-write_bytes (b ∷ bs) buf off =
    omega (arith, length-write_bytes bs (set buf off b) (off + 1), length-set buf off b)

-- Two ranges of a buffer that do not meet.
abbrev pub Apart : ℕ → ℕ → ℕ → ℕ → Type 0
Apart i m j n = (i + m ≤ j) ⊎ (j + n ≤ i)

get_or-write_bytes_ne :
    (bs buf : List ℕ) (off j : ℕ)
    → Apart off (length bs) j 1
    → get_or (write_bytes buf off bs) j 0 ≡ get_or buf j 0
unfolding write_bytes
get_or-write_bytes_ne [] buf off j h = refl
get_or-write_bytes_ne (b ∷ bs) buf off j h =
    get_or-write_bytes_ne bs (set buf off b) (off + 1) j (apart h)
    ∙ get_or-set_ne buf off j b 0 (differ h)
  where
    apart : Apart off (suc (length bs)) j 1 → Apart (off + 1) (length bs) j 1
    apart (inl h) = inl (omega arith)
    apart (inr h) = inr (omega arith)

    differ : Apart off (suc (length bs)) j 1 → off ≢ j
    differ (inl h) = omega arith
    differ (inr h) = omega arith

pub read_bytes-write_bytes-Apart :
    (bs buf : List ℕ) (off j n : ℕ)
    → Apart off (length bs) j n
    → read_bytes (write_bytes buf off bs) j n ≡ read_bytes buf j n
unfolding read_bytes
read_bytes-write_bytes-Apart bs buf off j zero h = refl
read_bytes-write_bytes-Apart bs buf off j (suc n) h =
    ap₂ ◌∷◌ (get_or-write_bytes_ne bs buf off j (first h))
      (read_bytes-write_bytes-Apart bs buf off (j + 1) n (rest h))
  where
    first : Apart off (length bs) j (suc n) → Apart off (length bs) j 1
    first (inl h) = inl h
    first (inr h) = inr (omega arith)

    rest : Apart off (length bs) j (suc n) → Apart off (length bs) (j + 1) n
    rest (inl h) = inl (omega arith)
    rest (inr h) = inr (omega arith)

pub read_bytes-write_bytes_self :
    (bs buf : List ℕ) (off : ℕ)
    → off + length bs ≤ length buf
    → read_bytes (write_bytes buf off bs) off (length bs) ≡ bs
unfolding read_bytes write_bytes
read_bytes-write_bytes_self [] buf off h = refl
read_bytes-write_bytes_self (b ∷ bs) buf off h =
    ap₂ ◌∷◌
      (get_or-write_bytes_ne bs (set buf off b) (off + 1) off (inr (omega arith))
        ∙ get_or-set_self buf off b 0 (omega arith))
      (read_bytes-write_bytes_self bs (set buf off b) (off + 1)
        (omega (arith, length-set buf off b)))

pub length-write_at :
    (w : ℕ) (buf : List ℕ) (off v : ℕ) → length (write_at w buf off v) ≡ length buf
unfolding write_at
length-write_at w buf off v = length-write_bytes (to_bytes w v) buf off

pub read_at-write_at_self :
    (w : ℕ) (buf : List ℕ) (off v : ℕ)
    → off + w ≤ length buf
    → v < 256 ^ w
    → read_at w (write_at w buf off v) off ≡ v
unfolding read_at write_at
read_at-write_at_self w buf off v h b = ap from_bytes same ∙ from_bytes-to_bytes w v b
  where
    fits : off + length (to_bytes w v) ≤ length buf
    fits = omega (arith, length-to_bytes w v)

    same : read_bytes (write_bytes buf off (to_bytes w v)) off w ≡ to_bytes w v
    same =
        ap (read_bytes (write_bytes buf off (to_bytes w v)) off) (sym (length-to_bytes w v))
        ∙ read_bytes-write_bytes_self (to_bytes w v) buf off fits

pub read_at-write_at-Apart :
    (u w : ℕ) (buf : List ℕ) (off j v : ℕ)
    → Apart off w j u
    → read_at u (write_at w buf off v) j ≡ read_at u buf j
unfolding read_at write_at
read_at-write_at-Apart u w buf off j v h =
    ap from_bytes
      (read_bytes-write_bytes-Apart (to_bytes w v) buf off j u (rw (length-to_bytes w v) h))

pub read_at-write_bytes-Apart :
    (u : ℕ) (buf bs : List ℕ) (off j : ℕ)
    → Apart off (length bs) j u
    → read_at u (write_bytes buf off bs) j ≡ read_at u buf j
unfolding read_at
read_at-write_bytes-Apart u buf bs off j h =
    ap from_bytes (read_bytes-write_bytes-Apart bs buf off j u h)

pub read_bytes-write_at-Apart :
    (w : ℕ) (buf : List ℕ) (off v j n : ℕ)
    → Apart off w j n
    → read_bytes (write_at w buf off v) j n ≡ read_bytes buf j n
unfolding write_at
read_bytes-write_at-Apart w buf off v j n h =
    read_bytes-write_bytes-Apart (to_bytes w v) buf off j n (rw (length-to_bytes w v) h)
