-- ===== src/Sql/RowCodec/RoundTrip.antt =====
-- row_codec.cpp: DecodeRow takes back what EncodeRow wrote.
use mathlib.Core.Path.{subst}
use flintdb.Prelude.{
  ℕ, ◌+◌, ◌%◌, ◌^◌, ◌<◌, ◌≡◌, refl, ap, sym, ◌∙◌, false, some, List, [], ◌∷◌, ◌++◌, append_assoc,
  append-nil, Text, arith, length, length-append, ltb,
}
use flintdb.Prelude.Int.{ℤ, pattern64, InRange64, pattern64-lt, value64-pattern64}
use flintdb.Bytes.{
  to_bytes, from_bytes, length-to_bytes, from_bytes-to_bytes, read_at, read_bytes,
  read_bytes-append_left, read_bytes-append_right, read_bytes-all,
}
use flintdb.Sql.Ast.{ColumnType, ColumnDef, LiteralValue}
use flintdb.Sql.RowCodec.{
  append_int64, append_uint32, read_int64, read_uint32, encode_value, encode_row, int_literal,
  string_literal, decode_text, decode_value, decode_columns, decode_row,
}

-- A literal that a column can hold: of its kind, with the other field at its default.
pub data Suits : ColumnType → LiteralValue → Type 0 where
  int_suits : (v : ℤ) → InRange64 v → Suits ColumnType.integer (int_literal v)
  text_suits : (s : Text) → length s < 2 ^ 32 → Suits ColumnType.text (string_literal s)

abbrev pub RowSuits : List ColumnDef → List LiteralValue → Type 0
RowSuits [] [] = Unit
RowSuits [] (v ∷ vs) = ⊥
RowSuits (c ∷ cs) [] = ⊥
RowSuits (c ∷ cs) (v ∷ vs) = Suits c.kind v × RowSuits cs vs

-- Bytes that stand inside a row are read back at their offset.
embedded : (pre mid post : Text) → read_bytes (pre ++ (mid ++ post)) (length pre) (length mid) ≡ mid
embedded pre mid post =
    read_bytes-append_right pre (mid ++ post) 0 (length pre) (length mid) (omega arith)
    ∙ read_bytes-append_left mid post 0 (length mid) (omega arith)
    ∙ read_bytes-all mid

read_number :
    (w v : ℕ) (pre post : Text)
    → v < 256 ^ w
    → read_at w (pre ++ (to_bytes w v ++ post)) (length pre) ≡ v
unfolding read_at
read_number w v pre post h =
    ap (λ n. from_bytes (read_bytes (pre ++ (to_bytes w v ++ post)) (length pre) n))
      (sym (length-to_bytes w v))
    ∙ ap from_bytes (embedded pre (to_bytes w v) post)
    ∙ from_bytes-to_bytes w v h

read_int64-append :
    (v : ℤ) (pre post : Text)
    → InRange64 v
    → read_int64 (pre ++ (append_int64 v ++ post)) (length pre) ≡ some v
unfolding read_int64
read_int64-append v pre post h =
    rw (long_enough, read_number 8 (pattern64 v) pre post (pattern64-lt v h))
      (ap some (value64-pattern64 v h))
  where
    long_enough : ltb (length (pre ++ (append_int64 v ++ post))) (length pre + 8) ≡ false
    long_enough = ground (
      arith,
      length-append pre (append_int64 v ++ post),
      length-append (append_int64 v) post,
      length-to_bytes 8 (pattern64 v),
    )

read_uint32-append :
    (n : ℕ) (pre post : Text)
    → n < 2 ^ 32
    → read_uint32 (pre ++ (append_uint32 n ++ post)) (length pre) ≡ some n
unfolding read_uint32
read_uint32-append n pre post h =
    rw (long_enough, read_number 4 (n % 2 ^ 32) pre post (omega arith)) (ap some (omega arith))
  where
    long_enough : ltb (length (pre ++ (append_uint32 n ++ post))) (length pre + 4) ≡ false
    long_enough = ground (
      arith,
      length-append pre (append_uint32 n ++ post),
      length-append (append_uint32 n) post,
      length-to_bytes 4 (n % 2 ^ 32),
    )

decode_text-embedded :
    (s pre post : Text)
    → decode_text (pre ++ (s ++ post)) (length pre) (length s)
      ≡ some (string_literal s, length pre + length s)
unfolding decode_text
decode_text-embedded s pre post =
    rw long_enough (ap (λ x. some (string_literal x, length pre + length s)) (embedded pre s post))
  where
    long_enough : ltb (length (pre ++ (s ++ post))) (length pre + length s) ≡ false
    long_enough = ground (arith, length-append pre (s ++ post), length-append s post)

decode-encode_value :
    (k : ColumnType) (v : LiteralValue) (pre post : Text)
    → Suits k v
    → decode_value k (pre ++ (encode_value k v ++ post)) (length pre)
      ≡ some (v, length (pre ++ encode_value k v))
unfolding decode_value encode_value
decode-encode_value ColumnType.integer v pre post (int_suits x fits) =
    rw (read_int64-append x pre post fits, decode_value)
      (ap (λ n. some (int_literal x, n))
        (omega (arith, length-append pre (append_int64 x), length-to_bytes 8 (pattern64 x))))
decode-encode_value ColumnType.text v pre post (text_suits s fits) =
    rw (inner, read_uint32-append (length s) pre (s ++ post) fits, decode_value)
      (subst
        (λ f.
          decode_text f (length pre + 4) (length s)
          ≡ some (string_literal s, length (pre ++ (append_uint32 (length s) ++ s))))
        (sym outer)
        (subst
          (λ n.
            decode_text ((pre ++ append_uint32 (length s)) ++ (s ++ post)) n (length s)
            ≡ some (string_literal s, length (pre ++ (append_uint32 (length s) ++ s))))
          after_prefix
          (decode_text-embedded s (pre ++ append_uint32 (length s)) post
            ∙ ap (λ n. some (string_literal s, n)) total)))
  where
    inner :
        pre ++ ((append_uint32 (length s) ++ s) ++ post)
        ≡ pre ++ (append_uint32 (length s) ++ (s ++ post))
    inner = ap (λ f. pre ++ f) (append_assoc (append_uint32 (length s)) s post)

    outer :
        pre ++ ((append_uint32 (length s) ++ s) ++ post)
        ≡ (pre ++ append_uint32 (length s)) ++ (s ++ post)
    outer = inner ∙ sym (append_assoc pre (append_uint32 (length s)) (s ++ post))

    after_prefix : length (pre ++ append_uint32 (length s)) ≡ length pre + 4
    after_prefix =
        omega (
          arith,
          length-append pre (append_uint32 (length s)),
          length-to_bytes 4 (length s % 2 ^ 32),
        )

    total :
        length (pre ++ append_uint32 (length s)) + length s
        ≡ length (pre ++ (append_uint32 (length s) ++ s))
    total = omega (
      arith,
      length-append pre (append_uint32 (length s)),
      length-append pre (append_uint32 (length s) ++ s),
      length-append (append_uint32 (length s)) s,
    )

decode_columns-encode_row :
    (cs : List ColumnDef) (vs : List LiteralValue) (pre post : Text)
    → RowSuits cs vs
    → (bytes : Text) × (encode_row cs vs ≡ some bytes)
      × (decode_columns cs (pre ++ (bytes ++ post)) (length pre) ≡ some vs)
unfolding encode_row decode_columns
decode_columns-encode_row [] [] pre post h = ([], refl, refl)
decode_columns-encode_row [] (v ∷ vs) pre post h = absurd h
decode_columns-encode_row (c ∷ cs) [] pre post h = absurd h
decode_columns-encode_row (c ∷ cs) (v ∷ vs) pre post h =
    let (bytes, e, d) = decode_columns-encode_row cs vs (pre ++ encode_value c.kind v) post h.1 in
    (
      encode_value c.kind v ++ bytes,
      rw (e, encode_row),
      rw (inner bytes, decode-encode_value c.kind v pre (bytes ++ post) h.0, decode_columns)
          (rw (inner bytes ∙ sym (append_assoc pre (encode_value c.kind v) (bytes ++ post)), d)),
    )
  where
    inner :
        (bytes : Text)
        → pre ++ ((encode_value c.kind v ++ bytes) ++ post)
          ≡ pre ++ (encode_value c.kind v ++ (bytes ++ post))
    inner bytes = ap (λ f. pre ++ f) (append_assoc (encode_value c.kind v) bytes post)

-- A row whose values suit its columns (each of the column's kind, integers within int64_t, texts
-- shorter than 2 ^ 32 bytes) is encoded, and the bytes decode to the same values.
pub decode_row-encode_row :
    (columns : List ColumnDef) (values : List LiteralValue)
    → RowSuits columns values
    → (bytes : Text) × (encode_row columns values ≡ some bytes)
      × (decode_row columns bytes ≡ some values)
unfolding decode_row
decode_row-encode_row columns values h =
    let (bytes, e, d) = decode_columns-encode_row columns values [] [] h in
    (bytes, e, subst (λ f. decode_columns columns f 0 ≡ some values) (append-nil bytes) d)
