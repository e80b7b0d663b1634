-- ===== src/Sql/RowCodec.antt =====
-- src/sql/row_codec.cpp: the bytes of a row. `none` is an exception, or a value that is missing.

pub mod RoundTrip
use flintdb.Prelude.{
  ℕ, ◌+◌, ◌%◌, ◌^◌, Option, none, some, List, [], ◌∷◌, ◌++◌, Text, length, ltb, if◌then◌else◌,
}
use flintdb.Prelude.Int.{ℤ, pos, pattern64, value64}
use flintdb.Bytes.{to_bytes, read_at, read_bytes}
use flintdb.Sql.Ast.{ColumnType, ColumnDef, LiteralKind, LiteralValue}

abbrev pub append_int64 : ℤ → Text
append_int64 v = to_bytes 8 (pattern64 v)

abbrev pub append_uint32 : ℕ → Text
append_uint32 v = to_bytes 4 (v % 2 ^ 32)

unfoldable pub read_int64 : Text → ℕ → Option ℤ
read_int64 row offset =
    if ltb (length row) (offset + 8) then none else some (value64 (read_at 8 row offset))

unfoldable pub read_uint32 : Text → ℕ → Option ℕ
read_uint32 row offset = if ltb (length row) (offset + 4) then none else some (read_at 4 row offset)

unfoldable pub encode_value : ColumnType → LiteralValue → Text
encode_value ColumnType.integer v = append_int64 v.int_value
encode_value ColumnType.text v = append_uint32 (length v.string_value) ++ v.string_value

unfoldable pub encode_row : List ColumnDef → List LiteralValue → Option Text
encode_row [] values = some []
encode_row (c ∷ cs) [] = none
encode_row (c ∷ cs) (v ∷ vs) = elim (encode_row cs vs) [
  | none ↦ none
  | some rest ↦ some (encode_value c.kind v ++ rest)
]

abbrev pub int_literal : ℤ → LiteralValue
int_literal v = record { kind = LiteralKind.integer; int_value = v; string_value = [] }

abbrev pub string_literal : Text → LiteralValue
string_literal s = record { kind = LiteralKind.string; int_value = pos 0; string_value = s }

unfoldable pub decode_text : Text → ℕ → ℕ → Option (LiteralValue × ℕ)
decode_text row offset len =
    if ltb (length row) (offset + len)
    then none
    else some (string_literal (read_bytes row offset len), offset + len)

-- One column at an offset: its value, and the offset after it.
unfoldable pub decode_value : ColumnType → Text → ℕ → Option (LiteralValue × ℕ)
decode_value ColumnType.integer row offset = elim (read_int64 row offset) [
  | none ↦ none
  | some v ↦ some (int_literal v, offset + 8)
]
decode_value ColumnType.text row offset = elim (read_uint32 row offset) [
  | none ↦ none
  | some len ↦ decode_text row (offset + 4) len
]

unfoldable pub decode_columns : List ColumnDef → Text → ℕ → Option (List LiteralValue)
decode_columns [] row offset = some []
decode_columns (c ∷ cs) row offset = elim (decode_value c.kind row offset) [
  | none ↦ none
  | some (v, after) ↦ elim (decode_columns cs row after) [ none ↦ none | some vs ↦ some (v ∷ vs) ]
]

unfoldable pub decode_row : List ColumnDef → Text → Option (List LiteralValue)
unfolding decode_columns
decode_row columns row = decode_columns columns row 0
