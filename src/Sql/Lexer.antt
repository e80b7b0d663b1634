-- ===== src/Sql/Lexer.antt =====
-- src/sql/token.h and lexer.cpp: the tokens of a statement. Characters are bytes, and those of <cctype>
-- are classified as in the C locale. The messages of the exceptions are left out, not their position.
pub mod Rounds
pub mod Progress
use flintdb.Prelude.{
  ℕ, zero, suc, ◌+◌, ◌-◌, ◌*◌, ◌^◌, Bool, true, false, ◌&&◌, ◌||◌, Option, none, some, List, [],
  ◌∷◌, Text, text_eq, length, ltb, leb, ◌==◌, if◌then◌else◌,
}
use flintdb.Prelude.Int.{ℤ, pos, negsuc}

pub data TokenType : Type 0 where
  create table index on integer text primary key insert into values select : TokenType
  from join where_ and update set delete begin commit rollback : TokenType
  identifier integer_literal string_literal : TokenType
  lparen rparen comma dot star eq neq lt le gt ge semicolon end_of_input : TokenType

pub record Token : Type 0 where
  pub kind : TokenType
  pub spelling : Text
  pub int_value : ℤ
  pub position : ℕ

-- What Tokenize gives: the tokens, or the position of the SqlSyntaxError.
pub data Tokens : Type 0 where
  tokens : List Token → Tokens
  syntax_error : ℕ → Tokens

unfoldable pub keyword_table : List (Text × TokenType)
keyword_table =
    (b'C' ∷ b'R' ∷ b'E' ∷ b'A' ∷ b'T' ∷ b'E' ∷ [], TokenType.create)
    ∷ (b'T' ∷ b'A' ∷ b'B' ∷ b'L' ∷ b'E' ∷ [], TokenType.table)
    ∷ (b'I' ∷ b'N' ∷ b'D' ∷ b'E' ∷ b'X' ∷ [], TokenType.index)
    ∷ (b'O' ∷ b'N' ∷ [], TokenType.on)
    ∷ (b'I' ∷ b'N' ∷ b'T' ∷ b'E' ∷ b'G' ∷ b'E' ∷ b'R' ∷ [], TokenType.integer)
    ∷ (b'T' ∷ b'E' ∷ b'X' ∷ b'T' ∷ [], TokenType.text)
    ∷ (b'P' ∷ b'R' ∷ b'I' ∷ b'M' ∷ b'A' ∷ b'R' ∷ b'Y' ∷ [], TokenType.primary)
    ∷ (b'K' ∷ b'E' ∷ b'Y' ∷ [], TokenType.key)
    ∷ (b'I' ∷ b'N' ∷ b'S' ∷ b'E' ∷ b'R' ∷ b'T' ∷ [], TokenType.insert)
    ∷ (b'I' ∷ b'N' ∷ b'T' ∷ b'O' ∷ [], TokenType.into)
    ∷ (b'V' ∷ b'A' ∷ b'L' ∷ b'U' ∷ b'E' ∷ b'S' ∷ [], TokenType.values)
    ∷ (b'S' ∷ b'E' ∷ b'L' ∷ b'E' ∷ b'C' ∷ b'T' ∷ [], TokenType.select)
    ∷ (b'F' ∷ b'R' ∷ b'O' ∷ b'M' ∷ [], TokenType.from)
    ∷ (b'J' ∷ b'O' ∷ b'I' ∷ b'N' ∷ [], TokenType.join)
    ∷ (b'W' ∷ b'H' ∷ b'E' ∷ b'R' ∷ b'E' ∷ [], TokenType.where_)
    ∷ (b'A' ∷ b'N' ∷ b'D' ∷ [], TokenType.and)
    ∷ (b'U' ∷ b'P' ∷ b'D' ∷ b'A' ∷ b'T' ∷ b'E' ∷ [], TokenType.update)
    ∷ (b'S' ∷ b'E' ∷ b'T' ∷ [], TokenType.set)
    ∷ (b'D' ∷ b'E' ∷ b'L' ∷ b'E' ∷ b'T' ∷ b'E' ∷ [], TokenType.delete)
    ∷ (b'B' ∷ b'E' ∷ b'G' ∷ b'I' ∷ b'N' ∷ [], TokenType.begin)
    ∷ (b'C' ∷ b'O' ∷ b'M' ∷ b'M' ∷ b'I' ∷ b'T' ∷ [], TokenType.commit)
    ∷ (b'R' ∷ b'O' ∷ b'L' ∷ b'L' ∷ b'B' ∷ b'A' ∷ b'C' ∷ b'K' ∷ [], TokenType.rollback)
    ∷ []

abbrev pub is_digit : ℕ → Bool
is_digit c = leb b'0' c && leb c b'9'

abbrev pub is_lower : ℕ → Bool
is_lower c = leb b'a' c && leb c b'z'

abbrev pub is_alpha : ℕ → Bool
is_alpha c = is_lower c || (leb b'A' c && leb c b'Z')

abbrev pub is_ident_start : ℕ → Bool
is_ident_start c = is_alpha c || (c == b'_')

abbrev pub is_ident_cont : ℕ → Bool
is_ident_cont c = is_alpha c || is_digit c || (c == b'_')

-- ' ', '\t', '\n' and '\r'
abbrev pub is_blank : ℕ → Bool
is_blank c = (c == 32) || (c == 9) || (c == 10) || (c == 13)

unfoldable pub to_upper : Text → Text
to_upper [] = []
to_upper (c ∷ cs) = (if is_lower c then c - 32 else c) ∷ to_upper cs

unfoldable pub find_keyword : List (Text × TokenType) → Text → Option TokenType
find_keyword [] word = none
find_keyword (entry ∷ rest) word =
    if text_eq entry.0 word then some entry.1 else find_keyword rest word

-- The loops that advance over the characters of one class: those characters, and the rest.
unfoldable pub take_while : (ℕ → Bool) → Text → Text × Text
take_while p [] = ([], [])
take_while p (c ∷ cs) = let r = take_while p cs in if p c then (c ∷ r.0, r.1) else ([], c ∷ cs)

unfoldable pub digits_value : Text → ℕ → ℕ
digits_value [] acc = acc
digits_value (d ∷ ds) acc = digits_value ds (acc * 10 + (d - b'0'))

abbrev pub negated : ℕ → ℤ
negated zero = pos 0
negated (suc m) = negsuc m

-- std::stoll on an optional '-' and digits. `none` is std::out_of_range.
unfoldable pub stoll : Bool → Text → Option ℤ
stoll false digits = let v = digits_value digits 0 in if ltb v (2 ^ 63) then some (pos v) else none
stoll true digits =
    let v = digits_value digits 0 in if leb v (2 ^ 63) then some (negated v) else none

abbrev pub quote : ℕ
quote = 39

abbrev pub put : ℕ → Option (Text × Text) → Option (Text × Text)
put c none = none
put c (some (value, rest)) = some (c ∷ value, rest)

-- What follows an opening quote: the value, and the rest after the closing one. `none` is no closing one.
unfoldable pub scan_string : Text → Option (Text × Text)
scan_string [] = none
scan_string (c ∷ []) = if c == quote then some ([], []) else none
scan_string (c ∷ d ∷ ds) = elim (c == quote) [
  | false ↦ put c (scan_string (d ∷ ds))
  | true ↦ elim (d == quote) [ false ↦ some ([], d ∷ ds) | true ↦ put quote (scan_string ds) ]
]

-- A round of the loop: blank space, a token with the rest after it, or the exception.
pub data Round : Type 0 where
  skip : Text → Round
  emit : Token → Text → Round
  fail : ℕ → Round

abbrev pub simple : TokenType → Text → ℕ → Token
simple kind s at = record { kind = kind; spelling = s; int_value = pos 0; position = at }

unfoldable pub lex_word : ℕ → ℕ → Text → Round
lex_word at c cs =
    let r = take_while is_ident_cont cs in
    elim (find_keyword keyword_table (to_upper (c ∷ r.0))) [
      | none ↦ emit (simple TokenType.identifier (c ∷ r.0) at) r.1
      | some kind ↦ emit (simple kind (c ∷ r.0) at) r.1
    ]

-- An integer literal, whose first character is a digit or a '-'.
unfoldable pub lex_number : ℕ → ℕ → Text → Round
lex_number at c cs =
    let r = take_while is_digit cs in
    let negative = c == b'-' in
    elim (stoll negative (if negative then r.0 else c ∷ r.0)) [
      | none ↦ fail at
      | some v ↦
          emit
            (record {
              kind = TokenType.integer_literal;
              spelling = c ∷ r.0;
              int_value = v;
              position = at;
            })
            r.1
    ]

unfoldable pub lex_string : ℕ → Text → Round
lex_string at cs = elim (scan_string cs) [
  | none ↦ fail at
  | some (value, rest) ↦ emit (simple TokenType.string_literal value at) rest
]

-- `pos + 1 < n && p(sql[pos + 1])`
abbrev pub next_is : (ℕ → Bool) → Text → Bool
next_is p [] = false
next_is p (d ∷ ds) = p d

abbrev pub drop_one : Text → Text
drop_one [] = []
drop_one (d ∷ ds) = ds

abbrev pub is_equals : ℕ → Bool
is_equals d = d == b'='

-- The switch of single characters.
unfoldable pub punctuation : ℕ → Option TokenType
punctuation c =
    if c == b'('
    then some TokenType.lparen
    else if c == b')'
    then some TokenType.rparen
    else if c == b','
    then some TokenType.comma
    else if c == b'.'
    then some TokenType.dot
    else if c == b'*'
    then some TokenType.star
    else if c == b';'
    then some TokenType.semicolon
    else none

unfoldable pub lex_comparator : ℕ → ℕ → Text → Round
lex_comparator at c cs =
    if c == b'='
    then emit (simple TokenType.eq (c ∷ []) at) cs
    else if c == b'!'
    then (if next_is is_equals cs
        then emit (simple TokenType.neq (c ∷ b'=' ∷ []) at) (drop_one cs)
        else fail at)
    else if c == b'<'
    then (if next_is is_equals cs
        then emit (simple TokenType.le (c ∷ b'=' ∷ []) at) (drop_one cs)
        else emit (simple TokenType.lt (c ∷ []) at) cs)
    else if c == b'>'
    then (if next_is is_equals cs
        then emit (simple TokenType.ge (c ∷ b'=' ∷ []) at) (drop_one cs)
        else emit (simple TokenType.gt (c ∷ []) at) cs)
    else fail at

unfoldable pub lex_symbol : ℕ → ℕ → Text → Round
lex_symbol at c cs = elim (punctuation c) [
  | none ↦ lex_comparator at c cs
  | some kind ↦ emit (simple kind (c ∷ []) at) cs
]

unfoldable pub lex_round : ℕ → ℕ → Text → Round
lex_round at c cs =
    if is_blank c
    then skip cs
    else if is_ident_start c
    then lex_word at c cs
    else if is_digit c || ((c == b'-') && next_is is_digit cs)
    then lex_number at c cs
    else if c == quote
    then lex_string at cs
    else lex_symbol at c cs

abbrev pub end_token : ℕ → Token
end_token n = simple TokenType.end_of_input [] n

abbrev pub put_token : Token → Option Tokens → Option Tokens
put_token t none = none
put_token t (some (tokens ts)) = some (tokens (t ∷ ts))
put_token t (some (syntax_error p)) = some (syntax_error p)

-- The loop, on what is left of a text of n characters. `none` is no fuel.
unfoldable pub tokenize_from : ℕ → ℕ → Text → Option Tokens
tokenize_from zero n s = none
tokenize_from (suc fuel) n [] = some (tokens (end_token n ∷ []))
tokenize_from (suc fuel) n (c ∷ cs) = elim (lex_round (n - length (c ∷ cs)) c cs) [
  | skip rest ↦ tokenize_from fuel n rest
  | emit t rest ↦ put_token t (tokenize_from fuel n rest)
  | fail p ↦ some (syntax_error p)
]

unfoldable pub tokenize : Text → Option Tokens
tokenize sql = tokenize_from (suc (length sql)) (length sql) sql
