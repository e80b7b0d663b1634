-- ===== src/Sql/Parser.antt =====
-- src/sql/parser.cpp: recursive descent over the tokens that are left. The messages of the exceptions
-- are left out, not their position.
pub mod Grammar
use flintdb.Prelude.{
  ℕ, zero, suc, Bool, true, false, Option, none, some, List, [], ◌∷◌, ◌++◌, Text, length, ◌==◌,
  if◌then◌else◌,
}
use flintdb.Prelude.Int.{pos}
use flintdb.Sql.Lexer.{TokenType, Token, Tokens, tokens, syntax_error, end_token, tokenize}
use flintdb.Sql.Ast.{
  ColumnType, ColumnDef, LiteralKind, LiteralValue, ColumnRef, Comparator, Predicate, Assignment,
  JoinClause, CreateTableStatement, CreateIndexStatement, InsertStatement, SelectStatement,
  UpdateStatement, DeleteStatement, Statement,
}

-- The place of a token type in its enumeration.
unfoldable pub token_code : TokenType → ℕ
token_code TokenType.create = 0
token_code TokenType.table = 1
token_code TokenType.index = 2
token_code TokenType.on = 3
token_code TokenType.integer = 4
token_code TokenType.text = 5
token_code TokenType.primary = 6
token_code TokenType.key = 7
token_code TokenType.insert = 8
token_code TokenType.into = 9
token_code TokenType.values = 10
token_code TokenType.select = 11
token_code TokenType.from = 12
token_code TokenType.join = 13
token_code TokenType.where_ = 14
token_code TokenType.and = 15
token_code TokenType.update = 16
token_code TokenType.set = 17
token_code TokenType.delete = 18
token_code TokenType.begin = 19
token_code TokenType.commit = 20
token_code TokenType.rollback = 21
token_code TokenType.identifier = 22
token_code TokenType.integer_literal = 23
token_code TokenType.string_literal = 24
token_code TokenType.lparen = 25
token_code TokenType.rparen = 26
token_code TokenType.comma = 27
token_code TokenType.dot = 28
token_code TokenType.star = 29
token_code TokenType.eq = 30
token_code TokenType.neq = 31
token_code TokenType.lt = 32
token_code TokenType.le = 33
token_code TokenType.gt = 34
token_code TokenType.ge = 35
token_code TokenType.semicolon = 36
token_code TokenType.end_of_input = 37

-- The exceptions carry the position; `out_of_fuel` is no outcome of the code.
pub data Parsed {ℓ} (A : Type ℓ) : Type ℓ where
  parsed : A → List Token → Parsed A
  error_at : ℕ → Parsed A
  out_of_fuel : Parsed A

abbrev pub Parser {ℓ} : Type ℓ → Type ℓ
Parser A = List Token → Parsed A

infixl 5 ◌>>=◌ ◌>>◌
abbrev pub ◌>>=◌ {ℓ κ} : {A : Type ℓ} {B : Type κ} → Parser A → (A → Parser B) → Parser B
(p >>= next) ts = elim (p ts) [
  | parsed a rest ↦ next a rest
  | error_at n ↦ error_at n
  | out_of_fuel ↦ out_of_fuel
]

abbrev pub ◌>>◌ {ℓ κ} : {A : Type ℓ} {B : Type κ} → Parser A → Parser B → Parser B
p >> q = p >>= (λ a. q)

abbrev pub give {ℓ} : {A : Type ℓ} → A → Parser A
give a ts = parsed a ts

-- There is always a token, the last one being the end of the input.
abbrev pub peek : List Token → Token
peek [] = end_token 0
peek (t ∷ ts) = t

abbrev pub next_is_kind : TokenType → List Token → Bool
next_is_kind kind ts = token_code (peek ts).kind == token_code kind

unfoldable pub check : TokenType → Parser Bool
check kind ts = parsed (next_is_kind kind ts) ts

unfoldable pub advance : Parser Token
advance [] = parsed (end_token 0) []
advance (t ∷ ts) =
    if next_is_kind TokenType.end_of_input (t ∷ ts) then parsed t (t ∷ ts) else parsed t ts

unfoldable pub match : TokenType → Parser Bool
match kind ts = if next_is_kind kind ts then (advance >> give true) ts else parsed false ts

unfoldable pub refuse {ℓ} : {A : Type ℓ} → Parser A
refuse ts = error_at (peek ts).position

unfoldable pub expect : TokenType → Parser Token
expect kind ts = if next_is_kind kind ts then advance ts else refuse ts
