-- ===== src/Sql/Lexer/Progress.antt =====
-- lexer.cpp: Tokenize ends, and its tokens end with exactly one end-of-input token.
use flintdb.Prelude.{
  ℕ, zero, suc, ◌-◌, ◌<◌, ◌≤◌, ◌≡◌, refl, sym, false, Option, none, some, List, [], ◌∷◌, Text,
  length, arith,
}
use flintdb.Sql.Lexer.{
  Token, Tokens, tokens, syntax_error, Round, skip, emit, fail, lex_round, end_token, put_token,
  tokenize_from, tokenize,
}
use flintdb.Sql.Lexer.Rounds.{is_end, Sound, lex_round-Sound}

-- Tokens in the order of their positions, from a position on, before the end of a text of n characters,
-- and then the end-of-input token, which is no other one.
pub data Ended (n : ℕ) : ℕ → List Token → Type 0 where
  finish : {start : ℕ} → Ended n start (end_token n ∷ [])
  follow :
      {start : ℕ} {t : Token} {ts : List Token}
      → start ≤ t.position
      → t.position < n
      → is_end t.kind ≡ false
      → Ended n (suc t.position) ts
      → Ended n start (t ∷ ts)

-- What the loop gives from a position on: tokens in order, or an error at a position of the text.
abbrev pub Lexed : ℕ → ℕ → Tokens → Type 0
Lexed n start (tokens ts) = Ended n start ts
Lexed n start (syntax_error p) = (start ≤ p) × (p < n)

abbrev LexedSome : ℕ → ℕ → Option Tokens → Type 0
LexedSome n start none = ⊥
LexedSome n start (some r) = Lexed n start r

Ended-earlier : {n a b : ℕ} {ts : List Token} → a ≤ b → Ended n b ts → Ended n a ts
Ended-earlier h finish = finish
Ended-earlier h (follow k l e rest) = follow (omega arith) l e rest

LexedSome-earlier : (n a b : ℕ) (o : Option Tokens) → a ≤ b → LexedSome n b o → LexedSome n a o
LexedSome-earlier n a b none h r = r
LexedSome-earlier n a b (some (tokens ts)) h r = Ended-earlier h r
LexedSome-earlier n a b (some (syntax_error p)) h r = (omega arith, r.1)

put_token-LexedSome :
    (n start : ℕ) (t : Token) (o : Option Tokens)
    → start ≡ t.position
    → t.position < n
    → is_end t.kind ≡ false
    → LexedSome n (suc t.position) o
    → LexedSome n start (put_token t o)
put_token-LexedSome n start t none h k e r = r
put_token-LexedSome n start t (some (tokens ts)) h k e r = follow (omega arith) k e r
put_token-LexedSome n start t (some (syntax_error p)) h k e r = (omega arith, r.1)

-- The loop at one fuel does what it should.
abbrev LoopWorks : ℕ → ℕ → Type 0
LoopWorks fuel n =
    (s : Text)
    → length s < fuel
    → length s ≤ n
    → LexedSome n (n - length s) (tokenize_from fuel n s)

abbrev after_round : ℕ → ℕ → Round → Option Tokens
after_round fuel n (skip rest) = tokenize_from fuel n rest
after_round fuel n (emit t rest) = put_token t (tokenize_from fuel n rest)
after_round fuel n (fail p) = some (syntax_error p)

after_round-LexedSome :
    (fuel n c : ℕ) (cs : Text) (r : Round)
    → length cs < fuel
    → length (c ∷ cs) ≤ n
    → LoopWorks fuel n
    → Sound (n - length (c ∷ cs)) cs r
    → LexedSome n (n - length (c ∷ cs)) (after_round fuel n r)
unfolding Sound
after_round-LexedSome fuel n c cs (skip rest) h k works sound =
    LexedSome-earlier n (n - length (c ∷ cs)) (n - length rest) (tokenize_from fuel n rest)
      (omega (arith, sound)) (works rest (omega (arith, sound)) (omega (arith, sound)))
after_round-LexedSome fuel n c cs (emit t rest) h k works sound =
    put_token-LexedSome n (n - length (c ∷ cs)) t (tokenize_from fuel n rest) (sym sound.1)
      (omega (arith, sound.1)) sound.2
      (LexedSome-earlier n (suc t.position) (n - length rest) (tokenize_from fuel n rest)
        (omega (arith, sound.1, sound.0))
        (works rest (omega (arith, sound.0)) (omega (arith, sound.0))))
after_round-LexedSome fuel n c cs (fail p) h k works sound =
    (omega (arith, sound), omega (arith, sound))

tokenize_from-LexedSome : (fuel n : ℕ) → LoopWorks fuel n
unfolding tokenize_from
tokenize_from-LexedSome zero n s h k = absurd (omega arith)
tokenize_from-LexedSome (suc fuel) n [] h k = finish
tokenize_from-LexedSome (suc fuel) n (c ∷ cs) h k =
    after_round-LexedSome fuel n c cs (lex_round (n - length (c ∷ cs)) c cs) (omega arith) k
      (tokenize_from-LexedSome fuel n) (lex_round-Sound (n - length (c ∷ cs)) c cs)

-- Tokenize ends on every text: with an error at a position of the text, or with tokens whose positions
-- grow, the last of them an end-of-input token at the text's length, and no other of that kind.
pub tokenize_total : (sql : Text) → (r : Tokens) × (tokenize sql ≡ some r) × Lexed (length sql) 0 r
unfolding tokenize
tokenize_total sql = found (tokenize_from (suc (length sql)) (length sql) sql) refl (
    LexedSome-earlier (length sql) 0 (length sql - length sql) _ (omega arith)
      (tokenize_from-LexedSome (suc (length sql)) (length sql) sql (omega arith) (omega arith)))
  where
    found :
        (o : Option Tokens)
        → tokenize_from (suc (length sql)) (length sql) sql ≡ o
        → LexedSome (length sql) 0 o
        → (r : Tokens) × (tokenize sql ≡ some r) × Lexed (length sql) 0 r
    found none e h = absurd h
    found (some r) e h = (r, e, h)
