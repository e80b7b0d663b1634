-- ===== src/Sql/Lexer/Rounds.antt =====
-- lexer.cpp: a round of the loop leaves less of the text, and makes no end-of-input token.
use flintdb.Prelude.{
  ℕ, ◌≤◌, ◌≡◌, refl, Bool, true, false, ◌&&◌, ◌||◌, Option, none, some, List, [], ◌∷◌, Text,
  text_eq, length, ◌==◌, if◌then◌else◌, Bool-cases, inl, inr, arith, All,
}
use flintdb.Prelude.Int.{ℤ}
use flintdb.Sql.Lexer.{
  TokenType, keyword_table, is_digit, is_blank, is_ident_start, is_ident_cont, to_upper,
  find_keyword, take_while, scan_string, stoll, put, quote, Round, skip, emit, fail, simple,
  lex_word, lex_number, lex_string, next_is, drop_one, is_equals, punctuation, lex_comparator,
  lex_symbol, lex_round,
}

abbrev pub is_end : TokenType → Bool
is_end TokenType.end_of_input = true
is_end _ = false

-- A round that is sound at a position: what is left is no longer than what it was given.
unfoldable pub Sound : ℕ → Text → Round → Type 0
Sound at cs (skip rest) = length rest ≤ length cs
Sound at cs (emit t rest) = (length rest ≤ length cs) × (t.position ≡ at) × (is_end t.kind ≡ false)
Sound at cs (fail p) = p ≡ at

skip-Sound : (at : ℕ) (cs : Text) → Sound at cs (skip cs)
unfolding Sound
skip-Sound at cs = omega arith

fail-Sound : (at : ℕ) (cs : Text) → Sound at cs (fail at)
unfolding Sound
fail-Sound at cs = refl

emit-Sound :
    (at : ℕ) (cs : Text) (kind : TokenType) (s : Text) (v : ℤ) (rest : Text)
    → length rest ≤ length cs
    → is_end kind ≡ false
    → Sound at cs (emit (record { kind = kind; spelling = s; int_value = v; position = at }) rest)
unfolding Sound
emit-Sound at cs kind s v rest h e = (h, refl, e)

-- A conditional has what both branches have.
if_holds {ℓ κ} :
    {A : Type ℓ} (P : A → Type κ) (b : Bool) {x y : A} → P x → P y → P (if b then x else y)
if_holds P true h k = h
if_holds P false h k = k

length-take_while : (p : ℕ → Bool) (s : Text) → length (take_while p s).1 ≤ length s
unfolding take_while
length-take_while p [] = omega arith
length-take_while p (c ∷ cs) = ground (arith, length-take_while p cs)

abbrev Shorter : ℕ → Option (Text × Text) → Type 0
Shorter n none = Unit
Shorter n (some r) = length r.1 ≤ n

put-Shorter :
    (n m : ℕ) (c : ℕ) (o : Option (Text × Text)) → n ≤ m → Shorter n o → Shorter m (put c o)
put-Shorter n m c none h s = tt
put-Shorter n m c (some (value, rest)) h s = omega arith

scan_string-Shorter : (s : Text) → Shorter (length s) (scan_string s)
unfolding scan_string
scan_string-Shorter [] = tt
scan_string-Shorter (c ∷ []) = elim (Bool-cases (c == quote)) [
  | inl e ↦ rw (scan_string, e) (omega arith)
  | inr e ↦ rw (scan_string, e) tt
]
scan_string-Shorter (c ∷ d ∷ ds) = elim (Bool-cases (c == quote)) [
  | inr e ↦
      rw (scan_string, e)
        (put-Shorter _ _ c (scan_string (d ∷ ds)) (omega arith) (scan_string-Shorter (d ∷ ds)))
  | inl e ↦ elim (Bool-cases (d == quote)) [
    | inr f ↦ rw (scan_string, e, f) (omega arith)
    | inl f ↦
        rw (scan_string, e, f)
          (put-Shorter _ _ quote (scan_string ds) (omega arith) (scan_string-Shorter ds))
  ]
]

keywords_not_end : All (λ entry. is_end entry.1 ≡ false) keyword_table
unfolding keyword_table
keywords_not_end = (
  refl,
  (
    refl,
    (
      refl,
      (
        refl,
        (
          refl,
          (
            refl,
            (
              refl,
              (
                refl,
                (
                  refl,
                  (
                    refl,
                    (
                      refl,
                      (
                        refl,
                        (
                          refl,
                          (
                            refl,
                            (refl, (refl, (refl, (refl, (refl, (refl, (refl, (refl, tt)))))))),
                          ),
                        ),
                      ),
                    ),
                  ),
                ),
              ),
            ),
          ),
        ),
      ),
    ),
  ),
)

abbrev NotEnd : Option TokenType → Type 0
NotEnd none = Unit
NotEnd (some kind) = is_end kind ≡ false

find_keyword-NotEnd :
    (table : List (Text × TokenType)) (word : Text)
    → All (λ entry. is_end entry.1 ≡ false) table
    → NotEnd (find_keyword table word)
unfolding find_keyword
find_keyword-NotEnd [] word h = tt
find_keyword-NotEnd (entry ∷ rest) word h = elim (Bool-cases (text_eq entry.0 word)) [
  | inl e ↦ rw (find_keyword, e) h.0
  | inr e ↦ rw (find_keyword, e) (find_keyword-NotEnd rest word h.1)
]

punctuation-NotEnd : (c : ℕ) → NotEnd (punctuation c)
unfolding punctuation
punctuation-NotEnd c = if_holds NotEnd (c == b'(') refl (
    if_holds NotEnd (c == b')') refl (
      if_holds NotEnd (c == b',') refl (
        if_holds NotEnd (c == b'.') refl
          (if_holds NotEnd (c == b'*') refl (if_holds NotEnd (c == b';') refl tt)))))

lex_word-Sound : (at c : ℕ) (cs : Text) → Sound at cs (lex_word at c cs)
unfolding lex_word
lex_word-Sound at c cs =
    word (find_keyword keyword_table (to_upper (c ∷ (take_while is_ident_cont cs).0)))
      (find_keyword-NotEnd keyword_table _ keywords_not_end)
  where
    word :
        (o : Option TokenType)
        → NotEnd o
        → Sound at cs (elim o [
          | none ↦
              emit
                (simple TokenType.identifier (c ∷ (take_while is_ident_cont cs).0) at)
                (take_while is_ident_cont cs).1
          | some kind ↦
              emit
                (simple kind (c ∷ (take_while is_ident_cont cs).0) at)
                (take_while is_ident_cont cs).1
        ])
    word none h = emit-Sound at cs _ _ _ _ (length-take_while is_ident_cont cs) refl
    word (some kind) h = emit-Sound at cs kind _ _ _ (length-take_while is_ident_cont cs) h

lex_number-Sound : (at c : ℕ) (cs : Text) → Sound at cs (lex_number at c cs)
unfolding lex_number
lex_number-Sound at c cs = number (
    stoll (c == b'-')
      (if c == b'-' then (take_while is_digit cs).0 else c ∷ (take_while is_digit cs).0))
  where
    number :
        (o : Option ℤ)
        → Sound at cs (elim o [
          | none ↦ fail at
          | some v ↦
              emit
                (record {
                  kind = TokenType.integer_literal;
                  spelling = c ∷ (take_while is_digit cs).0;
                  int_value = v;
                  position = at;
                })
                (take_while is_digit cs).1
        ])
    number none = fail-Sound at cs
    number (some v) = emit-Sound at cs _ _ v _ (length-take_while is_digit cs) refl

lex_string-Sound : (at : ℕ) (cs : Text) → Sound at cs (lex_string at cs)
unfolding lex_string
lex_string-Sound at cs = closed (scan_string cs) (scan_string-Shorter cs)
  where
    closed :
        (o : Option (Text × Text))
        → Shorter (length cs) o
        → Sound at cs (elim o [
          | none ↦ fail at
          | some (value, rest) ↦ emit (simple TokenType.string_literal value at) rest
        ])
    closed none h = fail-Sound at cs
    closed (some (value, rest)) h = emit-Sound at cs _ value _ rest h refl

length-drop_one : (cs : Text) → length (drop_one cs) ≤ length cs
length-drop_one [] = omega arith
length-drop_one (d ∷ ds) = omega arith

lex_comparator-Sound : (at c : ℕ) (cs : Text) → Sound at cs (lex_comparator at c cs)
unfolding lex_comparator
lex_comparator-Sound at c cs =
    if_holds (Sound at cs) (is_equals c) (emit-Sound at cs _ _ _ _ (omega arith) refl) (
      if_holds (Sound at cs) (c == b'!')
        (if_holds (Sound at cs) (next_is is_equals cs) two (fail-Sound at cs))
        (if_holds (Sound at cs) (c == b'<')
          (if_holds (Sound at cs) (next_is is_equals cs) two_lt
            (emit-Sound at cs _ _ _ _ (omega arith) refl))
          (if_holds (Sound at cs) (c == b'>')
            (if_holds (Sound at cs) (next_is is_equals cs) two_gt
              (emit-Sound at cs _ _ _ _ (omega arith) refl))
            (fail-Sound at cs))))
  where
    two : Sound at cs (emit (simple TokenType.neq (c ∷ b'=' ∷ []) at) (drop_one cs))
    two = emit-Sound at cs _ _ _ (drop_one cs) (length-drop_one cs) refl

    two_lt : Sound at cs (emit (simple TokenType.le (c ∷ b'=' ∷ []) at) (drop_one cs))
    two_lt = emit-Sound at cs _ _ _ (drop_one cs) (length-drop_one cs) refl

    two_gt : Sound at cs (emit (simple TokenType.ge (c ∷ b'=' ∷ []) at) (drop_one cs))
    two_gt = emit-Sound at cs _ _ _ (drop_one cs) (length-drop_one cs) refl

lex_symbol-Sound : (at c : ℕ) (cs : Text) → Sound at cs (lex_symbol at c cs)
unfolding lex_symbol
lex_symbol-Sound at c cs = single (punctuation c) (punctuation-NotEnd c)
  where
    single :
        (o : Option TokenType)
        → NotEnd o
        → Sound at cs (elim o [
          | none ↦ lex_comparator at c cs
          | some kind ↦ emit (simple kind (c ∷ []) at) cs
        ])
    single none h = lex_comparator-Sound at c cs
    single (some kind) h = emit-Sound at cs kind _ _ cs (omega arith) h

pub lex_round-Sound : (at c : ℕ) (cs : Text) → Sound at cs (lex_round at c cs)
unfolding lex_round
lex_round-Sound at c cs = if_holds (Sound at cs) (is_blank c) (skip-Sound at cs) (
    if_holds (Sound at cs) (is_ident_start c) (lex_word-Sound at c cs) (
      if_holds (Sound at cs) (is_digit c || ((c == b'-') && next_is is_digit cs))
        (lex_number-Sound at c cs)
        (if_holds (Sound at cs) (c == quote) (lex_string-Sound at cs) (lex_symbol-Sound at c cs))))
