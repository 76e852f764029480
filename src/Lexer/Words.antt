-- ===== src/Lexer/Words.antt =====
-- Words, numbers, signs and strings written with blanks between them and read by `tokenize`
-- (src/lexer.c).
use inventixdb.Base.{
  ℕ, zero, suc, ◌<◌, ◌≡◌, refl, ap, ◌∙◌, inl, inr, Bool, true, false, ◌||◌, List, [], ◌∷◌, ◌++◌,
  map, Option, none, some, arith, Bytes, Bool-cases, ◌==◌, if◌then◌else◌, length, length-append,
  All,
}
use inventixdb.Lexer.{
  Token, Pass, check_keyword, find_symbol, symbols, is_space, is_digit, is_alpha, starts_word,
  in_word, in_number, span, escaped, read_string, number_token, word_token, lex_text, lex_pass,
  lex_from, tokenize, has_dot, is_identifier,
}
use inventixdb.Lexer.TokenType.{LexerTokenType, eof, string, float_literal, int_literal}

-- What stands between two blanks
pub data Lexeme : Type 0 where
  word : ℕ → Bytes → Lexeme
  number : ℕ → Bytes → Lexeme
  sign : ℕ → LexerTokenType → Lexeme
  quoted : Bytes → Lexeme

abbrev pub IsLexeme : Lexeme → Type 0
IsLexeme (word c cs) = (starts_word c ≡ true) × All (λ d. in_word d ≡ true) cs
IsLexeme (number c cs) = (is_digit c ≡ true) × All (λ d. in_number d ≡ true) cs
IsLexeme (sign c type) = (is_space c ≡ false) × (find_symbol symbols c ≡ some type)
IsLexeme (quoted s) = Unit

-- A backslash before quotes and backslashes
unfoldable pub escape : Bytes → Bytes
escape [] = []
escape (c ∷ s) = if (c == 34) || (c == 92) then 92 ∷ c ∷ escape s else c ∷ escape s

-- A lexeme with the blank behind it
unfoldable pub write : Lexeme → Bytes → Bytes
write (word c cs) rest = c ∷ (cs ++ 32 ∷ rest)
write (number c cs) rest = c ∷ (cs ++ 32 ∷ rest)
write (sign c type) rest = c ∷ 32 ∷ rest
write (quoted s) rest = 34 ∷ (escape s ++ 34 ∷ 32 ∷ rest)

unfoldable pub write_all : List Lexeme → Bytes
write_all [] = []
write_all (x ∷ xs) = write x (write_all xs)

abbrev pub token : LexerTokenType → Option Bytes → Token
token type value = record { type = type; value = value; line = 1 }

-- A keyword has no value, an identifier its spelling.
unfoldable pub token_of : Lexeme → Token
token_of (word c cs) =
    token (check_keyword (c ∷ cs))
      (if is_identifier (check_keyword (c ∷ cs)) then some (c ∷ cs) else none)
token_of (number c cs) =
    token (if has_dot (c ∷ cs) then float_literal else int_literal) (some (c ∷ cs))
token_of (sign c type) = token type (some (c ∷ []))
token_of (quoted s) = token string (some s)

span_lem :
    (p : ℕ → Bool) (cs : Bytes) (d : ℕ) (rest : Bytes)
    → All (λ c. p c ≡ true) cs
    → p d ≡ false
    → span p (cs ++ d ∷ rest) ≡ (cs, d ∷ rest)
unfolding span
span_lem p [] d rest a h = rw (h) refl
span_lem p (c ∷ cs) d rest a h = rw (a.0, span_lem p cs d rest a.1 h) refl

read_string_plain :
    (c : ℕ) (bs : Bytes)
    → ((c == 34) || (c == 92)) ≡ false
    → 0 < length bs
    → read_string 34 (c ∷ bs) ≡ (c ∷ (read_string 34 bs).0, (read_string 34 bs).1)
unfolding read_string
read_string_plain c [] h k = absurd (omega arith)
read_string_plain c (d ∷ bs) h k =
    let no_quote : (c == 34) ≡ false = ground arith in
    let no_backslash : (c == 92) ≡ false = ground arith in rw (no_quote, no_backslash) refl

escaped_lem : (c : ℕ) → ((c == 34) || (c == 92)) ≡ true → escaped c ≡ c
unfolding escaped
escaped_lem c h = ground arith

read_string_lem :
    (s : Bytes) (d : ℕ) (rest : Bytes) → read_string 34 (escape s ++ 34 ∷ d ∷ rest) ≡ (s, d ∷ rest)
unfolding read_string escape
read_string_lem [] d rest = refl
read_string_lem (c ∷ s) d rest = elim (Bool-cases ((c == 34) || (c == 92))) [
  | inl special ↦ rw (special, read_string_lem s d rest, escaped_lem c special) refl
  | inr plain ↦
      let more : 0 < length (escape s ++ 34 ∷ d ∷ rest) =
        omega (arith, length-append (escape s) (34 ∷ d ∷ rest)) in
      rw (plain) (
        read_string_plain c (escape s ++ 34 ∷ d ∷ rest) plain more
        ∙ ap (λ r. (c ∷ r.0, r.1)) (read_string_lem s d rest))
]

start_lem :
    (c : ℕ)
    → starts_word c ≡ true
    → (is_space c ≡ false) × (((c == 34) || (c == 39)) ≡ false) × (is_digit c ≡ false)
unfolding is_space starts_word is_digit is_alpha
start_lem c h = ground arith

start_no_symbol : (c : ℕ) → starts_word c ≡ true → find_symbol symbols c ≡ none
unfolding find_symbol starts_word is_alpha
start_no_symbol c h = ground arith

digit_lem :
    (c : ℕ)
    → is_digit c ≡ true
    → (is_space c ≡ false) × (((c == 34) || (c == 39)) ≡ false) × (find_symbol symbols c ≡ none)
unfolding is_space is_digit find_symbol
digit_lem c h = ground arith

abbrev read_as : Lexeme → Bytes → Pass
read_as x rest = record { tokens = token_of x ∷ []; line = 1; rest = 32 ∷ rest }

word_pass :
    (c : ℕ) (cs rest : Bytes)
    → IsLexeme (word c cs)
    → lex_pass 1 c (cs ++ 32 ∷ rest) ≡ read_as (word c cs) rest
unfolding lex_pass lex_text word_token token_of
word_pass c cs rest ok =
    let s = start_lem c ok.0 in
    let first : in_word c ≡ true = unfold in_word in rw (ok.0) refl in
    let whole : span in_word (c ∷ (cs ++ 32 ∷ rest)) ≡ (c ∷ cs, 32 ∷ rest) =
      span_lem in_word (c ∷ cs) 32 rest (first, ok.1)
        (unfold in_word starts_word is_alpha is_digit in refl) in
    rw (s.0, start_no_symbol c ok.0, lex_text, s.1, s.2, ok.0, whole) refl

number_pass :
    (c : ℕ) (cs rest : Bytes)
    → IsLexeme (number c cs)
    → lex_pass 1 c (cs ++ 32 ∷ rest) ≡ read_as (number c cs) rest
unfolding lex_pass lex_text number_token token_of
number_pass c cs rest ok =
    let s = digit_lem c ok.0 in
    let first : in_number c ≡ true = unfold in_number in rw (ok.0) refl in
    let whole : span in_number (c ∷ (cs ++ 32 ∷ rest)) ≡ (c ∷ cs, 32 ∷ rest) =
      span_lem in_number (c ∷ cs) 32 rest (first, ok.1) (unfold in_number is_digit in refl) in
    rw (s.0, s.2, lex_text, s.1, ok.0, whole) refl

sign_pass :
    (c : ℕ) (type : LexerTokenType) (rest : Bytes)
    → IsLexeme (sign c type)
    → lex_pass 1 c (32 ∷ rest) ≡ read_as (sign c type) rest
unfolding lex_pass token_of
sign_pass c type rest ok = rw (ok.0, ok.1) refl

quoted_pass :
    (s rest : Bytes) → lex_pass 1 34 (escape s ++ 34 ∷ 32 ∷ rest) ≡ read_as (quoted s) rest
unfolding lex_pass lex_text is_space find_symbol token_of
quoted_pass s rest = rw (read_string_lem s 32 rest) refl

-- The pass over a lexeme
abbrev Reads : Lexeme → Bytes → Type 0
Reads x rest =
    (fuel : ℕ)
    → length (write x rest) < fuel
    → (left : ℕ) × ((length rest < left)
        × (lex_from fuel 1 (write x rest) ≡ token_of x ∷ lex_from left 1 rest))

pass_reads :
    (fuel c : ℕ) (bs rest : Bytes) (t : Token)
    → length bs < fuel
    → length rest < length bs
    → (lex_pass 1 c bs ≡ record { tokens = t ∷ []; line = 1; rest = 32 ∷ rest })
    → (left : ℕ) × ((length rest < left)
        × (lex_from (suc fuel) 1 (c ∷ bs) ≡ t ∷ lex_from left 1 rest))
unfolding lex_from
pass_reads zero c bs rest t h k e = absurd (omega arith)
pass_reads (suc left) c bs rest t h k e = (
  left,
  (
    omega arith,
    ap (λ p. p.tokens ++ lex_from (suc left) p.line p.rest) e ∙ ap (λ ts. t ∷ ts) blank,
  ),
)
  where
    blank : lex_from (suc left) 1 (32 ∷ rest) ≡ lex_from left 1 rest
    blank = unfold lex_from lex_pass is_space in refl

lexeme-Reads : (x : Lexeme) (rest : Bytes) → IsLexeme x → Reads x rest
unfolding write token_of
lexeme-Reads x rest ok zero h = absurd (omega (arith, h))
lexeme-Reads (word c cs) rest ok (suc fuel) h =
    pass_reads fuel c (cs ++ 32 ∷ rest) rest (token_of (word c cs)) (omega (arith, h))
      (omega (arith, length-append cs (32 ∷ rest))) (word_pass c cs rest ok)
lexeme-Reads (number c cs) rest ok (suc fuel) h =
    pass_reads fuel c (cs ++ 32 ∷ rest) rest (token_of (number c cs)) (omega (arith, h))
      (omega (arith, length-append cs (32 ∷ rest))) (number_pass c cs rest ok)
lexeme-Reads (sign c type) rest ok (suc fuel) h =
    pass_reads fuel c (32 ∷ rest) rest (token_of (sign c type)) (omega (arith, h)) (omega arith)
      (sign_pass c type rest ok)
lexeme-Reads (quoted s) rest ok (suc fuel) h =
    pass_reads fuel 34 (escape s ++ 34 ∷ 32 ∷ rest) rest (token_of (quoted s)) (omega (arith, h))
      (omega (arith, length-append (escape s) (34 ∷ 32 ∷ rest))) (quoted_pass s rest)

write_all_lem :
    (xs : List Lexeme) (fuel : ℕ)
    → All IsLexeme xs
    → length (write_all xs) < fuel
    → lex_from fuel 1 (write_all xs) ≡ map token_of xs ++ token eof none ∷ []
unfolding write_all lex_from
write_all_lem xs zero ok h = absurd (omega arith)
write_all_lem [] (suc fuel) ok h = refl
write_all_lem (x ∷ xs) (suc fuel) ok h =
    let r = lexeme-Reads x (write_all xs) ok.0 (suc fuel) h in
    r.1.1 ∙ ap (λ ts. token_of x ∷ ts) (write_all_lem xs r.0 ok.1 r.1.0)

-- Words, numbers, signs and strings written with a blank behind each are read back in order, all on the
-- first line, with TOKEN_EOF at the end: a word as its keyword or as an identifier with its spelling, a
-- number as a literal of its digits, a string as its bytes when quotes and backslashes in it were written
-- with a backslash before them.
pub tokenize-write_all :
    (xs : List Lexeme)
    → All IsLexeme xs
    → tokenize (write_all xs) ≡ map token_of xs ++ token eof none ∷ []
unfolding tokenize
tokenize-write_all xs ok = write_all_lem xs (suc (length (write_all xs))) ok (omega arith)
