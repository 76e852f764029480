-- ===== src/Lexer/Ends.antt =====
-- The loop of `tokenize` and the two passes over a string (src/lexer.c).
use inventixdb.Base.{
  ℕ, zero, suc, ◌<◌, ◌≤◌, ◌≡◌, refl, sym, ap, ◌∙◌, inl, inr, Bool, true, false, ◌||◌, List, [], ◌∷◌,
  ◌++◌, append_assoc, Option, none, some, Option-cases, arith, Bytes, Bool-cases, ◌==◌,
  if◌then◌else◌, length, length-append, All,
}
use inventixdb.Lexer.{
  Token, Pass, check_keyword, first_keyword, same_word, find_symbol, symbols, is_space, is_digit,
  starts_word, in_word, in_number, span, string_length, read_string, number_token, word_token,
  lex_text, lex_pass, lex_from, tokenize, one_token, has_dot,
}
use inventixdb.Lexer.TokenType.{LexerTokenType, eof, float_literal, int_literal}
use inventixdb.Lexer.Keywords.{keywords_first, keywords_second}

-- The buffer of a string, sized by the first pass, is filled exactly by the second.
pub string_length_lem : (q : ℕ) (bs : Bytes) → string_length q bs ≡ length (read_string q bs).0
unfolding string_length read_string
string_length_lem q [] = refl
string_length_lem q (c ∷ []) = elim (Bool-cases (c == q)) [
  | inl closed ↦ rw (closed) refl
  | inr more ↦ rw (more) refl
]
string_length_lem q (c ∷ d ∷ bs) = elim (Bool-cases (c == q)) [
  | inl closed ↦ rw (closed) refl
  | inr more ↦ elim (Bool-cases (c == 92)) [
    | inl backslash ↦ rw (more, backslash) (ap suc (string_length_lem q bs))
    | inr plain ↦ rw (more, plain) (ap suc (string_length_lem q (d ∷ bs)))
  ]
]

length-read_string : (q : ℕ) (bs : Bytes) → length (read_string q bs).1 ≤ length bs
unfolding read_string
length-read_string q [] = omega arith
length-read_string q (c ∷ []) = elim (Bool-cases (c == q)) [
  | inl closed ↦ rw (closed) (omega arith)
  | inr more ↦ rw (more) (omega arith)
]
length-read_string q (c ∷ d ∷ bs) = elim (Bool-cases (c == q)) [
  | inl closed ↦ rw (closed) (omega arith)
  | inr more ↦ elim (Bool-cases (c == 92)) [
    | inl backslash ↦ rw (more, backslash) (omega (arith, length-read_string q bs))
    | inr plain ↦ rw (more, plain) (omega (arith, length-read_string q (d ∷ bs)))
  ]
]

length-span : (p : ℕ → Bool) (bs : Bytes) → length (span p bs).1 ≤ length bs
unfolding span
length-span p [] = omega arith
length-span p (c ∷ bs) = elim (Bool-cases (p c)) [
  | inl inside ↦ rw (inside) (omega (arith, length-span p bs))
  | inr outside ↦ rw (outside) (omega arith)
]

span_takes :
    (p : ℕ → Bool) (c : ℕ) (bs : Bytes) → p c ≡ true → length (span p (c ∷ bs)).1 ≤ length bs
unfolding span
span_takes p c bs h = rw (h) (length-span p bs)

abbrev pub is_eof : LexerTokenType → Bool
is_eof eof = true
is_eof other = false

-- A pass adds at most one token, no TOKEN_EOF, and leaves no more than the input behind the character.
record Advances (bs : Bytes) (p : Pass) : Type 0 where
  pub few : length p.tokens ≤ 1
  pub no_end : All (λ t. is_eof t.type ≡ false) p.tokens
  pub rest : length p.rest ≤ length bs

advance_one :
    (bs : Bytes) (type : LexerTokenType) (v : Option Bytes) (line : ℕ) (rest : Bytes)
    → is_eof type ≡ false
    → length rest ≤ length bs
    → Advances bs (one_token type v line rest)
advance_one bs type v line rest e h = record { few = omega arith; no_end = (e, tt); rest = h }

unfoldable none_eof {ℓ} : {A : Type ℓ} → List (A × LexerTokenType) → Bool
none_eof [] = true
none_eof ((w, type) ∷ more) = if is_eof type then false else none_eof more

first_keyword_lem :
    (ks : List (Bytes × LexerTokenType)) (str : Bytes)
    → none_eof ks ≡ true
    → is_eof (first_keyword ks str) ≡ false
unfolding first_keyword none_eof
first_keyword_lem [] str h = refl
first_keyword_lem ((w, type) ∷ more) str h = elim (Bool-cases (is_eof type)) [
  | inl end ↦ absurd (cc (sym h ∙ ap (λ b. if b then false else none_eof more) end))
  | inr other ↦
      let later : none_eof more ≡ true =
        ap (λ b. if b then false else none_eof more) (sym other) ∙ h in
      elim (Bool-cases (same_word str w)) [
        | inl here ↦ rw (here) other
        | inr past ↦ rw (past) (first_keyword_lem more str later)
      ]
]

check_keyword_lem : (str : Bytes) → is_eof (check_keyword str) ≡ false
unfolding check_keyword none_eof
check_keyword_lem str = first_keyword_lem (keywords_first ++ keywords_second) str refl

number_lem :
    (bs : Bytes) (line : ℕ) (r : Bytes × Bytes)
    → length r.1 ≤ length bs
    → Advances bs (number_token line r)
unfolding number_token
number_lem bs line (num, rest) h = elim (Bool-cases (has_dot num)) [
  | inl float ↦ rw (float) (advance_one bs float_literal _ line rest refl h)
  | inr int ↦ rw (int) (advance_one bs int_literal _ line rest refl h)
]

word_lem :
    (bs : Bytes) (line : ℕ) (r : Bytes × Bytes)
    → length r.1 ≤ length bs
    → Advances bs (word_token line r)
unfolding word_token
word_lem bs line (word, rest) h =
    advance_one bs (check_keyword word) _ line rest (check_keyword_lem word) h

text_lem : (line c : ℕ) (bs : Bytes) → Advances bs (lex_text line c bs)
unfolding lex_text
text_lem line c bs = elim (Bool-cases ((c == 34) || (c == 39))) [
  | inl quote ↦
      rw (quote) (advance_one bs LexerTokenType.string _ line _ refl (length-read_string c bs))
  | inr no_quote ↦ elim (Bool-cases (is_digit c)) [
    | inl digit ↦
        rw (no_quote, digit)
          (number_lem bs line (span in_number (c ∷ bs))
            (span_takes in_number c bs (unfold in_number in rw (digit) refl)))
    | inr no_digit ↦ elim (Bool-cases (starts_word c)) [
      | inl word ↦
          rw (no_quote, no_digit, word)
            (word_lem bs line (span in_word (c ∷ bs))
              (span_takes in_word c bs (unfold in_word in rw (word) refl)))
      | inr unknown ↦
          rw (no_quote, no_digit, unknown)
            (record { few = omega arith; no_end = tt; rest = omega arith })
    ]
  ]
]

none_eof_lem :
    (c : ℕ) (s : List (ℕ × LexerTokenType)) (type : LexerTokenType)
    → none_eof s ≡ true
    → find_symbol s c ≡ some type
    → is_eof type ≡ false
unfolding find_symbol none_eof
none_eof_lem c [] type a h = absurd (cc h)
none_eof_lem c ((d, t) ∷ more) type a h = elim (Bool-cases (is_eof t)) [
  | inl end ↦ absurd (cc (sym a ∙ ap (λ b. if b then false else none_eof more) end))
  | inr other ↦
      let later : none_eof more ≡ true =
        ap (λ b. if b then false else none_eof more) (sym other) ∙ a in
      elim (Bool-cases (c == d)) [
        | inl here ↦
            let found : some t ≡ some type =
              ap (λ b. if b then some t else find_symbol more c) (sym here) ∙ h in
            ap (λ o. elim o [ none ↦ false | some x ↦ is_eof x ]) (sym found) ∙ other
        | inr past ↦
            none_eof_lem c more type later
              (ap (λ b. if b then some t else find_symbol more c) (sym past) ∙ h)
      ]
]

pass_lem : (line c : ℕ) (bs : Bytes) → Advances bs (lex_pass line c bs)
unfolding lex_pass
pass_lem line c bs = elim (Bool-cases (is_space c)) [
  | inl blank ↦ rw (blank) (record { few = omega arith; no_end = tt; rest = omega arith })
  | inr visible ↦ elim (Option-cases (find_symbol symbols c)) [
    | inl no_symbol ↦ rw (visible, no_symbol) (text_lem line c bs)
    | inr (type, is_symbol) ↦
        rw (visible, is_symbol)
          (advance_one bs type _ line bs
            (none_eof_lem c symbols type (unfold none_eof in refl) is_symbol) (omega arith))
  ]
]

-- Tokens that end with TOKEN_EOF, have no other one before, and at most `n` before
pub record EndsOnce (n : ℕ) (ts : List Token) : Type 0 where
  pub body : List Token
  pub line : ℕ
  pub shape : ts ≡ body ++ (record { type = eof; value = none; line = line }) ∷ []
  pub no_end : All (λ t. is_eof t.type ≡ false) body
  pub few : length body ≤ n

All-++ :
    (xs ys : List Token)
    → All (λ t. is_eof t.type ≡ false) xs
    → All (λ t. is_eof t.type ≡ false) ys
    → All (λ t. is_eof t.type ≡ false) (xs ++ ys)
All-++ [] ys a b = b
All-++ (x ∷ xs) ys a b = (a.0, All-++ xs ys a.1 b)

lex_from_lem :
    (fuel line : ℕ) (bs : Bytes) → length bs < fuel → EndsOnce (length bs) (lex_from fuel line bs)
unfolding lex_from
lex_from_lem zero line bs h = absurd (omega arith)
lex_from_lem (suc fuel) line [] h = record {
  body = [];
  line = line;
  shape = refl;
  no_end = tt;
  few = omega arith;
}
lex_from_lem (suc fuel) line (c ∷ bs) h =
    let p = lex_pass line c bs in
    let a = pass_lem line c bs in
    let r = lex_from_lem fuel p.line p.rest (omega (arith, a.rest)) in
    record {
      body = p.tokens ++ r.body;
      line = r.line;
      shape = ap (λ ts. p.tokens ++ ts) r.shape ∙ sym (append_assoc p.tokens r.body _);
      no_end = All-++ p.tokens r.body a.no_end r.no_end;
      few = omega (arith, length-append p.tokens r.body, a.few, a.rest, r.few);
    }

-- `tokenize` ends on every input: its last token is TOKEN_EOF, no token before it is, and there is at most
-- one token before it for each character.
pub tokenize-EndsOnce : (input : Bytes) → EndsOnce (length input) (tokenize input)
unfolding tokenize
tokenize-EndsOnce input = lex_from_lem (suc (length input)) 1 input (omega arith)
