-- ===== src/Lexer.antt =====
-- The lexer (src/lexer.c, include/lexer.h). Characters are those of the C locale, in which no byte from
-- 128 on is in a class; `char` is a byte without NUL. The message about an unexpected character is left
-- out.
pub mod TokenType
mod Keywords
pub mod Ends
pub mod Words
mod Tests
use inventixdb.Base.{
  ℕ, zero, suc, ◌+◌, Bool, true, false, ◌&&◌, ◌||◌, List, [], ◌∷◌, ◌++◌, map, Option, none, some,
  Bytes, leb, ◌==◌, if◌then◌else◌, length, str_eq,
}
use inventixdb.Lexer.TokenType.{
  LexerTokenType, eof, identifier, string, int_literal, float_literal, lparen, rparen, comma,
  equals, gt, lt, semicolon, lbrace, rbrace, lbracket, rbracket, colon, star,
}
use inventixdb.Lexer.Keywords.{keywords_first, keywords_second}

-- `Token`
pub record Token : Type 0 where
  pub type : LexerTokenType
  pub value : Option Bytes
  pub line : ℕ

unfoldable pub is_space : ℕ → Bool
is_space c = (leb 9 c && leb c 13) || (c == 32)

unfoldable pub is_digit : ℕ → Bool
is_digit c = leb 48 c && leb c 57

unfoldable pub is_alpha : ℕ → Bool
is_alpha c = (leb 65 c && leb c 90) || (leb 97 c && leb c 122)

-- `isdigit(c) || c == '.'`
unfoldable pub in_number : ℕ → Bool
in_number c = is_digit c || (c == 46)

-- `isalpha(c) || c == '_'`
unfoldable pub starts_word : ℕ → Bool
starts_word c = is_alpha c || (c == 95)

-- `isalnum(c) || c == '_'`
unfoldable pub in_word : ℕ → Bool
in_word c = starts_word c || is_digit c

unfoldable pub to_lower : ℕ → ℕ
to_lower c = if leb 65 c && leb c 90 then c + 32 else c

-- `strcasecmp(a, b) == 0`
unfoldable pub same_word : Bytes → Bytes → Bool
same_word a b = str_eq (map to_lower a) (map to_lower b)

-- The first of the tests that succeeds
unfoldable pub first_keyword : List (Bytes × LexerTokenType) → Bytes → LexerTokenType
first_keyword [] str = identifier
first_keyword ((word, type) ∷ more) str =
    let later = first_keyword more str in if same_word str word then type else later

unfoldable pub check_keyword : Bytes → LexerTokenType
check_keyword str = first_keyword (keywords_first ++ keywords_second) str

abbrev pub symbols : List (ℕ × LexerTokenType)
symbols =
    (40, lparen)
    ∷ (41, rparen)
    ∷ (123, lbrace)
    ∷ (125, rbrace)
    ∷ (91, lbracket)
    ∷ (93, rbracket)
    ∷ (44, comma)
    ∷ (59, semicolon)
    ∷ (61, equals)
    ∷ (58, colon)
    ∷ (62, gt)
    ∷ (60, lt)
    ∷ (42, star)
    ∷ []

-- The token of a character that is one by itself
unfoldable pub find_symbol : List (ℕ × LexerTokenType) → ℕ → Option LexerTokenType
find_symbol [] c = none
find_symbol ((s, type) ∷ more) c =
    let later = find_symbol more c in if c == s then some type else later

-- The characters in front that pass a test, and the rest
unfoldable pub span : (ℕ → Bool) → Bytes → Bytes × Bytes
span p [] = ([], [])
span p (c ∷ bs) = let r = span p bs in if p c then (c ∷ r.0, r.1) else ([], c ∷ bs)

-- The character for which a backslash and `c` stand
unfoldable pub escaped : ℕ → ℕ
escaped c = if c == 110 then 10 else (if c == 116 then 9 else c)

-- The first pass over a string: its length
unfoldable pub string_length : ℕ → Bytes → ℕ
string_length q [] = 0
string_length q (c ∷ []) = if c == q then 0 else 1
string_length q (c ∷ d ∷ bs) =
    let pair = string_length q bs in
    let single = string_length q (d ∷ bs) in
    if c == q then 0 else (if c == 92 then suc pair else suc single)

-- The second pass: the string, and what follows its closing quote
unfoldable pub read_string : ℕ → Bytes → Bytes × Bytes
read_string q [] = ([], [])
read_string q (c ∷ []) = if c == q then ([], []) else (c ∷ [], [])
read_string q (c ∷ d ∷ bs) =
    let pair = read_string q bs in
    let single = read_string q (d ∷ bs) in
    if c == q
    then ([], d ∷ bs)
    else (if c == 92 then (escaped d ∷ pair.0, pair.1) else (c ∷ single.0, single.1))

-- What a pass of the loop adds, and where it leaves off
pub record Pass : Type 0 where
  pub tokens : List Token
  pub line : ℕ
  pub rest : Bytes

abbrev pub one_token : LexerTokenType → Option Bytes → ℕ → Bytes → Pass
one_token type value line rest = record {
  tokens = (record { type = type; value = value; line = line }) ∷ [];
  line = line;
  rest = rest;
}

unfoldable pub has_dot : Bytes → Bool
has_dot [] = false
has_dot (c ∷ cs) = (c == 46) || has_dot cs

abbrev pub is_identifier : LexerTokenType → Bool
is_identifier identifier = true
is_identifier other = false

unfoldable pub number_token : ℕ → Bytes × Bytes → Pass
number_token line (num, rest) =
    one_token (if has_dot num then float_literal else int_literal) (some num) line rest

unfoldable pub word_token : ℕ → Bytes × Bytes → Pass
word_token line (word, rest) =
    let type = check_keyword word in
    one_token type (if is_identifier type then some word else none) line rest

-- A pass of the loop of `tokenize` on a character that is no space and no symbol
unfoldable pub lex_text : ℕ → ℕ → Bytes → Pass
lex_text line c bs =
    if (c == 34) || (c == 39)
    then one_token string (some (read_string c bs).0) line (read_string c bs).1
    else (if is_digit c
        then number_token line (span in_number (c ∷ bs))
        else (if starts_word c
            then word_token line (span in_word (c ∷ bs))
            else record { tokens = []; line = line; rest = bs }))

unfoldable pub lex_pass : ℕ → ℕ → Bytes → Pass
lex_pass line c bs =
    if is_space c
    then record { tokens = []; line = if c == 10 then line + 1 else line; rest = bs }
    else elim (find_symbol symbols c) [
      | some type ↦ one_token type (some (c ∷ [])) line bs
      | none ↦ lex_text line c bs
    ]

-- The loop; each pass takes a character, so that fuel above the length of the input is enough.
unfoldable pub lex_from : ℕ → ℕ → Bytes → List Token
lex_from zero line bs = []
lex_from (suc fuel) line [] = record { type = eof; value = none; line = line } ∷ []
lex_from (suc fuel) line (c ∷ bs) =
    let p = lex_pass line c bs in p.tokens ++ lex_from fuel p.line p.rest

unfoldable pub tokenize : Bytes → List Token
tokenize input = lex_from (suc (length input)) 1 input
