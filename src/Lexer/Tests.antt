-- ===== src/Lexer/Tests.antt =====
-- Runs of src/lexer.c on short inputs.
use inventixdb.Base.{◌≡◌, ◌++◌, refl, map, none, [], ◌∷◌, List, Bytes, codes, str_eq}
use inventixdb.Lexer.{
  check_keyword, same_word, first_keyword, to_lower, tokenize, starts_word, in_word, is_alpha,
  is_digit, find_symbol, is_space,
}
use inventixdb.Lexer.TokenType.{kw_jahan, kw_mangwao, kw_outer, eof, star}
use inventixdb.Lexer.Ends.{EndsOnce, tokenize-EndsOnce}
use inventixdb.Lexer.Words.{
  Lexeme, word, number, sign, quoted, write_all, token_of, token, tokenize-write_all,
}

-- These words stand in the list a second time, with other tokens.
where_is_jahan : check_keyword (codes "where") ≡ kw_jahan
unfolding check_keyword first_keyword same_word to_lower str_eq
where_is_jahan = refl

laao_is_mangwao : check_keyword (codes "LAAO") ≡ kw_mangwao
unfolding check_keyword first_keyword same_word to_lower str_eq
laao_is_mangwao = refl

bahar_is_outer : check_keyword (codes "BAHAR") ≡ kw_outer
unfolding check_keyword first_keyword same_word to_lower str_eq
bahar_is_outer = refl

abbrev some_input : Bytes
some_input = codes "SELECT 'a"

tokenize-EndsOnce_example : EndsOnce 9 (tokenize some_input)
tokenize-EndsOnce_example = tokenize-EndsOnce some_input

-- `select * 7 "say \"a\""`
abbrev some_lexemes : List Lexeme
some_lexemes =
    word 115 (codes "elect") ∷ sign 42 star ∷ number 55 [] ∷ quoted (codes "say \"a\"") ∷ []

tokenize-write_all_example :
    tokenize (write_all some_lexemes) ≡ map token_of some_lexemes ++ token eof none ∷ []
unfolding starts_word in_word is_alpha is_digit find_symbol is_space
tokenize-write_all_example =
    tokenize-write_all some_lexemes
      ((refl, (refl, (refl, (refl, (refl, (refl, tt)))))), ((refl, refl), ((refl, tt), (tt, tt))))
