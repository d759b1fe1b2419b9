-- ===== src/Lexer/Tests.antt =====
-- src/lexer.rs: the theorems at work on a short query.
use ccdb.Lexer.Keyword.{word_token-uppercase}
use ccdb.Lexer.Consume.{tokenize-fuel}
use ccdb.Lexer.Tokenize.{SpellsAll, spaced, visible, tokenize-spaced}
use ccdb.Prelude.{
  ℕ, List, ◌≢◌, ◌≡◌, Bool, Option, ◌∷◌, ◌⊎◌, ◌==◌, none, true, [], refl, ◌||◌, false, leb, arith,
  ◌&&◌, map,
}
use ccdb.Lexer.Tokens.{Token, codes, ident, integer, select_kw, le}
use ccdb.Lexer.Spelling.{word_spells, le_spells, integer_spells}
use ccdb.Lexer.{
  tokens, out_of_fuel, tokenize, word_token, lookup_keyword, to_ascii_uppercase, is_word_char,
  is_word_start, is_ascii_alphabetic, is_ascii_digit, digits_value,
}

abbrev blank : ℕ → Bool
blank c = (c == 32) || (leb 9 c && leb c 13)

abbrev no_doubles : List ℕ → Option ℕ
no_doubles s = none

visible_is_not_blank : (c : ℕ) → visible c ≡ true → blank c ≡ false
visible_is_not_blank c h = ground (arith, h)

abbrev texts : List (List ℕ)
texts = codes "select" ∷ codes "a" ∷ codes "<=" ∷ codes "10" ∷ []

abbrev query : List Token
query = select_kw ∷ ident (codes "a") ∷ le ∷ integer 10 ∷ []

texts-SpellsAll : SpellsAll no_doubles texts query
unfolding word_token lookup_keyword to_ascii_uppercase is_word_char is_word_start
    is_ascii_alphabetic is_ascii_digit digits_value
texts-SpellsAll = (
  word_spells _ _ refl (refl, (refl, (refl, (refl, (refl, tt))))),
  (word_spells _ _ refl tt, (le_spells, (integer_spells _ _ refl (refl, tt) (omega arith), tt))),
)

tokenize-spaced_example : tokenize blank no_doubles (spaced texts) ≡ tokens query
tokenize-spaced_example =
    tokenize-spaced blank no_doubles refl visible_is_not_blank texts query texts-SpellsAll

tokenize-fuel_example : tokenize blank no_doubles (codes "a<>1") ≢ out_of_fuel
tokenize-fuel_example = tokenize-fuel blank no_doubles (codes "a<>1")

same_upper : map to_ascii_uppercase (codes "Select") ≡ map to_ascii_uppercase (codes "SELECT")
unfolding to_ascii_uppercase
same_upper = refl

select_words :
    (word_token (codes "Select") ≡ word_token (codes "SELECT"))
    ⊎ ((word_token (codes "Select") ≡ ident (codes "Select"))
        × (word_token (codes "SELECT") ≡ ident (codes "SELECT")))
select_words = word_token-uppercase (codes "Select") (codes "SELECT") same_upper
