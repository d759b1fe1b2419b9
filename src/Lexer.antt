-- ===== src/Lexer.antt =====
-- src/lexer.rs: the tokens of SQL text, which is the list of its code points; the lexer's state is what
-- follows `pos`. An error is `none`.
mod Tests
pub mod Tokens
pub mod Consume
pub mod Spelling
pub mod Tokenize
pub mod Keyword
use ccdb.Lexer.Tokens.{
  Token, keywords, param, asterisk, lt, gt, string, ident, comma, le, ge, float, dot, ne, integer,
  semicolon, lparen, rparen, plus, minus, slash, eq,
}
use ccdb.Prelude.{
  ℕ, zero, suc, ◌+◌, ◌-◌, ◌*◌, ◌^◌, Bool, true, false, ◌&&◌, ◌||◌, not, List, [], ◌∷◌, ◌++◌, Option,
  some, none, map, ltb, leb, ◌==◌, if◌then◌else◌, length, drop,
}

unfoldable pub is_ascii_digit : ℕ → Bool
is_ascii_digit c = leb b'0' c && leb c b'9'

unfoldable pub is_ascii_alphabetic : ℕ → Bool
is_ascii_alphabetic c = (leb b'a' c && leb c b'z') || (leb b'A' c && leb c b'Z')

-- The characters that start a word, and those that go on with it
unfoldable pub is_word_start : ℕ → Bool
is_word_start c = is_ascii_alphabetic c || (c == b'_')

unfoldable pub is_word_char : ℕ → Bool
is_word_char c = is_word_start c || is_ascii_digit c

unfoldable pub to_ascii_uppercase : ℕ → ℕ
to_ascii_uppercase c = if leb b'a' c && leb c b'z' then c - 32 else c

-- A loop that bumps while the next character passes a test: what was read, and what follows.
unfoldable pub bump_while : (ℕ → Bool) → List ℕ → List ℕ × List ℕ
bump_while test [] = ([], [])
bump_while test (c ∷ cs) =
    let (s, rest) = bump_while test cs in if test c then (c ∷ s, rest) else ([], c ∷ cs)

-- The number that decimal digits write, and `s.parse()` into a type of numbers below `bound`.
unfoldable pub digits_value : ℕ → List ℕ → ℕ
digits_value n [] = n
digits_value n (c ∷ cs) = digits_value (n * 10 + (c - b'0')) cs

unfoldable pub parse_below : ℕ → List ℕ → Option ℕ
parse_below bound s = let n = digits_value 0 s in if ltb n bound then some n else none

abbrev pub same_codes : List ℕ → List ℕ → Bool
same_codes [] [] = true
same_codes [] (y ∷ ys) = false
same_codes (x ∷ xs) [] = false
same_codes (x ∷ xs) (y ∷ ys) = (x == y) && same_codes xs ys

unfoldable pub lookup_keyword : List ℕ → List (List ℕ × Token) → Option Token
lookup_keyword s [] = none
lookup_keyword s ((word, token) ∷ table) =
    if same_codes s word then some token else lookup_keyword s table

-- `read_word`, of the word that was read
unfoldable pub word_token : List ℕ → Token
word_token s = elim (lookup_keyword (map to_ascii_uppercase s) keywords) [
  | some token ↦ token
  | none ↦ ident s
]

unfoldable pub read_word : List ℕ → Token × List ℕ
read_word input = let (s, rest) = bump_while is_word_char input in (word_token s, rest)

-- The loop of `read_string`, past the opening quote.
unfoldable pub read_string : List ℕ → Option (List ℕ × List ℕ)
read_string [] = none
read_string (c ∷ cs) = elim (c == 39) [
  | true ↦ some ([], cs)
  | false ↦ elim (read_string cs) [ none ↦ none | some (s, rest) ↦ some (c ∷ s, rest) ]
]

unfoldable pub read_param : List ℕ → Option (Token × List ℕ)
read_param input =
    let (s, rest) = bump_while is_ascii_digit input in
    elim s [
      | [] ↦ none
      | d ∷ ds ↦ elim (parse_below (2 ^ 64) (d ∷ ds)) [
        | none ↦ none
        | some n ↦ some (param n, rest)
      ]
    ]

-- The tokens of one character
unfoldable pub single_token : ℕ → Option Token
single_token c =
    if c == b'*'
    then some asterisk
    else if c == b','
    then some comma
    else if c == b'.'
    then some dot
    else if c == b';'
    then some semicolon
    else if c == b'('
    then some lparen
    else if c == b')'
    then some rparen
    else if c == b'+'
    then some plus
    else if c == b'-'
    then some minus
    else if c == b'/'
    then some slash
    else if c == b'='
    then some eq
    else none

-- The arms of `<` and `>`, past that character
unfoldable pub read_less : List ℕ → Token × List ℕ
read_less [] = (lt, [])
read_less (c ∷ cs) = if c == b'=' then (le, cs) else if c == b'>' then (ne, cs) else (lt, c ∷ cs)

unfoldable pub read_greater : List ℕ → Token × List ℕ
read_greater [] = (gt, [])
read_greater (c ∷ cs) = if c == b'=' then (ge, cs) else (gt, c ∷ cs)

-- A `.` and a digit follow.
unfoldable pub fraction_follows : List ℕ → Bool
fraction_follows [] = false
fraction_follows (c ∷ []) = false
fraction_follows (c ∷ d ∷ rest) = (c == b'.') && is_ascii_digit d

pub data Lexed : Type 0 where
  tokens : List Token → Lexed
  error out_of_fuel : Lexed

-- `is_whitespace` is that of `char`.
unfoldable pub skip_ws : (ℕ → Bool) → List ℕ → List ℕ
skip_ws is_whitespace [] = []
skip_ws is_whitespace (c ∷ cs) =
    let rest = skip_ws is_whitespace cs in if is_whitespace c then rest else c ∷ cs

-- `parse_double` is the parsing of a double, which gives its bits.
module _ (parse_double : List ℕ → Option ℕ) where
  -- What `read_integer` makes of the digits and of the rest.
  unfoldable pub number_token : List ℕ → List ℕ → Option (Token × List ℕ)
  number_token s rest =
      let (fraction, after) = bump_while is_ascii_digit (drop 1 rest) in
      elim (fraction_follows rest) [
        | true ↦ elim (parse_double (s ++ b'.' ∷ fraction)) [
          | none ↦ none
          | some x ↦ some (float x, after)
        ]
        | false ↦ elim (parse_below (2 ^ 63) s) [ none ↦ none | some n ↦ some (integer n, rest) ]
      ]

  unfoldable pub read_integer : List ℕ → Option (Token × List ℕ)
  read_integer input = let (s, rest) = bump_while is_ascii_digit input in number_token s rest

  unfoldable pub next_token : List ℕ → Option (Token × List ℕ)
  next_token [] = none
  next_token (c ∷ cs) = elim (single_token c) [
    | some token ↦ some (token, cs)
    | none ↦
        if c == b'<'
        then some (read_less cs)
        else if c == b'>'
        then some (read_greater cs)
        else if c == b'$'
        then read_param cs
        else if c == 39
        then elim (read_string cs) [ none ↦ none | some (s, rest) ↦ some (string s, rest) ]
        else if is_ascii_digit c
        then read_integer (c ∷ cs)
        else if is_word_start c
        then some (read_word (c ∷ cs))
        else none
  ]

module _ (is_whitespace : ℕ → Bool) (parse_double : List ℕ → Option ℕ) where
  -- The loop of `tokenize`; each round has one fuel.
  unfoldable pub tokenize_from : ℕ → List ℕ → Lexed
  tokenize_from zero input = out_of_fuel
  tokenize_from (suc fuel) input = elim (skip_ws is_whitespace input) [
    | [] ↦ tokens []
    | c ∷ cs ↦ elim (next_token parse_double (c ∷ cs)) [
      | none ↦ error
      | some (token, rest) ↦ elim (tokenize_from fuel rest) [
        | tokens out ↦ tokens (token ∷ out)
        | error ↦ error
        | out_of_fuel ↦ out_of_fuel
      ]
    ]
  ]

  unfoldable pub tokenize : List ℕ → Lexed
  tokenize input = tokenize_from (length input + 1) input
