-- ===== src/Lexer/Spelling.antt =====
-- src/lexer.rs: what the characters of each token are, and that one token is read from them.
use mathlib.Core.List.{append_assoc}
use ccdb.Lexer.Consume.{starts_word}
use ccdb.Lexer.{
  bump_while, read_string, is_word_start, next_token, single_token, is_word_char, is_ascii_digit,
  word_token, is_ascii_alphabetic, digits_value, read_word, read_integer, number_token, parse_below,
  fraction_follows, read_param, read_less, read_greater,
}
use ccdb.Prelude.{
  ℕ, List, Bool, Option, ◌++◌, ◌∷◌, not, ◌≡◌, true, ◌==◌, false, some, [], arith, refl, ◌<◌, ◌^◌,
  ◌∙◌, ap,
}
use ccdb.Lexer.Tokens.{
  Token, codes, integer, float, string, asterisk, comma, semicolon, lparen, rparen, dot, eq, ne, lt,
  le, gt, ge, plus, minus, slash, param,
}

abbrev AllOf : (ℕ → Bool) → List ℕ → Type 0
AllOf test [] = Unit
AllOf test (c ∷ cs) = (test c ≡ true) × AllOf test cs

abbrev not_quote : ℕ → Bool
not_quote c = not (c == 39)

-- The texts of a token. A word is read as the keyword that it writes, or as an identifier.
module _ (parse_double : List ℕ → Option ℕ) where
  pub data Spells : List ℕ → Token → Type 0 where
    asterisk_spells : Spells (codes "*") asterisk
    comma_spells : Spells (codes ",") comma
    semicolon_spells : Spells (codes ";") semicolon
    lparen_spells : Spells (codes "(") lparen
    rparen_spells : Spells (codes ")") rparen
    dot_spells : Spells (codes ".") dot
    eq_spells : Spells (codes "=") eq
    ne_spells : Spells (codes "<>") ne
    lt_spells : Spells (codes "<") lt
    le_spells : Spells (codes "<=") le
    gt_spells : Spells (codes ">") gt
    ge_spells : Spells (codes ">=") ge
    plus_spells : Spells (codes "+") plus
    minus_spells : Spells (codes "-") minus
    slash_spells : Spells (codes "/") slash
    word_spells :
        (c : ℕ) (cs : List ℕ)
        → is_word_start c ≡ true
        → AllOf is_word_char cs
        → Spells (c ∷ cs) (word_token (c ∷ cs))
    string_spells : (s : List ℕ) → AllOf not_quote s → Spells (39 ∷ s ++ 39 ∷ []) (string s)
    integer_spells :
        (d : ℕ) (ds : List ℕ)
        → is_ascii_digit d ≡ true
        → AllOf is_ascii_digit ds
        → digits_value 0 (d ∷ ds) < 2 ^ 63
        → Spells (d ∷ ds) (integer (digits_value 0 (d ∷ ds)))
    float_spells :
        (d : ℕ) (ds : List ℕ) (f : ℕ) (fs : List ℕ) (x : ℕ)
        → is_ascii_digit d ≡ true
        → AllOf is_ascii_digit ds
        → is_ascii_digit f ≡ true
        → AllOf is_ascii_digit fs
        → parse_double ((d ∷ ds) ++ b'.' ∷ f ∷ fs) ≡ some x
        → Spells ((d ∷ ds) ++ b'.' ∷ f ∷ fs) (float x)
    param_spells :
        (d : ℕ) (ds : List ℕ)
        → is_ascii_digit d ≡ true
        → AllOf is_ascii_digit ds
        → digits_value 0 (d ∷ ds) < 2 ^ 64
        → Spells (b'$' ∷ d ∷ ds) (param (digits_value 0 (d ∷ ds)))

-- A loop stops at the first character that fails its test.
bump_while-append :
    (test : ℕ → Bool) (s : List ℕ) (c : ℕ) (rest : List ℕ)
    → AllOf test s
    → test c ≡ false
    → bump_while test (s ++ c ∷ rest) ≡ (s, c ∷ rest)
unfolding bump_while
bump_while-append test [] c rest all stop = rw stop refl
bump_while-append test (d ∷ ds) c rest all stop =
    rw (bump_while-append test ds c rest all.1 stop, all.0) refl

read_string-append :
    (s rest : List ℕ) → AllOf not_quote s → read_string (s ++ 39 ∷ rest) ≡ some (s, rest)
unfolding read_string
read_string-append [] rest all = refl
read_string-append (c ∷ cs) rest all = ground (arith, all.0, read_string-append cs rest all.1)

-- No other arm of `next_token` takes a letter or a digit.
module _ (parse_double : List ℕ → Option ℕ) where
  next_token-word :
      (c : ℕ) (cs : List ℕ)
      → is_word_start c ≡ true
      → next_token parse_double (c ∷ cs) ≡ some (read_word (c ∷ cs))
  unfolding next_token single_token is_ascii_digit is_word_start is_ascii_alphabetic
  next_token-word c cs start = ground (arith, start)

  next_token-digit :
      (c : ℕ) (cs : List ℕ)
      → is_ascii_digit c ≡ true
      → next_token parse_double (c ∷ cs) ≡ read_integer parse_double (c ∷ cs)
  unfolding next_token single_token is_ascii_digit
  next_token-digit c cs digit = ground (arith, digit)

space_digit : is_ascii_digit 32 ≡ false
unfolding is_ascii_digit
space_digit = refl

dot_digit : is_ascii_digit b'.' ≡ false
unfolding is_ascii_digit
dot_digit = refl

space-fraction_follows : (rest : List ℕ) → fraction_follows (32 ∷ rest) ≡ false
unfolding fraction_follows
space-fraction_follows [] = refl
space-fraction_follows (c ∷ cs) = refl

module _ (parse_double : List ℕ → Option ℕ) (s rest : List ℕ) where
  number_token-integer :
      digits_value 0 s < 2 ^ 63
      → number_token parse_double s (32 ∷ rest) ≡ some (integer (digits_value 0 s), 32 ∷ rest)
  unfolding number_token parse_below
  number_token-integer small = ground (arith, space-fraction_follows rest, small)

  number_token-float :
      (f : ℕ) (fs : List ℕ) (x : ℕ)
      → is_ascii_digit f ≡ true
      → AllOf is_ascii_digit fs
      → parse_double (s ++ b'.' ∷ f ∷ fs) ≡ some x
      → number_token parse_double s (b'.' ∷ f ∷ (fs ++ 32 ∷ rest)) ≡ some (float x, 32 ∷ rest)
  unfolding number_token fraction_follows
  number_token-float f fs x digit all parsed =
      let read = bump_while-append is_ascii_digit (f ∷ fs) 32 rest (digit, all) space_digit in
      ground (arith, digit, read, parsed)

module _ (parse_double : List ℕ → Option ℕ) (rest : List ℕ) where
  -- One token is read, up to the space.
  abbrev ReadsAs : List ℕ → Token → Type 0
  ReadsAs text token = next_token parse_double (text ++ 32 ∷ rest) ≡ some (token, 32 ∷ rest)

  word-ReadsAs :
      (c : ℕ) (cs : List ℕ)
      → is_word_start c ≡ true
      → AllOf is_word_char cs
      → ReadsAs (c ∷ cs) (word_token (c ∷ cs))
  unfolding read_word is_word_char is_word_start is_ascii_alphabetic is_ascii_digit
  word-ReadsAs c cs start all =
      next_token-word parse_double c (cs ++ 32 ∷ rest) start
      ∙ rw (bump_while-append is_word_char (c ∷ cs) 32 rest (starts_word c start, all) refl) refl

  integer-ReadsAs :
      (d : ℕ) (ds : List ℕ)
      → is_ascii_digit d ≡ true
      → AllOf is_ascii_digit ds
      → digits_value 0 (d ∷ ds) < 2 ^ 63
      → ReadsAs (d ∷ ds) (integer (digits_value 0 (d ∷ ds)))
  unfolding read_integer
  integer-ReadsAs d ds digit all small =
      let read = bump_while-append is_ascii_digit (d ∷ ds) 32 rest (digit, all) space_digit in
      next_token-digit parse_double d (ds ++ 32 ∷ rest) digit
      ∙ ap (λ (r : List ℕ × List ℕ). number_token parse_double r.0 r.1) read
      ∙ number_token-integer parse_double (d ∷ ds) rest small

  float-ReadsAs :
      (d : ℕ) (ds : List ℕ) (f : ℕ) (fs : List ℕ) (x : ℕ)
      → is_ascii_digit d ≡ true
      → AllOf is_ascii_digit ds
      → is_ascii_digit f ≡ true
      → AllOf is_ascii_digit fs
      → parse_double ((d ∷ ds) ++ b'.' ∷ f ∷ fs) ≡ some x
      → ReadsAs ((d ∷ ds) ++ b'.' ∷ f ∷ fs) (float x)
  unfolding read_integer
  float-ReadsAs d ds f fs x digit all digit' all' parsed =
      let behind : List ℕ = f ∷ (fs ++ 32 ∷ rest) in
      let read = bump_while-append is_ascii_digit (d ∷ ds) b'.' behind (digit, all) dot_digit in
      ap (λ l. next_token parse_double (d ∷ l)) (append_assoc ds (b'.' ∷ f ∷ fs) (32 ∷ rest))
      ∙ next_token-digit parse_double d (ds ++ b'.' ∷ behind) digit
      ∙ ap (λ (r : List ℕ × List ℕ). number_token parse_double r.0 r.1) read
      ∙ number_token-float parse_double (d ∷ ds) rest f fs x digit' all' parsed

  param-ReadsAs :
      (d : ℕ) (ds : List ℕ)
      → is_ascii_digit d ≡ true
      → AllOf is_ascii_digit ds
      → digits_value 0 (d ∷ ds) < 2 ^ 64
      → ReadsAs (b'$' ∷ d ∷ ds) (param (digits_value 0 (d ∷ ds)))
  unfolding next_token single_token read_param parse_below
  param-ReadsAs d ds digit all small =
      let read = bump_while-append is_ascii_digit (d ∷ ds) 32 rest (digit, all) space_digit in
      ground (arith, read, small)

  string-ReadsAs : (s : List ℕ) → AllOf not_quote s → ReadsAs (39 ∷ s ++ 39 ∷ []) (string s)
  unfolding next_token single_token
  string-ReadsAs s all =
      let read = read_string-append s (32 ∷ rest) all in
      rw (append_assoc s (39 ∷ []) (32 ∷ rest), read) refl

  pub next_token-Spells :
      (text : List ℕ) (token : Token) → Spells parse_double text token → ReadsAs text token
  unfolding next_token single_token read_less read_greater
  next_token-Spells text token asterisk_spells = refl
  next_token-Spells text token comma_spells = refl
  next_token-Spells text token semicolon_spells = refl
  next_token-Spells text token lparen_spells = refl
  next_token-Spells text token rparen_spells = refl
  next_token-Spells text token dot_spells = refl
  next_token-Spells text token eq_spells = refl
  next_token-Spells text token ne_spells = refl
  next_token-Spells text token lt_spells = refl
  next_token-Spells text token le_spells = refl
  next_token-Spells text token gt_spells = refl
  next_token-Spells text token ge_spells = refl
  next_token-Spells text token plus_spells = refl
  next_token-Spells text token minus_spells = refl
  next_token-Spells text token slash_spells = refl
  next_token-Spells text token (word_spells c cs start all) = word-ReadsAs c cs start all
  next_token-Spells text token (string_spells s all) = string-ReadsAs s all
  next_token-Spells text token (integer_spells d ds h all small) = integer-ReadsAs d ds h all small
  next_token-Spells text token (float_spells d ds f fs x h all k all' e) =
      float-ReadsAs d ds f fs x h all k all' e
  next_token-Spells text token (param_spells d ds h all small) = param-ReadsAs d ds h all small
