-- ===== src/Lexer/Consume.antt =====
-- src/lexer.rs: each token takes a character, so that the loop of `tokenize` ends.
use ccdb.Lexer.{
  bump_while, read_string, next_token, skip_ws, read_param, read_less, read_greater, number_token,
  is_ascii_digit, single_token, is_word_start, fraction_follows, parse_below, is_word_char,
  read_word, read_integer, tokenize_from, tokenize, out_of_fuel,
}
use ccdb.Prelude.{
  ℕ, Option, Bool, List, some, length, ◌≡◌, ◌<◌, ◌≤◌, true, ◌∷◌, none, [], arith, Bool-cases, inl,
  inr, false, suc, ◌==◌, Option-cases, if◌then◌else◌, refl, List-cases, drop, ◌^◌, length-drop, ◌≢◌,
  subst, ◌+◌, zero,
}
use ccdb.Lexer.Tokens.{Token, string, param, float, integer}

-- A reader that gives a rest gives one that is shorter than `n`.
abbrev Shorter : ℕ → Option (Token × List ℕ) → Type 0
Shorter n none = Unit
Shorter n (some (token, rest)) = length rest < n

bump_while-length :
    (test : ℕ → Bool) (input : List ℕ) → length (bump_while test input).1 ≤ length input
unfolding bump_while
bump_while-length test [] = omega arith
bump_while-length test (c ∷ cs) = elim (Bool-cases (test c)) [
  | inl e ↦ rw e (omega (arith, bump_while-length test cs))
  | inr e ↦ rw e (omega arith)
]

bump_while-shorter :
    (test : ℕ → Bool) (c : ℕ) (cs : List ℕ)
    → test c ≡ true
    → length (bump_while test (c ∷ cs)).1 < length (c ∷ cs)
unfolding bump_while
bump_while-shorter test c cs e = rw e (omega (arith, bump_while-length test cs))

if-Shorter :
    (n : ℕ) (b : Bool) (x y : Option (Token × List ℕ))
    → (b ≡ true → Shorter n x)
    → (b ≡ false → Shorter n y)
    → Shorter n (if b then x else y)
if-Shorter n true x y h k = h refl
if-Shorter n false x y h k = k refl

abbrev NotLonger : ℕ → Option (List ℕ × List ℕ) → Type 0
NotLonger n none = Unit
NotLonger n (some (s, rest)) = length rest ≤ n

-- A reader that goes on with what another one read.
then-NotLonger :
    (n : ℕ) (c : ℕ) (o : Option (List ℕ × List ℕ))
    → NotLonger n o
    → NotLonger (suc n) (elim o [ none ↦ none | some (s, rest) ↦ some (c ∷ s, rest) ])
then-NotLonger n c none h = tt
then-NotLonger n c (some (s, rest)) h = omega arith

read_string-NotLonger : (input : List ℕ) → NotLonger (length input) (read_string input)
unfolding read_string
read_string-NotLonger [] = tt
read_string-NotLonger (c ∷ cs) = elim (Bool-cases (c == 39)) [
  | inl e ↦ rw (e, read_string) (omega arith)
  | inr e ↦
      rw (e, read_string) (then-NotLonger (length cs) c (read_string cs) (read_string-NotLonger cs))
]

string-Shorter :
    (n : ℕ) (o : Option (List ℕ × List ℕ))
    → NotLonger n o
    → Shorter (suc n) (elim o [ none ↦ none | some (s, rest) ↦ some (string s, rest) ])
string-Shorter n none h = tt
string-Shorter n (some (s, rest)) h = omega arith

number-Shorter :
    (n : ℕ) (rest : List ℕ) (token : ℕ → Token) (o : Option ℕ)
    → length rest < n
    → Shorter n (elim o [ none ↦ none | some x ↦ some (token x, rest) ])
number-Shorter n rest token none h = tt
number-Shorter n rest token (some x) h = h

read_param-Shorter : (cs : List ℕ) → Shorter (suc (length cs)) (read_param cs)
unfolding read_param
read_param-Shorter cs =
    let short = bump_while-length is_ascii_digit cs in
    elim (List-cases (bump_while is_ascii_digit cs).0) [
      | inl e ↦ rw (e, read_param) tt
      | inr (d, ds, e) ↦
          rw (e, read_param)
            (number-Shorter (suc (length cs)) _ param (parse_below (2 ^ 64) (d ∷ ds))
              (omega (arith, short)))
    ]

read_less-Shorter : (cs : List ℕ) → Shorter (suc (length cs)) (some (read_less cs))
unfolding read_less
read_less-Shorter [] = omega arith
read_less-Shorter (c ∷ cs) = ground arith

read_greater-Shorter : (cs : List ℕ) → Shorter (suc (length cs)) (some (read_greater cs))
unfolding read_greater
read_greater-Shorter [] = omega arith
read_greater-Shorter (c ∷ cs) = ground arith

pub starts_word : (c : ℕ) → is_word_start c ≡ true → is_word_char c ≡ true
unfolding is_word_char
starts_word c e = ground (arith, e)

read_word-Shorter :
    (c : ℕ) (cs : List ℕ)
    → is_word_start c ≡ true
    → Shorter (length (c ∷ cs)) (some (read_word (c ∷ cs)))
unfolding read_word
read_word-Shorter c cs e = bump_while-shorter is_word_char c cs (starts_word c e)

module _ (parse_double : List ℕ → Option ℕ) where
  number_token-Shorter :
      (n : ℕ) (s rest : List ℕ) → length rest < n → Shorter n (number_token parse_double s rest)
  unfolding number_token
  number_token-Shorter n s rest h =
      let after = bump_while-length is_ascii_digit (drop 1 rest) in
      elim (Bool-cases (fraction_follows rest)) [
        | inl e ↦
            rw (e, number_token)
              (number-Shorter n _ float (parse_double _) (omega (arith, after, length-drop 1 rest)))
        | inr e ↦ rw (e, number_token) (number-Shorter n rest integer (parse_below (2 ^ 63) s) h)
      ]

  read_integer-Shorter :
      (c : ℕ) (cs : List ℕ)
      → is_ascii_digit c ≡ true
      → Shorter (length (c ∷ cs)) (read_integer parse_double (c ∷ cs))
  unfolding read_integer
  read_integer-Shorter c cs e =
      number_token-Shorter (length (c ∷ cs)) _ _ (bump_while-shorter is_ascii_digit c cs e)

  pub next_token-Shorter :
      (c : ℕ) (cs : List ℕ) → Shorter (length (c ∷ cs)) (next_token parse_double (c ∷ cs))
  unfolding next_token
  next_token-Shorter c cs = elim (Option-cases (single_token c)) [
    | inr (token, e) ↦ rw (e, next_token) (omega arith)
    | inl e ↦
        rw (e, next_token)
          (if-Shorter _ (c == b'<') _ _ (λ _. read_less-Shorter cs)
            (λ _.
              if-Shorter _ (c == b'>') _ _ (λ _. read_greater-Shorter cs)
                (λ _.
                  if-Shorter _ (c == b'$') _ _ (λ _. read_param-Shorter cs)
                    (λ _.
                      if-Shorter _ (c == 39) _ _
                        (λ _.
                          string-Shorter (length cs) (read_string cs) (read_string-NotLonger cs))
                        (λ _. if-Shorter _ (is_ascii_digit c) _ _ (read_integer-Shorter c cs) (λ _.
                          if-Shorter _ (is_word_start c) _ _ (read_word-Shorter c cs)
                            (λ _. tt)))))))
  ]

skip_ws-length : (test : ℕ → Bool) (input : List ℕ) → length (skip_ws test input) ≤ length input
unfolding skip_ws
skip_ws-length test [] = omega arith
skip_ws-length test (c ∷ cs) = elim (Bool-cases (test c)) [
  | inl e ↦ rw e (omega (arith, skip_ws-length test cs))
  | inr e ↦ rw e (omega arith)
]

-- With more fuel than characters the loop does not run out of it.
module _ (is_whitespace : ℕ → Bool) (parse_double : List ℕ → Option ℕ) where
  tokenize_from-fuel :
      (fuel : ℕ) (input : List ℕ)
      → length input < fuel
      → tokenize_from is_whitespace parse_double fuel input ≢ out_of_fuel
  unfolding tokenize_from
  tokenize_from-fuel zero input h = absurd (omega arith)
  tokenize_from-fuel (suc fuel) input h =
      let left = skip_ws-length is_whitespace input in
      elim (List-cases (skip_ws is_whitespace input)) [
        | inl e ↦ rw (e, tokenize_from) (λ bad. cc bad)
        | inr (c, cs, e) ↦ elim (Option-cases (next_token parse_double (c ∷ cs))) [
          | inl none_read ↦ rw (e, tokenize_from, none_read) (λ bad. cc bad)
          | inr ((token, rest), read) ↦
              let short : length rest < length (c ∷ cs) =
                subst (Shorter (length (c ∷ cs))) read (next_token-Shorter parse_double c cs) in
              let size : length (c ∷ cs) ≤ length input =
                subst (λ l. length l ≤ length input) e left in
              let inner = tokenize_from-fuel fuel rest (omega (arith, short, size)) in
              ground (arith, e, read, inner)
        ]
      ]

  -- tokenize never runs out of fuel: each round of its loop takes at least one character.
  pub tokenize-fuel : (input : List ℕ) → tokenize is_whitespace parse_double input ≢ out_of_fuel
  unfolding tokenize
  tokenize-fuel input = tokenize_from-fuel (length input + 1) input (omega arith)
