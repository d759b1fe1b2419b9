-- ===== src/Lexer/Tokenize.antt =====
-- src/lexer.rs: tokens that are written with a space behind each are read back.
use ccdb.Lexer.Spelling.{
  asterisk_spells, comma_spells, semicolon_spells, lparen_spells, rparen_spells, dot_spells,
  eq_spells, ne_spells, lt_spells, le_spells, gt_spells, ge_spells, plus_spells, minus_spells,
  slash_spells, word_spells, string_spells, integer_spells, float_spells, param_spells,
}
use ccdb.Lexer.{
  tokenize_from, skip_ws, tokens, is_word_start, is_ascii_digit, tokenize, is_ascii_alphabetic,
  next_token,
}
use ccdb.Lexer.Spelling.{
  Spells, next_token-Spells, word_spells, string_spells, integer_spells, float_spells, param_spells,
}
use ccdb.Prelude.{
  List, ℕ, ◌∷◌, Option, Bool, ◌++◌, leb, ◌≡◌, [], ◌&&◌, true, false, length, ◌<◌, arith, suc, zero,
  refl, ap, ◌∙◌, ◌≤◌, length-append, ◌+◌, sym,
}
use ccdb.Lexer.Tokens.{Token}

-- The texts with a space behind each.
abbrev pub spaced : List (List ℕ) → List ℕ
spaced [] = []
spaced (text ∷ texts) = text ++ 32 ∷ spaced texts

-- Each text spells the token at its place.
abbrev pub SpellsAll : (List ℕ → Option ℕ) → List (List ℕ) → List Token → Type 0
SpellsAll parse_double [] [] = Unit
SpellsAll parse_double [] (token ∷ out) = ⊥
SpellsAll parse_double (text ∷ texts) [] = ⊥
SpellsAll parse_double (text ∷ texts) (token ∷ out) =
    Spells parse_double text token × SpellsAll parse_double texts out

-- A visible ASCII character.
abbrev pub visible : ℕ → Bool
visible c = leb 33 c && leb c 126

letter-visible : (c : ℕ) → is_word_start c ≡ true → visible c ≡ true
unfolding is_word_start is_ascii_alphabetic
letter-visible c h = ground (arith, h)

digit-visible : (c : ℕ) → is_ascii_digit c ≡ true → visible c ≡ true
unfolding is_ascii_digit
digit-visible c h = ground (arith, h)

-- A token starts with a visible character.
Spells-visible :
    (parse_double : List ℕ → Option ℕ) (text : List ℕ) (token : Token)
    → Spells parse_double text token
    → (c : ℕ) × (cs : List ℕ) × (text ≡ c ∷ cs) × (visible c ≡ true)
Spells-visible p text token asterisk_spells = (_, _, refl, refl)
Spells-visible p text token comma_spells = (_, _, refl, refl)
Spells-visible p text token semicolon_spells = (_, _, refl, refl)
Spells-visible p text token lparen_spells = (_, _, refl, refl)
Spells-visible p text token rparen_spells = (_, _, refl, refl)
Spells-visible p text token dot_spells = (_, _, refl, refl)
Spells-visible p text token eq_spells = (_, _, refl, refl)
Spells-visible p text token ne_spells = (_, _, refl, refl)
Spells-visible p text token lt_spells = (_, _, refl, refl)
Spells-visible p text token le_spells = (_, _, refl, refl)
Spells-visible p text token gt_spells = (_, _, refl, refl)
Spells-visible p text token ge_spells = (_, _, refl, refl)
Spells-visible p text token plus_spells = (_, _, refl, refl)
Spells-visible p text token minus_spells = (_, _, refl, refl)
Spells-visible p text token slash_spells = (_, _, refl, refl)
Spells-visible p text token (word_spells c cs h _) = (c, cs, refl, letter-visible c h)
Spells-visible p text token (string_spells s _) = (39, _, refl, refl)
Spells-visible p text token (integer_spells d ds h _ _) = (d, ds, refl, digit-visible d h)
Spells-visible p text token (float_spells d ds f fs x h _ _ _ _) = (d, _, refl, digit-visible d h)
Spells-visible p text token (param_spells d ds _ _ _) = (b'$', d ∷ ds, refl, refl)

-- `is_whitespace` of the space and of the visible ASCII characters, as `char::is_whitespace` says.
module _ (is_whitespace : ℕ → Bool) (parse_double : List ℕ → Option ℕ)
    (space_is_whitespace : is_whitespace 32 ≡ true)
    (visible_is_not : (c : ℕ) → visible c ≡ true → is_whitespace c ≡ false) where
  skip_ws-nil : skip_ws is_whitespace [] ≡ []
  unfolding skip_ws
  skip_ws-nil = refl

  skip_ws-space :
      (input : List ℕ) → skip_ws is_whitespace (32 ∷ input) ≡ skip_ws is_whitespace input
  unfolding skip_ws
  skip_ws-space input = ground (arith, space_is_whitespace)

  skip_ws-text :
      (text : List ℕ) (token : Token) (rest : List ℕ)
      → Spells parse_double text token
      → (c : ℕ) × (cs : List ℕ) × (text ++ rest ≡ c ∷ cs)
        × (skip_ws is_whitespace (text ++ rest) ≡ c ∷ cs)
  unfolding skip_ws
  skip_ws-text text token rest h =
      let (c, cs, shape, seen) = Spells-visible parse_double text token h in
      let whole : text ++ rest ≡ c ∷ (cs ++ rest) = ap (λ l. l ++ rest) shape in
      (c, cs ++ rest, whole, rw whole (ground (arith, visible_is_not c seen)))

  -- Up to the white space that is left before the first token.
  tokenize_from-spaced :
      (fuel : ℕ) (input : List ℕ) (texts : List (List ℕ)) (out : List Token)
      → SpellsAll parse_double texts out
      → length texts < fuel
      → skip_ws is_whitespace input ≡ skip_ws is_whitespace (spaced texts)
      → tokenize_from is_whitespace parse_double fuel input ≡ tokens out
  unfolding tokenize_from
  tokenize_from-spaced zero input texts out h enough e = absurd (omega arith)
  tokenize_from-spaced (suc fuel) input [] [] h enough e = rw (e ∙ skip_ws-nil, tokenize_from) refl
  tokenize_from-spaced (suc fuel) input [] (token ∷ out) h enough e = absurd h
  tokenize_from-spaced (suc fuel) input (text ∷ texts) [] h enough e = absurd h
  tokenize_from-spaced (suc fuel) input (text ∷ texts) (token ∷ out) h enough e =
      let (c, cs, whole, skipped) = skip_ws-text text token (32 ∷ spaced texts) h.0 in
      let read =
        ap (next_token parse_double) (sym whole)
        ∙ next_token-Spells parse_double (spaced texts) text token h.0 in
      let later =
        tokenize_from-spaced fuel (32 ∷ spaced texts) texts out h.1 (omega arith)
          (skip_ws-space (spaced texts)) in
      ground (arith, e ∙ skipped, read, later)

  length-spaced :
      (texts : List (List ℕ)) (out : List Token)
      → SpellsAll parse_double texts out
      → length texts ≤ length (spaced texts)
  length-spaced [] out h = omega arith
  length-spaced (text ∷ texts) [] h = absurd h
  length-spaced (text ∷ texts) (token ∷ out) h =
      omega (arith, length-append text (32 ∷ spaced texts), length-spaced texts out h.1)

  -- When the space is white space and no visible ASCII character is, texts that spell tokens, each
  -- with a space behind it, are read by tokenize as those tokens, one for one.
  pub tokenize-spaced :
      (texts : List (List ℕ)) (out : List Token)
      → SpellsAll parse_double texts out
      → tokenize is_whitespace parse_double (spaced texts) ≡ tokens out
  unfolding tokenize
  tokenize-spaced texts out h =
      tokenize_from-spaced (length (spaced texts) + 1) (spaced texts) texts out h
        (omega (arith, length-spaced texts out h)) refl
