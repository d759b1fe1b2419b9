-- ===== src/Lexer/Keyword.antt =====
-- src/lexer.rs: keywords are matched whatever the case of their letters.
use ccdb.Prelude.{List, ℕ, ◌≡◌, map, ◌⊎◌, Option-cases, refl, inl, inr, ap, sym, ◌∙◌}
use ccdb.Lexer.{to_ascii_uppercase, word_token, lookup_keyword}
use ccdb.Lexer.Tokens.{ident, keywords}

-- Two words that differ in the case of their letters are the same keyword, or both are identifiers.
pub word_token-uppercase :
    (s t : List ℕ)
    → map to_ascii_uppercase s ≡ map to_ascii_uppercase t
    → (word_token s ≡ word_token t) ⊎ ((word_token s ≡ ident s) × (word_token t ≡ ident t))
unfolding word_token
word_token-uppercase s t same =
    let of_t = ap (λ u. lookup_keyword u keywords) (sym same) in
    elim (Option-cases (lookup_keyword (map to_ascii_uppercase s) keywords)) [
      | inl e ↦ inr (rw (e, word_token) refl, rw (of_t ∙ e, word_token) refl)
      | inr (token, e) ↦ inl (rw (e, of_t ∙ e, word_token) refl)
    ]
