-- ===== src/Lexer/Tokens.antt =====
-- src/lexer.rs: the tokens, and the words that are keywords.
use ccdb.Prelude.{List, ℕ, [], ◌∷◌}
use Prim.Native.Char.{code}
use Prim.Native.String.{String}

-- The code points of a text. `String` has its own `[]` and `∷`.
abbrev pub codes : String → List ℕ
codes String.[] = []
codes (String.◌∷◌ c s) = code c ∷ codes s

pub data Token : Type 0 where
  select_kw from_kw where_kw insert_kw into_kw values_kw delete_kw : Token
  update_kw set_kw begin_kw commit_kw end_kw rollback_kw checkpoint_kw : Token
  create_kw table_kw int_kw varchar_kw double_kw timestamp_kw date_kw : Token
  time_kw interval_kw current_timestamp_kw drop_kw truncate_kw alter_kw cascade_kw : Token
  restrict_kw sequence_kw vacuum_kw analyze_kw copy_kw stdin_kw check_kw : Token
  constraint_kw conflict_kw do_kw nothing_kw excluded_kw foreign_kw references_kw : Token
  no_kw action_kw and_kw or_kw not_kw null_kw true_kw : Token
  false_kw join_kw inner_kw left_kw on_kw as_kw group_kw : Token
  by_kw having_kw order_kw asc_kw desc_kw limit_kw is_kw : Token
  default_kw char_kw primary_kw key_kw index_kw between_kw distinct_kw : Token
  in_kw if_kw exists_kw : Token
  ident : List ℕ → Token
  integer : ℕ → Token
  float : (bits : ℕ) → Token
  string : List ℕ → Token
  asterisk comma semicolon lparen rparen dot eq ne lt le gt ge plus minus slash : Token
  param : ℕ → Token

-- The table of `read_word`.
abbrev pub keywords : List (List ℕ × Token)
keywords =
    (codes "SELECT", select_kw)
    ∷ (codes "FROM", from_kw)
    ∷ (codes "WHERE", where_kw)
    ∷ (codes "INSERT", insert_kw)
    ∷ (codes "INTO", into_kw)
    ∷ (codes "VALUES", values_kw)
    ∷ (codes "DELETE", delete_kw)
    ∷ (codes "UPDATE", update_kw)
    ∷ (codes "SET", set_kw)
    ∷ (codes "BEGIN", begin_kw)
    ∷ (codes "COMMIT", commit_kw)
    ∷ (codes "END", end_kw)
    ∷ (codes "ROLLBACK", rollback_kw)
    ∷ (codes "CHECKPOINT", checkpoint_kw)
    ∷ (codes "CREATE", create_kw)
    ∷ (codes "TABLE", table_kw)
    ∷ (codes "INT", int_kw)
    ∷ (codes "INTEGER", int_kw)
    ∷ (codes "VARCHAR", varchar_kw)
    ∷ (codes "DOUBLE", double_kw)
    ∷ (codes "FLOAT", double_kw)
    ∷ (codes "TIMESTAMP", timestamp_kw)
    ∷ (codes "DATE", date_kw)
    ∷ (codes "TIME", time_kw)
    ∷ (codes "INTERVAL", interval_kw)
    ∷ (codes "CURRENT_TIMESTAMP", current_timestamp_kw)
    ∷ (codes "DROP", drop_kw)
    ∷ (codes "TRUNCATE", truncate_kw)
    ∷ (codes "ALTER", alter_kw)
    ∷ (codes "CASCADE", cascade_kw)
    ∷ (codes "RESTRICT", restrict_kw)
    ∷ (codes "SEQUENCE", sequence_kw)
    ∷ (codes "VACUUM", vacuum_kw)
    ∷ (codes "ANALYZE", analyze_kw)
    ∷ (codes "COPY", copy_kw)
    ∷ (codes "STDIN", stdin_kw)
    ∷ (codes "CHECK", check_kw)
    ∷ (codes "CONSTRAINT", constraint_kw)
    ∷ (codes "CONFLICT", conflict_kw)
    ∷ (codes "DO", do_kw)
    ∷ (codes "NOTHING", nothing_kw)
    ∷ (codes "EXCLUDED", excluded_kw)
    ∷ (codes "FOREIGN", foreign_kw)
    ∷ (codes "REFERENCES", references_kw)
    ∷ (codes "NO", no_kw)
    ∷ (codes "ACTION", action_kw)
    ∷ (codes "AND", and_kw)
    ∷ (codes "OR", or_kw)
    ∷ (codes "NOT", not_kw)
    ∷ (codes "NULL", null_kw)
    ∷ (codes "TRUE", true_kw)
    ∷ (codes "FALSE", false_kw)
    ∷ (codes "JOIN", join_kw)
    ∷ (codes "INNER", inner_kw)
    ∷ (codes "LEFT", left_kw)
    ∷ (codes "ON", on_kw)
    ∷ (codes "AS", as_kw)
    ∷ (codes "GROUP", group_kw)
    ∷ (codes "BY", by_kw)
    ∷ (codes "HAVING", having_kw)
    ∷ (codes "ORDER", order_kw)
    ∷ (codes "ASC", asc_kw)
    ∷ (codes "DESC", desc_kw)
    ∷ (codes "LIMIT", limit_kw)
    ∷ (codes "IS", is_kw)
    ∷ (codes "DEFAULT", default_kw)
    ∷ (codes "CHAR", char_kw)
    ∷ (codes "PRIMARY", primary_kw)
    ∷ (codes "KEY", key_kw)
    ∷ (codes "INDEX", index_kw)
    ∷ (codes "BETWEEN", between_kw)
    ∷ (codes "DISTINCT", distinct_kw)
    ∷ (codes "IN", in_kw)
    ∷ (codes "IF", if_kw)
    ∷ (codes "EXISTS", exists_kw)
    ∷ []
