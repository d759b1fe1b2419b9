-- ===== src/Executor/Typing/Expressions.antt =====
-- src/executor.rs, src/analyzer.rs: the same for whole expressions, on a row of the types that the
-- analyzer resolved the columns to.
use ccdb.Executor.Typing.Sound.{evaluate_binary-Gives}
use ccdb.Prelude.Int.{ℤ}
use ccdb.Analyzer.{
  literal_type, infer_unary_type, AnalyzedExpr, LiteralValue, UnaryOperator, literal, integer_lit,
  float_lit, column_ref, string_lit, binary_op, boolean_lit, infer_binary_type, timestamp_lit,
  unary_op, date_lit, is_null_test, time_lit, now, interval_lit, null_lit, sequence_call,
}
use ccdb.Tuple.{DataType, Value, bool, int, null}
use ccdb.Executor.{Floats, Outcome, i32, negate, ok, bail, overflow}
use ccdb.Executor.Evaluate.{literal_to_value, evaluate_unary, evaluate_expr}
use ccdb.Prelude.{List, ℕ, Option, get_elem?, some, ◌≡◌, get_or, ◌∷◌, subst, suc, [], zero, refl}
use ccdb.Analyzer.{data_type, not_op, neg_op}
use ccdb.Executor.{◌>>=◌}
use ccdb.Executor.Typing.{Fits, Gives, bind-Gives}

-- What `analyze_expr` makes: each type is the inferred one, each column one of the row's.
abbrev pub IsAnalyzed : List DataType → AnalyzedExpr → Type 0
IsAnalyzed types (literal v t) = t ≡ literal_type v
IsAnalyzed types (column_ref i t) = get_elem? types i ≡ some t
IsAnalyzed types (binary_op l op r t) =
    IsAnalyzed types l × IsAnalyzed types r × (t ≡ infer_binary_type op (data_type l) (data_type r))
IsAnalyzed types (unary_op op e t) = IsAnalyzed types e × (t ≡ infer_unary_type op)
IsAnalyzed types (is_null_test e negated) = IsAnalyzed types e
IsAnalyzed types now = Unit {0}
IsAnalyzed types sequence_call = Unit {0}

-- Each value of the row is of its column's type, or null.
abbrev pub FitsRow : List DataType → List Value → Type 0
FitsRow [] [] = Unit {0}
FitsRow (t ∷ ts) (v ∷ vs) = Fits v (some t) × FitsRow ts vs
FitsRow ts vs = ⊥

column-Fits :
    (i : ℕ) (types : List DataType) (row : List Value) {t : DataType}
    → FitsRow types row
    → get_elem? types i ≡ some t
    → Fits (get_or row i null) (some t)
column-Fits i [] row f e = cc
column-Fits i (u ∷ types) [] f e = absurd f
column-Fits zero (u ∷ types) (v ∷ row) f e = subst (Fits v) e f.0
column-Fits (suc i) (u ∷ types) (v ∷ row) f e = column-Fits i types row f.1 e

literal-Fits : (v : LiteralValue) → Fits (literal_to_value v) (literal_type v)
unfolding literal_to_value literal_type
literal-Fits (integer_lit n) = refl
literal-Fits (float_lit bits) = refl
literal-Fits (string_lit s) = refl
literal-Fits (boolean_lit b) = refl
literal-Fits null_lit = tt
literal-Fits (timestamp_lit t) = refl
literal-Fits (date_lit d) = refl
literal-Fits (time_lit t) = refl
literal-Fits (interval_lit m d u) = refl

evaluate_unary-Gives :
    (op : UnaryOperator) (v : Value) → Gives (evaluate_unary op v) (some (infer_unary_type op))
unfolding evaluate_unary infer_unary_type
evaluate_unary-Gives op null = tt
evaluate_unary-Gives not_op (bool b) = refl
evaluate_unary-Gives neg_op (int n) = bind-Gives _ (i32 (negate n)) _ (λ _. refl)
evaluate_unary-Gives op v = tt

value-Gives :
    (s t : Option DataType) (o : Outcome Value) (f : Value → Outcome Value)
    → Gives o s
    → ((v : Value) → Fits v s → Gives (f v) t)
    → Gives (o >>= f) t
value-Gives s t (ok v) f g h = h v g
value-Gives s t bail f g h = tt
value-Gives s t overflow f g h = tt

module _ (floats : Floats) (shift : ℤ → ℤ → ℤ → ℤ → Outcome ℤ) where
  -- An expression with the types that the analyzer infers, on a row whose values are of the types
  -- of its columns or null, evaluates to null or to a value of its own type, or to no value.
  pub evaluate_expr-Gives :
      (types : List DataType) (row : List Value) (e : AnalyzedExpr)
      → FitsRow types row
      → IsAnalyzed types e
      → Gives (evaluate_expr floats shift e row) (data_type e)
  unfolding evaluate_expr data_type
  evaluate_expr-Gives types row (literal v t) f a = rw a (literal-Fits v)
  evaluate_expr-Gives types row (column_ref i t) f a = column-Fits i types row f a
  evaluate_expr-Gives types row (binary_op l op r t) f a = rw a.2 (
      value-Gives _ _ (evaluate_expr floats shift l row) _ (evaluate_expr-Gives types row l f a.0)
        (λ v hv.
          value-Gives _ _ (evaluate_expr floats shift r row) _
            (evaluate_expr-Gives types row r f a.1)
            (λ w hw. evaluate_binary-Gives floats shift op v w (data_type l) (data_type r) hv hw)))
  evaluate_expr-Gives types row (unary_op op e t) f a = rw a.1 (
      value-Gives _ _ (evaluate_expr floats shift e row) _ (evaluate_expr-Gives types row e f a.0)
        (λ v hv. evaluate_unary-Gives op v))
  evaluate_expr-Gives types row (is_null_test e negated) f a =
      value-Gives _ _ (evaluate_expr floats shift e row) _ (evaluate_expr-Gives types row e f a)
        (λ v hv. refl)
  evaluate_expr-Gives types row now f a = tt
  evaluate_expr-Gives types row sequence_call f a = tt
