-- ===== src/Executor/Tests.antt =====
-- src/executor.rs: expressions, sort keys and aggregates on small rows, and the theorems at them.
use ccdb.Prelude.Order.{less, cmp_nat}
use ccdb.Analyzer.{
  AnalyzedExpr, infer_binary_type, eq_op, mul_op, binary_op, column_ref, literal_type, literal,
  add_op, integer_lit, interval_lit, sub_op, lt_op,
}
use ccdb.Prelude.{some, List, ◌≡◌, ◌∷◌, ap, ◌+◌, [], refl, map, ◌-◌, arith, ◌*◌, ◌/◌, ◌==◌}
use ccdb.Prelude.Int.{ℤ, pos, negsuc, ◌+ℤ◌, ◌*ℤ◌, pos_part, i32_of_bits, i64_bits}
use ccdb.Tuple.{
  Value, int, null, date, timestamp, interval, double, varchar, DataType, int_type, double_type,
  date_type, timestamp_type, bool_type, interval_type,
}
use ccdb.Analyzer.{data_type}
use ccdb.Executor.{reverse_order, Outcome, ok, bail, Floats}
use ccdb.Executor.Evaluate.{evaluate_expr, evaluate_binary}
use ccdb.Executor.Typing.{Gives}
use ccdb.Executor.Typing.Expressions.{evaluate_expr-Gives}
use ccdb.Executor.Sort.{compare_key, or_next, compare_keys, asc, desc}
use ccdb.Executor.Sort.Reverse.{cmp_nat-reverse, Reverses, compare_keys-reverse, reversed}
use ccdb.Executor.Aggregate.{aggregate, sum_agg, count_agg}
use ccdb.Executor.Aggregate.Sums.{aggregate-sum, aggregate-count}

-- Doubles that are natural numbers.
abbrev small_floats : Floats
small_floats = record {
  of_int = pos_part;
  partial_cmp = λ a b. some (cmp_nat a b);
  add = λ a b. a + b;
  sub = λ a b. a - b;
  mul = λ a b. a * b;
  div = λ a b. a / b;
  is_zero = λ a. a == 0;
}

-- A month of thirty days.
abbrev shift : ℤ → ℤ → ℤ → ℤ → Outcome ℤ
shift ts months days micros = ok (ts +ℤ ((months *ℤ pos 30 +ℤ days) *ℤ pos 86400000000 +ℤ micros))

abbrev types : List DataType
types = int_type ∷ double_type ∷ date_type ∷ []

abbrev row : List Value
row = int (pos 7) ∷ null ∷ date (pos 100) ∷ []

-- c0 * 3 - 1 < c1
abbrev condition : AnalyzedExpr
condition =
    binary_op
      (binary_op
        (binary_op (column_ref 0 int_type) mul_op (literal (integer_lit (pos 3)) (some int_type))
          int_type)
        sub_op (literal (integer_lit (pos 1)) (some int_type)) int_type)
      lt_op (column_ref 1 double_type) bool_type

-- c2 + INTERVAL '1 day'
abbrev tomorrow : AnalyzedExpr
tomorrow =
    binary_op (column_ref 2 date_type) add_op
      (literal (interval_lit (pos 0) (pos 1) (pos 0)) (some interval_type)) timestamp_type

tomorrow_value : evaluate_expr small_floats shift tomorrow row ≡ ok (timestamp (pos 8726400000000))
unfolding evaluate_expr ◌+ℤ◌ ◌*ℤ◌
tomorrow_value = refl

condition_value : evaluate_expr small_floats shift condition row ≡ ok null
unfolding evaluate_expr ◌+ℤ◌ ◌*ℤ◌ i32_of_bits i64_bits
condition_value = refl

evaluate_expr-Gives_example :
    Gives (evaluate_expr small_floats shift tomorrow row) (some timestamp_type)
unfolding infer_binary_type data_type literal_type
evaluate_expr-Gives_example =
    evaluate_expr-Gives small_floats shift types row tomorrow (refl, (tt, (refl, tt)))
      (refl, refl, refl)

-- Two equal intervals cannot be compared in a condition, though they are sorted.
intervals_incomparable :
    evaluate_binary small_floats shift eq_op
      (interval (pos 0) (pos 1) (pos 0))
      (interval (pos 0) (pos 1) (pos 0))
    ≡ bail
unfolding evaluate_binary
intervals_incomparable = refl

-- The analyzer makes an interval times a double an interval; the executor refuses it.
interval_times_double :
    evaluate_binary small_floats shift mul_op (interval (pos 0) (pos 1) (pos 0)) (double 2) ≡ bail
unfolding evaluate_binary
interval_times_double = refl

keys_order :
    compare_keys small_floats
      (int (pos 1) ∷ null ∷ [])
      (int (pos 1) ∷ varchar (97 ∷ []) ∷ [])
      (asc ∷ desc ∷ [])
    ≡ ok less
unfolding compare_keys compare_key or_next cmp_nat
keys_order = refl

small_floats-Reverses : Reverses small_floats
small_floats-Reverses a b = ap some (cmp_nat-reverse a b)

compare_keys-reverse_example :
    compare_keys small_floats
      (int (pos 1) ∷ varchar (97 ∷ []) ∷ [])
      (int (pos 1) ∷ null ∷ [])
      (asc ∷ desc ∷ [])
    ≡ reversed (
        compare_keys small_floats
          (int (pos 1) ∷ null ∷ [])
          (int (pos 1) ∷ varchar (97 ∷ []) ∷ [])
          (asc ∷ desc ∷ []))
unfolding cmp_nat reverse_order
compare_keys-reverse_example =
    compare_keys-reverse small_floats small_floats-Reverses (int (pos 1) ∷ null ∷ [])
      (int (pos 1) ∷ varchar (97 ∷ []) ∷ []) (asc ∷ desc ∷ [])

aggregate-sum_example :
    aggregate small_floats sum_agg
      (some int_type)
      (map some (int (pos 5) ∷ null ∷ int (negsuc 1) ∷ []))
    ≡ ok (int (pos 3))
unfolding ◌+ℤ◌
aggregate-sum_example =
    aggregate-sum small_floats (int (pos 5) ∷ null ∷ int (negsuc 1) ∷ [])
      ((omega arith, omega arith), ((omega arith, omega arith), tt)) (omega arith)
      (omega arith, omega arith)

aggregate-count_example :
    aggregate small_floats count_agg (some int_type) (some null ∷ some (int (pos 5)) ∷ [])
    ≡ ok (int (pos 1))
aggregate-count_example =
    aggregate-count small_floats (some int_type) (some null ∷ some (int (pos 5)) ∷ []) (omega arith)
