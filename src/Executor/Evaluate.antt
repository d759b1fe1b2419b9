-- ===== src/Executor/Evaluate.antt =====
-- src/executor.rs: `evaluate_binary`, `evaluate_unary` and `evaluate_expr`.
use ccdb.Prelude.Order.{cmp_int, cmp_bool, cmp_bytes}
use ccdb.Tuple.{Value, is_null, double, bool, date, timestamp, interval, int, null, varchar, time}
use ccdb.Prelude.{ℕ, Bool, if◌then◌else◌, ◌&&◌, not, List, ◌||◌, ◌%◌, some, ◌^◌, get_or}
use ccdb.Analyzer.{
  BinaryOperator, UnaryOperator, mul_op, LiteralValue, AnalyzedExpr, add_op, integer_lit, sub_op,
  div_op, literal, column_ref, and_op, float_lit, or_op, string_lit, binary_op, eq_op, unary_op,
  ne_op, boolean_lit, is_null_test, now, timestamp_lit, sequence_call, date_lit, time_lit,
  interval_lit, null_lit,
}
use ccdb.Prelude.Int.{ℤ, i32_of_bits, i64_bits, pos}
use ccdb.Prelude.Int.{◌+ℤ◌, ◌*ℤ◌}
use ccdb.Analyzer.{not_op, neg_op}
use ccdb.Executor.{
  Outcome, ok, bail, ◌>>=◌, negate, i32, i64, quot, rem_euclid, is_zero, saturating_add, day_us,
  Floats, compare_op,
}

-- `shift` is `apply_interval_to_timestamp`, an error past the range of dates.
module _ (floats : Floats) (shift : ℤ → ℤ → ℤ → ℤ → Outcome ℤ) where
  unfoldable pub eval_double : BinaryOperator → ℕ → ℕ → Outcome Value
  unfolding compare_op
  eval_double add_op a b = ok (double (floats.add a b))
  eval_double sub_op a b = ok (double (floats.sub a b))
  eval_double mul_op a b = ok (double (floats.mul a b))
  eval_double div_op a b = if floats.is_zero b then bail else ok (double (floats.div a b))
  eval_double op a b = compare_op op (floats.partial_cmp a b)

unfoldable pub eval_int : BinaryOperator → ℤ → ℤ → Outcome Value
unfolding compare_op i32 quot is_zero cmp_int
eval_int add_op a b = do z ← i32 (a +ℤ b); ok (int z)
eval_int sub_op a b = do z ← i32 (a +ℤ negate b); ok (int z)
eval_int mul_op a b = do z ← i32 (a *ℤ b); ok (int z)
eval_int div_op a b = if is_zero b then bail else (do z ← i32 (quot a b); ok (int z))
eval_int op a b = compare_op op (some (cmp_int a b))

unfoldable pub eval_bool : BinaryOperator → Bool → Bool → Outcome Value
unfolding compare_op cmp_bool
eval_bool and_op a b = ok (bool (a && b))
eval_bool or_op a b = ok (bool (a || b))
eval_bool eq_op a b = compare_op eq_op (some (cmp_bool a b))
eval_bool ne_op a b = compare_op ne_op (some (cmp_bool a b))
eval_bool op a b = bail

unfoldable pub eval_timestamp : BinaryOperator → ℤ → ℤ → Outcome Value
unfolding compare_op cmp_int i64
eval_timestamp sub_op a b = do z ← i64 (a +ℤ negate b); ok (interval (pos 0) (pos 0) z)
eval_timestamp op a b = compare_op op (some (cmp_int a b))

unfoldable pub eval_date : BinaryOperator → ℤ → ℤ → Outcome Value
unfolding compare_op cmp_int i32
eval_date sub_op a b = do z ← i32 (a +ℤ negate b); ok (int z)
eval_date op a b = compare_op op (some (cmp_int a b))

unfoldable pub eval_date_int : BinaryOperator → ℤ → ℤ → Outcome Value
unfolding i32 saturating_add
eval_date_int add_op d n = ok (date (saturating_add d n))
eval_date_int sub_op d n = do m ← i32 (negate n); ok (date (saturating_add d m))
eval_date_int op d n = bail

unfoldable pub eval_int_date : BinaryOperator → ℤ → ℤ → Outcome Value
unfolding saturating_add
eval_int_date add_op n d = ok (date (saturating_add d n))
eval_int_date op n d = bail

-- `sign * months` and the like, for the sign of a subtraction.
unfoldable pub negated : ℤ → ℤ → ℤ → Outcome (ℤ × ℤ × ℤ)
unfolding i32 i64
negated months days micros = do
  m ← i32 (negate months)
  d ← i32 (negate days)
  u ← i64 (negate micros)
  ok (m, d, u)

module _ (shift : ℤ → ℤ → ℤ → ℤ → Outcome ℤ) where
  -- A timestamp, or the midnight of a date, on the left of an interval.
  unfoldable pub eval_shift : BinaryOperator → ℤ → ℤ → ℤ → ℤ → Outcome Value
  unfolding negated
  eval_shift add_op ts months days micros = do t ← shift ts months days micros; ok (timestamp t)
  eval_shift sub_op ts months days micros = do
    r ← negated months days micros
    t ← shift ts r.0 r.1 r.2
    ok (timestamp t)
  eval_shift op ts months days micros = bail

  unfoldable pub eval_shift_right : BinaryOperator → ℤ → ℤ → ℤ → ℤ → Outcome Value
  eval_shift_right add_op ts months days micros = do
    t ← shift ts months days micros
    ok (timestamp t)
  eval_shift_right op ts months days micros = bail

  unfoldable pub eval_date_shift : BinaryOperator → ℤ → ℤ → ℤ → ℤ → Outcome Value
  unfolding eval_shift i64
  eval_date_shift add_op d months days micros = do
    ts ← i64 (d *ℤ pos day_us)
    eval_shift add_op ts months days micros
  eval_date_shift sub_op d months days micros = do
    ts ← i64 (d *ℤ pos day_us)
    eval_shift sub_op ts months days micros
  eval_date_shift op d months days micros = bail

  unfoldable pub eval_shift_date : BinaryOperator → ℤ → ℤ → ℤ → ℤ → Outcome Value
  unfolding eval_shift_right i64
  eval_shift_date add_op d months days micros = do
    ts ← i64 (d *ℤ pos day_us)
    eval_shift_right add_op ts months days micros
  eval_shift_date op d months days micros = bail

-- The signed right-hand side, and the sum.
unfoldable pub eval_interval : BinaryOperator → ℤ × ℤ × ℤ → ℤ × ℤ × ℤ → Outcome Value
unfolding negated i32 i64
eval_interval add_op (m1, d1, u1) (m2, d2, u2) = do
  m ← i32 (m1 +ℤ m2)
  d ← i32 (d1 +ℤ d2)
  u ← i64 (u1 +ℤ u2)
  ok (interval m d u)
eval_interval sub_op (m1, d1, u1) (m2, d2, u2) = do
  r ← negated m2 d2 u2
  m ← i32 (m1 +ℤ r.0)
  d ← i32 (d1 +ℤ r.1)
  u ← i64 (u1 +ℤ r.2)
  ok (interval m d u)
eval_interval op a b = bail

-- The fields one after the other, each through `i32` or `i64`.
unfoldable pub scale : ℤ → ℤ → ℤ → ℤ → Outcome Value
unfolding i32 i64
scale n months days micros = do
  m ← i32 (months *ℤ n)
  d ← i32 (days *ℤ n)
  u ← i64 (micros *ℤ n)
  ok (interval m d u)

unfoldable pub eval_interval_int : BinaryOperator → ℤ → ℤ → ℤ → ℤ → Outcome Value
unfolding scale i32 i64 quot is_zero
eval_interval_int mul_op months days micros n = scale n months days micros
eval_interval_int div_op months days micros n = if is_zero n then bail else (do
  m ← i32 (quot months n)
  d ← i32 (quot days n)
  u ← i64 (quot micros n)
  ok (interval m d u))
eval_interval_int op months days micros n = bail

unfoldable pub eval_int_interval : BinaryOperator → ℤ → ℤ → ℤ → ℤ → Outcome Value
unfolding scale
eval_int_interval mul_op n months days micros = scale n months days micros
eval_int_interval op n months days micros = bail

unfoldable pub eval_time_interval : BinaryOperator → ℤ → ℤ → Outcome Value
unfolding i64 rem_euclid
eval_time_interval add_op t micros = do z ← i64 (t +ℤ micros); ok (time (pos (rem_euclid z day_us)))
eval_time_interval sub_op t micros = do
  u ← i64 (negate micros)
  z ← i64 (t +ℤ u)
  ok (time (pos (rem_euclid z day_us)))
eval_time_interval op t micros = bail

unfoldable pub eval_interval_time : BinaryOperator → ℤ → ℤ → Outcome Value
unfolding i64 rem_euclid
eval_interval_time add_op micros t = do z ← i64 (t +ℤ micros); ok (time (pos (rem_euclid z day_us)))
eval_interval_time op micros t = bail

module _ (floats : Floats) (shift : ℤ → ℤ → ℤ → ℤ → Outcome ℤ) where
  -- The types that meet, an integer made a double where it meets one. A null makes a null.
  unfoldable pub evaluate_binary : BinaryOperator → Value → Value → Outcome Value
  unfolding eval_double eval_int eval_bool eval_timestamp eval_date eval_date_int eval_int_date
      eval_shift eval_shift_right eval_date_shift eval_shift_date eval_interval eval_interval_int
      eval_int_interval eval_time_interval eval_interval_time compare_op cmp_bytes cmp_int
  evaluate_binary op null r = ok null
  evaluate_binary op l null = ok null
  evaluate_binary op (double a) (double b) = eval_double floats shift op a b
  evaluate_binary op (int a) (double b) = eval_double floats shift op (floats.of_int a) b
  evaluate_binary op (double a) (int b) = eval_double floats shift op a (floats.of_int b)
  evaluate_binary op (int a) (int b) = eval_int op a b
  evaluate_binary op (bool a) (bool b) = eval_bool op a b
  evaluate_binary op (varchar a) (varchar b) = compare_op op (some (cmp_bytes a b))
  evaluate_binary op (timestamp a) (timestamp b) = eval_timestamp op a b
  evaluate_binary op (date a) (date b) = eval_date op a b
  evaluate_binary op (time a) (time b) = compare_op op (some (cmp_int a b))
  evaluate_binary op (date d) (int n) = eval_date_int op d n
  evaluate_binary op (int n) (date d) = eval_int_date op n d
  evaluate_binary op (date d) (interval m k u) = eval_date_shift shift op d m k u
  evaluate_binary op (interval m k u) (date d) = eval_shift_date shift op d m k u
  evaluate_binary op (timestamp t) (interval m k u) = eval_shift shift op t m k u
  evaluate_binary op (interval m k u) (timestamp t) = eval_shift_right shift op t m k u
  evaluate_binary op (interval a b c) (interval m k u) = eval_interval op (a, b, c) (m, k, u)
  evaluate_binary op (interval m k u) (int n) = eval_interval_int op m k u n
  evaluate_binary op (int n) (interval m k u) = eval_int_interval op n m k u
  evaluate_binary op (time t) (interval m k u) = eval_time_interval op t u
  evaluate_binary op (interval m k u) (time t) = eval_interval_time op u t
  evaluate_binary op l r = bail

unfoldable pub evaluate_unary : UnaryOperator → Value → Outcome Value
unfolding i32
evaluate_unary op null = ok null
evaluate_unary not_op (bool b) = ok (bool (not b))
evaluate_unary neg_op (int n) = do z ← i32 (negate n); ok (int z)
evaluate_unary op v = bail

-- `n as i32` keeps the low 32 bits.
unfoldable pub literal_to_value : LiteralValue → Value
unfolding i32_of_bits i64_bits
literal_to_value (integer_lit n) = int (i32_of_bits (i64_bits n % 2 ^ 32))
literal_to_value (float_lit bits) = double bits
literal_to_value (string_lit s) = varchar s
literal_to_value (boolean_lit b) = bool b
literal_to_value (timestamp_lit t) = timestamp t
literal_to_value (date_lit d) = date d
literal_to_value (time_lit t) = time t
literal_to_value (interval_lit months days micros) = interval months days micros
literal_to_value null_lit = null

module _ (floats : Floats) (shift : ℤ → ℤ → ℤ → ℤ → Outcome ℤ) where
  unfoldable pub evaluate_expr : AnalyzedExpr → List Value → Outcome Value
  unfolding evaluate_binary evaluate_unary literal_to_value is_null
  evaluate_expr (literal v t) row = ok (literal_to_value v)
  evaluate_expr (column_ref i t) row = ok (get_or row i null)
  evaluate_expr (binary_op left op right t) row = do
    l ← evaluate_expr left row
    r ← evaluate_expr right row
    evaluate_binary floats shift op l r
  evaluate_expr (unary_op op e t) row = do v ← evaluate_expr e row; evaluate_unary op v
  evaluate_expr now row = bail
  evaluate_expr sequence_call row = bail
  evaluate_expr (is_null_test e negated) row = do
    v ← evaluate_expr e row
    ok (bool (if negated then not (is_null v) else is_null v))
