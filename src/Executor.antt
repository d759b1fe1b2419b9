-- ===== src/Executor.antt =====
-- src/executor.rs: the evaluation of expressions on a row.
--
-- An overflow of `i32` or `i64` arithmetic is a result of its own, `overflow`: the code panics there if
-- it is compiled with overflow checks, and wraps around if not. The operations of `f64` are a parameter;
-- so is what `chrono` makes of a timestamp and an interval.
pub mod Evaluate
pub mod Typing
pub mod Sort
pub mod Aggregate
mod Tests
use ccdb.Prelude.Order.{Ordering, less, equal, greater}
use ccdb.Tuple.{Value, null, int, varchar, bool, double, timestamp, date, time, interval}
use ccdb.Analyzer.{
  BinaryOperator, eq_op, ne_op, lt_op, le_op, gt_op, ge_op, and_op, or_op, add_op, sub_op, mul_op,
  div_op, UnaryOperator, not_op, neg_op, LiteralValue, integer_lit, float_lit, string_lit,
  boolean_lit, null_lit, timestamp_lit, date_lit, time_lit, interval_lit, AnalyzedExpr, literal,
  column_ref, binary_op, unary_op, is_null_test, now, sequence_call,
}
use ccdb.Prelude.Int.{ℤ, pos, negsuc, pos_part, neg_part, ◌+ℤ◌, ◌*ℤ◌, sub_ℕ, i32_of_bits}
use ccdb.Prelude.{
  ℕ, zero, suc, ◌+◌, ◌-◌, ◌*◌, ◌/◌, ◌%◌, ◌^◌, Bool, true, false, not, ◌&&◌, ◌||◌, List, [], ◌∷◌,
  Option, some, none, ltb, leb, ◌==◌, if◌then◌else◌,
}

pub data Outcome {ℓ} (A : Type ℓ) : Type ℓ where
  ok : A → Outcome A
  bail overflow : Outcome A

infixl 5 ◌>>=◌
abbrev pub ◌>>=◌ {ℓ κ} : {A : Type ℓ} {B : Type κ} → Outcome A → (A → Outcome B) → Outcome B
ok a >>= f = f a
bail >>= f = bail
overflow >>= f = overflow

unfoldable pub reverse_order : Ordering → Ordering
reverse_order less = greater
reverse_order equal = equal
reverse_order greater = less

-- Integers of 32 and 64 bits

abbrev pub negate : ℤ → ℤ
negate z = sub_ℕ (neg_part z) (pos_part z)

unfoldable pub in_i32 : ℤ → Bool
in_i32 z = ltb (pos_part z) (2 ^ 31) && leb (neg_part z) (2 ^ 31)

unfoldable pub in_i64 : ℤ → Bool
in_i64 z = ltb (pos_part z) (2 ^ 63) && leb (neg_part z) (2 ^ 63)

unfoldable pub i32 : ℤ → Outcome ℤ
unfolding in_i32
i32 z = if in_i32 z then ok z else overflow

unfoldable pub i64 : ℤ → Outcome ℤ
unfolding in_i64
i64 z = if in_i64 z then ok z else overflow

-- Division drops the fraction.
unfoldable pub quot : ℤ → ℤ → ℤ
quot (pos a) (pos b) = pos (a / b)
quot (pos a) (negsuc b) = negate (pos (a / suc b))
quot (negsuc a) (pos b) = negate (pos (suc a / b))
quot (negsuc a) (negsuc b) = pos (suc a / suc b)

-- `rem_euclid` with a positive divisor
unfoldable pub rem_euclid : ℤ → ℕ → ℕ
rem_euclid (pos n) d = n % d
rem_euclid (negsuc n) d = d - 1 - n % d

unfoldable pub is_zero : ℤ → Bool
is_zero z = pos_part z + neg_part z == 0

-- `i32::saturating_add`
unfoldable pub saturating_add : ℤ → ℤ → ℤ
saturating_add a b =
    let z = a +ℤ b in
    if leb (2 ^ 31) (pos_part z)
    then pos (2 ^ 31 - 1)
    else if ltb (2 ^ 31) (neg_part z)
    then negsuc (2 ^ 31 - 1)
    else z

abbrev pub day_us : ℕ
day_us = 86400000000

-- `f64`, on bit patterns.
pub record Floats : Type 0 where
  pub of_int : ℤ → ℕ
  pub partial_cmp : ℕ → ℕ → Option Ordering
  pub add : ℕ → ℕ → ℕ
  pub sub : ℕ → ℕ → ℕ
  pub mul : ℕ → ℕ → ℕ
  pub div : ℕ → ℕ → ℕ
  pub is_zero : ℕ → Bool

-- The six comparisons, from what `partial_cmp` gives.
unfoldable pub compare_op : BinaryOperator → Option Ordering → Outcome Value
compare_op eq_op (some equal) = ok (bool true)
compare_op eq_op o = ok (bool false)
compare_op ne_op (some equal) = ok (bool false)
compare_op ne_op o = ok (bool true)
compare_op lt_op (some less) = ok (bool true)
compare_op lt_op o = ok (bool false)
compare_op le_op (some less) = ok (bool true)
compare_op le_op (some equal) = ok (bool true)
compare_op le_op o = ok (bool false)
compare_op gt_op (some greater) = ok (bool true)
compare_op gt_op o = ok (bool false)
compare_op ge_op (some greater) = ok (bool true)
compare_op ge_op (some equal) = ok (bool true)
compare_op ge_op o = ok (bool false)
compare_op op o = bail
