-- ===== src/Executor/Typing/Sound.antt =====
-- src/executor.rs, src/analyzer.rs: the analyzer's types hold at run time.
use ccdb.Prelude.Order.{cmp_int, cmp_bytes}
use ccdb.Executor.Evaluate.{evaluate_binary, eval_double}
use ccdb.Prelude.{◌≡◌, Option, some, refl, subst, sym}
use ccdb.Prelude.Int.{ℤ}
use ccdb.Tuple.{
  int_type, double_type, Value, DataType, int, double, date, interval, varchar, varchar_type, bool,
  timestamp, time, time_type, null,
}
use ccdb.Executor.{Floats, Outcome}
use ccdb.Analyzer.{BinaryOperator, infer_binary_type, add_op, sub_op, mul_op, div_op}
use ccdb.Executor.Typing.{
  Fits, Gives, binary, eval_int-Gives, eval_double-Gives, eval_int_date-Gives,
  eval_int_interval-Gives, compares-Gives, eval_bool-Gives, eval_timestamp-Gives, eval_shift-Gives,
  eval_date_int-Gives, eval_date-Gives, eval_date_shift-Gives, eval_time_interval-Gives,
  eval_interval_int-Gives, eval_shift_right-Gives, eval_shift_date-Gives, eval_interval_time-Gives,
  eval_interval-Gives,
}

retype :
    (op : BinaryOperator) (o : Outcome Value) {l r : Option DataType} {t u : DataType}
    → l ≡ some t
    → r ≡ some u
    → Gives o (binary op t u)
    → Gives o (some (infer_binary_type op l r))
retype op o hl hr g = rw (hl, hr) g

-- An integer that meets a double is one.
double_left :
    (op : BinaryOperator) → binary op int_type double_type ≡ binary op double_type double_type
unfolding infer_binary_type
double_left add_op = refl
double_left sub_op = refl
double_left mul_op = refl
double_left div_op = refl
double_left op = refl

double_right :
    (op : BinaryOperator) → binary op double_type int_type ≡ binary op double_type double_type
unfolding infer_binary_type
double_right add_op = refl
double_right sub_op = refl
double_right mul_op = refl
double_right div_op = refl
double_right op = refl

module _ (floats : Floats) (shift : ℤ → ℤ → ℤ → ℤ → Outcome ℤ) where
  -- One operation on two values of the types that the analyzer knows.
  pub evaluate_binary-Gives :
      (op : BinaryOperator) (l r : Value) (a b : Option DataType)
      → Fits l a
      → Fits r b
      → Gives (evaluate_binary floats shift op l r) (some (infer_binary_type op a b))
  unfolding evaluate_binary
  evaluate_binary-Gives op null r a b hl hr = tt
  evaluate_binary-Gives op (int x) null a b hl hr = tt
  evaluate_binary-Gives op (int x) (int y) a b hl hr = retype op _ hl hr (eval_int-Gives op x y)
  evaluate_binary-Gives op (int x) (double y) a b hl hr = retype op _ hl hr (
      subst (Gives (eval_double floats shift op (floats.of_int x) y)) (sym (double_left op))
        (eval_double-Gives floats shift op (floats.of_int x) y))
  evaluate_binary-Gives op (int x) (date y) a b hl hr =
      retype op _ hl hr (eval_int_date-Gives op x y)
  evaluate_binary-Gives op (int x) (interval y y' y'') a b hl hr =
      retype op _ hl hr (eval_int_interval-Gives op x y y' y'')
  evaluate_binary-Gives op (int x) r a b hl hr = tt
  evaluate_binary-Gives op (varchar x) null a b hl hr = tt
  evaluate_binary-Gives op (varchar x) (varchar y) a b hl hr =
      retype op _ hl hr (compares-Gives op (some (cmp_bytes x y)) varchar_type (λ h. cc))
  evaluate_binary-Gives op (varchar x) r a b hl hr = tt
  evaluate_binary-Gives op (bool x) null a b hl hr = tt
  evaluate_binary-Gives op (bool x) (bool y) a b hl hr = retype op _ hl hr (eval_bool-Gives op x y)
  evaluate_binary-Gives op (bool x) r a b hl hr = tt
  evaluate_binary-Gives op (double x) null a b hl hr = tt
  evaluate_binary-Gives op (double x) (int y) a b hl hr = retype op _ hl hr (
      subst (Gives (eval_double floats shift op x (floats.of_int y))) (sym (double_right op))
        (eval_double-Gives floats shift op x (floats.of_int y)))
  evaluate_binary-Gives op (double x) (double y) a b hl hr =
      retype op _ hl hr (eval_double-Gives floats shift op x y)
  evaluate_binary-Gives op (double x) r a b hl hr = tt
  evaluate_binary-Gives op (timestamp x) null a b hl hr = tt
  evaluate_binary-Gives op (timestamp x) (timestamp y) a b hl hr =
      retype op _ hl hr (eval_timestamp-Gives op x y)
  evaluate_binary-Gives op (timestamp x) (interval y y' y'') a b hl hr =
      retype op _ hl hr (eval_shift-Gives floats shift op x y y' y'')
  evaluate_binary-Gives op (timestamp x) r a b hl hr = tt
  evaluate_binary-Gives op (date x) null a b hl hr = tt
  evaluate_binary-Gives op (date x) (int y) a b hl hr =
      retype op _ hl hr (eval_date_int-Gives op x y)
  evaluate_binary-Gives op (date x) (date y) a b hl hr = retype op _ hl hr (eval_date-Gives op x y)
  evaluate_binary-Gives op (date x) (interval y y' y'') a b hl hr =
      retype op _ hl hr (eval_date_shift-Gives floats shift op x y y' y'')
  evaluate_binary-Gives op (date x) r a b hl hr = tt
  evaluate_binary-Gives op (time x) null a b hl hr = tt
  evaluate_binary-Gives op (time x) (time y) a b hl hr =
      retype op _ hl hr (compares-Gives op (some (cmp_int x y)) time_type (λ h. cc))
  evaluate_binary-Gives op (time x) (interval y y' y'') a b hl hr =
      retype op _ hl hr (eval_time_interval-Gives op x y'')
  evaluate_binary-Gives op (time x) r a b hl hr = tt
  evaluate_binary-Gives op (interval x x' x'') null a b hl hr = tt
  evaluate_binary-Gives op (interval x x' x'') (int y) a b hl hr =
      retype op _ hl hr (eval_interval_int-Gives op x x' x'' y)
  evaluate_binary-Gives op (interval x x' x'') (timestamp y) a b hl hr =
      retype op _ hl hr (eval_shift_right-Gives floats shift op y x x' x'')
  evaluate_binary-Gives op (interval x x' x'') (date y) a b hl hr =
      retype op _ hl hr (eval_shift_date-Gives floats shift op y x x' x'')
  evaluate_binary-Gives op (interval x x' x'') (time y) a b hl hr =
      retype op _ hl hr (eval_interval_time-Gives op x'' y)
  evaluate_binary-Gives op (interval x x' x'') (interval y y' y'') a b hl hr =
      retype op _ hl hr (eval_interval-Gives op (x, x', x'') (y, y', y''))
  evaluate_binary-Gives op (interval x x' x'') r a b hl hr = tt
