-- ===== src/Executor/Typing.antt =====
-- src/executor.rs, src/analyzer.rs: what an expression evaluates to is of the type that the analyzer gave it.
pub mod Sound
pub mod Expressions
use ccdb.Prelude.Order.{Ordering, less, equal, greater, cmp_int, cmp_bool}
use ccdb.Prelude.Int.{◌+ℤ◌, ◌*ℤ◌, pos}
use mathlib.Core.Bool.{true, false}
use ccdb.Executor.Evaluate.{
  eval_double, eval_shift, eval_shift_right, eval_date_shift, eval_shift_date, eval_int, eval_bool,
  eval_timestamp, eval_date, eval_date_int, eval_int_date, eval_interval, eval_interval_int,
  eval_int_interval, eval_time_interval, eval_interval_time, negated, scale,
}
use ccdb.Prelude.Int.{ℤ}
use ccdb.Prelude.{Option, some, ◌≡◌, none, refl, ℕ, ◌≢◌, Bool, if◌then◌else◌}
use ccdb.Analyzer.{
  BinaryOperator, eq_op, infer_binary_type, add_op, ne_op, lt_op, le_op, gt_op, ge_op, sub_op,
  mul_op, and_op, div_op, or_op,
}
use ccdb.Tuple.{
  Value, DataType, int, bool_type, int_type, varchar, varchar_type, bool, double, double_type,
  timestamp, timestamp_type, date, date_type, time, time_type, interval, interval_type, null,
}
use ccdb.Executor.{
  Outcome, ok, bail, overflow, ◌>>=◌, compare_op, i32, i64, Floats, negate, is_zero, day_us, quot,
}

-- A value is of a type, or null; a null type is that of null alone.
abbrev pub Fits : Value → Option DataType → Type 0
Fits null t = Unit {0}
Fits (int v) t = t ≡ some int_type
Fits (varchar v) t = t ≡ some varchar_type
Fits (bool v) t = t ≡ some bool_type
Fits (double v) t = t ≡ some double_type
Fits (timestamp v) t = t ≡ some timestamp_type
Fits (date v) t = t ≡ some date_type
Fits (time v) t = t ≡ some time_type
Fits (interval m d u) t = t ≡ some interval_type

-- What an evaluation gives, if it gives a value.
abbrev pub Gives : Outcome Value → Option DataType → Type 0
Gives (ok v) t = Fits v t
Gives bail t = Unit {0}
Gives overflow t = Unit {0}

pub bind-Gives {ℓ} :
    {A : Type ℓ} (t : Option DataType) (o : Outcome A) (f : A → Outcome Value)
    → ((a : A) → Gives (f a) t)
    → Gives (o >>= f) t
bind-Gives t (ok a) f h = h a
bind-Gives t bail f h = tt
bind-Gives t overflow f h = tt

if-Gives :
    (t : Option DataType) (b : Bool) (x y : Outcome Value)
    → Gives x t
    → Gives y t
    → Gives (if b then x else y) t
if-Gives t true x y h k = h
if-Gives t false x y h k = k

pub compare_op-Gives :
    (op : BinaryOperator) (o : Option Ordering) → Gives (compare_op op o) (some bool_type)
unfolding compare_op
compare_op-Gives eq_op none = refl
compare_op-Gives eq_op (some less) = refl
compare_op-Gives eq_op (some equal) = refl
compare_op-Gives eq_op (some greater) = refl
compare_op-Gives ne_op none = refl
compare_op-Gives ne_op (some less) = refl
compare_op-Gives ne_op (some equal) = refl
compare_op-Gives ne_op (some greater) = refl
compare_op-Gives lt_op none = refl
compare_op-Gives lt_op (some less) = refl
compare_op-Gives lt_op (some equal) = refl
compare_op-Gives lt_op (some greater) = refl
compare_op-Gives le_op none = refl
compare_op-Gives le_op (some less) = refl
compare_op-Gives le_op (some equal) = refl
compare_op-Gives le_op (some greater) = refl
compare_op-Gives gt_op none = refl
compare_op-Gives gt_op (some less) = refl
compare_op-Gives gt_op (some equal) = refl
compare_op-Gives gt_op (some greater) = refl
compare_op-Gives ge_op none = refl
compare_op-Gives ge_op (some less) = refl
compare_op-Gives ge_op (some equal) = refl
compare_op-Gives ge_op (some greater) = refl
compare_op-Gives op o = tt

-- The type of an operation on two types.
abbrev pub binary : BinaryOperator → DataType → DataType → Option DataType
binary op l r = some (infer_binary_type op (some l) (some r))

-- An operator that only compares.
pub compares-Gives :
    (op : BinaryOperator) (o : Option Ordering) (t : DataType)
    → t ≢ interval_type
    → Gives (compare_op op o) (binary op t t)
unfolding infer_binary_type compare_op
compares-Gives add_op o t n = tt
compares-Gives sub_op o t n = tt
compares-Gives mul_op o t n = tt
compares-Gives div_op o t n = tt
compares-Gives op o t n = compare_op-Gives op o

module _ (floats : Floats) (shift : ℤ → ℤ → ℤ → ℤ → Outcome ℤ) where
  pub eval_double-Gives :
      (op : BinaryOperator) (a b : ℕ)
      → Gives (eval_double floats shift op a b) (binary op double_type double_type)
  unfolding eval_double infer_binary_type
  eval_double-Gives add_op a b = refl
  eval_double-Gives sub_op a b = refl
  eval_double-Gives mul_op a b = refl
  eval_double-Gives div_op a b = if-Gives _ (floats.is_zero b) bail _ tt refl
  eval_double-Gives op a b = compares-Gives op (floats.partial_cmp a b) double_type (λ h. cc)

  pub eval_shift-Gives :
      (op : BinaryOperator) (ts m k u : ℤ)
      → Gives (eval_shift shift op ts m k u) (binary op timestamp_type interval_type)
  unfolding eval_shift infer_binary_type
  eval_shift-Gives add_op ts m k u = bind-Gives _ (shift ts m k u) _ (λ _. refl)
  eval_shift-Gives sub_op ts m k u =
      bind-Gives _ (negated m k u) _ (λ r. bind-Gives _ (shift ts r.0 r.1 r.2) _ (λ _. refl))
  eval_shift-Gives op ts m k u = tt

  pub eval_shift_right-Gives :
      (op : BinaryOperator) (ts m k u : ℤ)
      → Gives (eval_shift_right shift op ts m k u) (binary op interval_type timestamp_type)
  unfolding eval_shift_right infer_binary_type
  eval_shift_right-Gives add_op ts m k u = bind-Gives _ (shift ts m k u) _ (λ _. refl)
  eval_shift_right-Gives op ts m k u = tt

  pub eval_date_shift-Gives :
      (op : BinaryOperator) (d m k u : ℤ)
      → Gives (eval_date_shift shift op d m k u) (binary op date_type interval_type)
  unfolding eval_date_shift infer_binary_type
  eval_date_shift-Gives add_op d m k u =
      bind-Gives _ (i64 (d *ℤ pos day_us)) _ (λ ts. eval_shift-Gives add_op ts m k u)
  eval_date_shift-Gives sub_op d m k u =
      bind-Gives _ (i64 (d *ℤ pos day_us)) _ (λ ts. eval_shift-Gives sub_op ts m k u)
  eval_date_shift-Gives op d m k u = tt

  pub eval_shift_date-Gives :
      (op : BinaryOperator) (d m k u : ℤ)
      → Gives (eval_shift_date shift op d m k u) (binary op interval_type date_type)
  unfolding eval_shift_date infer_binary_type
  eval_shift_date-Gives add_op d m k u =
      bind-Gives _ (i64 (d *ℤ pos day_us)) _ (λ ts. eval_shift_right-Gives add_op ts m k u)
  eval_shift_date-Gives op d m k u = tt

pub eval_int-Gives :
    (op : BinaryOperator) (a b : ℤ) → Gives (eval_int op a b) (binary op int_type int_type)
unfolding eval_int infer_binary_type
eval_int-Gives add_op a b = bind-Gives _ (i32 (a +ℤ b)) _ (λ _. refl)
eval_int-Gives sub_op a b = bind-Gives _ (i32 (a +ℤ negate b)) _ (λ _. refl)
eval_int-Gives mul_op a b = bind-Gives _ (i32 (a *ℤ b)) _ (λ _. refl)
eval_int-Gives div_op a b =
    if-Gives _ (is_zero b) bail _ tt (bind-Gives _ (i32 (quot a b)) _ (λ _. refl))
eval_int-Gives op a b = compare_op-Gives op (some (cmp_int a b))

pub eval_bool-Gives :
    (op : BinaryOperator) (a b : Bool) → Gives (eval_bool op a b) (binary op bool_type bool_type)
unfolding eval_bool infer_binary_type
eval_bool-Gives and_op a b = refl
eval_bool-Gives or_op a b = refl
eval_bool-Gives eq_op a b = compare_op-Gives eq_op (some (cmp_bool a b))
eval_bool-Gives ne_op a b = compare_op-Gives ne_op (some (cmp_bool a b))
eval_bool-Gives op a b = tt

pub eval_timestamp-Gives :
    (op : BinaryOperator) (a b : ℤ)
    → Gives (eval_timestamp op a b) (binary op timestamp_type timestamp_type)
unfolding eval_timestamp infer_binary_type
eval_timestamp-Gives sub_op a b = bind-Gives _ (i64 (a +ℤ negate b)) _ (λ _. refl)
eval_timestamp-Gives op a b = compares-Gives op (some (cmp_int a b)) timestamp_type (λ h. cc)

pub eval_date-Gives :
    (op : BinaryOperator) (a b : ℤ) → Gives (eval_date op a b) (binary op date_type date_type)
unfolding eval_date infer_binary_type
eval_date-Gives sub_op a b = bind-Gives _ (i32 (a +ℤ negate b)) _ (λ _. refl)
eval_date-Gives op a b = compares-Gives op (some (cmp_int a b)) date_type (λ h. cc)

pub eval_date_int-Gives :
    (op : BinaryOperator) (d n : ℤ) → Gives (eval_date_int op d n) (binary op date_type int_type)
unfolding eval_date_int infer_binary_type
eval_date_int-Gives add_op d n = refl
eval_date_int-Gives sub_op d n = bind-Gives _ (i32 (negate n)) _ (λ _. refl)
eval_date_int-Gives op d n = tt

pub eval_int_date-Gives :
    (op : BinaryOperator) (n d : ℤ) → Gives (eval_int_date op n d) (binary op int_type date_type)
unfolding eval_int_date infer_binary_type
eval_int_date-Gives add_op n d = refl
eval_int_date-Gives op n d = tt

-- Three fields that are computed one after the other make an interval.
interval-Gives :
    (m d u : Outcome ℤ)
    → Gives (m >>= λ a. d >>= λ b. u >>= λ c. ok (interval a b c)) (some interval_type)
interval-Gives m d u = bind-Gives _ m _ (λ a. bind-Gives _ d _ (λ b. bind-Gives _ u _ (λ c. refl)))

pub eval_interval-Gives :
    (op : BinaryOperator) (a b : ℤ × ℤ × ℤ)
    → Gives (eval_interval op a b) (binary op interval_type interval_type)
unfolding eval_interval infer_binary_type
eval_interval-Gives add_op (m1, d1, u1) (m2, d2, u2) =
    interval-Gives (i32 (m1 +ℤ m2)) (i32 (d1 +ℤ d2)) (i64 (u1 +ℤ u2))
eval_interval-Gives sub_op (m1, d1, u1) (m2, d2, u2) =
    bind-Gives _ (negated m2 d2 u2) _
      (λ r. interval-Gives (i32 (m1 +ℤ r.0)) (i32 (d1 +ℤ r.1)) (i64 (u1 +ℤ r.2)))
eval_interval-Gives op a b = tt

pub eval_interval_int-Gives :
    (op : BinaryOperator) (m d u n : ℤ)
    → Gives (eval_interval_int op m d u n) (binary op interval_type int_type)
unfolding eval_interval_int scale infer_binary_type
eval_interval_int-Gives mul_op m d u n = interval-Gives (i32 (m *ℤ n)) (i32 (d *ℤ n)) (i64 (u *ℤ n))
eval_interval_int-Gives div_op m d u n =
    if-Gives _ (is_zero n) bail _ tt
      (interval-Gives (i32 (quot m n)) (i32 (quot d n)) (i64 (quot u n)))
eval_interval_int-Gives op m d u n = tt

pub eval_int_interval-Gives :
    (op : BinaryOperator) (n m d u : ℤ)
    → Gives (eval_int_interval op n m d u) (binary op int_type interval_type)
unfolding eval_int_interval scale infer_binary_type
eval_int_interval-Gives mul_op n m d u = interval-Gives (i32 (m *ℤ n)) (i32 (d *ℤ n)) (i64 (u *ℤ n))
eval_int_interval-Gives op n m d u = tt

pub eval_time_interval-Gives :
    (op : BinaryOperator) (t u : ℤ)
    → Gives (eval_time_interval op t u) (binary op time_type interval_type)
unfolding eval_time_interval infer_binary_type
eval_time_interval-Gives add_op t u = bind-Gives _ (i64 (t +ℤ u)) _ (λ _. refl)
eval_time_interval-Gives sub_op t u =
    bind-Gives _ (i64 (negate u)) _ (λ v. bind-Gives _ (i64 (t +ℤ v)) _ (λ _. refl))
eval_time_interval-Gives op t u = tt

pub eval_interval_time-Gives :
    (op : BinaryOperator) (u t : ℤ)
    → Gives (eval_interval_time op u t) (binary op interval_type time_type)
unfolding eval_interval_time infer_binary_type
eval_interval_time-Gives add_op u t = bind-Gives _ (i64 (t +ℤ u)) _ (λ _. refl)
eval_interval_time-Gives op u t = tt
