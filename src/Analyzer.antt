-- ===== src/Analyzer.antt =====
-- src/analyzer.rs, src/ast.rs: expressions with their types, and how the types of operators are inferred.
-- A string is the list of its UTF-8 bytes, a double the number its 64 bits make.
use ccdb.Tuple.{
  DataType, int_type, varchar_type, bool_type, double_type, timestamp_type, date_type, time_type,
  interval_type,
}
use ccdb.Prelude.Int.{ℤ}
use ccdb.Prelude.{ℕ, Bool, List, Option, some, none}

pub data BinaryOperator : Type 0 where
  eq_op ne_op lt_op le_op gt_op ge_op and_op or_op add_op sub_op mul_op div_op : BinaryOperator

pub data UnaryOperator : Type 0 where
  not_op neg_op : UnaryOperator

pub data LiteralValue : Type 0 where
  integer_lit : ℤ → LiteralValue
  float_lit : (bits : ℕ) → LiteralValue
  string_lit : List ℕ → LiteralValue
  boolean_lit : Bool → LiteralValue
  null_lit : LiteralValue
  timestamp_lit date_lit time_lit : ℤ → LiteralValue
  interval_lit : (months days micros : ℤ) → LiteralValue

-- `SequenceCall`'s fields are left out: no expression that has one is evaluated.
pub data AnalyzedExpr : Type 0 where
  literal : LiteralValue → Option DataType → AnalyzedExpr
  column_ref : (column_index : ℕ) → DataType → AnalyzedExpr
  binary_op : AnalyzedExpr → BinaryOperator → AnalyzedExpr → DataType → AnalyzedExpr
  unary_op : UnaryOperator → AnalyzedExpr → DataType → AnalyzedExpr
  is_null_test : AnalyzedExpr → (negated : Bool) → AnalyzedExpr
  now : AnalyzedExpr
  sequence_call : AnalyzedExpr

-- `AnalyzedExpr::data_type`
unfoldable pub data_type : AnalyzedExpr → Option DataType
data_type (literal v t) = t
data_type (column_ref i t) = some t
data_type (binary_op l op r t) = some t
data_type (unary_op op e t) = some t
data_type (is_null_test e negated) = some bool_type
data_type now = some timestamp_type
data_type sequence_call = some int_type

-- The types of the literals in `literal_to_analyzed`.
unfoldable pub literal_type : LiteralValue → Option DataType
literal_type (integer_lit n) = some int_type
literal_type (float_lit bits) = some double_type
literal_type (string_lit s) = some varchar_type
literal_type (boolean_lit b) = some bool_type
literal_type null_lit = none
literal_type (timestamp_lit t) = some timestamp_type
literal_type (date_lit d) = some date_type
literal_type (time_lit t) = some time_type
literal_type (interval_lit months days micros) = some interval_type

-- The last two cases of the match: a double on either side makes a double.
unfoldable pub numeric_type : Option DataType → Option DataType → DataType
numeric_type (some double_type) r = double_type
numeric_type l (some double_type) = double_type
numeric_type l r = int_type

-- The cases with `Add`, `Sub`, `Mul` and `Div`.
unfoldable pub add_type : Option DataType → Option DataType → DataType
unfolding numeric_type
add_type (some date_type) (some interval_type) = timestamp_type
add_type (some interval_type) (some date_type) = timestamp_type
add_type (some date_type) (some int_type) = date_type
add_type (some int_type) (some date_type) = date_type
add_type (some timestamp_type) (some interval_type) = timestamp_type
add_type (some interval_type) (some timestamp_type) = timestamp_type
add_type (some interval_type) (some interval_type) = interval_type
add_type (some time_type) (some interval_type) = time_type
add_type (some interval_type) (some time_type) = time_type
add_type l r = numeric_type l r

unfoldable pub sub_type : Option DataType → Option DataType → DataType
unfolding numeric_type
sub_type (some date_type) (some interval_type) = timestamp_type
sub_type (some date_type) (some int_type) = date_type
sub_type (some date_type) (some date_type) = int_type
sub_type (some timestamp_type) (some interval_type) = timestamp_type
sub_type (some timestamp_type) (some timestamp_type) = interval_type
sub_type (some interval_type) (some interval_type) = interval_type
sub_type (some time_type) (some interval_type) = time_type
sub_type l r = numeric_type l r

unfoldable pub mul_type : Option DataType → Option DataType → DataType
unfolding numeric_type
mul_type (some interval_type) (some int_type) = interval_type
mul_type (some interval_type) (some double_type) = interval_type
mul_type (some int_type) (some interval_type) = interval_type
mul_type (some double_type) (some interval_type) = interval_type
mul_type l r = numeric_type l r

unfoldable pub div_type : Option DataType → Option DataType → DataType
unfolding numeric_type
div_type (some interval_type) (some int_type) = interval_type
div_type (some interval_type) (some double_type) = interval_type
div_type l r = numeric_type l r

unfoldable pub infer_binary_type : BinaryOperator → Option DataType → Option DataType → DataType
unfolding add_type sub_type mul_type div_type
infer_binary_type add_op l r = add_type l r
infer_binary_type sub_op l r = sub_type l r
infer_binary_type mul_op l r = mul_type l r
infer_binary_type div_op l r = div_type l r
infer_binary_type op l r = bool_type

unfoldable pub infer_unary_type : UnaryOperator → DataType
infer_unary_type not_op = bool_type
infer_unary_type neg_op = int_type
