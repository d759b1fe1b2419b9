-- ===== src/Protocol/Tests.antt =====
-- src/protocol.rs: a Bind message of three values (a number as text, an empty string, a null), and a negative count.
use ccdb.Protocol.RoundTrip.{encode_bind, parse_bind-encode_bind}
use ccdb.Protocol.{
  Bind, ok, bail, panic, parse_bind, parse_parse, parse_execute, read_cstr, read_i16, read_i32,
  read_i16s, read_params, read_bind_param, capacity, parse_message_body, parse_query, query_message,
  unknown_message,
}
use ccdb.Prelude.Int.{pos, negsuc}
use ccdb.Prelude.{ℕ, List, [], ◌∷◌, Bool, true, some, none, ◌≡◌, refl, arith}

abbrev any_bytes : List ℕ → Bool
any_bytes bs = true

abbrev values : Bind
values = record {
  portal = [];
  statement = 115 ∷ 49 ∷ [];
  param_formats = pos 0 ∷ [];
  params = some (52 ∷ 50 ∷ []) ∷ some [] ∷ none ∷ [];
  result_formats = pos 1 ∷ [];
}

parse_bind-encode_bind_example : parse_bind any_bytes (encode_bind values) ≡ ok values
parse_bind-encode_bind_example =
    parse_bind-encode_bind any_bytes values (tt, refl) ((omega arith, (omega arith, tt)), refl)
      (((omega arith, omega arith), tt), omega arith)
      ((omega arith, (omega arith, tt)), omega arith)
      (((omega arith, omega arith), tt), omega arith)

-- The count -1 of a Parse message, behind two empty names.
negative_count : parse_parse any_bytes (0 ∷ 0 ∷ 255 ∷ 255 ∷ []) ≡ panic
unfolding parse_parse read_cstr read_i16 capacity
negative_count = refl

-- A value that is shorter than its length says.
short_value : parse_bind any_bytes (0 ∷ 0 ∷ 0 ∷ 0 ∷ 0 ∷ 1 ∷ 0 ∷ 0 ∷ 0 ∷ 3 ∷ 65 ∷ 66 ∷ []) ≡ bail
unfolding parse_bind read_cstr read_i16 capacity read_i16s read_params read_i32 read_bind_param
short_value = refl

execute_all :
    parse_execute any_bytes (112 ∷ 0 ∷ 255 ∷ 255 ∷ 255 ∷ 255 ∷ []) ≡ ok (112 ∷ [], negsuc 0)
unfolding parse_execute read_cstr read_i32
execute_all = refl

simple_query : parse_message_body any_bytes 81 (59 ∷ 0 ∷ []) ≡ ok (query_message (59 ∷ []))
unfolding parse_message_body parse_query
simple_query = refl

empty_query : parse_message_body any_bytes 81 [] ≡ bail
unfolding parse_message_body parse_query
empty_query = refl

unknown_type : parse_message_body any_bytes 112 (1 ∷ []) ≡ ok (unknown_message 112)
unfolding parse_message_body
unknown_type = refl
