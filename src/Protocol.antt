-- ===== src/Protocol.antt =====
-- src/protocol.rs: the bodies of the messages of the extended query protocol. The position in the body
-- is what follows it; `is_utf8` says of which bytes `std::str::from_utf8` makes a string. A panic is a
-- result of its own.
pub mod RoundTrip
mod Tests
use ccdb.Prelude.Int.{ℤ, pos, negsuc}
use ccdb.Prelude.{
  ℕ, zero, suc, ◌+◌, ◌-◌, ◌*◌, ◌/◌, ◌%◌, ◌^◌, Bool, true, false, List, [], ◌∷◌, ◌++◌, Option, some,
  none, ltb, leb, ◌==◌, if◌then◌else◌, take, drop, length,
}

pub data Parsed {ℓ} (A : Type ℓ) : Type ℓ where
  ok : A → Parsed A
  bail panic : Parsed A

infixl 5 ◌>>=◌
abbrev pub ◌>>=◌ {ℓ κ} : {A : Type ℓ} {B : Type κ} → Parsed A → (A → Parsed B) → Parsed B
ok a >>= f = f a
bail >>= f = bail
panic >>= f = panic

pub record Parse : Type 0 where
  pub name : List ℕ
  pub query : List ℕ
  pub param_types : List ℤ

pub record Bind : Type 0 where
  pub portal : List ℕ
  pub statement : List ℕ
  pub param_formats : List ℤ
  pub params : List (Option (List ℕ))
  pub result_formats : List ℤ

-- The kinds `S` and `P` of Describe and Close are bytes here as in the source.
pub data FrontendMessage : Type 0 where
  query_message : List ℕ → FrontendMessage
  parse_message : Parse → FrontendMessage
  bind_message : Bind → FrontendMessage
  describe_message : ℕ × List ℕ → FrontendMessage
  execute_message : List ℕ × ℤ → FrontendMessage
  close_message : ℕ × List ℕ → FrontendMessage
  sync_message flush_message : FrontendMessage
  copy_data_message : List ℕ → FrontendMessage
  copy_done_message : FrontendMessage
  copy_fail_message : List ℕ → FrontendMessage
  terminate_message : FrontendMessage
  unknown_message : ℕ → FrontendMessage

unfoldable pub i16_of : ℕ → ℤ
i16_of u = if ltb u (2 ^ 15) then pos u else negsuc (2 ^ 16 - 1 - u)

unfoldable pub i32_of : ℕ → ℤ
i32_of u = if ltb u (2 ^ 31) then pos u else negsuc (2 ^ 32 - 1 - u)

-- The bytes before the first NUL, and those behind it.
unfoldable pub split_nul : List ℕ → Option (List ℕ × List ℕ)
split_nul [] = none
split_nul (b ∷ bs) =
    let rest = split_nul bs in
    if b == 0 then some ([], bs) else elim rest [ none ↦ none | some (s, t) ↦ some (b ∷ s, t) ]

unfoldable pub read_i16 : List ℕ → Parsed (ℤ × List ℕ)
unfolding i16_of
read_i16 (a ∷ b ∷ rest) = ok (i16_of (a * 256 + b), rest)
read_i16 bs = bail

unfoldable pub read_i32 : List ℕ → Parsed (ℤ × List ℕ)
unfolding i32_of
read_i32 (a ∷ b ∷ c ∷ d ∷ rest) = ok (i32_of (((a * 256 + b) * 256 + c) * 256 + d), rest)
read_i32 bs = bail

-- `as usize` and `Vec::with_capacity`, which panics on what a negative number becomes.
unfoldable pub capacity : ℤ → Parsed ℕ
capacity (pos n) = ok n
capacity (negsuc n) = panic

unfoldable pub read_i16s : ℕ → List ℕ → Parsed (List ℤ × List ℕ)
read_i16s zero bs = ok ([], bs)
read_i16s (suc n) bs = do (v, rest) ← read_i16 bs; (vs, end) ← read_i16s n rest; ok (v ∷ vs, end)

unfoldable pub read_i32s : ℕ → List ℕ → Parsed (List ℤ × List ℕ)
read_i32s zero bs = ok ([], bs)
read_i32s (suc n) bs = do (v, rest) ← read_i32 bs; (vs, end) ← read_i32s n rest; ok (v ∷ vs, end)

-- One parameter of `Bind`, of the length that was read.
unfoldable pub read_bind_param : ℤ → List ℕ → Parsed (Option (List ℕ) × List ℕ)
read_bind_param (negsuc n) bs = ok (none, bs)
read_bind_param (pos n) bs = if ltb (length bs) n then bail else ok (some (take n bs), drop n bs)

unfoldable pub read_params : ℕ → List ℕ → Parsed (List (Option (List ℕ)) × List ℕ)
read_params zero bs = ok ([], bs)
read_params (suc n) bs = do
  (len, body) ← read_i32 bs
  (p, rest) ← read_bind_param len body
  (ps, end) ← read_params n rest
  ok (p ∷ ps, end)

module _ (is_utf8 : List ℕ → Bool) where
  unfoldable pub read_cstr : List ℕ → Parsed (List ℕ × List ℕ)
  unfolding split_nul
  read_cstr bs = elim (split_nul bs) [
    | none ↦ bail
    | some (s, rest) ↦ if is_utf8 s then ok (s, rest) else bail
  ]

  unfoldable pub parse_parse : List ℕ → Parsed Parse
  parse_parse buf = do
    (name, b) ← read_cstr buf
    (query, c) ← read_cstr b
    (n, d) ← read_i16 c
    k ← capacity n
    (types, e) ← read_i32s k d
    ok (record { name = name; query = query; param_types = types })

  unfoldable pub parse_bind : List ℕ → Parsed Bind
  parse_bind buf = do
    (portal, b) ← read_cstr buf
    (statement, c) ← read_cstr b
    (nf, d) ← read_i16 c
    kf ← capacity nf
    (formats, e) ← read_i16s kf d
    (np, f) ← read_i16 e
    kp ← capacity np
    (params, g) ← read_params kp f
    (nr, h) ← read_i16 g
    kr ← capacity nr
    (results, i) ← read_i16s kr h
    ok (record {
      portal = portal;
      statement = statement;
      param_formats = formats;
      params = params;
      result_formats = results;
    })

  -- The kind and the name in the body of Describe and of Close.
  unfoldable pub parse_named : List ℕ → Parsed (ℕ × List ℕ)
  parse_named [] = bail
  parse_named (kind ∷ buf) = do (name, rest) ← read_cstr buf; ok (kind, name)

  unfoldable pub parse_execute : List ℕ → Parsed (List ℕ × ℤ)
  parse_execute buf = do
    (portal, rest) ← read_cstr buf
    (max_rows, end) ← read_i32 rest
    ok (portal, max_rows)

  -- `buf.last() != Some(&0)` refuses a query.
  unfoldable pub parse_query : List ℕ → Parsed (List ℕ)
  parse_query buf =
      let text = take (length buf - 1) buf in
      elim (drop (length buf - 1) buf) [
        | [] ↦ bail
        | b ∷ _ ↦ if b == 0 then (if is_utf8 text then ok text else bail) else bail
      ]

  unfoldable pub parse_copy_fail : List ℕ → List ℕ
  parse_copy_fail buf = elim (read_cstr buf) [ ok (reason, _) ↦ reason | bail ↦ [] | panic ↦ [] ]

  -- The message of a type and a body.
  unfoldable pub parse_message_body : ℕ → List ℕ → Parsed FrontendMessage
  parse_message_body t buf =
      if t == 81
      then (do text ← parse_query buf; ok (query_message text))
      else if t == 80
      then (do m ← parse_parse buf; ok (parse_message m))
      else if t == 66
      then (do m ← parse_bind buf; ok (bind_message m))
      else if t == 68
      then (do m ← parse_named buf; ok (describe_message m))
      else if t == 69
      then (do m ← parse_execute buf; ok (execute_message m))
      else if t == 67
      then (do m ← parse_named buf; ok (close_message m))
      else if t == 83
      then ok sync_message
      else if t == 72
      then ok flush_message
      else if t == 100
      then ok (copy_data_message buf)
      else if t == 99
      then ok copy_done_message
      else if t == 102
      then ok (copy_fail_message (parse_copy_fail buf))
      else if t == 88
      then ok terminate_message
      else ok (unknown_message t)
