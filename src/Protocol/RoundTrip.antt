-- ===== src/Protocol/RoundTrip.antt =====
-- src/protocol.rs: the encoding of a Bind message by a client, and the steps of parsing it. Numbers are
-- big-endian; each `put` puts its bytes in front of the rest of the message.
use ccdb.Protocol.{
  Parsed, Bind, read_i16, read_i32, i16_of, ok, i32_of, ◌>>=◌, read_i16s, read_bind_param,
  read_params, read_cstr, split_nul, capacity, parse_bind,
}
use ccdb.Prelude.Int.{ℤ, pos, pos_part, negsuc, neg_part}
use ccdb.Prelude.Cursor.{take-append_self, drop-append_skip}
use ccdb.Prelude.{
  ℕ, Bool, false, List, ◌/◌, ◌∷◌, Option, ◌++◌, ◌<◌, ◌≡◌, [], ◌%◌, ◌^◌, length, ◌-◌, ◌≤◌, some,
  none, ap, refl, true, arith, ◌+◌, ◌*◌, ◌∙◌, length-append, ltb, ◌==◌,
}

unfoldable pub put_16 : ℕ → List ℕ → List ℕ
put_16 n rest = (n / 256) ∷ (n % 256) ∷ rest

unfoldable pub put_32 : ℕ → List ℕ → List ℕ
put_32 n rest = (n / 16777216) ∷ (n / 65536 % 256) ∷ (n / 256 % 256) ∷ (n % 256) ∷ rest

unfoldable pub i16_code : ℤ → ℕ
i16_code (pos n) = n
i16_code (negsuc n) = 2 ^ 16 - 1 - n

abbrev pub IsI16 : ℤ → Type 0
IsI16 z = (pos_part z < 2 ^ 15) × (neg_part z ≤ 2 ^ 15)

abbrev pub AllI16 : List ℤ → Type 0
AllI16 [] = Unit {0}
AllI16 (z ∷ zs) = IsI16 z × AllI16 zs

abbrev pub NulFree : List ℕ → Type 0
NulFree [] = Unit {0}
NulFree (b ∷ bs) = (0 < b) × NulFree bs

-- A value is shorter than 2 GiB.
abbrev pub AllShort : List (Option (List ℕ)) → Type 0
AllShort [] = Unit {0}
AllShort (none ∷ ps) = AllShort ps
AllShort (some p ∷ ps) = (length p < 2 ^ 31) × AllShort ps

unfoldable pub put_i16s : List ℤ → List ℕ → List ℕ
put_i16s [] rest = rest
put_i16s (z ∷ zs) rest = put_16 (i16_code z) (put_i16s zs rest)

-- A null is the length -1.
unfoldable pub put_params : List (Option (List ℕ)) → List ℕ → List ℕ
put_params [] rest = rest
put_params (none ∷ ps) rest = put_32 (2 ^ 32 - 1) (put_params ps rest)
put_params (some p ∷ ps) rest = put_32 (length p) (p ++ put_params ps rest)

unfoldable pub encode_bind : Bind → List ℕ
encode_bind m =
    m.portal
    ++ 0
      ∷ (m.statement
          ++ 0
            ∷ put_16 (length m.param_formats) (
                put_i16s m.param_formats (
                  put_16 (length m.params) (
                    put_params m.params
                      (put_16 (length m.result_formats) (put_i16s m.result_formats []))))))

after {ℓ κ} :
    {A : Type ℓ} {B : Type κ} (k : A → Parsed B) {r : Parsed A} {a : A} {b : Parsed B}
    → r ≡ ok a
    → k a ≡ b
    → (r >>= k) ≡ b
after k e f = ap (λ x. x >>= k) e ∙ f

read_i16-put_16 : (n : ℕ) (rest : List ℕ) → read_i16 (put_16 n rest) ≡ ok (i16_of n, rest)
unfolding read_i16 put_16
read_i16-put_16 n rest =
    let e : n / 256 * 256 + n % 256 ≡ n = omega arith in ap (λ m. ok (i16_of m, rest)) e

read_i32-put_32 : (n : ℕ) (rest : List ℕ) → read_i32 (put_32 n rest) ≡ ok (i32_of n, rest)
unfolding read_i32 put_32
read_i32-put_32 n rest =
    let e : ((n / 16777216 * 256 + n / 65536 % 256) * 256 + n / 256 % 256) * 256 + n % 256 ≡ n =
      (omega arith) in
    ap (λ m. ok (i32_of m, rest)) e

i16_of-i16_code : (z : ℤ) → IsI16 z → i16_of (i16_code z) ≡ z
unfolding i16_of i16_code
i16_of-i16_code z h = ground arith

capacity-i16_of : (n : ℕ) → n < 2 ^ 15 → capacity (i16_of n) ≡ ok n
unfolding capacity i16_of
capacity-i16_of n h = ground arith

i32_of-small : (n : ℕ) → n < 2 ^ 31 → i32_of n ≡ pos n
unfolding i32_of
i32_of-small n h = ground arith

read_i16s-put_i16s :
    (zs : List ℤ) (rest : List ℕ)
    → AllI16 zs
    → read_i16s (length zs) (put_i16s zs rest) ≡ ok (zs, rest)
unfolding read_i16s put_i16s
read_i16s-put_i16s [] rest h = refl
read_i16s-put_i16s (z ∷ zs) rest (h, hs) =
    after _
      (read_i16-put_16 (i16_code z) (put_i16s zs rest)
        ∙ ap (λ v. ok (v, put_i16s zs rest)) (i16_of-i16_code z h))
      (after _ (read_i16s-put_i16s zs rest hs) refl)

read_bind_param-append : (p t : List ℕ) → read_bind_param (pos (length p)) (p ++ t) ≡ ok (some p, t)
unfolding read_bind_param
read_bind_param-append p t =
    let fits : ltb (length (p ++ t)) (length p) ≡ false = ground (arith, length-append p t) in
    rw (fits, take-append_self p t, drop-append_skip p t 0 (length p) (omega arith))

null : i32_of (2 ^ 32 - 1) ≡ negsuc 0
unfolding i32_of
null = refl

read_params-put_params :
    (ps : List (Option (List ℕ))) (rest : List ℕ)
    → AllShort ps
    → read_params (length ps) (put_params ps rest) ≡ ok (ps, rest)
unfolding read_params read_bind_param put_params
read_params-put_params [] rest h = refl
read_params-put_params (none ∷ ps) rest h =
    after _
      (read_i32-put_32 (2 ^ 32 - 1) (put_params ps rest)
        ∙ ap (λ n. ok (n, put_params ps rest)) null)
      (after _ (read_params-put_params ps rest h) refl)
read_params-put_params (some p ∷ ps) rest (h, hs) =
    after _
      (read_i32-put_32 (length p) (p ++ put_params ps rest)
        ∙ ap (λ n. ok (n, p ++ put_params ps rest)) (i32_of-small (length p) h))
      (after _ (read_bind_param-append p (put_params ps rest))
        (after _ (read_params-put_params ps rest hs) refl))

split_nul-append : (s rest : List ℕ) → NulFree s → split_nul (s ++ 0 ∷ rest) ≡ some (s, rest)
unfolding split_nul
split_nul-append [] rest h = refl
split_nul-append (b ∷ s) rest (h, hs) =
    let other : (b == 0) ≡ false = ground arith in rw (split_nul-append s rest hs, other)

module _ (is_utf8 : List ℕ → Bool) where
  read_cstr-append :
      (s rest : List ℕ)
      → NulFree s
      → is_utf8 s ≡ true
      → read_cstr is_utf8 (s ++ 0 ∷ rest) ≡ ok (s, rest)
  unfolding read_cstr
  read_cstr-append s rest h u = rw (read_cstr, split_nul-append s rest h, u)

  -- What a client encodes as a Bind message is parsed as this message, if the two names are UTF-8
  -- without a NUL, every format code is an i16, there are fewer than 2^15 elements in each list,
  -- and every value is shorter than 2^31 bytes.
  pub parse_bind-encode_bind :
      (m : Bind)
      → NulFree m.portal × (is_utf8 m.portal ≡ true)
      → NulFree m.statement × (is_utf8 m.statement ≡ true)
      → AllI16 m.param_formats × (length m.param_formats < 2 ^ 15)
      → AllShort m.params × (length m.params < 2 ^ 15)
      → AllI16 m.result_formats × (length m.result_formats < 2 ^ 15)
      → parse_bind is_utf8 (encode_bind m) ≡ ok m
  unfolding parse_bind encode_bind
  parse_bind-encode_bind m (hp, up) (hs, us) (hf, lf) (hv, lv) (hr, lr) =
      after _ (read_cstr-append m.portal _ hp up) (
        after _ (read_cstr-append m.statement _ hs us) (
          after _ (read_i16-put_16 (length m.param_formats) _) (
            after _ (capacity-i16_of (length m.param_formats) lf) (
              after _ (read_i16s-put_i16s m.param_formats _ hf) (
                after _ (read_i16-put_16 (length m.params) _) (
                  after _ (capacity-i16_of (length m.params) lv) (
                    after _ (read_params-put_params m.params _ hv) (
                      after _ (read_i16-put_16 (length m.result_formats) _) (
                        after _ (capacity-i16_of (length m.result_formats) lr)
                          (after _ (read_i16s-put_i16s m.result_formats [] hr) refl))))))))))
