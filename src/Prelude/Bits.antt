-- ===== src/Prelude/Bits.antt =====
-- Facts about bytes and their bits, checked for all values.
use ccdb.Prelude.{◌||◌, ◌≢◌, ltb, ltb→lt}
use Prim.Native.Nat.{ℕ, zero, suc, ◌<◌, bit_and, bit_or, ◌/◌, ◌*◌, ◌^◌, ◌-◌}
use native.Mathlib.Omega.{arith}
use mathlib.Core.Bool.{Bool, true, ◌&&◌}
use mathlib.Core.Path.{◌≡◌, refl}
use ccdb.Prelude.Tests.{◌==◌}

-- A finite range is checked by evaluating the test at each of its numbers.
unfoldable pub holds_below : ℕ → (ℕ → Bool) → Bool
holds_below zero test = true
holds_below (suc n) test = test n && holds_below n test

pub holds_below-at :
    (n : ℕ) (test : ℕ → Bool) (i : ℕ) → holds_below n test ≡ true → i < n → test i ≡ true
unfolding holds_below
holds_below-at zero test i all small = ground (arith, small)
holds_below-at (suc n) test i all small = ground (arith, holds_below-at n test i)

-- `(b >> 2k) & 3`
unfoldable pub two_bits : ℕ → ℕ → ℕ
two_bits b shift = bit_and (b / 2 ^ shift) 3

-- `(b & !(3 << shift)) | (v << shift)`
unfoldable pub set_two_bits : ℕ → ℕ → ℕ → ℕ
set_two_bits b shift v = bit_or (bit_and b (255 - 3 * 2 ^ shift)) (v * 2 ^ shift)

two_bits_table :
    holds_below 256 (λ b. holds_below 4 (λ k. holds_below 4 (λ v.
      (two_bits (set_two_bits b (k * 2) v) (k * 2) == v)
      && holds_below 4
          (λ j. (j == k) || (two_bits (set_two_bits b (k * 2) v) (j * 2) == two_bits b (j * 2))))))
    ≡ true
unfolding holds_below two_bits set_two_bits
two_bits_table = refl

two_bits_cell :
    (b k v : ℕ)
    → b < 256
    → k < 4
    → v < 4
    → ((two_bits (set_two_bits b (k * 2) v) (k * 2) == v)
        && holds_below 4
            (λ j. (j == k) || (two_bits (set_two_bits b (k * 2) v) (j * 2) == two_bits b (j * 2))))
      ≡ true
two_bits_cell b k v hb hk hv =
    holds_below-at 4 _ v (holds_below-at 4 _ k (holds_below-at 256 _ b two_bits_table hb) hk) hv

-- A two-bit field that was written is read back.
pub two_bits-set :
    (b k v : ℕ) → b < 256 → k < 4 → v < 4 → two_bits (set_two_bits b (k * 2) v) (k * 2) ≡ v
two_bits-set b k v hb hk hv = ground (arith, two_bits_cell b k v hb hk hv)

-- The other fields of the byte keep their values.
pub two_bits-set_ne :
    (b k v j : ℕ)
    → b < 256
    → k < 4
    → v < 4
    → j < 4
    → j ≢ k
    → two_bits (set_two_bits b (k * 2) v) (j * 2) ≡ two_bits b (j * 2)
two_bits-set_ne b k v j hb hk hv hj ne =
    let cell = two_bits_cell b k v hb hk hv in
    let rest : holds_below 4
          (λ j. (j == k) || (two_bits (set_two_bits b (k * 2) v) (j * 2) == two_bits b (j * 2)))
        ≡ true =
      ground arith in
    ground (arith, holds_below-at 4 _ j rest hj)

set_two_bits_table :
    holds_below 256
      (λ b. holds_below 4 (λ k. holds_below 4 (λ v. ltb (set_two_bits b (k * 2) v) 256)))
    ≡ true
unfolding holds_below set_two_bits
set_two_bits_table = refl

pub set_two_bits-lt : (b k v : ℕ) → b < 256 → k < 4 → v < 4 → set_two_bits b (k * 2) v < 256
set_two_bits-lt b k v hb hk hv = ltb→lt _ _ (
    holds_below-at 4 _ v (holds_below-at 4 _ k (holds_below-at 256 _ b set_two_bits_table hb) hk)
      hv)
