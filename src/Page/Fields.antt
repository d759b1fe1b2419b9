-- ===== src/Page/Fields.antt =====
-- src/page.rs: what a write leaves alone, and what is read back.
use ccdb.Prelude.Bytes.{
  Bytes, le_bytes, from_le, slice, splice, put, from_le-le_bytes, length-le_bytes,
  slice-splice_self, slice-splice_disjoint, slice-put_disjoint,
}
use ccdb.Prelude.{ℕ, ◌+◌, ◌^◌, ◌<◌, ◌≤◌, ◌≡◌, ◌⊎◌, inl, List, length, arith, ap, ◌∙◌, sym}
use ccdb.Page.{read_int, write_int, read_slot, write_slot, slot_pos}

-- The ranges [p, p + n) and [q, q + m) do not meet.
abbrev pub Apart : ℕ → ℕ → ℕ → ℕ → Type 0
Apart p n q m = (p + n ≤ q) ⊎ (q + m ≤ p)

pub slice-splice_away :
    (b : Bytes) (p q n : ℕ) (bs : List ℕ)
    → Apart q n p (length bs)
    → slice (splice b p bs) q n ≡ slice b q n
slice-splice_away b p q n bs h = slice-splice_disjoint b p bs q n (λ j lo hi. ground (arith, h))

pub slice-write_int :
    (w : ℕ) (b : Bytes) (p v q n : ℕ) → Apart q n p w → slice (write_int w b p v) q n ≡ slice b q n
unfolding write_int
slice-write_int w b p v q n h =
    slice-splice_away b p q n (le_bytes w v) (ground (arith, h, length-le_bytes w v))

pub slice-put_away : (b : Bytes) (p v q n : ℕ) → Apart q n p 1 → slice (put b p v) q n ≡ slice b q n
slice-put_away b p v q n h = slice-put_disjoint b p v q n (λ j lo hi. ground (arith, h))

pub read_int-splice :
    (w : ℕ) (b : Bytes) (p q : ℕ) (bs : List ℕ)
    → Apart q w p (length bs)
    → read_int w (splice b p bs) q ≡ read_int w b q
unfolding read_int
read_int-splice w b p q bs h = ap from_le (slice-splice_away b p q w bs h)

pub read_int-write_int :
    (w v : ℕ) (b : Bytes) (p q n : ℕ)
    → Apart q w p v
    → read_int w (write_int v b p n) q ≡ read_int w b q
unfolding read_int
read_int-write_int w v b p q n h = ap from_le (slice-write_int v b p n q w h)

pub read_int-put :
    (w : ℕ) (b : Bytes) (p v q : ℕ) → Apart q w p 1 → read_int w (put b p v) q ≡ read_int w b q
unfolding read_int
read_int-put w b p v q h = ap from_le (slice-put_away b p v q w h)

pub read_int-write_int_self :
    (w : ℕ) (b : Bytes) (p n : ℕ) → n < 256 ^ w → read_int w (write_int w b p n) p ≡ n
unfolding read_int write_int
read_int-write_int_self w b p n h =
    ap (λ k. from_le (slice (splice b p (le_bytes w n)) p k)) (sym (length-le_bytes w n))
    ∙ ap from_le (slice-splice_self b p (le_bytes w n))
    ∙ from_le-le_bytes w n h

-- A slot's entry is four bytes.
pub slice-write_slot :
    (b : Bytes) (s off len q n : ℕ)
    → Apart q n (slot_pos s) 4
    → slice (write_slot b s off len) q n ≡ slice b q n
unfolding write_slot
slice-write_slot b s off len q n h =
    slice-write_int 2 _ (slot_pos s + 2) len q n (ground (arith, h))
    ∙ slice-write_int 2 b (slot_pos s) off q n (ground (arith, h))

pub read_int-write_slot :
    (w : ℕ) (b : Bytes) (s off len q : ℕ)
    → Apart q w (slot_pos s) 4
    → read_int w (write_slot b s off len) q ≡ read_int w b q
unfolding read_int
read_int-write_slot w b s off len q h = ap from_le (slice-write_slot b s off len q w h)

pub read_slot-write_slot_self :
    (b : Bytes) (s off len : ℕ)
    → off < 2 ^ 16
    → len < 2 ^ 16
    → read_slot (write_slot b s off len) s ≡ (off, len)
unfolding read_slot write_slot
read_slot-write_slot_self b s off len ho hl = cc (
  read_int-write_int 2 2 (write_int 2 b (slot_pos s) off) (slot_pos s + 2) (slot_pos s) len
      (inl (omega arith)),
  read_int-write_int_self 2 b (slot_pos s) off ho,
  read_int-write_int_self 2 (write_int 2 b (slot_pos s) off) (slot_pos s + 2) len hl,
)

pub read_slot-same :
    (b c : Bytes) (s : ℕ)
    → slice c (slot_pos s) 2 ≡ slice b (slot_pos s) 2
    → slice c (slot_pos s + 2) 2 ≡ slice b (slot_pos s + 2) 2
    → read_slot c s ≡ read_slot b s
unfolding read_slot read_int
read_slot-same b c s h k = cc (ap from_le h, ap from_le k)
