-- ===== src/Wal/Checkpoint.antt =====
-- src/wal.rs: the tables of a checkpoint record are read back. A table is written in the order of
-- its entries, and rebuilt by inserting them.
use ccdb.Prelude.Cursor.{read_le, read_le-here, drop-le_bytes, length-le_bytes_append, read_le-skip}
use ccdb.Prelude.Eq.{nat_eq}
use ccdb.Prelude.Bytes.{le_bytes, from_le}
use ccdb.Prelude.Map.{Map, NodupKeys, lookup, insert, lookup-insert}
use mathlib.Core.List.{append-nil, append_assoc}
use ccdb.Wal.{encode_entries, decode_entries, decode_dpt, decode_checkpoint, checkpoint}
use ccdb.Prelude.{
  ℕ, suc, ◌+◌, ◌^◌, ◌<◌, ◌≡◌, ◌⊎◌, none, some, List, [], ◌∷◌, ◌++◌, take, drop, length, arith, refl,
  ap, ◌∙◌, zero, sym, inl, ltb, length-drop, false,
}

-- Keys of `w` bytes and values of eight.
abbrev pub FitEntries : ℕ → Map ℕ ℕ → Type 0
FitEntries w [] = Unit
FitEntries w ((k, v) ∷ m) = (k < 256 ^ w) × (v < 2 ^ 64) × FitEntries w m

abbrev insert_all : Map ℕ ℕ → Map ℕ ℕ → Map ℕ ℕ
insert_all acc [] = acc
insert_all acc ((k, v) ∷ m) = insert_all (insert k v acc) m

insert-absent : (k v : ℕ) (m : Map ℕ ℕ) → lookup k m ≡ none → insert k v m ≡ m ++ (k, v) ∷ []
unfolding insert lookup
insert-absent k v [] h = refl
insert-absent k v ((j, w) ∷ m) h = ground (arith, insert-absent k v m)

insert_all-append :
    (acc m : Map ℕ ℕ)
    → NodupKeys m
    → ((j : ℕ) → (lookup j acc ≡ none) ⊎ (lookup j m ≡ none))
    → insert_all acc m ≡ acc ++ m
unfolding lookup
insert_all-append acc [] h apart = sym (append-nil acc)
insert_all-append acc ((k, v) ∷ m) h apart =
    let absent : lookup k acc ≡ none = ground (arith, apart k) in
    insert_all-append (insert k v acc) m h.1
      (λ j. ground (arith, lookup-insert k j v acc, apart j, h.0))
    ∙ ap (λ a. a ++ m) (insert-absent k v acc absent)
    ∙ append_assoc acc ((k, v) ∷ []) m

insert_all_nil : (m : Map ℕ ℕ) → NodupKeys m → insert_all [] m ≡ m
unfolding lookup
insert_all_nil m h = insert_all-append [] m h (λ j. inl refl)

drop_nil : (q : ℕ) → drop {A = ℕ} q [] ≡ []
drop_nil zero = refl
drop_nil (suc q) = refl

drop-drop : (p q r : ℕ) (bs : List ℕ) → r ≡ p + q → drop r bs ≡ drop q (drop p bs)
drop-drop zero q r bs e = let same : r ≡ q = omega arith in ap (λ i. drop i bs) same
drop-drop (suc p) q r [] e = drop_nil r ∙ sym (drop_nil q)
drop-drop (suc p) q zero (b ∷ bs) e = absurd (omega arith)
drop-drop (suc p) q (suc r) (b ∷ bs) e = drop-drop p q r bs (omega arith)

-- A read past an offset, of the list from that offset on.
read_le-drop : (w p q r : ℕ) (bs : List ℕ) → r ≡ p + q → read_le w r bs ≡ read_le w q (drop p bs)
unfolding read_le
read_le-drop w p q r bs e = ap (λ l. from_le (take w l)) (drop-drop p q r bs e)

length-encode_entries :
    (w : ℕ) (k v : ℕ) (m : Map ℕ ℕ) (tail : List ℕ)
    → length (encode_entries w ((k, v) ∷ m) tail) ≡ w + 8 + length (encode_entries w m tail)
unfolding encode_entries
length-encode_entries w k v m tail =
    rw (length-le_bytes_append, length-le_bytes_append) (omega arith)

drop-encode_entries :
    (w k v : ℕ) (m : Map ℕ ℕ) (tail : List ℕ)
    → drop (w + 8) (encode_entries w ((k, v) ∷ m) tail) ≡ encode_entries w m tail
unfolding encode_entries
drop-encode_entries w k v m tail =
    drop-le_bytes w k 8 (w + 8) _ refl ∙ drop-le_bytes 8 v 0 8 (encode_entries w m tail) refl

-- One round of the loop, at the offset where an entry was written.
module _ (w k v p : ℕ) (m : Map ℕ ℕ) (tail rest : List ℕ) (fits : (k < 256 ^ w) × (v < 2 ^ 64))
    (at_entry : drop p rest ≡ encode_entries w ((k, v) ∷ m) tail) where
  read_key : read_le w p rest ≡ k
  unfolding encode_entries
  read_key =
      read_le-drop w p 0 p rest (omega arith)
      ∙ ap (read_le w 0) at_entry
      ∙ read_le-here w k _ fits.0

  read_value : read_le 8 (p + w) rest ≡ v
  unfolding encode_entries
  read_value =
      read_le-drop 8 p w (p + w) rest refl
      ∙ ap (read_le 8 w) at_entry
      ∙ read_le-skip w k 8 0 w _ (omega arith)
      ∙ read_le-here 8 v _ fits.1

  in_range : ltb (length rest) (p + (w + 8)) ≡ false
  in_range =
      let size = length-encode_entries w k v m tail in
      let left = length-drop p rest in
      let same = ap length at_entry in ground (arith, size, left, same)

  at_next : drop (p + (w + 8)) rest ≡ encode_entries w m tail
  at_next =
      drop-drop p (w + 8) _ rest refl
      ∙ ap (drop (w + 8)) at_entry
      ∙ drop-encode_entries w k v m tail

decode_entries_step :
    (w n p : ℕ) (rest : List ℕ) (acc : Map ℕ ℕ)
    → ltb (length rest) (p + (w + 8)) ≡ false
    → decode_entries w (suc n) p rest acc
      ≡ decode_entries w n
          (p + (w + 8))
          rest
          (insert (read_le w p rest) (read_le 8 (p + w) rest) acc)
unfolding decode_entries
decode_entries_step w n p rest acc h = rw (h, decode_entries)

decode_entries_lem :
    (w p : ℕ) (m acc : Map ℕ ℕ) (rest tail : List ℕ)
    → FitEntries w m
    → drop p rest ≡ encode_entries w m tail
    → (q : ℕ) × (decode_entries w (length m) p rest acc ≡ some (q, insert_all acc m))
      × (drop q rest ≡ tail)
unfolding decode_entries encode_entries
decode_entries_lem w p [] acc rest tail h e = (p, refl, e)
decode_entries_lem w p ((k, v) ∷ m) acc rest tail (hk, hv, h) e =
    let (q, d, t) =
      decode_entries_lem w (p + (w + 8)) m (insert k v acc) rest tail h
        (at_next w k v p m tail rest (hk, hv) e) in
    (
      q,
      decode_entries_step w (length m) p rest acc (in_range w k v p m tail rest (hk, hv) e)
          ∙ rw (read_key w k v p m tail rest (hk, hv) e, read_value w k v p m tail rest (hk, hv) e)
              d,
      t,
    )

abbrev pub FitTable : ℕ → Map ℕ ℕ → Type 0
FitTable w m = FitEntries w m × NodupKeys m × (length m < 2 ^ 32)

dpt_round_trip :
    (att dpt : Map ℕ ℕ) (p : ℕ) (rest : List ℕ)
    → FitTable 4 dpt
    → drop p rest ≡ le_bytes 4 (length dpt) ++ encode_entries 4 dpt []
    → decode_dpt att p rest ≡ some (checkpoint att dpt)
unfolding decode_dpt
dpt_round_trip att dpt p rest (fd, nd, ld) here =
    let at_entries : drop (p + 4) rest ≡ encode_entries 4 dpt [] =
      drop-drop p 4 _ rest refl
      ∙ ap (drop 4) here
      ∙ drop-le_bytes 4 (length dpt) 0 4 (encode_entries 4 dpt []) refl in
    let (q, dd, _) = decode_entries_lem 4 (p + 4) dpt [] rest [] fd at_entries in
    let count : read_le 4 p rest ≡ length dpt =
      read_le-drop 4 p 0 p rest (omega arith)
      ∙ ap (read_le 4 0) here
      ∙ read_le-here 4 (length dpt) _ ld in
    let size = length-le_bytes_append 4 (length dpt) (encode_entries 4 dpt []) in
    let left = length-drop p rest in
    let same = ap length here in
    let long : ltb (length rest) (p + 4) ≡ false = ground (arith, size, left, same) in
    rw (long, count, dd, insert_all_nil dpt nd)

pub checkpoint_round_trip :
    (att dpt : Map ℕ ℕ)
    → FitTable 8 att
    → FitTable 4 dpt
    → decode_checkpoint (
        le_bytes 4 (length att)
        ++ encode_entries 8 att (le_bytes 4 (length dpt) ++ encode_entries 4 dpt []))
      ≡ some (checkpoint att dpt)
unfolding decode_checkpoint
checkpoint_round_trip att dpt (fa, na, la) hd =
    let tail = le_bytes 4 (length dpt) ++ encode_entries 4 dpt [] in
    let body = encode_entries 8 att tail in
    let rest = le_bytes 4 (length att) ++ body in
    let (p, da, at_dpt) =
      decode_entries_lem 8 4 att [] rest tail fa (drop-le_bytes 4 (length att) 0 4 body refl) in
    let long : ltb (length rest) 4 ≡ false =
      ground (arith, length-le_bytes_append 4 (length att) body) in
    rw (long, read_le-here 4 (length att) body la, da, insert_all_nil att na)
      (dpt_round_trip att dpt p rest hd at_dpt)
