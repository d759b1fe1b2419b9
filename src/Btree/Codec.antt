-- ===== src/Btree/Codec.antt =====
-- src/btree.rs: entries and keys are read back as they were written.
use ccdb.Wal.Fields.{IsRid}
use ccdb.Prelude.Cursor.{
  length-le_bytes_append, read_le, read_le-here, drop-le_bytes, read_le-skip, take-append_self,
  read_le-behind, read_le-whole,
}
use ccdb.Wal.{Rid}
use ccdb.Prelude.Bytes.{le_bytes, length-le_bytes}
use ccdb.Btree.Entry.{
  decode_leaf_entry, decode_internal_entry, encode_leaf_entry, encode_internal_entry,
}
use ccdb.Prelude.{
  List, ℕ, length, take, ◌≡◌, ◌++◌, ◌+◌, ◌<◌, drop, ◌^◌, ap, length-append, some, arith, ◌∙◌, refl,
  ltb, false,
}

-- Behind its length and the key of an entry.
module _ (key rest : List ℕ) where
  abbrev entry : List ℕ
  entry = le_bytes 2 (length key) ++ (key ++ rest)

  length-entry : length entry ≡ 2 + length key + length rest
  length-entry = rw (length-le_bytes_append, length-append) (omega arith)

  key_length : length key < 2 ^ 16 → read_le 2 0 entry ≡ length key
  key_length h = read_le-here 2 (length key) _ h

  key_bytes : take (length key) (drop 2 entry) ≡ key
  key_bytes =
      ap (take (length key)) (drop-le_bytes 2 (length key) 0 2 (key ++ rest) refl)
      ∙ take-append_self key rest

  behind_key : (w p q : ℕ) → q ≡ 2 + length key + p → read_le w q entry ≡ read_le w p rest
  behind_key w p q e =
      read_le-skip 2 (length key) w (length key + p) q (key ++ rest) (omega arith)
      ∙ read_le-behind key rest w p (length key + p) refl

-- A leaf entry is read back as the key and the row id that were written, in their widths.
pub decode_leaf_entry-encode_leaf_entry :
    (key : List ℕ) (rid : Rid)
    → length key < 2 ^ 16
    → IsRid rid
    → decode_leaf_entry (encode_leaf_entry key rid) ≡ some (key, rid)
unfolding decode_leaf_entry encode_leaf_entry
decode_leaf_entry-encode_leaf_entry key (pid, slot) h (hp, hs) =
    let rest : List ℕ = le_bytes 4 pid ++ le_bytes 2 slot in
    let page : read_le 4 (2 + length key) (entry key rest) ≡ pid =
      behind_key key rest 4 0 _ (omega arith) ∙ read_le-here 4 pid _ hp in
    let last : read_le 2 (2 + length key + 4) (entry key rest) ≡ slot =
      behind_key key rest 2 4 _ refl ∙ read_le-skip 4 pid 2 0 4 _ refl ∙ read_le-whole 2 slot hs in
    let size : ltb (length (entry key rest)) (2 + length key + 6) ≡ false = ground (
      arith,
      length-entry key rest,
      length-le_bytes_append 4 pid (le_bytes 2 slot),
      length-le_bytes 2 slot,
    ) in
    rw (key_length key rest h, size, key_bytes key rest, page, last) refl

pub decode_internal_entry-encode_internal_entry :
    (key : List ℕ) (child : ℕ)
    → length key < 2 ^ 16
    → child < 2 ^ 32
    → decode_internal_entry (encode_internal_entry key child) ≡ some (key, child)
unfolding decode_internal_entry encode_internal_entry
decode_internal_entry-encode_internal_entry key child h hc =
    let rest : List ℕ = le_bytes 4 child in
    let last : read_le 4 (2 + length key) (entry key rest) ≡ child =
      behind_key key rest 4 0 _ (omega arith) ∙ read_le-whole 4 child hc in
    let size : ltb (length (entry key rest)) (2 + length key + 4) ≡ false =
      ground (arith, length-entry key rest, length-le_bytes 4 child) in
    rw (key_length key rest h, size, key_bytes key rest, last) refl
