-- ===== src/Btree/Entry.antt =====
-- src/btree.rs: the bytes of an entry. Reading past the end of an entry is a panic of the source.
use ccdb.Prelude.{List, ℕ, length, Option, ◌++◌, if◌then◌else◌, ltb, ◌+◌, none, some, take, drop}
use ccdb.Prelude.Bytes.{le_bytes}
use ccdb.Prelude.Cursor.{read_le}
use ccdb.Wal.{Rid}
use ccdb.Page.{PageKind, heap, btree_leaf, btree_internal, sequence_rel}

unfoldable pub encode_leaf_entry : List ℕ → Rid → List ℕ
encode_leaf_entry key (page_id, slot) =
    le_bytes 2 (length key) ++ (key ++ (le_bytes 4 page_id ++ le_bytes 2 slot))

unfoldable pub decode_leaf_entry : List ℕ → Option (List ℕ × Rid)
decode_leaf_entry bytes =
    let klen = read_le 2 0 bytes in
    if ltb (length bytes) (2 + klen + 6)
    then none
    else some
        (take klen (drop 2 bytes), (read_le 4 (2 + klen) bytes, read_le 2 (2 + klen + 4) bytes))

unfoldable pub encode_internal_entry : List ℕ → ℕ → List ℕ
encode_internal_entry key child = le_bytes 2 (length key) ++ (key ++ le_bytes 4 child)

unfoldable pub decode_internal_entry : List ℕ → Option (List ℕ × ℕ)
decode_internal_entry bytes =
    let klen = read_le 2 0 bytes in
    if ltb (length bytes) (2 + klen + 4)
    then none
    else some (take klen (drop 2 bytes), read_le 4 (2 + klen) bytes)

-- The key of `decode_internal_entry_or_leaf_key`; no caller uses the number beside it.
unfoldable pub decode_internal_entry_or_leaf_key : PageKind → List ℕ → Option (List ℕ)
decode_internal_entry_or_leaf_key btree_leaf bytes = elim (decode_leaf_entry bytes) [
  | none ↦ none
  | some (key, _) ↦ some key
]
decode_internal_entry_or_leaf_key btree_internal bytes = elim (decode_internal_entry bytes) [
  | none ↦ none
  | some (key, _) ↦ some key
]
decode_internal_entry_or_leaf_key heap bytes = none
decode_internal_entry_or_leaf_key sequence_rel bytes = none
