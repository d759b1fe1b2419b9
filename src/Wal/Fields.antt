-- ===== src/Wal/Fields.antt =====
-- src/wal.rs: reading back a row id.
use ccdb.Prelude.Bytes.{le_bytes, from_le}
use ccdb.Prelude.Cursor.{read_le, read_le-here, read_le-skip, drop-le_bytes, length-le_bytes_append}
use ccdb.Prelude.{ℕ, ◌+◌, ◌^◌, ◌<◌, ◌≡◌, List, ◌++◌, take, drop, length, arith, refl, ap, ◌∙◌}
use ccdb.Wal.{Rid, read_rid, encode_rid}

-- A row id of a `u32` and a `u16`.
abbrev pub IsRid : Rid → Type 0
IsRid (pid, slot) = (pid < 2 ^ 32) × (slot < 2 ^ 16)

pub read_rid-encode_rid :
    (rid : Rid) (rest : List ℕ) → IsRid rid → read_rid 0 (encode_rid rid rest) ≡ rid
unfolding read_rid encode_rid
read_rid-encode_rid (pid, slot) rest (hp, hs) = cc (
  read_le-here 4 pid _ hp,
  read_le-skip 4 pid 2 0 4 (le_bytes 2 slot ++ rest) refl ∙ read_le-here 2 slot rest hs,
)

pub drop-encode_rid :
    (rid : Rid) (p q : ℕ) (rest : List ℕ) → q ≡ 6 + p → drop q (encode_rid rid rest) ≡ drop p rest
unfolding encode_rid
drop-encode_rid (pid, slot) p q rest e =
    drop-le_bytes 4 pid (2 + p) q _ (omega arith) ∙ drop-le_bytes 2 slot p (2 + p) rest refl

pub read_le-encode_rid :
    (rid : Rid) (w p q : ℕ) (rest : List ℕ)
    → q ≡ 6 + p
    → read_le w q (encode_rid rid rest) ≡ read_le w p rest
unfolding read_le
read_le-encode_rid rid w p q rest e = ap (λ l. from_le (take w l)) (drop-encode_rid rid p q rest e)

pub length-encode_rid : (rid : Rid) (rest : List ℕ) → length (encode_rid rid rest) ≡ 6 + length rest
unfolding encode_rid
length-encode_rid (pid, slot) rest =
    rw (length-le_bytes_append, length-le_bytes_append) (omega arith)
