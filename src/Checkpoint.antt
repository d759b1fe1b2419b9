-- ===== src/Checkpoint.antt =====
-- src/checkpoint.rs: the file that names the last checkpoint. The file is its bytes, or is not there;
-- no other error of the file system is modelled.
pub mod RoundTrip
use ccdb.Prelude.Bytes.{le_bytes}
use ccdb.Prelude.Cursor.{read_le}
use ccdb.Prelude.{ℕ, List, ◌++◌, Option, some, none, length, ltb, if◌then◌else◌}

pub record CheckpointMeta : Type 0 where
  pub lsn : ℕ
  pub next_txn_id : ℕ

abbrev pub MetaFile : Type 0
MetaFile = Option (List ℕ)

-- A file of less than sixteen bytes reads as none.
unfoldable pub read_meta : MetaFile → Option CheckpointMeta
read_meta none = none
read_meta (some bytes) =
    if ltb (length bytes) 16
    then none
    else some (record { lsn = read_le 8 0 bytes; next_txn_id = read_le 8 8 bytes })

-- The file is truncated first.
unfoldable pub write_meta : MetaFile → CheckpointMeta → MetaFile
write_meta file meta = some (le_bytes 8 meta.lsn ++ le_bytes 8 meta.next_txn_id)

unfoldable pub delete_meta : MetaFile → MetaFile
delete_meta file = none
