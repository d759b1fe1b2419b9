-- ===== src/Clog.antt =====
-- src/clog.rs: the commit log, two status bits for each transaction, in pages that are loaded on
-- first use and written back by `flush`. The file is its number of pages and their bytes; a
-- Boolean for each page says whether the operating system serves a read or a write of it.
pub mod View
pub mod Flush
pub mod Log
mod Tests
use ccdb.Prelude.Eq.{nat_eq}
use ccdb.Prelude.Bits.{two_bits, set_two_bits}
use ccdb.Prelude.Bytes.{Bytes, zeros, put}
use ccdb.Prelude.Map.{Map, lookup, contains_key, insert}
use ccdb.Prelude.{
  ℕ, [], ◌*◌, ◌%◌, if◌then◌else◌, List, Bool, ◌/◌, ◌==◌, ◌∷◌, Option, some, ltb, true, ◌+◌, leb,
  none, false,
}

-- `transaction_manager::TxnStatus`
pub data TxnStatus : Type 0 where
  in_progress committed aborted : TxnStatus

abbrev pub page_size : ℕ
page_size = 4096

abbrev pub txns_per_page : ℕ
txns_per_page = page_size * 4

-- `Inner`
pub record Clog : Type 0 where
  pub pages : Map ℕ Bytes
  pub dirty : List ℕ
  pub on_disk_pages : ℕ

pub record ClogFile : Type 0 where
  pub page_count : ℕ
  pub content : ℕ → Bytes

-- `Clog::open`
abbrev pub open_clog : ClogFile → Clog
open_clog file = record { pages = []; dirty = []; on_disk_pages = file.page_count }

-- `bit_position`: the byte's offset in its page, and the shift.
unfoldable pub bit_position : ℕ → ℕ × ℕ
bit_position txn_id = (txn_id % txns_per_page / 4, txn_id % 4 * 2)

abbrev pub status_of_bits : ℕ → TxnStatus
status_of_bits bits = if bits == 1 then committed else if bits == 2 then aborted else in_progress

abbrev pub bits_of_status : TxnStatus → ℕ
bits_of_status committed = 1
bits_of_status aborted = 2
bits_of_status in_progress = 0

-- `HashSet::insert`
unfoldable pub insert_set : ℕ → List ℕ → List ℕ
insert_set x [] = x ∷ []
insert_set x (y ∷ ys) = if y == x then y ∷ ys else y ∷ insert_set x ys

-- `inner.pages.get(&page_id).expect(..)`, whose panic is ruled out where it stands.
unfoldable pub loaded_page : Clog → ℕ → Bytes
loaded_page c page_id = elim (lookup page_id c.pages) [ some b ↦ b | none ↦ zeros ]

module _ (file : ClogFile) (io_ok : ℕ → Bool) where
  -- `Inner::ensure_loaded`; `none` is the error of a failed read.
  unfoldable pub ensure_loaded : Clog → ℕ → Option Clog
  ensure_loaded c page_id =
      if contains_key page_id c.pages
      then some c
      else if ltb page_id c.on_disk_pages
      then if io_ok page_id
        then some (record c { pages = insert page_id (file.content page_id) c.pages })
        else none
      else some (record c { pages = insert page_id zeros c.pages })

  -- `Clog::get`
  unfoldable pub get : Clog → ℕ → Option TxnStatus × Clog
  get c txn_id =
      let page_id = txn_id / txns_per_page in
      elim (ensure_loaded c page_id) [
        | none ↦ (none, c)
        | some c' ↦
            let (off, shift) = bit_position txn_id in
            (some (status_of_bits (two_bits (loaded_page c' page_id off) shift)), c')
      ]

  -- `Clog::set`
  unfoldable pub set : Clog → ℕ → TxnStatus → Option (Unit {0}) × Clog
  set c txn_id status =
      let page_id = txn_id / txns_per_page in
      elim (ensure_loaded c page_id) [
        | none ↦ (none, c)
        | some c' ↦
            let (off, shift) = bit_position txn_id in
            let page = loaded_page c' page_id in
            let page' = put page off (set_two_bits (page off) shift (bits_of_status status)) in
            (
              some tt,
              record c' {
                pages = insert page_id page' c'.pages;
                dirty = insert_set page_id c'.dirty;
              },
            )
      ]

-- Writing page `pid` at its place in the file: a gap between the old end and `pid` reads as zeros.
abbrev pub write_page : ClogFile → ℕ → Bytes → ClogFile
write_page file pid data' = record {
  page_count = if ltb pid file.page_count then file.page_count else pid + 1;
  content =
      λ i. if pid == i then data' else if ltb i file.page_count then file.content i else zeros;
}

-- The loop of `Clog::flush` over the dirty pages; the Boolean tells that every write went through.
unfoldable pub flush_pages : (ℕ → Bool) → List ℕ → Clog → ClogFile → Bool × Clog × ClogFile
flush_pages io_ok [] c file = (true, c, file)
flush_pages io_ok (pid ∷ pids) c file =
    let data' = loaded_page c pid in
    let c' = record c {
      on_disk_pages = if leb c.on_disk_pages pid then pid + 1 else c.on_disk_pages;
    } in
    let rest = flush_pages io_ok pids c' (write_page file pid data') in
    if io_ok pid then rest else (false, c, file)

-- `Clog::flush`
unfoldable pub flush : (ℕ → Bool) → Clog → ClogFile → Bool × Clog × ClogFile
flush io_ok c file =
    let (ok, c', file') = flush_pages io_ok c.dirty c file in
    (ok, (if ok then record c' { dirty = [] } else c'), file')
