-- ===== src/Page.antt =====
-- src/page.rs: the slotted page over its 4096 bytes. An error of the source is `none`. The offsets
-- that the source computes in u16 stay below 2^16 on the pages that `Page.Valid` describes.
pub mod Fields
pub mod Valid
pub mod Insert
pub mod Delete
pub mod Mvcc
mod Tests
use ccdb.Prelude.Bytes.{Bytes, zeros, le_bytes, from_le, slice, splice, put}
use ccdb.Prelude.{
  ℕ, zero, suc, ◌+◌, ◌-◌, ◌*◌, ◌^◌, Bool, true, false, not, List, [], ◌∷◌, Option, some, none,
  length, ltb, leb, ◌==◌, if◌then◌else◌,
}

abbrev pub page_size : ℕ
page_size = 4096

abbrev pub header_size : ℕ
header_size = 24

abbrev pub slot_size : ℕ
slot_size = 4

abbrev pub no_next_page : ℕ
no_next_page = 2 ^ 32 - 1

pub data PageKind : Type 0 where
  heap btree_leaf btree_internal sequence_rel : PageKind

-- `PageKind::from_u8`, and the cast back
abbrev pub kind_of_byte : ℕ → PageKind
kind_of_byte b =
    if b == 1
    then btree_leaf
    else if b == 2
    then btree_internal
    else if b == 3
    then sequence_rel
    else heap

abbrev pub byte_of_kind : PageKind → ℕ
byte_of_kind heap = 0
byte_of_kind btree_leaf = 1
byte_of_kind btree_internal = 2
byte_of_kind sequence_rel = 3

-- An integer of `w` bytes, read and written in place.
unfoldable pub read_int : ℕ → Bytes → ℕ → ℕ
read_int w b p = from_le (slice b p w)

unfoldable pub write_int : ℕ → Bytes → ℕ → ℕ → Bytes
write_int w b p n = splice b p (le_bytes w n)

abbrev pub page_id : Bytes → ℕ
page_id b = read_int 4 b 0

abbrev pub next_page_id : Bytes → ℕ
next_page_id b = read_int 4 b 4

abbrev pub set_next_page_id : Bytes → ℕ → Bytes
set_next_page_id b next = write_int 4 b 4 next

abbrev pub tuple_count : Bytes → ℕ
tuple_count b = read_int 2 b 8

abbrev pub set_tuple_count : Bytes → ℕ → Bytes
set_tuple_count b n = write_int 2 b 8 n

abbrev pub free_space_offset : Bytes → ℕ
free_space_offset b = read_int 2 b 10

abbrev pub set_free_space_offset : Bytes → ℕ → Bytes
set_free_space_offset b off = write_int 2 b 10 off

abbrev pub page_lsn : Bytes → ℕ
page_lsn b = read_int 8 b 12

abbrev pub set_page_lsn : Bytes → ℕ → Bytes
set_page_lsn b lsn = write_int 8 b 12 lsn

abbrev pub page_kind : Bytes → PageKind
page_kind b = kind_of_byte (b 20)

abbrev pub set_page_kind : Bytes → PageKind → Bytes
set_page_kind b k = put b 20 (byte_of_kind k)

abbrev pub all_visible : Bytes → Bool
all_visible b = not (b 22 == 0)

abbrev pub set_all_visible : Bytes → Bool → Bytes
set_all_visible b v = put b 22 (if v then 1 else 0)

-- `Page::new`
unfoldable pub new : ℕ → Bytes
new page_id =
    let b = set_next_page_id (write_int 4 zeros 0 page_id) no_next_page in
    set_free_space_offset (set_tuple_count b 0) page_size

-- `free_space`, whose subtraction saturates
abbrev pub free_space : Bytes → ℕ
free_space b = free_space_offset b - (header_size + tuple_count b * slot_size)

abbrev pub slot_pos : ℕ → ℕ
slot_pos slot_id = header_size + slot_id * slot_size

unfoldable pub read_slot : Bytes → ℕ → ℕ × ℕ
read_slot b slot_id = (read_int 2 b (slot_pos slot_id), read_int 2 b (slot_pos slot_id + 2))

unfoldable pub write_slot : Bytes → ℕ → ℕ → ℕ → Bytes
write_slot b slot_id offset len =
    write_int 2 (write_int 2 b (slot_pos slot_id) offset) (slot_pos slot_id + 2) len

-- `insert`, in the branch where the tuple fits
unfoldable pub place : Bytes → List ℕ → Bytes
place b tuple_data =
    let new_off = free_space_offset b - length tuple_data in
    let slot_id = tuple_count b in
    let written = write_slot (splice b new_off tuple_data) slot_id new_off (length tuple_data) in
    set_all_visible (set_free_space_offset (set_tuple_count written (slot_id + 1)) new_off) false

unfoldable pub insert : Bytes → List ℕ → Option (ℕ × Bytes)
insert b tuple_data =
    if ltb (free_space b) (length tuple_data + slot_size)
    then none
    else some (tuple_count b, place b tuple_data)

unfoldable pub get_tuple : Bytes → ℕ → Option (List ℕ)
get_tuple b slot_id =
    let (off, len) = read_slot b slot_id in
    if leb (tuple_count b) slot_id then none else if len == 0 then none else some (slice b off len)

unfoldable pub delete : Bytes → ℕ → Option Bytes
delete b slot_id =
    let (off, len) = read_slot b slot_id in
    if leb (tuple_count b) slot_id
    then none
    else if len == 0
    then none
    else some (write_slot b slot_id off 0)

unfoldable pub set_tuple_xmax : Bytes → ℕ → ℕ → Option Bytes
set_tuple_xmax b slot_id xmax =
    let (off, len) = read_slot b slot_id in
    if leb (tuple_count b) slot_id
    then none
    else if len == 0
    then none
    else if ltb len 16
    then none
    else some (set_all_visible (write_int 8 b (off + 8) xmax) false)

-- `tuple::MVCC_HEADER_SIZE`, `TCTID_PAGE_OFF` and `TCTID_SLOT_OFF` are 22, 16 and 20.
unfoldable pub set_tuple_ctid : Bytes → ℕ → ℕ × ℕ → Option Bytes
set_tuple_ctid b slot_id (page, slot) =
    let (off, len) = read_slot b slot_id in
    if leb (tuple_count b) slot_id
    then none
    else if len == 0
    then none
    else if ltb len 22
    then none
    else some (write_int 2 (write_int 4 b (off + 16) page) (off + 20) slot)

unfoldable pub restore : Bytes → ℕ → List ℕ → Option Bytes
restore b slot_id tuple_data =
    let (off, len) = read_slot b slot_id in
    if leb (tuple_count b) slot_id
    then none
    else if not (len == 0)
    then none
    else if ltb page_size (off + length tuple_data)
    then none
    else some (
        set_all_visible (write_slot (splice b off tuple_data) slot_id off (length tuple_data))
          false)

-- The loop of `is_empty` over the first `n` slots.
unfoldable pub no_live : Bytes → ℕ → Bool
no_live b zero = true
no_live b (suc slot) = if (read_slot b slot).1 == 0 then no_live b slot else false

unfoldable pub is_empty : Bytes → Bool
is_empty b = no_live b (tuple_count b)
