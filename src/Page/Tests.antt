-- ===== src/Page/Tests.antt =====
-- src/page.rs: the theorems on a new page and on pages with tuples.
use ccdb.Prelude.Bytes.{Bytes, le_bytes, slice, splice, put, from_le}
use ccdb.Page.{
  new, place, insert, get_tuple, delete, restore, set_tuple_xmax, read_slot, write_slot, read_int,
  write_int, tuple_count,
}
use ccdb.Page.Valid.{IsValid, Fits}
use ccdb.Page.Insert.{insert-get, place-IsValid, place-get_new}
use ccdb.Page.Delete.{delete-restore}
use ccdb.Page.Mvcc.{set_tuple_xmax-get}
use ccdb.Prelude.{ℕ, ◌<◌, ◌≡◌, ◌≢◌, ◌++◌, List, [], ◌∷◌, some, none, arith, refl, ◌+◌, ◌-◌}

abbrev empty_page : Bytes
empty_page = new 7

abbrev row_bytes : List ℕ
row_bytes = 1 ∷ 0 ∷ 0 ∷ 0 ∷ 0 ∷ 0 ∷ 0 ∷ 0 ∷ 0 ∷ 0 ∷ 0 ∷ 0 ∷ 0 ∷ 0 ∷ 0 ∷ 0 ∷ 42 ∷ []

count-empty_page : tuple_count empty_page ≡ 0
unfolding new read_int write_int slice splice le_bytes from_le
count-empty_page = refl

empty_page-IsValid : IsValid empty_page
unfolding new read_int write_int slice splice le_bytes from_le
empty_page-IsValid = record {
  room = omega arith;
  top = omega arith;
  inside = λ s h live. absurd (omega (arith, h));
  disjoint = λ s t hs ht ne ls lt. absurd (omega (arith, hs));
}

empty_page-Fits : Fits empty_page row_bytes
unfolding new read_int write_int slice splice le_bytes from_le
empty_page-Fits = omega arith

insert-get_example :
    (c : Bytes) × (insert empty_page row_bytes ≡ some (tuple_count empty_page, c))
    × (get_tuple c (tuple_count empty_page) ≡ some row_bytes)
    × ((s : ℕ) → s < tuple_count empty_page → get_tuple c s ≡ get_tuple empty_page s)
    × IsValid c
insert-get_example =
    insert-get empty_page row_bytes empty_page-IsValid empty_page-Fits (omega arith)

abbrev one_row : Bytes
one_row = place empty_page row_bytes

one_row-IsValid : IsValid one_row
one_row-IsValid = place-IsValid empty_page row_bytes empty_page-IsValid empty_page-Fits

one_row-get : get_tuple one_row 0 ≡ some row_bytes
unfolding new read_int write_int slice splice le_bytes from_le
one_row-get = place-get_new empty_page row_bytes empty_page-IsValid empty_page-Fits (omega arith)

count-one_row : tuple_count one_row ≡ 1
unfolding new read_int write_int slice splice le_bytes from_le place write_slot put
count-one_row = refl

slot-one_row : read_slot one_row 0 ≡ (4079, 17)
unfolding new read_int write_int slice splice le_bytes from_le place write_slot read_slot put
slot-one_row = refl

delete-restore_example :
    (c : Bytes) × (d : Bytes) × (delete one_row 0 ≡ some c)
    × (get_tuple c 0 ≡ none)
    × ((t : ℕ) → t < tuple_count one_row → t ≢ 0 → get_tuple c t ≡ get_tuple one_row t)
    × (restore c 0 row_bytes ≡ some d)
    × ((t : ℕ) → t < tuple_count one_row → get_tuple d t ≡ get_tuple one_row t)
delete-restore_example = delete-restore one_row 0 row_bytes one_row-IsValid one_row-get

set_tuple_xmax-get_example :
    (c : Bytes) × (set_tuple_xmax one_row 0 9 ≡ some c)
    × (get_tuple c 0
        ≡ some (
            slice one_row (read_slot one_row 0).0 8
            ++ (le_bytes 8 9
                ++ slice one_row ((read_slot one_row 0).0 + 16) ((read_slot one_row 0).1 - 16))))
    × ((t : ℕ) → t < tuple_count one_row → t ≢ 0 → get_tuple c t ≡ get_tuple one_row t)
    × IsValid c
set_tuple_xmax-get_example =
    set_tuple_xmax-get one_row 0 9 one_row-IsValid (rw count-one_row (omega arith))
      (rw slot-one_row (omega arith))
