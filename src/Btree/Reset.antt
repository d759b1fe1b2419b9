-- ===== src/Btree/Reset.antt =====
-- src/btree.rs: the empty page that a node is rebuilt on.
use ccdb.Btree.Rebuild.{write_int-byte}
use ccdb.Prelude.{ℕ, ◌≡◌, inl, arith, ◌<◌, ap, ◌∙◌, ◌^◌, inr, refl}
use ccdb.Prelude.Bytes.{Bytes, put}
use ccdb.Page.{
  PageKind, new, tuple_count, free_space, free_space_offset, next_page_id, page_id, page_kind,
  set_page_kind, set_next_page_id, set_page_lsn, kind_of_byte, byte_of_kind, heap, btree_leaf,
  btree_internal, sequence_rel,
}
use ccdb.Page.Valid.{IsValid}
use ccdb.Page.Fields.{read_int-put, read_int-write_int, read_int-write_int_self}

new-count : (id : ℕ) → tuple_count (new id) ≡ 0
unfolding new
new-count id =
    read_int-write_int 2 2 _ 10 8 4096 (inl (omega arith))
    ∙ read_int-write_int_self 2 _ 8 0 (omega arith)

new-offset : (id : ℕ) → free_space_offset (new id) ≡ 4096
unfolding new
new-offset id = read_int-write_int_self 2 _ 10 4096 (omega arith)

new-id : (id : ℕ) → id < 2 ^ 32 → page_id (new id) ≡ id
unfolding new
new-id id h =
    read_int-write_int 4 2 _ 10 0 4096 (inl (omega arith))
    ∙ read_int-write_int 4 2 _ 8 0 0 (inl (omega arith))
    ∙ read_int-write_int 4 4 _ 4 0 _ (inl (omega arith))
    ∙ read_int-write_int_self 4 _ 0 id h

put_self : (b : Bytes) (p v : ℕ) → put b p v p ≡ v
unfolding put
put_self b p v = ground arith

kind_of_byte-byte_of_kind : (kind : PageKind) → kind_of_byte (byte_of_kind kind) ≡ kind
kind_of_byte-byte_of_kind heap = refl
kind_of_byte-byte_of_kind btree_leaf = refl
kind_of_byte-byte_of_kind btree_internal = refl
kind_of_byte-byte_of_kind sequence_rel = refl

-- The shape of `reset_page` and `init_leaf`.
module _ (id lsn next : ℕ) (kind : PageKind) where
  abbrev pub fresh : Bytes
  fresh = set_page_lsn (set_next_page_id (set_page_kind (new id) kind) next) lsn

  pub fresh-count : tuple_count fresh ≡ 0
  fresh-count =
      read_int-write_int 2 8 _ 12 8 lsn (inl (omega arith))
      ∙ read_int-write_int 2 4 _ 4 8 next (inr (omega arith))
      ∙ read_int-put 2 _ 20 _ 8 (inl (omega arith))
      ∙ new-count id

  fresh-offset : free_space_offset fresh ≡ 4096
  fresh-offset =
      read_int-write_int 2 8 _ 12 10 lsn (inl (omega arith))
      ∙ read_int-write_int 2 4 _ 4 10 next (inr (omega arith))
      ∙ read_int-put 2 _ 20 _ 10 (inl (omega arith))
      ∙ new-offset id

  pub fresh-next : next < 2 ^ 32 → next_page_id fresh ≡ next
  fresh-next h =
      read_int-write_int 4 8 _ 12 4 lsn (inl (omega arith)) ∙ read_int-write_int_self 4 _ 4 next h

  pub fresh-id : id < 2 ^ 32 → page_id fresh ≡ id
  fresh-id h =
      read_int-write_int 4 8 _ 12 0 lsn (inl (omega arith))
      ∙ read_int-write_int 4 4 _ 4 0 next (inl (omega arith))
      ∙ read_int-put 4 _ 20 _ 0 (inl (omega arith))
      ∙ new-id id h

  pub fresh-kind : page_kind fresh ≡ kind
  fresh-kind =
      ap kind_of_byte (
        write_int-byte 8 _ 12 lsn 20 (inr (omega arith))
        ∙ write_int-byte 4 _ 4 next 20 (inr (omega arith))
        ∙ put_self (new id) 20 (byte_of_kind kind))
      ∙ kind_of_byte-byte_of_kind kind

  pub fresh-IsValid : IsValid fresh
  fresh-IsValid = record {
    room = omega (arith, fresh-count, fresh-offset);
    top = omega (arith, fresh-offset);
    inside = λ s h live. absurd (omega (arith, fresh-count));
    disjoint = λ s t hs ht ne ls lt. absurd (omega (arith, fresh-count));
  }

  pub fresh-space : free_space fresh ≡ 4072
  fresh-space = omega (arith, fresh-count, fresh-offset)
