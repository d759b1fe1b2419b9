-- ===== src/Btree/Insertion.antt =====
-- src/btree.rs: putting an entry into a leaf that has room for it.
use ccdb.Btree.Reset.{fresh-count, fresh-space, fresh-IsValid, fresh-kind, fresh-next}
use ccdb.Btree.Reset.{fresh}
use ccdb.Btree.Node.{insert_all}
use ccdb.Page.Valid.{IsValid}
use ccdb.Prelude.Cursor.{length-le_bytes_append}
use ccdb.Btree.Leaf.{HoldsFrom}
use ccdb.Btree.Rebuild.{IsFixed, NotEmpty, RawsAt, needed, insert_all-Appended}
use ccdb.Wal.{Rid}
use ccdb.Page.{read_int, page_kind, btree_leaf, next_page_id, tuple_count, free_space, kind_of_byte}
use ccdb.Btree.Entry.{encode_leaf_entry}
use ccdb.Prelude.Bytes.{Bytes, from_le, slice-eq, length-le_bytes}
use ccdb.Prelude.{
  List, ℕ, ◌∷◌, length, ◌≡◌, ◌<◌, [], ◌+◌, arith, ap, ◌^◌, suc, length-append, refl, ◌≤◌, inl, some,
  inr, ◌∙◌, subst,
}

abbrev pub encoded : List (List ℕ × Rid) → List (List ℕ)
encoded [] = []
encoded ((key, rid) ∷ es) = encode_leaf_entry key rid ∷ encoded es

-- A leaf whose entries are `es`, with no space lost between them.
pub record LeafNode (p : Bytes) (es : List (List ℕ × Rid)) : Type 0 where
  pub kind : page_kind p ≡ btree_leaf
  pub count : tuple_count p ≡ length es
  pub stored : HoldsFrom p 0 es
  pub valid : IsValid p
  pub packed : free_space p + needed (encoded es) ≡ 4072

pub length-encode_leaf_entry :
    (key : List ℕ) (rid : Rid) → length (encode_leaf_entry key rid) ≡ 8 + length key
unfolding encode_leaf_entry
length-encode_leaf_entry key (pid, slot) =
    rw (length-le_bytes_append, length-append, length-le_bytes_append, length-le_bytes)
      (omega arith)

encoded-NotEmpty : (es : List (List ℕ × Rid)) → NotEmpty (encoded es)
encoded-NotEmpty [] = tt
encoded-NotEmpty ((key, rid) ∷ es) =
    (λ e. absurd (omega (arith, length-encode_leaf_entry key rid)), encoded-NotEmpty es)

length-encoded : (es : List (List ℕ × Rid)) → length (encoded es) ≡ length es
length-encoded [] = refl
length-encoded ((key, rid) ∷ es) = ap suc (length-encoded es)

RawsAt-HoldsFrom :
    (q : Bytes) (slot : ℕ) (es : List (List ℕ × Rid))
    → RawsAt q slot (encoded es)
    → HoldsFrom q slot es
RawsAt-HoldsFrom q slot [] h = tt
RawsAt-HoldsFrom q slot ((key, rid) ∷ es) h = (h.0, RawsAt-HoldsFrom q (slot + 1) es h.1)

pub next_page_id-header :
    (p q : Bytes) → ((j : ℕ) → IsFixed j → q j ≡ p j) → next_page_id q ≡ next_page_id p
unfolding read_int
next_page_id-header p q h = ap from_le (slice-eq q p 4 4 (λ j a b. h j (inl (omega arith))))

-- Inserting the entries into an empty page makes a leaf of them.
pub rebuilt-LeafNode :
    (id lsn next : ℕ) (es : List (List ℕ × Rid))
    → next < 2 ^ 32
    → needed (encoded es) ≤ 4072
    → (q : Bytes) × (insert_all (encoded es) (fresh id lsn next btree_leaf) ≡ some q)
      × LeafNode q es
      × (next_page_id q ≡ next)
rebuilt-LeafNode id lsn next es hn room =
    let p = fresh id lsn next btree_leaf in
    let count = fresh-count id lsn next btree_leaf in
    let space = fresh-space id lsn next btree_leaf in
    let (q, e, a) =
      insert_all-Appended (encoded es) p (fresh-IsValid id lsn next btree_leaf)
        (encoded-NotEmpty es) (omega (arith, space, room)) in
    (
      q,
      e,
      record {
        kind =
            ap kind_of_byte (a.header 20 (inr (omega arith, omega arith)))
            ∙ fresh-kind id lsn next btree_leaf;
        count = omega (arith, a.count, count, length-encoded es);
        stored = RawsAt-HoldsFrom q 0 es (subst (λ n. RawsAt q n (encoded es)) count a.stored);
        valid = a.valid;
        packed = omega (arith, a.space, space);
      },
      next_page_id-header p q a.header ∙ fresh-next id lsn next btree_leaf hn,
    )
