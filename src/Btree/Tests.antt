-- ===== src/Btree/Tests.antt =====
-- src/btree.rs: the theorems at work on small nodes of an index on an `INT` column.
use ccdb.Tuple.Values.{interval_typed}
use ccdb.Btree.Lookup.{leaf_lookup_eq-insert_sorted}
use ccdb.Prelude.Cursor.{read_le}
use ccdb.Btree.Sorted.{place_entry, insert_sorted-LeafNode}
use ccdb.Btree.Codec.{decode_leaf_entry-encode_leaf_entry}
use ccdb.Btree.KeyCodec.{decode_key-encode_key}
use ccdb.Btree.Descend.{IsTree, Leads, descend_to_leaf-IsTree}
use ccdb.Btree.Tree.{Pages, descend_to_leaf}
use ccdb.Btree.Entry.{decode_leaf_entry, encode_leaf_entry, encode_internal_entry}
use ccdb.Prelude.Int.{pos, negsuc, i32_of_bits}
use ccdb.Btree.Rebuild.{needed, insert_all-Appended}
use ccdb.Btree.Node.{insert_all, fits, leaf_lookup_eq, insert_sorted}
use ccdb.Btree.Leaf.{Fitting, Sorted, matching, leaf_lookup_eq-Sorted}
use ccdb.Prelude.{
  List, ℕ, Bool, Option, length, ◌∷◌, arith, true, none, ◌≡◌, [], refl, some, subst, ◌<◌, ap, sym,
  ◌^◌, if◌then◌else◌, ◌∙◌, ◌++◌, ◌==◌, ◌≤◌, inr,
}
use ccdb.Prelude.Bytes.{Bytes, zeros, le_bytes, from_le}
use ccdb.Page.{
  btree_leaf, btree_internal, next_page_id, page_kind, page_id, no_next_page, free_space,
  tuple_count, get_tuple, kind_of_byte,
}
use ccdb.Wal.{Rid}
use ccdb.Tuple.{interval, int_type, interval_type}
use ccdb.Btree.Key.{
  Ordering, compare_keys, encode_key, decode_key, compare_values, less, cmp_int, cmp_nat,
}
use ccdb.Btree.Reset.{
  fresh, fresh-count, fresh-IsValid, fresh-space, fresh-kind, fresh-next, fresh-id,
}
use ccdb.Btree.Order.{int_order, KeyOrder}
use ccdb.Btree.Insertion.{LeafNode, encoded, rebuilt-LeafNode, next_page_id-header}

abbrev any_bytes : List ℕ → Bool
any_bytes bytes = true

abbrev unordered : ℕ → ℕ → Option Ordering
unordered x y = none

abbrev compare : List ℕ → List ℕ → Option Ordering
compare = compare_keys any_bytes unordered int_type

abbrev FourBytes : List ℕ → Type 0
FourBytes k = length k ≡ 4

-- The key 5, and the entries of the keys 3 and 7.
abbrev five : List ℕ
five = 5 ∷ 0 ∷ 0 ∷ 0 ∷ []

abbrev entries : List (List ℕ × Rid)
entries = (3 ∷ 0 ∷ 0 ∷ 0 ∷ [], (1, 0)) ∷ (7 ∷ 0 ∷ 0 ∷ 0 ∷ [], (1, 1)) ∷ []

abbrev order : KeyOrder compare FourBytes
order = int_order any_bytes unordered

entries-Fitting : Fitting FourBytes entries
entries-Fitting = (
  (refl, omega arith, (omega arith, omega arith)),
  ((refl, omega arith, (omega arith, omega arith)), tt),
)

answer-known :
    (a b : List ℕ) (o : Ordering)
    → length a ≡ 4
    → length b ≡ 4
    → compare a b ≡ some o
    → order.answer a b ≡ o
answer-known a b o ha hb e =
    ap (λ r. elim r [ none ↦ o | some x ↦ x ]) (sym (order.compares a b ha hb) ∙ e)

three_seven : compare (3 ∷ 0 ∷ 0 ∷ 0 ∷ []) (7 ∷ 0 ∷ 0 ∷ 0 ∷ []) ≡ some less
unfolding compare_keys decode_key compare_values cmp_int cmp_nat read_le from_le i32_of_bits
three_seven = refl

entries-Sorted : Sorted order entries
entries-Sorted = (((λ g. cc (g, answer-known _ _ less refl refl three_seven)), tt), (tt, tt))

abbrev page_or : Option Bytes → Bytes
page_or none = zeros
page_or (some p) = p

abbrev leaf_page : Bytes
leaf_page = page_or (insert_all (encoded entries) (fresh 4 0 no_next_page btree_leaf))

entries_size : needed (encoded entries) ≡ 32
unfolding needed encode_leaf_entry le_bytes
entries_size = refl

leaf_page-LeafNode : LeafNode leaf_page entries × (next_page_id leaf_page ≡ no_next_page)
leaf_page-LeafNode =
    let (q, e, node, next) =
      rebuilt-LeafNode 4 0 no_next_page entries (omega arith) (omega (arith, entries_size)) in
    subst (λ o. LeafNode (page_or o) entries × (next_page_id (page_or o) ≡ no_next_page)) (sym e)
      (node, next)

leaf_page-fits : fits leaf_page (length (encode_leaf_entry five (1, 2))) ≡ true
unfolding fits encode_leaf_entry le_bytes
leaf_page-fits =
    let node = leaf_page-LeafNode.0 in
    let room : 16 ≤ free_space leaf_page = omega (arith, node.packed, entries_size) in
    ground (arith, room)

decode_key_example :
    decode_key any_bytes unordered (encode_key (interval (pos 1) (negsuc 2) (pos 3))) interval_type
    ≡ some (interval (pos 1) (negsuc 2) (pos 3))
decode_key_example =
    decode_key-encode_key any_bytes unordered (interval (pos 1) (negsuc 2) (pos 3)) interval_type (
      interval_typed (pos 1) (negsuc 2) (pos 3) (omega arith, omega arith)
        (omega arith, omega arith) (omega arith, omega arith))

decode_leaf_entry_example : decode_leaf_entry (encode_leaf_entry five (1, 2)) ≡ some (five, (1, 2))
decode_leaf_entry_example =
    decode_leaf_entry-encode_leaf_entry five (1, 2) (omega arith) (omega arith, omega arith)

leaf_lookup_eq-Sorted_example :
    leaf_lookup_eq compare leaf_page (7 ∷ 0 ∷ 0 ∷ 0 ∷ [])
    ≡ some (matching compare (7 ∷ 0 ∷ 0 ∷ 0 ∷ []) entries)
leaf_lookup_eq-Sorted_example =
    leaf_lookup_eq-Sorted order leaf_page (7 ∷ 0 ∷ 0 ∷ 0 ∷ []) entries refl
      leaf_page-LeafNode.0.count leaf_page-LeafNode.0.stored entries-Fitting entries-Sorted

seven_found : matching compare (7 ∷ 0 ∷ 0 ∷ 0 ∷ []) entries ≡ (1, 1) ∷ []
unfolding matching compare_keys decode_key compare_values cmp_int cmp_nat read_le from_le
    i32_of_bits
seven_found = refl

five_next : next_page_id leaf_page < 2 ^ 32
five_next = omega (arith, leaf_page-LeafNode.1)

insert_sorted-LeafNode_example :
    (q : Bytes) × (insert_sorted compare leaf_page five (encode_leaf_entry five (1, 2)) ≡ some q)
    × LeafNode q (place_entry compare five (1, 2) entries)
    × ((before after : List (List ℕ × Rid)) × (entries ≡ before ++ after)
        × (place_entry compare five (1, 2) entries ≡ before ++ (five, (1, 2)) ∷ after))
    × Sorted order (place_entry compare five (1, 2) entries)
    × (next_page_id q ≡ next_page_id leaf_page)
insert_sorted-LeafNode_example =
    insert_sorted-LeafNode order leaf_page entries five (1, 2) leaf_page-LeafNode.0 entries-Fitting
      entries-Sorted refl five_next leaf_page-fits

leaf_lookup_eq-insert_sorted_example :
    (q : Bytes) × (found : List Rid) × (insert_sorted compare leaf_page five
        (encode_leaf_entry five (1, 2))
      ≡ some q)
    × (leaf_lookup_eq compare leaf_page five ≡ some found)
    × (leaf_lookup_eq compare q five ≡ some (found ++ (1, 2) ∷ []))
leaf_lookup_eq-insert_sorted_example =
    leaf_lookup_eq-insert_sorted order leaf_page entries five (1, 2) leaf_page-LeafNode.0
      entries-Fitting entries-Sorted refl (omega arith) (omega arith, omega arith) five_next
      leaf_page-fits

-- A root with the key 5 between the empty leaves 4 and 6.
abbrev root_page : Bytes
root_page = page_or (insert_all (encode_internal_entry five 6 ∷ []) (fresh 9 0 4 btree_internal))

abbrev small_tree : Pages
small_tree = record {
  free_list = [];
  page_count = 10;
  pages = λ i. if i == 9 then root_page else fresh i 0 no_next_page btree_leaf;
}

root_size : needed (encode_internal_entry five 6 ∷ []) ≡ 14
unfolding needed encode_internal_entry le_bytes
root_size = refl

root_length : length (encode_internal_entry five 6) ≡ 10
unfolding encode_internal_entry le_bytes
root_length = refl

abbrev RootFacts : Bytes → Type 0
RootFacts p =
    (page_kind p ≡ btree_internal)
    × (next_page_id p ≡ 4)
    × (tuple_count p ≡ 1)
    × (get_tuple p 0 ≡ some (encode_internal_entry five 6))

root_page-facts : RootFacts root_page
root_page-facts =
    let p = fresh 9 0 4 btree_internal in
    let count = fresh-count 9 0 4 btree_internal in
    let (q, e, a) =
      insert_all-Appended (encode_internal_entry five 6 ∷ []) p (fresh-IsValid 9 0 4 btree_internal)
        ((λ e. absurd (omega (arith, root_length))), tt)
        (omega (arith, root_size, fresh-space 9 0 4 btree_internal)) in
    let facts : RootFacts q = (
      ap kind_of_byte (a.header 20 (inr (omega arith, omega arith)))
          ∙ fresh-kind 9 0 4 btree_internal,
      next_page_id-header p q a.header ∙ fresh-next 9 0 4 btree_internal (omega arith),
      omega (arith, a.count, count),
      subst (λ n. get_tuple q n ≡ some (encode_internal_entry five 6)) count a.stored.0,
    ) in
    subst (λ o. RootFacts (page_or o)) (sym e) facts

empty_leaf :
    (id : ℕ)
    → id < 2 ^ 32
    → (page_kind (fresh id 0 no_next_page btree_leaf) ≡ btree_leaf)
      × (page_id (fresh id 0 no_next_page btree_leaf) ≡ id)
empty_leaf id h = (fresh-kind id 0 no_next_page btree_leaf, fresh-id id 0 no_next_page btree_leaf h)

small_tree-IsTree : IsTree order 1 small_tree 9
unfolding IsTree
small_tree-IsTree =
    let (kind, next, count, stored) = root_page-facts in
    (
      kind,
      rw next (empty_leaf 4 (omega arith)),
      λ slot lt.
          let first : 0 ≡ slot = omega (arith, count) in
          (
            five,
            6,
            subst (λ i. get_tuple root_page i ≡ some (encode_internal_entry five 6)) first stored,
            refl,
            omega arith,
            omega arith,
            empty_leaf 6 (omega arith),
          ),
    )

descend_to_leaf-IsTree_example :
    (leaf : ℕ) × (descend_to_leaf compare 2 small_tree 9 five ≡ some leaf)
    × (page_kind (small_tree.pages leaf) ≡ btree_leaf)
    × Leads compare 1 small_tree 9 five leaf
descend_to_leaf-IsTree_example =
    descend_to_leaf-IsTree order 1 small_tree 9 five small_tree-IsTree refl
