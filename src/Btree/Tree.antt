-- ===== src/Btree/Tree.antt =====
-- src/btree.rs: the work on the nodes of a tree. A walk down the tree or along the leaves is on fuel, one
-- for each page it visits, and without fuel there is no result.
use ccdb.Prelude.{
  List, ℕ, if◌then◌else◌, Option, ◌==◌, none, ltb, some, suc, ◌+◌, false, zero, true, ◌-◌, [], ◌∷◌,
}
use ccdb.Prelude.Bytes.{Bytes}
use ccdb.Wal.{Rid}
use ccdb.Page.{
  btree_leaf, btree_internal, heap, sequence_rel, new, get_tuple, tuple_count, next_page_id,
  page_kind, page_id, no_next_page,
}
use ccdb.Btree.Key.{Ordering, less, equal, greater}
use ccdb.Btree.Entry.{decode_leaf_entry, decode_internal_entry}
use ccdb.Btree.Node.{leaf_entry_at, rightmost_le}

-- The pages of the buffer pool, and the recycled ids in the order in which they are taken.
pub record Pages : Type 0 where
  pub free_list : List ℕ
  pub page_count : ℕ
  pub pages : ℕ → Bytes

abbrev pub write_page : Pages → ℕ → Bytes → Pages
write_page st id p = record st { pages = λ i. if id == i then p else st.pages i }

-- `BufferPool::new_page`
unfoldable pub new_page : Pages → ℕ × Pages
new_page st = elim (st.free_list) [
  | [] ↦ let id = st.page_count in (id, write_page (record st { page_count = id + 1 }) id (new id))
  | id ∷ rest ↦ (id, write_page (record st { free_list = rest }) id (new id))
]

abbrev pub LeafCursor : Type 0
LeafCursor = ℕ × ℕ

unfoldable pub leftmost_leaf : ℕ → Pages → ℕ → Option ℕ
leftmost_leaf zero st cur = none
leftmost_leaf (suc fuel) st cur = elim (page_kind (st.pages cur)) [
  | btree_leaf ↦ some cur
  | btree_internal ↦ leftmost_leaf fuel st (next_page_id (st.pages cur))
  | heap ↦ none
  | sequence_rel ↦ none
]

-- The inner loop of `read_at`: the first slot from `slot` on that is not a tombstone.
unfoldable pub live_from : Bytes → ℕ → ℕ → Option (ℕ × List ℕ)
live_from p slot zero = none
live_from p slot (suc n) = elim (get_tuple p slot) [
  | some raw ↦ some (slot, raw)
  | none ↦ live_from p (slot + 1) n
]

unfoldable pub next_cursor : Bytes → ℕ → ℕ → Option LeafCursor
next_cursor p current slot =
    if ltb (slot + 1) (tuple_count p)
    then some (current, slot + 1)
    else if next_page_id p == no_next_page
    then none
    else some (next_page_id p, 0)

-- The end of the chain is `some none`.
unfoldable pub read_at : ℕ → Pages → ℕ → ℕ → Option (Option (List ℕ × Rid × Option LeafCursor))
read_at zero st current slot = none
read_at (suc fuel) st current slot =
    let p = st.pages current in
    elim (live_from p slot (tuple_count p - slot)) [
      | some (s, raw) ↦ elim (decode_leaf_entry raw) [
        | none ↦ none
        | some (key, rid) ↦ some (some (key, rid, next_cursor p current s))
      ]
      | none ↦ elim (next_page_id p == no_next_page) [
        | true ↦ some none
        | false ↦ read_at fuel st (next_page_id p) 0
      ]
    ]

module _ (compare : List ℕ → List ℕ → Option Ordering) where
  -- The child that an internal node gives for a key.
  unfoldable pub child_for : Bytes → List ℕ → Option ℕ
  child_for p target = elim (rightmost_le compare p target) [
    | none ↦ none
    | some none ↦ some (next_page_id p)
    | some (some slot) ↦ elim (get_tuple p slot) [
      | none ↦ none
      | some raw ↦ elim (decode_internal_entry raw) [ none ↦ none | some (_, child) ↦ some child ]
    ]
  ]

  unfoldable pub descend_to_leaf : ℕ → Pages → ℕ → List ℕ → Option ℕ
  descend_to_leaf zero st current target = none
  descend_to_leaf (suc fuel) st current target =
      let p = st.pages current in
      elim (page_kind p) [
        | btree_leaf ↦ some (page_id p)
        | btree_internal ↦ elim (child_for p target) [
          | none ↦ none
          | some next ↦ descend_to_leaf fuel st next target
        ]
        | heap ↦ none
        | sequence_rel ↦ none
      ]

  -- The loop of `first_ge` over the slots of a leaf.
  unfoldable pub first_ge_from : Bytes → List ℕ → ℕ → ℕ → Option (Option ℕ)
  first_ge_from p target slot zero = some none
  first_ge_from p target slot (suc n) = elim (leaf_entry_at p slot) [
    | none ↦ none
    | some (key, _, _) ↦ elim (compare key target) [
      | none ↦ none
      | some less ↦ first_ge_from p target (slot + 1) n
      | some equal ↦ some (some slot)
      | some greater ↦ some (some slot)
    ]
  ]

  -- The loop of `first_ge` along the leaves.
  unfoldable pub first_ge_along : ℕ → Pages → ℕ → List ℕ → Option (Option LeafCursor)
  first_ge_along zero st current target = none
  first_ge_along (suc fuel) st current target =
      let p = st.pages current in
      elim (first_ge_from p target 0 (tuple_count p)) [
        | none ↦ none
        | some (some slot) ↦ some (some (current, slot))
        | some none ↦ elim (next_page_id p == no_next_page) [
          | true ↦ some none
          | false ↦ first_ge_along fuel st (next_page_id p) target
        ]
      ]

  unfoldable pub first_ge : ℕ → Pages → ℕ → List ℕ → Option (Option LeafCursor)
  first_ge fuel st root target = elim (descend_to_leaf fuel st root target) [
    | none ↦ none
    | some leaf_id ↦ first_ge_along fuel st leaf_id target
  ]
