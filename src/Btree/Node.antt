-- ===== src/Btree/Node.antt =====
-- src/btree.rs: the work on one node. `compare` is `compare_keys` at the type of the index.
use ccdb.Prelude.{
  ℕ, Bool, List, Option, ◌==◌, leb, ◌&&◌, ◌+◌, some, none, false, ◌∷◌, suc, [], if◌then◌else◌, zero,
  true, not,
}
use ccdb.Prelude.Bytes.{Bytes}
use ccdb.Wal.{Rid}
use ccdb.Page.{
  PageKind, btree_leaf, btree_internal, new, get_tuple, insert, tuple_count, next_page_id,
  set_next_page_id, page_kind, set_page_kind, page_lsn, set_page_lsn, page_id, free_space,
  no_next_page,
}
use ccdb.Btree.Key.{Ordering, less, equal, greater}
use ccdb.Btree.Entry.{decode_leaf_entry, decode_internal_entry_or_leaf_key}

-- `init_leaf` and `init_internal`, of the page that has this id
unfoldable pub init_leaf : Bytes → Bytes
init_leaf p = set_next_page_id (set_page_kind (new (page_id p)) btree_leaf) no_next_page

unfoldable pub init_internal : Bytes → ℕ → Bytes
init_internal p p0 = set_next_page_id (set_page_kind (new (page_id p)) btree_internal) p0

-- `page.get_tuple(slot).unwrap()` and its decoding: the key of an entry and the entry
unfoldable pub key_at : Bytes → ℕ → Option (List ℕ × List ℕ)
key_at p slot = elim (get_tuple p slot) [
  | none ↦ none
  | some raw ↦ elim (decode_internal_entry_or_leaf_key (page_kind p) raw) [
    | none ↦ none
    | some key ↦ some (key, raw)
  ]
]

-- The same in a leaf: the key, the row id and the entry.
unfoldable pub leaf_entry_at : Bytes → ℕ → Option (List ℕ × Rid × List ℕ)
leaf_entry_at p slot = elim (get_tuple p slot) [
  | none ↦ none
  | some raw ↦ elim (decode_leaf_entry raw) [ none ↦ none | some (key, rid) ↦ some (key, rid, raw) ]
]

-- `r == rid`
unfoldable pub same_rid : Rid → Rid → Bool
same_rid (page_id, slot) (page_id', slot') = (page_id == page_id') && (slot == slot')

-- `fits`
unfoldable pub fits : Bytes → ℕ → Bool
fits p entry_len = leb (entry_len + 4) (free_space p)

-- `for raw in entries { page.insert(raw)? }`
unfoldable pub insert_all : List (List ℕ) → Bytes → Option Bytes
insert_all [] p = some p
insert_all (raw ∷ raws) p = elim (insert p raw) [ none ↦ none | some (_, p') ↦ insert_all raws p' ]

-- `*page = Page::new(saved_id)` and the header fields that are put back
unfoldable pub reset_page : Bytes → PageKind → ℕ → Bytes
reset_page p kind next =
    set_page_lsn (set_next_page_id (set_page_kind (new (page_id p)) kind) next) (page_lsn p)

module _ (compare : List ℕ → List ℕ → Option Ordering) where
  -- The loop of `rightmost_le` over `n` slots from `slot` on.
  unfoldable pub rightmost_le_from : Bytes → List ℕ → ℕ → ℕ → Option ℕ → Option (Option ℕ)
  rightmost_le_from p target slot zero found = some found
  rightmost_le_from p target slot (suc n) found = elim (key_at p slot) [
    | none ↦ none
    | some (key, _) ↦ elim (compare key target) [
      | none ↦ none
      | some less ↦ rightmost_le_from p target (slot + 1) n (some slot)
      | some equal ↦ rightmost_le_from p target (slot + 1) n (some slot)
      | some greater ↦ some found
    ]
  ]

  unfoldable pub rightmost_le : Bytes → List ℕ → Option (Option ℕ)
  rightmost_le p target = rightmost_le_from p target 0 (tuple_count p) none

  -- The loop of `leaf_lookup_eq`.
  unfoldable pub lookup_from : Bytes → List ℕ → ℕ → ℕ → Option (List Rid)
  lookup_from p target slot zero = some []
  lookup_from p target slot (suc n) = elim (leaf_entry_at p slot) [
    | none ↦ none
    | some (key, rid, _) ↦ elim (compare key target) [
      | none ↦ none
      | some less ↦ lookup_from p target (slot + 1) n
      | some equal ↦ elim (lookup_from p target (slot + 1) n) [
        | none ↦ none
        | some out ↦ some (rid ∷ out)
      ]
      | some greater ↦ some []
    ]
  ]

  unfoldable pub leaf_lookup_eq : Bytes → List ℕ → Option (List Rid)
  leaf_lookup_eq p target = lookup_from p target 0 (tuple_count p)

  -- The loop that copies the entries and puts the new one before the first with a greater key.
  unfoldable pub merge_from : Bytes → List ℕ → List ℕ → Bool → ℕ → ℕ → Option (List (List ℕ))
  merge_from p key entry inserted slot zero = some (if inserted then [] else entry ∷ [])
  merge_from p key entry true slot (suc n) = elim (key_at p slot) [
    | none ↦ none
    | some (_, raw) ↦ elim (merge_from p key entry true (slot + 1) n) [
      | none ↦ none
      | some raws ↦ some (raw ∷ raws)
    ]
  ]
  merge_from p key entry false slot (suc n) = elim (key_at p slot) [
    | none ↦ none
    | some (k, raw) ↦ elim (compare key k) [
      | none ↦ none
      | some less ↦ elim (merge_from p key entry true (slot + 1) n) [
        | none ↦ none
        | some raws ↦ some (entry ∷ raw ∷ raws)
      ]
      | some equal ↦ elim (merge_from p key entry false (slot + 1) n) [
        | none ↦ none
        | some raws ↦ some (raw ∷ raws)
      ]
      | some greater ↦ elim (merge_from p key entry false (slot + 1) n) [
        | none ↦ none
        | some raws ↦ some (raw ∷ raws)
      ]
    ]
  ]

  unfoldable pub merge_entry : Bytes → List ℕ → List ℕ → Option (List (List ℕ))
  merge_entry p key entry = merge_from p key entry false 0 (tuple_count p)

  unfoldable pub insert_sorted : Bytes → List ℕ → List ℕ → Option Bytes
  insert_sorted p key value_bytes = elim (merge_entry p key value_bytes) [
    | none ↦ none
    | some entries ↦ insert_all entries (reset_page p (page_kind p) (next_page_id p))
  ]

  -- The loop of `insert_recursive` that looks for the entry itself in a leaf.
  unfoldable pub present_from : Bytes → List ℕ → Rid → ℕ → ℕ → Option Bool
  present_from p key rid slot zero = some false
  present_from p key rid slot (suc n) = elim (leaf_entry_at p slot) [
    | none ↦ none
    | some (k, r, _) ↦ elim (same_rid r rid) [
      | false ↦ present_from p key rid (slot + 1) n
      | true ↦ elim (compare k key) [
        | none ↦ none
        | some less ↦ present_from p key rid (slot + 1) n
        | some equal ↦ some true
        | some greater ↦ present_from p key rid (slot + 1) n
      ]
    ]
  ]

  -- The loop of `delete`: the entries that stay, and whether one was removed.
  unfoldable pub remove_from : Bytes → List ℕ → Rid → Bool → ℕ → ℕ → Option (Bool × List (List ℕ))
  remove_from p key rid removed slot zero = some (removed, [])
  remove_from p key rid removed slot (suc n) = elim (leaf_entry_at p slot) [
    | none ↦ none
    | some (k, r, raw) ↦ elim (not removed && same_rid r rid) [
      | false ↦ elim (remove_from p key rid removed (slot + 1) n) [
        | none ↦ none
        | some (b, raws) ↦ some (b, raw ∷ raws)
      ]
      | true ↦ elim (compare k key) [
        | none ↦ none
        | some equal ↦ remove_from p key rid true (slot + 1) n
        | some less ↦ elim (remove_from p key rid removed (slot + 1) n) [
          | none ↦ none
          | some (b, raws) ↦ some (b, raw ∷ raws)
        ]
        | some greater ↦ elim (remove_from p key rid removed (slot + 1) n) [
          | none ↦ none
          | some (b, raws) ↦ some (b, raw ∷ raws)
        ]
      ]
    ]
  ]
