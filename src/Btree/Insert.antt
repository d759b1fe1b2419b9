-- ===== src/Btree/Insert.antt =====
-- src/btree.rs: insertion, with the splitting of nodes, and deletion.
use ccdb.Prelude.{
  List, ℕ, Option, none, length, some, Bool, suc, ◌+◌, ◌/◌, false, zero, true, take, get_or, drop,
  [],
}
use ccdb.Wal.{Rid}
use ccdb.Page.{
  btree_leaf, btree_internal, heap, sequence_rel, new, insert as insert_tuple, tuple_count,
  next_page_id, set_next_page_id, page_kind, set_page_kind, page_lsn, set_page_lsn, page_id,
}
use ccdb.Btree.Key.{Ordering}
use ccdb.Btree.Entry.{
  encode_leaf_entry, encode_internal_entry, decode_leaf_entry, decode_internal_entry,
}
use ccdb.Btree.Node.{
  init_leaf, init_internal, fits, insert_all, reset_page, merge_entry, insert_sorted, present_from,
  remove_from,
}
use ccdb.Btree.Tree.{Pages, write_page, new_page, child_for, descend_to_leaf}

pub data InsertOutcome : Type 0 where
  fit : InsertOutcome
  split : (sep_key : List ℕ) → (right : ℕ) → InsertOutcome

-- The rebuilding of a leaf whose entries no longer fit: the first half stays, the rest moves to a new leaf.
unfoldable pub split_leaf_entries : Pages → ℕ → List (List ℕ) → Option (InsertOutcome × Pages)
split_leaf_entries st node_id entries =
    let p = st.pages node_id in
    let mid = length entries / 2 in
    let emptied = set_page_lsn (set_page_kind (new (page_id p)) btree_leaf) (page_lsn p) in
    let (new_pid, st') = new_page st in
    elim (insert_all (take mid entries) emptied) [
      | none ↦ none
      | some left ↦ elim (insert_all (drop mid entries) (init_leaf (st'.pages new_pid))) [
        | none ↦ none
        | some right ↦ elim (decode_leaf_entry (get_or entries mid [])) [
          | none ↦ none
          | some (sep_key, _) ↦ some (
            split sep_key new_pid,
            write_page (write_page st' new_pid (set_next_page_id right (next_page_id p))) node_id
                (set_next_page_id left new_pid),
          )
        ]
      ]
    ]

-- The same for an internal node, whose middle entry moves up.
unfoldable pub split_internal_entries : Pages → ℕ → List (List ℕ) → Option (InsertOutcome × Pages)
split_internal_entries st node_id entries =
    let p = st.pages node_id in
    let mid = length entries / 2 in
    let emptied = reset_page p btree_internal (next_page_id p) in
    let (new_pid, st') = new_page st in
    elim (decode_internal_entry (get_or entries mid [])) [
      | none ↦ none
      | some (promoted_key, promoted_child) ↦ elim (insert_all (take mid entries) emptied) [
        | none ↦ none
        | some left ↦
            elim (insert_all (drop (mid + 1) entries)
              (init_internal (st'.pages new_pid) promoted_child)) [
                | none ↦ none
                | some right ↦ some (
                  split promoted_key new_pid,
                  write_page (write_page st' new_pid right) node_id left,
                )
              ]
      ]
    ]

module _ (compare : List ℕ → List ℕ → Option Ordering) where
  -- `insert_recursive` at a leaf
  unfoldable pub insert_leaf : Pages → ℕ → List ℕ → Rid → Option (InsertOutcome × Pages)
  insert_leaf st node_id key rid =
      let p = st.pages node_id in
      let entry = encode_leaf_entry key rid in
      elim (present_from compare p key rid 0 (tuple_count p)) [
        | none ↦ none
        | some true ↦ some (fit, st)
        | some false ↦ elim (fits p (length entry)) [
          | true ↦ elim (insert_sorted compare p key entry) [
            | none ↦ none
            | some p' ↦ some (fit, write_page st node_id p')
          ]
          | false ↦ elim (merge_entry compare p key entry) [
            | none ↦ none
            | some entries ↦ split_leaf_entries st node_id entries
          ]
        ]
      ]

  -- What an internal node does with the outcome below it.
  unfoldable pub insert_separator : Pages → ℕ → InsertOutcome → Option (InsertOutcome × Pages)
  insert_separator st node_id fit = some (fit, st)
  insert_separator st node_id (split sep_key right) =
      let p = st.pages node_id in
      let entry = encode_internal_entry sep_key right in
      elim (fits p (length entry)) [
        | true ↦ elim (insert_sorted compare p sep_key entry) [
          | none ↦ none
          | some p' ↦ some (fit, write_page st node_id p')
        ]
        | false ↦ elim (merge_entry compare p sep_key entry) [
          | none ↦ none
          | some entries ↦ split_internal_entries st node_id entries
        ]
      ]

  unfoldable pub insert_recursive : ℕ → Pages → ℕ → List ℕ → Rid → Option (InsertOutcome × Pages)
  insert_recursive zero st node_id key rid = none
  insert_recursive (suc fuel) st node_id key rid =
      let p = st.pages node_id in
      elim (page_kind p) [
        | btree_leaf ↦ insert_leaf st node_id key rid
        | btree_internal ↦ elim (child_for compare p key) [
          | none ↦ none
          | some child ↦ elim (insert_recursive fuel st child key rid) [
            | none ↦ none
            | some (outcome, st') ↦ insert_separator st' node_id outcome
          ]
        ]
        | heap ↦ none
        | sequence_rel ↦ none
      ]

  -- The root of the tree afterwards.
  unfoldable pub insert : ℕ → Pages → ℕ → List ℕ → Rid → Option (ℕ × Pages)
  insert fuel st root key rid = elim (insert_recursive fuel st root key rid) [
    | none ↦ none
    | some (fit, st') ↦ some (root, st')
    | some (split sep_key right, st') ↦
        let (new_root_id, st'') = new_page st' in
        elim (insert_tuple (init_internal (st''.pages new_root_id) root)
          (encode_internal_entry sep_key right)) [
            | none ↦ none
            | some (_, p) ↦ some (new_root_id, write_page st'' new_root_id p)
          ]
  ]

  unfoldable pub delete : ℕ → Pages → ℕ → List ℕ → Rid → Option (Bool × Pages)
  delete fuel st root key rid = elim (descend_to_leaf compare fuel st root key) [
    | none ↦ none
    | some leaf_id ↦
        let p = st.pages leaf_id in
        elim (remove_from compare p key rid false 0 (tuple_count p)) [
          | none ↦ none
          | some (false, _) ↦ some (false, st)
          | some (true, entries) ↦
              elim (insert_all entries (reset_page p btree_leaf (next_page_id p))) [
                | none ↦ none
                | some p' ↦ some (true, write_page st leaf_id p')
              ]
        ]
  ]
