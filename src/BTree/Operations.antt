-- ===== src/BTree/Operations.antt =====
-- src/Btree.cpp: the constructor, insert, deleteKey, search and their helpers. A call works on the
-- tree alone; what the writer threads do to it between two calls is `write_batch`.
use custom_database.Base.{
  ℕ, zero, suc, ◌+◌, ◌/◌, List, [], ◌∷◌, Option, none, some, leb, ◌==◌, if◌then◌else◌, length,
  get_elem?,
}
use custom_database.Memory.{Memory, update}
use custom_database.Page.{KeyType, Page, PageHeader}
use custom_database.ContentStorage.{new_storage}
use custom_database.PageCache.{new_cache}
use custom_database.Wal.{Layout, open_wal}
use custom_database.BTree.{
  BTree, Result, returned, thrown, undefined, cache_pages, queue_requests, wal_buffer, page_of,
  new_page, store, fetch, put_and_enqueue, start_transaction, make_root,
}
use custom_database.BTree.Nodes.{insert_leaf, split_page, insert_at}

module _ {K : Type 0} (κ : KeyType K) (ℒ : Layout K) (raw : ℕ → PageHeader) (value_size : ℕ) where
  -- The constructor, on a log file with these bytes; the worker threads write in `write_batch`.
  unfoldable pub new_tree : Memory K → List ℕ → ℕ → Option (BTree K)
  new_tree m file max_keys = make_root κ ℒ raw value_size (
      start_transaction κ ℒ raw value_size (record {
        root = none;
        max_keys_per_node = max_keys;
        engine = record { memory = m; storage = new_storage; cache = new_cache cache_pages };
        writer_queue = record { write_queue = []; max_queue_size = queue_requests };
        wal_manager = open_wal file wal_buffer;
        current_transaction = 0;
      }))

  -- `*a = p`
  unfoldable pub set_page : BTree K → ℕ → Page K → BTree K
  set_page t a p = record t {
    engine = record t.engine {
      memory = record t.engine.memory { pages = update t.engine.memory.pages a p };
    };
  }

  -- The end of splitChild: the parent gets the new child and the key in the middle of the old one.
  unfoldable pub update_parent : BTree K → ℕ → ℕ → ℕ → Option K → Option (BTree K)
  update_parent t parent index child_id none = none
  update_parent t parent index child_id (some key) =
      let p = page_of κ ℒ raw value_size t parent in
      elim (insert_at (index + 1) child_id p.children) [
        | none ↦ none
        | some children ↦ elim (insert_at index key p.keys) [
          | none ↦ none
          | some keys ↦ some (set_page t parent (record p { children = children; keys = keys }))
        ]
      ]

  -- Both halves of a split page are stored.
  unfoldable pub store_halves : BTree K → Page K → Page K → Option (BTree K × ℕ)
  store_halves t left right = elim (put_and_enqueue κ ℒ raw value_size t left.header.page_id left) [
    | none ↦ none
    | some t₁ ↦
        let s = store κ ℒ raw value_size t₁ right in
        elim (put_and_enqueue κ ℒ raw value_size (s.0) (s.1) right) [
          | none ↦ none
          | some t₂ ↦ some (t₂, s.1)
        ]
  ]

  unfoldable pub split_child : BTree K → ℕ → ℕ → ℕ → Option (BTree K)
  split_child t parent index child =
      let mid = t.max_keys_per_node / 2 in
      let p = page_of κ ℒ raw value_size t child in
      elim (split_page κ value_size mid p (new_page κ ℒ raw value_size t p.is_leaf)) [
        | none ↦ none
        | some halves ↦ elim (store_halves t (halves.0) (halves.1)) [
          | none ↦ none
          | some r ↦ update_parent (r.0) parent index (r.1) (get_elem? (halves.0).keys mid)
        ]
      ]

  -- insertNonFull of a leaf; the `node` that it assigns at the end is its own copy of the pointer.
  unfoldable pub insert_into_leaf : BTree K → ℕ → K → List ℕ → Option (BTree K)
  insert_into_leaf t node key value =
      elim (insert_leaf κ value_size (page_of κ ℒ raw value_size t node) key value) [
        | none ↦ none
        | some p ↦ elim (put_and_enqueue κ ℒ raw value_size t p.header.page_id p) [
          | none ↦ none
          | some t' ↦ elim (fetch κ ℒ raw value_size t' p.header.page_id) [
            | none ↦ none
            | some r ↦ some (r.0)
          ]
        ]
      ]

  -- The child is split if it is full.
  unfoldable pub split_if_full : BTree K → ℕ → ℕ → ℕ → Option (BTree K)
  split_if_full t node i child =
      if length (page_of κ ℒ raw value_size t child).keys == t.max_keys_per_node
      then split_child t node i child
      else some t

  -- The child that insertNonFull descends into: `i` is behind the last key that is not greater.
  unfoldable pub child_index : List K → K → ℕ
  child_index [] key = 0
  child_index (k ∷ ks) key =
      let rest = child_index ks key in
      if leb 1 rest then suc rest else if κ.less key k then 0 else 1

  unfoldable pub insert_non_full : ℕ → BTree K → ℕ → K → List ℕ → Result (BTree K) Unit
  insert_non_full zero t node key value = undefined
  insert_non_full (suc depth) t node key value =
      let p = page_of κ ℒ raw value_size t node in
      if p.is_leaf
      then elim (insert_into_leaf t node key value) [ none ↦ undefined | some t' ↦ returned t' tt ]
      else let i = child_index p.keys key in
        elim (get_elem? p.children i) [
          | none ↦ undefined
          | some id ↦ elim (fetch κ ℒ raw value_size t id) [
            | none ↦ undefined
            | some r ↦ elim (r.1) [
              | none ↦ thrown (r.0)
              | some child ↦ elim (split_if_full (r.0) node i child) [
                | none ↦ undefined
                | some t' ↦ insert_non_full depth t' child key value
              ]
            ]
          ]
        ]
