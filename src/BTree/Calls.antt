-- ===== src/BTree/Calls.antt =====
-- src/Btree.cpp: the public methods insert, deleteKey and search, flush, and what the writer
-- threads do between two of them.
use custom_database.Base.{
  ℕ, zero, suc, true, false, List, [], ◌∷◌, Option, none, some, ◌==◌, if◌then◌else◌, length,
  get_elem?,
}
use custom_database.Page.{KeyType, Page, PageHeader}
use custom_database.PageCache.{flush_all}
use custom_database.WriterQueue.{get_batch, process_batch, max_batch_size}
use custom_database.Wal.{Layout, log_insert}
use custom_database.BTree.{
  BTree, Result, returned, thrown, undefined, page_of, new_page, store, fetch, make,
  put_and_enqueue, start_transaction, make_root,
}
use custom_database.BTree.Nodes.{find_index, key_at, delete_leaf, find_value}
use custom_database.BTree.Operations.{split_child, insert_non_full}

module _ {K : Type 0} (κ : KeyType K) (ℒ : Layout K) (raw : ℕ → PageHeader) (value_size : ℕ) where
  unfoldable pub ensure_transaction : BTree K → BTree K
  ensure_transaction t =
      if t.current_transaction == 0 then start_transaction κ ℒ raw value_size t else t

  unfoldable pub log : ℕ → BTree K → ℕ → K → List ℕ → BTree K
  log now t page_id key value = record t {
    wal_manager = (log_insert ℒ now t.wal_manager t.current_transaction page_id key value).0;
  }

  -- No root: an empty leaf is made, and the insert is logged for it.
  unfoldable pub insert_root : ℕ → BTree K → K → List ℕ → Option (BTree K)
  insert_root now t key value =
      let r = store κ ℒ raw value_size t (new_page κ ℒ raw value_size t true) in
      elim (fetch κ ℒ raw value_size (r.0) (r.1)) [
        | none ↦ none
        | some f ↦ some (log now (record f.0 { root = f.1 }) (r.1) key value)
      ]

  -- The root is full: splitChild works on a copy of the new root page, so that the page that is
  -- stored has no key and the old root as its only child, and an uninitialised page id.
  unfoldable pub split_root : BTree K → ℕ → Option (BTree K)
  split_root t root =
      let fresh = new_page κ ℒ raw value_size t false in
      let p = record fresh { children = (page_of κ ℒ raw value_size t root).header.page_id ∷ [] } in
      let parent = t.engine.memory.next in
      elim (split_child κ ℒ raw value_size (make κ ℒ raw value_size t p) parent 0 root) [
        | none ↦ none
        | some t₁ ↦ elim (put_and_enqueue κ ℒ raw value_size t₁ p.header.page_id p) [
          | none ↦ none
          | some t₂ ↦ elim (fetch κ ℒ raw value_size t₂ p.header.page_id) [
            | none ↦ none
            | some r ↦ some (record r.0 { root = r.1 })
          ]
        ]
      ]

  -- The tree of insert once it has a root with room.
  unfoldable pub prepare_root : ℕ → BTree K → K → List ℕ → Option ℕ → Option (BTree K)
  prepare_root now t key value none = insert_root now t key value
  prepare_root now t key value (some root) =
      if length (page_of κ ℒ raw value_size t root).keys == t.max_keys_per_node
      then split_root t root
      else some t

  unfoldable pub insert_below : ℕ → ℕ → BTree K → K → List ℕ → Option ℕ → Result (BTree K) Unit
  insert_below depth now t key value none = undefined
  insert_below depth now t key value (some root) =
      insert_non_full κ ℒ raw value_size depth
        (log now t (page_of κ ℒ raw value_size t root).header.page_id key value) root key value

  -- insert(key, value), the value as its bytes.
  unfoldable pub insert : ℕ → ℕ → BTree K → K → List ℕ → Result (BTree K) Unit
  insert depth now t key value =
      let t₀ = ensure_transaction t in
      elim (prepare_root now t₀ key value t₀.root) [
        | none ↦ undefined
        | some t₁ ↦ insert_below depth now t₁ key value t₁.root
      ]

  -- findKey: the leaf with the key.
  unfoldable pub find_key : ℕ → BTree K → ℕ → K → Result (BTree K) (Page K)
  find_key zero t node key = undefined
  find_key (suc depth) t node key =
      let p = page_of κ ℒ raw value_size t node in
      let idx = find_index κ value_size p.keys key in
      let here = key_at κ value_size p.keys idx key in
      if p.is_leaf
      then (if here then returned t p else thrown t)
      else elim (get_elem? p.children (if here then suc idx else idx)) [
        | none ↦ thrown t
        | some id ↦ elim (fetch κ ℒ raw value_size t id) [
          | none ↦ undefined
          | some r ↦ elim (r.1) [
            | none ↦ thrown (r.0)
            | some child ↦ find_key depth (r.0) child key
          ]
        ]
      ]

  -- search, which catches what findKey throws: the bytes of the value, or null.
  unfoldable pub search_from : ℕ → BTree K → K → Option ℕ → Option (BTree K × Option (List ℕ))
  search_from depth t key none = some (t, none)
  search_from depth t key (some root) = elim (find_key depth t root key) [
    | undefined ↦ none
    | thrown t' ↦ some (t', none)
    | returned t' p ↦ some (t', find_value κ value_size 0 p.keys p.bytes key)
  ]

  unfoldable pub search : ℕ → BTree K → K → Option (BTree K × Option (List ℕ))
  search depth t key = search_from depth t key t.root

  -- deleteFromNode of a leaf that has the key at idx.
  unfoldable pub delete_at : BTree K → ℕ → ℕ → Option (BTree K)
  delete_at t node idx = elim (delete_leaf κ value_size (page_of κ ℒ raw value_size t node) idx) [
    | none ↦ none
    | some p ↦ elim (put_and_enqueue κ ℒ raw value_size t p.header.page_id p) [
      | none ↦ none
      | some t' ↦ elim (fetch κ ℒ raw value_size t' p.header.page_id) [
        | none ↦ none
        | some r ↦ some (r.0)
      ]
    ]
  ]

  unfoldable pub delete_from_node : ℕ → BTree K → ℕ → K → Result (BTree K) Unit
  delete_from_node zero t node key = undefined
  delete_from_node (suc depth) t node key =
      let p = page_of κ ℒ raw value_size t node in
      let idx = find_index κ value_size p.keys key in
      let here = key_at κ value_size p.keys idx key in
      if p.is_leaf
      then (if here
          then elim (delete_at t node idx) [ none ↦ undefined | some t' ↦ returned t' tt ]
          else returned t tt)
      else elim (get_elem? p.children (if here then suc idx else idx)) [
        | none ↦ undefined
        | some id ↦ elim (fetch κ ℒ raw value_size t id) [
          | none ↦ undefined
          | some r ↦ elim (r.1) [
            | none ↦ thrown (r.0)
            | some child ↦ delete_from_node depth (r.0) child key
          ]
        ]
      ]

  -- The root becomes its first child, if it is an inner page without keys.
  unfoldable pub shrink_root : BTree K → ℕ → Option (BTree K)
  shrink_root t root =
      let p = page_of κ ℒ raw value_size t root in
      if p.is_leaf then some t else elim (p.keys) [
        | k ∷ ks ↦ some t
        | [] ↦ elim (get_elem? p.children 0) [
          | none ↦ none
          | some id ↦ elim (fetch κ ℒ raw value_size t id) [
            | none ↦ none
            | some r ↦ elim (r.1) [
              | some child ↦ some (record r.0 { root = some child })
              | none ↦ make_root κ ℒ raw value_size (r.0)
            ]
          ]
        ]
      ]

  unfoldable pub delete_from : ℕ → BTree K → K → Option ℕ → Result (BTree K) Unit
  delete_from depth t key none = returned t tt
  delete_from depth t key (some root) = elim (delete_from_node depth t root key) [
    | undefined ↦ undefined
    | thrown t' ↦ thrown t'
    | returned t' _ ↦ elim (shrink_root t' root) [ none ↦ undefined | some t'' ↦ returned t'' tt ]
  ]

  unfoldable pub delete_key : ℕ → BTree K → K → Result (BTree K) Unit
  delete_key depth t key = delete_from depth t key t.root

  -- A worker thread takes a batch and processes it.
  unfoldable pub write_batch : BTree K → BTree K
  write_batch t =
      let r = get_batch max_batch_size t.writer_queue in
      record t { writer_queue = r.0; engine = process_batch κ t.engine (r.1) }

  -- The rest of flush, once the queue is empty.
  unfoldable pub flush : BTree K → BTree K
  flush t = record t { engine = flush_all κ t.engine }
