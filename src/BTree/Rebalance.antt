-- ===== src/BTree/Rebalance.antt =====
-- src/Btree.cpp: borrowFromLeft, borrowFromRight and mergeNodes, which no method calls. What they do
-- to the vectors of the two pages and to the parent's key comes first; `none` is a read or a write
-- outside a vector.
use custom_database.Base.{
  ℕ, zero, suc, ◌+◌, ◌-◌, ◌*◌, List, [], ◌∷◌, ◌++◌, Option, none, some, if◌then◌else◌, length, take,
  drop, get_elem?, set,
}
use custom_database.Page.{KeyType, Page, PageHeader, slice}
use custom_database.ContentStorage
use custom_database.Wal.{Layout}
use custom_database.BTree.{
  BTree, Result, returned, thrown, undefined, page_of, store, fetch, put_and_enqueue,
}
use custom_database.BTree.Nodes.{erase_range}
use custom_database.BTree.Operations.{set_page}

-- `v.back()` and `v.pop_back()` of the vector `x ∷ xs`: the others, and the last.
unfoldable pub pop_last : {A : Type 0} → A → List A → List A × A
pop_last x [] = ([], x)
pop_last x (y ∷ ys) = let r = pop_last y ys in (x ∷ r.0, r.1)

unfoldable pub split_back : {A : Type 0} → List A → Option (List A × A)
split_back [] = none
split_back (x ∷ xs) = some (pop_last x xs)

-- `v.front()`, and the vector without it.
unfoldable pub split_front : {A : Type 0} → List A → Option (A × List A)
split_front [] = none
split_front (x ∷ xs) = some (x, xs)

module _ {K : Type 0} (value_size : ℕ) where
  -- The left sibling, the child and the parent's key, after a leaf has borrowed.
  unfoldable pub borrow_leaf_left : Page K → Page K → Option (Page K × Page K × K)
  borrow_leaf_left sibling child = elim (split_back sibling.keys) [
    | none ↦ none
    | some r ↦ elim (slice sibling.bytes (length (r.0) * value_size) value_size) [
      | none ↦ none
      | some value ↦ some (
        record sibling {
          keys = r.0;
          bytes = take (length sibling.bytes - value_size) sibling.bytes;
        },
        record child { keys = r.1 ∷ child.keys; bytes = value ++ child.bytes },
        r.1,
      )
    ]
  ]

  -- The child, the right sibling and the parent's key, after a leaf has borrowed.
  unfoldable pub borrow_leaf_right : Page K → Page K → Option (Page K × Page K × K)
  borrow_leaf_right child sibling = elim (split_front sibling.keys) [
    | none ↦ none
    | some r ↦ elim (split_front (r.1)) [
      | none ↦ none
      | some next ↦ elim (slice sibling.bytes 0 value_size) [
        | none ↦ none
        | some value ↦ some (
          record child { keys = child.keys ++ r.0 ∷ []; bytes = child.bytes ++ value },
          record sibling { keys = r.1; bytes = drop value_size sibling.bytes },
          next.0,
        )
      ]
    ]
  ]

-- The same of inner pages, where the parent's key moves down and the sibling's up.
unfoldable pub borrow_inner_left : {K : Type 0} → Page K → Page K → K → Option (Page K × Page K × K)
borrow_inner_left sibling child key = elim (split_back sibling.keys) [
  | none ↦ none
  | some r ↦ elim (split_back sibling.children) [
    | none ↦ none
    | some c ↦ some (
      record sibling { keys = r.0; children = c.0 },
      record child { keys = key ∷ child.keys; children = c.1 ∷ child.children },
      r.1,
    )
  ]
]

unfoldable pub borrow_inner_right :
    {K : Type 0} → Page K → Page K → K → Option (Page K × Page K × K)
borrow_inner_right child sibling key = elim (split_front sibling.keys) [
  | none ↦ none
  | some r ↦ elim (split_front sibling.children) [
    | none ↦ none
    | some c ↦ some (
      record child { keys = child.keys ++ key ∷ []; children = child.children ++ c.0 ∷ [] },
      record sibling { keys = r.1; children = c.1 },
      r.0,
    )
  ]
]

-- The left page of two that are merged.
unfoldable pub merged : {K : Type 0} → Page K → Page K → K → Page K
merged left right key =
    if left.is_leaf
    then record left { keys = left.keys ++ right.keys; bytes = left.bytes ++ right.bytes }
    else record left {
      keys = left.keys ++ key ∷ right.keys;
      children = left.children ++ right.children;
    }

module _ {K : Type 0} (κ : KeyType K) (ℒ : Layout K) (raw : ℕ → PageHeader) (value_size : ℕ) where
  -- `parent->keys[i] = key`
  unfoldable pub set_parent_key : BTree K → ℕ → ℕ → K → BTree K
  set_parent_key t parent i key =
      let p = page_of κ ℒ raw value_size t parent in
      set_page κ ℒ raw value_size t parent (record p { keys = set p.keys i key })

  -- Both pages through the storage, whose answers are not used.
  unfoldable pub store_both : BTree K → Page K → Page K → BTree K
  store_both t a b = (store κ ℒ raw value_size (store κ ℒ raw value_size t a).0 b).0

  unfoldable pub cache_both : BTree K → Page K → Page K → Result (BTree K) Unit
  cache_both t a b = elim (put_and_enqueue κ ℒ raw value_size t a.header.page_id a) [
    | none ↦ undefined
    | some t' ↦ elim (put_and_enqueue κ ℒ raw value_size t' b.header.page_id b) [
      | none ↦ undefined
      | some t'' ↦ returned t'' tt
    ]
  ]

  -- The child at `suc i` borrows from the page at i; the pages are at these addresses.
  unfoldable pub borrow_left_pages : BTree K → ℕ → ℕ → ℕ → ℕ → Result (BTree K) Unit
  borrow_left_pages t parent i child sibling =
      let c = page_of κ ℒ raw value_size t child in
      let s = page_of κ ℒ raw value_size t sibling in
      elim (get_elem? (page_of κ ℒ raw value_size t parent).keys i) [
        | none ↦ undefined
        | some key ↦
            if c.is_leaf
            then elim (borrow_leaf_left value_size s c) [
              | none ↦ undefined
              | some r ↦ cache_both (set_parent_key t parent i r.2) r.1 r.0
            ]
            else elim (borrow_inner_left s c key) [
              | none ↦ undefined
              | some r ↦ returned (store_both (set_parent_key t parent i r.2) r.1 r.0) tt
            ]
      ]

  -- A child and a sibling through the cache, then `both` on their addresses.
  unfoldable pub fetch_both :
      BTree K → ℕ → ℕ → (BTree K → ℕ → ℕ → Result (BTree K) Unit) → Result (BTree K) Unit
  fetch_both t a b both = elim (fetch κ ℒ raw value_size t a) [
    | none ↦ undefined
    | some r ↦ elim (fetch κ ℒ raw value_size r.0 b) [
      | none ↦ undefined
      | some q ↦ elim (r.1) [
        | none ↦ thrown (q.0)
        | some child ↦ elim (q.1) [ none ↦ thrown (q.0) | some sibling ↦ both (q.0) child sibling ]
      ]
    ]
  ]

  unfoldable pub borrow_from_left : BTree K → ℕ → ℕ → Result (BTree K) Unit
  borrow_from_left t parent zero = undefined
  borrow_from_left t parent (suc i) =
      let ids = (page_of κ ℒ raw value_size t parent).children in
      elim (get_elem? ids (suc i)) [
        | none ↦ undefined
        | some child_id ↦ elim (get_elem? ids i) [
          | none ↦ undefined
          | some sibling_id ↦
              fetch_both t child_id sibling_id
                (λ t' child sibling. borrow_left_pages t' parent i child sibling)
        ]
      ]

  -- The two pages at `index` and `index + 1` of the parent's children, from the storage.
  unfoldable pub storage_pair : BTree K → ℕ → ℕ → Option (Option ℕ × Option ℕ)
  storage_pair t parent index =
      let ids = (page_of κ ℒ raw value_size t parent).children in
      elim (get_elem? ids index) [
        | none ↦ none
        | some a ↦ elim (get_elem? ids (index + 1)) [
          | none ↦ none
          | some b ↦ some (
            ContentStorage.get_page t.engine.storage a,
            ContentStorage.get_page t.engine.storage b,
          )
        ]
      ]

  -- The child at `index` borrows from its right sibling.
  unfoldable pub borrow_right_pages : BTree K → ℕ → ℕ → ℕ → ℕ → Result (BTree K) Unit
  borrow_right_pages t parent index child sibling =
      let c = page_of κ ℒ raw value_size t child in
      let s = page_of κ ℒ raw value_size t sibling in
      elim (get_elem? (page_of κ ℒ raw value_size t parent).keys index) [
        | none ↦ undefined
        | some key ↦
            elim (if c.is_leaf
              then borrow_leaf_right value_size c s
              else borrow_inner_right c s key) [
                | none ↦ undefined
                | some r ↦ returned (store_both (set_parent_key t parent index r.2) r.0 r.1) tt
              ]
      ]

  unfoldable pub borrow_from_right : BTree K → ℕ → ℕ → Result (BTree K) Unit
  borrow_from_right t parent index = elim (storage_pair t parent index) [
    | none ↦ undefined
    | some (none, b) ↦ thrown t
    | some (some child, none) ↦ thrown t
    | some (some child, some sibling) ↦ borrow_right_pages t parent index child sibling
  ]

  -- The parent without its key at `index` and the child behind it; then the merged page is stored.
  unfoldable pub merge_pages : BTree K → ℕ → ℕ → ℕ → ℕ → Result (BTree K) Unit
  merge_pages t parent index left right =
      let p = page_of κ ℒ raw value_size t parent in
      elim (get_elem? p.keys index) [
        | none ↦ undefined
        | some key ↦ elim (erase_range index 1 p.keys) [
          | none ↦ undefined
          | some ks ↦ elim (erase_range (index + 1) 1 p.children) [
            | none ↦ undefined
            | some ids ↦
                returned
                  (store κ ℒ raw value_size
                    (set_page κ ℒ raw value_size t parent (record p { keys = ks; children = ids }))
                    (merged (page_of κ ℒ raw value_size t left) (page_of κ ℒ raw value_size t right)
                      key)).0
                  tt
          ]
        ]
      ]

  unfoldable pub merge_nodes : BTree K → ℕ → ℕ → Result (BTree K) Unit
  merge_nodes t parent index = elim (storage_pair t parent index) [
    | none ↦ undefined
    | some (none, b) ↦ thrown t
    | some (some left, none) ↦ thrown t
    | some (some left, some right) ↦ merge_pages t parent index left right
  ]
