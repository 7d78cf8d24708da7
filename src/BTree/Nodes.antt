-- ===== src/BTree/Nodes.antt =====
-- src/Btree.cpp, what its methods do to the vectors of one page. A value is its `sizeof(ValueType)`
-- bytes in memory, `value_size` of them. What the C++ leaves undefined is `none`.
use custom_database.Base.{
  ℕ, zero, suc, ◌+◌, ◌*◌, Bool, true, false, List, [], ◌∷◌, ◌++◌, Option, none, some, leb,
  if◌then◌else◌, length, take, drop, get_elem?, set,
}
use custom_database.Page.{KeyType, Page, slice}

unfoldable pub swap : {A : Type 0} → ℕ → ℕ → List A → Option (List A)
swap i j xs = elim (get_elem? xs i) [
  | none ↦ none
  | some a ↦ elim (get_elem? xs j) [ none ↦ none | some b ↦ some (set (set xs i b) j a) ]
]

-- `v.erase(begin + from, begin + from + n)`
unfoldable pub erase_range : {A : Type 0} → ℕ → ℕ → List A → Option (List A)
erase_range start n xs =
    if leb (start + n) (length xs) then some (take start xs ++ drop (start + n) xs) else none

-- `v.insert(begin + i, x)`
unfoldable pub insert_at : {A : Type 0} → ℕ → A → List A → Option (List A)
insert_at i x xs = if leb i (length xs) then some (take i xs ++ x ∷ drop i xs) else none

-- The inner loop of the insertion sort: n bytes from offset1 and offset2 change places.
unfoldable pub swap_blocks : ℕ → ℕ → ℕ → List ℕ → Option (List ℕ)
swap_blocks zero offset1 offset2 bytes = some bytes
swap_blocks (suc n) offset1 offset2 bytes = elim (swap offset1 offset2 bytes) [
  | none ↦ none
  | some bytes' ↦ swap_blocks n (offset1 + 1) (offset2 + 1) bytes'
]

module _ {K : Type 0} (κ : KeyType K) (value_size : ℕ) where
  -- `idx` after the loop `while (idx < keys.size() && key > keys[idx])`.
  unfoldable pub find_index : List K → K → ℕ
  find_index [] key = 0
  find_index (k ∷ ks) key = let rest = find_index ks key in if κ.less k key then suc rest else 0

  -- `idx < keys.size() && keys[idx] == key`
  unfoldable pub key_at : List K → ℕ → K → Bool
  key_at ks i key = elim (get_elem? ks i) [
    | none ↦ false
    | some k ↦ elim (κ.key_dec k key) [ yes _ ↦ true | no _ ↦ false ]
  ]

  -- `keys[i] < keys[j]`
  unfoldable pub less_at : List K → ℕ → ℕ → Option Bool
  less_at ks i j = elim (get_elem? ks i) [
    | none ↦ none
    | some a ↦ elim (get_elem? ks j) [ none ↦ none | some b ↦ some (κ.less a b) ]
  ]

  -- One round of the insertion sort, at j.
  unfoldable pub swap_entries : ℕ → ℕ → List K → List ℕ → Option (List K × List ℕ)
  swap_entries i j ks bytes = elim (swap i j ks) [
    | none ↦ none
    | some ks' ↦ elim (swap_blocks value_size (i * value_size) (j * value_size) bytes) [
      | none ↦ none
      | some bytes' ↦ some (ks', bytes')
    ]
  ]

  -- The insertion sort of insertNonFull, from j.
  unfoldable pub sift : ℕ → List K → List ℕ → Option (List K × List ℕ)
  sift zero ks bytes = some (ks, bytes)
  sift (suc j) ks bytes = elim (less_at ks (suc j) j) [
    | none ↦ none
    | some smaller ↦
        if smaller
        then elim (swap_entries (suc j) j ks bytes) [ none ↦ none | some r ↦ sift j (r.0) (r.1) ]
        else some (ks, bytes)
  ]

  -- The modified copy of a leaf in insertNonFull.
  unfoldable pub insert_leaf : Page K → K → List ℕ → Option (Page K)
  insert_leaf p key value = elim (sift (length p.keys) (p.keys ++ key ∷ []) (p.bytes ++ value)) [
    | none ↦ none
    | some r ↦ some (record p { keys = r.0; bytes = r.1 })
  ]

  -- The modified copy of a leaf in deleteFromNode, without its entry at idx.
  unfoldable pub delete_leaf : Page K → ℕ → Option (Page K)
  delete_leaf p idx = elim (erase_range idx 1 p.keys) [
    | none ↦ none
    | some ks ↦ elim (erase_range (idx * value_size) value_size p.bytes) [
      | none ↦ none
      | some bytes ↦ some (record p { keys = ks; bytes = bytes })
    ]
  ]

  -- The two halves that splitChild makes of a page, `fresh` being the new page.
  unfoldable pub split_page : ℕ → Page K → Page K → Option (Page K × Page K)
  split_page mid p fresh =
      if leb (mid + 1) (length p.keys)
      then (if p.is_leaf
          then (if leb ((mid + 1) * value_size) (length p.bytes)
              then some (
                record p { keys = take mid p.keys; bytes = take ((mid + 1) * value_size) p.bytes },
                record fresh {
                  keys = drop (mid + 1) p.keys;
                  bytes = drop ((mid + 1) * value_size) p.bytes;
                },
              )
              else none)
          else (if leb (mid + 1) (length p.children)
              then some (
                record p { keys = take mid p.keys; children = take (mid + 1) p.children },
                record fresh { keys = drop (mid + 1) p.keys; children = drop (mid + 1) p.children },
              )
              else none))
      else none

  -- The loop of search over the entries of a page, from entry i on.
  unfoldable pub find_value : ℕ → List K → List ℕ → K → Option (List ℕ)
  find_value i [] bytes key = none
  find_value i (k ∷ ks) bytes key =
      let rest = find_value (suc i) ks bytes key in
      elim (κ.key_dec k key) [
        | no _ ↦ rest
        | yes _ ↦ elim (slice bytes (i * value_size) value_size) [
          | none ↦ rest
          | some value ↦ some value
        ]
      ]
