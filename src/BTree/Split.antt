-- ===== src/BTree/Split.antt =====
-- splitChild of src/Btree.cpp.
use custom_database.Base.{
  ℕ, zero, suc, ◌/◌, ◌≤◌, ◌≡◌, refl, ap, List, [], ◌∷◌, none, some, arith, inl, inr, Option-cases,
  length, length-take, take, get_elem?,
}
use custom_database.Page.{KeyType, Page, PageHeader}
use custom_database.Wal.{Layout}
use custom_database.BTree.{BTree, page_of, new_page}
use custom_database.BTree.Nodes.{split_page}
use custom_database.BTree.Operations.{split_child, store_halves, update_parent}

get_elem?-beyond : {A : Type 0} → (xs : List A) (i : ℕ) → length xs ≤ i → get_elem? xs i ≡ none
get_elem?-beyond [] i h = refl
get_elem?-beyond (x ∷ xs) zero h = absurd (omega arith)
get_elem?-beyond (x ∷ xs) (suc i) h = get_elem?-beyond xs i (omega arith)

module _ {K : Type 0} (κ : KeyType K) (ℒ : Layout K) (raw : ℕ → PageHeader) (value_size : ℕ) where
  split_page-keys :
      (mid : ℕ) (p fresh : Page K) (r : Page K × Page K)
      → split_page κ value_size mid p fresh ≡ some r
      → (r.0).keys ≡ take mid p.keys
  unfolding split_page
  split_page-keys mid p fresh r e = ground arith

  -- Whatever the tree and its nodes are, splitChild ends in a read of `modified_child.keys[mid]`
  -- after that vector was cut to mid keys, if not in an undefined copy before: splitting a full
  -- node has no defined behaviour.
  pub split_child-undefined :
      (t : BTree K) (parent index child : ℕ)
      → split_child κ ℒ raw value_size t parent index child ≡ none
  unfolding split_child update_parent
  split_child-undefined t parent index child =
      let mid = t.max_keys_per_node / 2 in
      let p = page_of κ ℒ raw value_size t child in
      let fresh = new_page κ ℒ raw value_size t p.is_leaf in
      elim (Option-cases (split_page κ value_size mid p fresh)) [
        | inl e ↦ rw (split_child, e)
        | inr (r, e) ↦
            let kept = split_page-keys mid p fresh r e in
            let short : length (r.0).keys ≤ mid =
              omega (arith, ap length kept, length-take mid p.keys) in
            elim (Option-cases (store_halves κ ℒ raw value_size t (r.0) (r.1))) [
              | inl e' ↦ rw (split_child, e, e')
              | inr (s, e') ↦ rw (split_child, e, e', get_elem?-beyond (r.0).keys mid short)
            ]
      ]
