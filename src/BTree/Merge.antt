-- ===== src/BTree/Merge.antt =====
-- mergeNodes of src/Btree.cpp, and the page that the storage has for the left child.
use custom_database.Base.{
  ℕ, zero, suc, ◌+◌, ◌<◌, ◌≡◌, ◌≢◌, refl, ap, ◌∙◌, String, true, List, [], ◌∷◌, ◌++◌, none, some,
  arith, leb, if◌then◌else◌, if_neg, if_pos, ℕ_discrete, length, take, drop, get_elem?,
}
use custom_database.Memory.{Memory, update}
use custom_database.Page.{KeyType, Page, PageHeader}
use custom_database.ContentStorage
use custom_database.ContentStorage.{ContentStorage as Storage, find_content}
use custom_database.ContentStorage.Validity.{IsValid}
use custom_database.ContentStorage.Lookup.{get_page-inverted, get_page-stable, store_page-Extends}
use custom_database.PageCache.Flush.{Stored}
use custom_database.Wal.{Layout}
use custom_database.BTree.{BTree, Result, returned, thrown, undefined, store}
use custom_database.BTree.Nodes.{erase_range}
use custom_database.BTree.Operations.{set_page}
use custom_database.BTree.Rebalance.{merged, storage_pair, merge_pages, merge_nodes}

get_elem?-bound :
    {A : Type 0} (xs : List A) (i : ℕ) {x : A} → get_elem? xs i ≡ some x → i < length xs
get_elem?-bound [] i h = absurd (cc)
get_elem?-bound (y ∷ xs) zero h = omega arith
get_elem?-bound (y ∷ xs) (suc i) {x} h = omega (arith, get_elem?-bound xs i {x = x} h)

erase_range-one :
    {A : Type 0} (xs : List A) (i : ℕ) {x : A}
    → get_elem? xs i ≡ some x
    → erase_range i 1 xs ≡ some (take i xs ++ drop (i + 1) xs)
unfolding erase_range
erase_range-one xs i {x} h =
    let fits : leb (i + 1) (length xs) ≡ true = ground (arith, get_elem?-bound xs i {x = x} h) in
    ap (λ b. if b then some (take i xs ++ drop (i + 1) xs) else none) fits

module _ {K : Type 0} (κ : KeyType K) where
  -- A page at an address that the storage does not know may change.
  IsValid-update :
      (m : Memory K) (s : Storage) (q : ℕ) (p : Page K)
      → IsValid κ m s
      → ((h : String) (a : ℕ) → find_content s h ≡ some a → q ≢ a)
      → IsValid κ (record m { pages = update m.pages q p }) s
  IsValid-update m s q p v apart = record {
    some_id = v.some_id;
    in_range = v.in_range;
    holds = λ h a f.
        let old = v.holds h a f in
        let same : update m.pages q p a ≡ m.pages a = if_neg (ℕ_discrete q a) (apart h a f) _ _ in
        record {
          made = old.made;
          hashed = rw same old.hashed;
          labelled = rw same old.labelled;
          indexed = rw same old.indexed;
        };
    given = λ i h f.
        let old = v.given i h f in
        let same : update m.pages q p old.address ≡ m.pages old.address =
          if_neg (ℕ_discrete q old.address) (apart h old.address old.found) _ _ in
        record {
          positive = old.positive;
          used = old.used;
          address = old.address;
          found = old.found;
          owned = rw same old.owned;
        };
  }

module _ {K : Type 0} (κ : KeyType K) (ℒ : Layout K) (raw : ℕ → PageHeader) (value_size : ℕ) where
  -- What mergeNodes leaves: the parent's new key and child vectors, and the merged page stored.
  abbrev after_merge : BTree K → ℕ → ℕ → Page K → Page K → K → BTree K
  after_merge t parent index left right key =
      let p = t.engine.memory.pages parent in
      (store κ ℒ raw value_size
        (set_page κ ℒ raw value_size t parent (record p {
          keys = take index p.keys ++ drop (index + 1) p.keys;
          children = take (index + 1) p.children ++ drop (index + 1 + 1) p.children;
        }))
        (merged left right key)).0

  module _ (t : BTree K) (parent index : ℕ) {key : K} {left_id right_id left right : ℕ}
      (has_key : get_elem? (t.engine.memory.pages parent).keys index ≡ some key)
      (has_left : get_elem? (t.engine.memory.pages parent).children index ≡ some left_id)
      (has_right : get_elem? (t.engine.memory.pages parent).children (index + 1) ≡ some right_id)
      (at_left : ContentStorage.get_page t.engine.storage left_id ≡ some left)
      (at_right : ContentStorage.get_page t.engine.storage right_id ≡ some right) where
    storage_pair-found :
        storage_pair κ ℒ raw value_size t parent index ≡ some (some left, some right)
    unfolding storage_pair
    storage_pair-found = rw (storage_pair, has_left, has_right, at_left, at_right)

    merge_pages-run :
        merge_pages κ ℒ raw value_size t parent index left right
        ≡ returned
            (after_merge t parent index
              (t.engine.memory.pages left)
              (t.engine.memory.pages right)
              key)
            tt
    unfolding merge_pages
    merge_pages-run =
        let p = t.engine.memory.pages parent in
        rw (
          merge_pages,
          has_key,
          erase_range-one p.keys index {x = key} has_key,
          erase_range-one p.children (index + 1) {x = right_id} has_right,
        )

    merge_nodes-run :
        merge_nodes κ ℒ raw value_size t parent index
        ≡ returned
            (after_merge t parent index
              (t.engine.memory.pages left)
              (t.engine.memory.pages right)
              key)
            tt
    unfolding merge_nodes
    merge_nodes-run =
        ap
          (λ o. elim o as (λ _. Result (BTree K) Unit) [
            | none ↦ undefined
            | some (none, b) ↦ thrown t
            | some (some left, none) ↦ thrown t
            | some (some left, some right) ↦
                merge_pages κ ℒ raw value_size t parent index left right
          ])
          storage_pair-found
        ∙ merge_pages-run

    -- mergeNodes on two pages of a valid storage, with a parent that the storage does not hold: it
    -- returns, and the parent has lost its key at the index and the right child; but what the storage
    -- returns for the left child is the page without the right one's entries, as before.
    pub merge_nodes-left_unmerged :
        Stored κ t.engine
        → ((h : String) (a : ℕ) → find_content t.engine.storage h ≡ some a → parent ≢ a)
        → parent < t.engine.memory.next
        → (t' : BTree K) × (merge_nodes κ ℒ raw value_size t parent index ≡ returned t' tt)
          × ((t'.engine.memory.pages parent).keys
              ≡ take index (t.engine.memory.pages parent).keys
                ++ drop (index + 1) (t.engine.memory.pages parent).keys)
          × ((t'.engine.memory.pages parent).children
              ≡ take (index + 1) (t.engine.memory.pages parent).children
                ++ drop (index + 1 + 1) (t.engine.memory.pages parent).children)
          × (ContentStorage.get_page t'.engine.storage left_id ≡ some left)
          × (t'.engine.memory.pages left ≡ t.engine.memory.pages left)
    unfolding store set_page
    merge_nodes-left_unmerged v apart made =
        let p = t.engine.memory.pages parent in
        let p' = record p {
          keys = take index p.keys ++ drop (index + 1) p.keys;
          children = take (index + 1) p.children ++ drop (index + 1 + 1) p.children;
        } in
        let m' = record t.engine.memory { pages = update t.engine.memory.pages parent p' } in
        let page = merged (t.engine.memory.pages left) (t.engine.memory.pages right) key in
        let v' = IsValid-update κ t.engine.memory t.engine.storage parent p' v apart in
        let stays = get_page-stable κ m' t.engine.storage page left_id {a = left} v' at_left in
        let (h, _, found) = get_page-inverted t.engine.storage left_id {a = left} at_left in
        let kept = (store_page-Extends κ m' t.engine.storage page).keeps parent made in
        (
          after_merge t parent index (t.engine.memory.pages left) (t.engine.memory.pages right) key,
          merge_nodes-run,
          ap (λ q. q.keys) (kept ∙ if_pos (ℕ_discrete parent parent) refl _ _),
          ap (λ q. q.children) (kept ∙ if_pos (ℕ_discrete parent parent) refl _ _),
          stays.0,
          stays.1 ∙ if_neg (ℕ_discrete parent left) (apart h left found) _ _,
        )
