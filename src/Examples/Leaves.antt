-- ===== src/Examples/Leaves.antt =====
-- Examples of the leaves of the tree, with values of two bytes: an entry between two others, and two
-- leaves that are merged.
use custom_database.Base.{
  ℕ, ◌≡◌, ◌≢◌, refl, sym, ap, ◌∙◌, String, false, List, [], ◌∷◌, ◌++◌, some, none, arith, take,
  drop, ℕ_discrete,
}
use custom_database.Base.Assoc
use custom_database.Base.Tests.{string_dec}
use custom_database.Memory.{Memory}
use custom_database.Page.{Page, page_hash, compute_hash, keys_content}
use custom_database.ContentStorage
use custom_database.ContentStorage.{ContentStorage as Storage, new_storage, find_content}
use custom_database.ContentStorage.Validity.{IsValid, new_storage-IsValid, store_page-IsValid}
use custom_database.BTree.{BTree, returned}
use custom_database.BTree.Nodes.{insert_leaf}
use custom_database.BTree.Leaf.{keys_of, bytes_of, Sized}
use custom_database.BTree.Order.{StrictWeak, Sorted, insert_leaf-Sorted}
use custom_database.BTree.Rebalance.{merge_nodes}
use custom_database.BTree.Merge.{merge_nodes-left_unmerged}
use custom_database.PageCache.{new_cache}
use custom_database.Wal.{open_wal}
use custom_database.Examples.{keys, raw_header, leaf, fields}

keys-StrictWeak : StrictWeak keys
keys-StrictWeak = record { asym = λ a b h. ground arith; trans = λ a b c h k. ground arith }

abbrev entries : List (ℕ × List ℕ)
entries = (1, 7 ∷ 7 ∷ []) ∷ (5, 8 ∷ 8 ∷ []) ∷ []

abbrev page : Page ℕ
page = leaf (1 ∷ 5 ∷ []) (7 ∷ 7 ∷ 8 ∷ 8 ∷ [])

insert_leaf-Sorted_example :
    (before after : List (ℕ × List ℕ)) × (entries ≡ before ++ after)
    × (insert_leaf keys 2 page 3 (9 ∷ 9 ∷ [])
        ≡ some (record page {
          keys = keys_of (before ++ (3, 9 ∷ 9 ∷ []) ∷ after);
          bytes = bytes_of (before ++ (3, 9 ∷ 9 ∷ []) ∷ after);
        }))
    × Sorted keys 2 (before ++ (3, 9 ∷ 9 ∷ []) ∷ after)
    × Sized 2 (before ++ (3, 9 ∷ 9 ∷ []) ∷ after)
insert_leaf-Sorted_example =
    insert_leaf-Sorted keys 2 page entries 3 (9 ∷ 9 ∷ []) keys-StrictWeak refl refl
      (refl, (refl, tt)) refl ((refl, tt), (tt, tt))

abbrev parent_page : Page ℕ
parent_page = record {
  header = raw_header;
  is_leaf = false;
  keys = 5 ∷ [];
  children = 1 ∷ 2 ∷ [];
  slot_directory = [];
  bytes = [];
}

-- A memory whose pages are all the parent, and a storage with two leaves.
abbrev bare : Memory ℕ
bare = record { pages = λ a. parent_page; next = 3 }

abbrev one : Memory ℕ × Storage × ℕ
one = ContentStorage.store_page keys bare new_storage (leaf (1 ∷ []) (0 ∷ 0 ∷ []))

abbrev two : Memory ℕ × Storage × ℕ
two = ContentStorage.store_page keys one.0 one.1 (leaf (2 ∷ []) (0 ∷ 0 ∷ []))

abbrev tree : BTree ℕ
tree = record {
  root = some 0;
  max_keys_per_node = 3;
  engine = record { memory = two.0; storage = two.1; cache = new_cache 50 };
  writer_queue = record { write_queue = []; max_queue_size = 1000 };
  wal_manager = open_wal [] 8192;
  current_transaction = 1;
}

two-IsValid : IsValid keys two.0 two.1
unfolding ContentStorage.store_page ContentStorage.add_content new_storage Assoc.lookup
two-IsValid =
    store_page-IsValid keys one.0 one.1 (leaf (2 ∷ []) (0 ∷ 0 ∷ []))
      (store_page-IsValid keys bare new_storage (leaf (1 ∷ []) (0 ∷ 0 ∷ []))
        (new_storage-IsValid keys bare) (omega arith))
      (omega arith)

apart : (h : String) (a : ℕ) → find_content two.1 h ≡ some a → ◌≢◌ {A = ℕ} 0 a
unfolding ContentStorage.store_page ContentStorage.add_content ContentStorage.get_page new_storage
    Assoc.lookup Assoc.insert string_dec page_hash compute_hash keys_content ℕ_discrete
apart h a f p =
    let hold = two-IsValid.holds h a f in
    let empty : String = "" in
    let unlabelled : empty ≡ h = ap (λ b. (two.0.pages b).header.content_hash) p ∙ hold.labelled in
    let unknown : find_content two.1 empty ≡ none = refl in
    absurd (cc (sym unknown ∙ ap (find_content two.1) unlabelled ∙ f))

merge_nodes-left_unmerged_example :
    (t' : BTree ℕ) × (merge_nodes keys fields (λ n. raw_header) 2 tree 0 0 ≡ returned t' tt)
    × ((t'.engine.memory.pages 0).keys
        ≡ take 0 (tree.engine.memory.pages 0).keys ++ drop 1 (tree.engine.memory.pages 0).keys)
    × ((t'.engine.memory.pages 0).children
        ≡ take 1 (tree.engine.memory.pages 0).children
          ++ drop 2 (tree.engine.memory.pages 0).children)
    × (ContentStorage.get_page t'.engine.storage 1 ≡ some 3)
    × (t'.engine.memory.pages 3 ≡ tree.engine.memory.pages 3)
unfolding ContentStorage.store_page ContentStorage.add_content ContentStorage.get_page new_storage
    Assoc.lookup Assoc.insert string_dec page_hash compute_hash keys_content ℕ_discrete
merge_nodes-left_unmerged_example =
    merge_nodes-left_unmerged keys fields (λ n. raw_header) 2 tree 0 0 {key = 5} {left_id = 1}
      {right_id = 2} {left = 3} {right = 4} refl refl refl refl refl two-IsValid apart (omega arith)
