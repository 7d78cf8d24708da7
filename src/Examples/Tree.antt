-- ===== src/Examples/Tree.antt =====
-- An example of the tree: nodes of up to three keys, values of two bytes.
use custom_database.Base.{ℕ, ◌≡◌, List, [], ◌∷◌, none, some, arith}
use custom_database.BTree.{BTree}
use custom_database.BTree.Operations.{new_tree, split_child}
use custom_database.BTree.Calls.{search}
use custom_database.BTree.Lost.{Call, insertion, deletion, batch, run, search-run}
use custom_database.BTree.Split.{split_child-undefined}
use custom_database.Examples.{keys, raw_header, memory, fields}
use custom_database.Examples.Cache.{empty_engine}
use custom_database.Wal.{open_wal}

abbrev calls : List (Call ℕ)
calls = insertion 5 10 (1 ∷ 2 ∷ []) ∷ batch ∷ insertion 6 20 (3 ∷ 4 ∷ []) ∷ deletion 10 ∷ []

search-run_example :
    (t t' : BTree ℕ) × (new_tree keys fields (λ n. raw_header) 2 memory [] 3 ≡ some t)
    × (run keys fields (λ n. raw_header) 2 1 t calls ≡ some t')
    × ((key : ℕ) → search keys fields (λ n. raw_header) 2 1 t' key ≡ some (t', none))
search-run_example = search-run keys fields (λ n. raw_header) 2 0 memory [] 3 calls (omega arith)

abbrev tree : BTree ℕ
tree = record {
  root = some 0;
  max_keys_per_node = 3;
  engine = empty_engine 50;
  writer_queue = record { write_queue = []; max_queue_size = 1000 };
  wal_manager = open_wal [] 8192;
  current_transaction = 1;
}

split_child-undefined_example : split_child keys fields (λ n. raw_header) 2 tree 1 0 0 ≡ none
split_child-undefined_example = split_child-undefined keys fields (λ n. raw_header) 2 tree 1 0 0
