-- ===== src/BTree.antt =====
-- include/btree.h and src/Btree.cpp: the tree over the cache, the writer queue and the log. The
-- node pointers are addresses in the memory. `raw` is what an uninitialised page header holds at
-- the moment it is made, `now` the time. The recursion is bounded by `depth`; beyond it, as where the
-- C++ has no defined behaviour, a call is `undefined`.
pub mod Nodes
pub mod Operations
pub mod Calls
pub mod Root
pub mod Lost
pub mod Split
pub mod Swap
pub mod Leaf
pub mod Insertion
pub mod Order
pub mod Rebalance
pub mod Balance
pub mod Merge
pub mod Closing
use custom_database.Base.{
  ℕ, zero, suc, ◌+◌, ◌-◌, ◌*◌, Bool, true, false, List, [], ◌∷◌, ◌++◌, Option, none, some, leb, ltb,
  ◌==◌, if◌then◌else◌, length, get_elem?,
}
use mathlib.Core.Option
use custom_database.Memory.{Memory, make_shared, update}
use custom_database.Page.{KeyType, Page, PageHeader, create_page}
use custom_database.ContentStorage.{new_storage, store_page}
use custom_database.PageCache.{Engine, new_cache, get_page, put_page}
use custom_database.WriterQueue.{
  WriterQueue, enqueue_write, get_batch, process_batch, max_batch_size,
}
use custom_database.Wal
use custom_database.Wal.{Layout, WalManager}
use custom_database.BTree.Nodes.{
  find_index, key_at, insert_leaf, delete_leaf, split_page, find_value, insert_at,
}

pub record BTree (K : Type 0) : Type 0 where
  pub root : Option ℕ
  pub max_keys_per_node : ℕ
  pub engine : Engine K
  pub writer_queue : WriterQueue
  pub wal_manager : WalManager
  pub current_transaction : ℕ

-- A method returns, throws `std::runtime_error`, or does what the C++ does not define. What it
-- leaves of the tree comes with it.
pub data Result (S A : Type 0) : Type 0 where
  returned : S → A → Result S A
  thrown : S → Result S A
  undefined : Result S A

-- The page cache, the writer queue and the log of every tree.
abbrev pub cache_pages : ℕ
cache_pages = 50

abbrev pub queue_requests : ℕ
queue_requests = 1000

abbrev pub wal_buffer : ℕ
wal_buffer = 8192

module _ {K : Type 0} (κ : KeyType K) (ℒ : Layout K) (raw : ℕ → PageHeader) (value_size : ℕ) where
  abbrev pub page_of : BTree K → ℕ → Page K
  page_of t a = t.engine.memory.pages a

  -- createPage
  unfoldable pub new_page : BTree K → Bool → Page K
  new_page t is_leaf = create_page κ (raw t.engine.memory.next) is_leaf

  -- content_storage.storePage(page)
  unfoldable pub store : BTree K → Page K → BTree K × ℕ
  store t p =
      let r = store_page κ t.engine.memory t.engine.storage p in
      (record t { engine = record t.engine { memory = r.0; storage = r.1 } }, r.2)

  -- page_cache.getPage(id); `none` if the eviction does not end.
  unfoldable pub fetch : BTree K → ℕ → Option (BTree K × Option ℕ)
  fetch t id = elim (get_page κ t.engine id) [
    | none ↦ none
    | some r ↦ some (record t { engine = r.0 }, r.1)
  ]

  -- std::make_shared<Page<KeyType>>(p)
  unfoldable pub make : BTree K → Page K → BTree K
  make t p = record t { engine = record t.engine { memory = make_shared t.engine.memory p } }

  unfoldable pub enqueue : BTree K → ℕ → Page K → BTree K
  enqueue t id p =
      let a = t.engine.memory.next in
      let t' = make t p in record t' { writer_queue = (enqueue_write t'.writer_queue id a).0 }

  -- putPage and enqueueWrite of a page, each with a copy of its own.
  unfoldable pub put_and_enqueue : BTree K → ℕ → Page K → Option (BTree K)
  put_and_enqueue t id p =
      let t' = make t p in
      elim (put_page κ t'.engine id t.engine.memory.next) [
        | none ↦ none
        | some e ↦ some (enqueue (record t' { engine = e }) id p)
      ]

  -- beginTransaction
  unfoldable pub start_transaction : BTree K → BTree K
  start_transaction t =
      let r = Wal.begin_transaction t.wal_manager in
      record t { wal_manager = r.0; current_transaction = r.1 }

  unfoldable pub commit_current : ℕ → BTree K → BTree K
  commit_current now t = if t.current_transaction == 0 then t else record t {
    wal_manager = Wal.commit_transaction ℒ now t.wal_manager t.current_transaction;
  }

  unfoldable pub begin_transaction : ℕ → BTree K → BTree K
  unfolding commit_current
  begin_transaction now t = start_transaction (commit_current now t)

  unfoldable pub commit_transaction : ℕ → BTree K → BTree K
  unfolding commit_current
  commit_transaction now t = record (commit_current now t) { current_transaction = 0 }

  unfoldable pub abort_transaction : ℕ → BTree K → BTree K
  abort_transaction now t = if t.current_transaction == 0 then t else record t {
    wal_manager = Wal.abort_transaction ℒ now t.wal_manager t.current_transaction;
    current_transaction = 0;
  }

  -- `root = page_cache.getPage(root_id)`
  abbrev pub set_root : BTree K × Option ℕ → BTree K
  set_root r = record r.0 { root = r.1 }

  -- A fresh root: an empty leaf that goes through the storage and the cache.
  unfoldable pub make_root : BTree K → Option (BTree K)
  make_root t = let r = store t (new_page t true) in Option.map set_root (fetch (r.0) (r.1))
