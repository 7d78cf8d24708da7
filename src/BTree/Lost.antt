-- ===== src/BTree/Lost.antt =====
-- A tree of src/Btree.cpp over its life: what insert, deleteKey and the writer threads do to it, in
-- any order.
use custom_database.Base.{
  ℕ, suc, ◌<◌, ◌≡◌, refl, ap, ◌∙◌, true, List, [], ◌∷◌, Option, none, some, arith,
}
use mathlib.Core.Option
use custom_database.Memory.{Memory, pages-make_shared, make_shared}
use custom_database.Page.{KeyType, Page, PageHeader, create_page, page_hash, update_content_hash}
use custom_database.ContentStorage
use custom_database.ContentStorage.{
  new_storage, store_page, find_content, find_hash, add_content, fresh_copy,
}
use custom_database.ContentStorage.Validity.{find_content-add_self, find_hash-add_self}
use custom_database.ContentStorage.Lookup.{get_page-found, store_page-new}
use custom_database.PageCache.{new_cache}
use custom_database.PageCache.Reads.{view}
use custom_database.Base.Assoc
use custom_database.PageCache.Invariant.{new_cache-IsValid}
use custom_database.Wal
use custom_database.Wal.{Layout, open_wal}
use custom_database.BTree.{
  BTree, Result, returned, thrown, undefined, start_transaction, make_root, store, new_page,
  cache_pages, queue_requests, wal_buffer, set_root,
}
use custom_database.BTree.Operations.{new_tree}
use custom_database.BTree.Calls.{insert, search, delete_key, write_batch}
use custom_database.BTree.Root.{
  EmptyRoot, fetch-Follows, insert-EmptyRoot, delete_key-EmptyRoot, search-EmptyRoot,
  write_batch-EmptyRoot,
}

-- insertion of a key with the bytes of its value at a time, deletion of a key, and a batch of the
-- writer threads
pub data Call (K : Type 0) : Type 0 where
  insertion : ℕ → K → List ℕ → Call K
  deletion : K → Call K
  batch : Call K

module _ {K : Type 0} (κ : KeyType K) (ℒ : Layout K) (raw : ℕ → PageHeader) (value_size : ℕ) where
  unfoldable pub finished : Result (BTree K) Unit → Option (BTree K)
  finished (returned t _) = some t
  finished (thrown t) = none
  finished undefined = none

  unfoldable pub step : ℕ → BTree K → Call K → Option (BTree K)
  step depth t (insertion now key value) =
      finished (insert κ ℒ raw value_size depth now t key value)
  step depth t (deletion key) = finished (delete_key κ ℒ raw value_size depth t key)
  step depth t batch = some (write_batch κ ℒ raw value_size t)

  -- The tree after the calls; `none` if one of them throws or is undefined.
  unfoldable pub run : ℕ → BTree K → List (Call K) → Option (BTree K)
  run depth t [] = some t
  run depth t (c ∷ cs) = elim (step depth t c) [ none ↦ none | some t' ↦ run depth t' cs ]

  step-EmptyRoot :
      (depth : ℕ) (t : BTree K) (a : ℕ) (c : Call K)
      → EmptyRoot κ ℒ raw value_size t a
      → (t' : BTree K) × (step (suc depth) t c ≡ some t') × EmptyRoot κ ℒ raw value_size t' a
  unfolding step finished
  step-EmptyRoot depth t a (insertion now key value) r =
      let (t', e, r') = insert-EmptyRoot κ ℒ raw value_size depth now t a key value r in
      (t', ap finished e, r')
  step-EmptyRoot depth t a (deletion key) r =
      (t, ap finished (delete_key-EmptyRoot κ ℒ raw value_size depth t a key r), r)
  step-EmptyRoot depth t a batch r =
      (write_batch κ ℒ raw value_size t, refl, write_batch-EmptyRoot κ ℒ raw value_size t a r)

  run-EmptyRoot :
      (depth : ℕ) (t : BTree K) (a : ℕ) (cs : List (Call K))
      → EmptyRoot κ ℒ raw value_size t a
      → (t' : BTree K) × (run (suc depth) t cs ≡ some t') × EmptyRoot κ ℒ raw value_size t' a
  unfolding run
  run-EmptyRoot depth t a [] r = (t, refl, r)
  run-EmptyRoot depth t a (c ∷ cs) r =
      let (t₁, e, r₁) = step-EmptyRoot depth t a c r in
      let (t₂, e', r₂) = run-EmptyRoot depth t₁ a cs r₁ in (t₂, rw (run, e, e'), r₂)

  -- The first page of a storage.
  record FirstPage (m : Memory K) (p : Page K) : Type 0 where
    got :
        ContentStorage.get_page (store_page κ m new_storage p).1 (store_page κ m new_storage p).2
        ≡ some m.next
    made : m.next < (store_page κ m new_storage p).0.next
    leaf : ((store_page κ m new_storage p).0.pages m.next).is_leaf ≡ p.is_leaf
    entries : ((store_page κ m new_storage p).0.pages m.next).keys ≡ p.keys

  store_page-FirstPage : (m : Memory K) (p : Page K) → FirstPage m p
  unfolding fresh_copy make_shared
  store_page-FirstPage m p =
      let h = page_hash κ p in
      let none_yet : find_content new_storage h ≡ none = unfold new_storage Assoc.lookup in refl in
      let e = store_page-new κ m new_storage p none_yet in
      let at = pages-make_shared m (fresh_copy κ new_storage p) in
      record {
        got = rw (e) (
            get_page-found (add_content κ new_storage m h) new_storage.next_page_id h
              (find_hash-add_self κ m new_storage h) (find_content-add_self κ m new_storage h));
        made = rw (e) (omega arith);
        leaf = rw (e) (ap (λ q. q.is_leaf) at);
        entries = rw (e) (ap (λ q. q.keys) at);
      }

  new_tree-EmptyRoot :
      (m : Memory K) (file : List ℕ) (max_keys : ℕ)
      → 0 < max_keys
      → (t : BTree K) × (new_tree κ ℒ raw value_size m file max_keys ≡ some t)
        × EmptyRoot κ ℒ raw value_size t m.next
  unfolding new_tree make_root start_transaction store new_page create_page update_content_hash
      new_cache
  new_tree-EmptyRoot m file max_keys h =
      let p = create_page κ (raw m.next) true in
      let r = store_page κ m new_storage p in
      let first = store_page-FirstPage m p in
      let w = Wal.begin_transaction (open_wal file wal_buffer) in
      let t₀ : BTree K = record {
        root = none;
        max_keys_per_node = max_keys;
        engine = record { memory = r.0; storage = r.1; cache = new_cache cache_pages };
        writer_queue = record { write_queue = []; max_queue_size = queue_requests };
        wal_manager = w.0;
        current_transaction = w.1;
      } in
      let v = new_cache-IsValid cache_pages (omega arith) in
      let (t₁, run, f) = fetch-Follows κ ℒ raw value_size t₀ r.2 v in
      let seen : view κ t₀.engine r.2 ≡ some m.next = unfold Assoc.lookup in first.got in
      let same = f.after.grown.keeps m.next first.made in
      (
        record t₁ { root = some m.next },
        ap (Option.map (set_root κ ℒ raw value_size)) (run ∙ ap (λ o. some (t₁, o)) seen),
        record {
          room = omega (arith, h, f.size);
          valid = f.after.valid;
          rooted = refl;
          made = omega (arith, first.made, f.after.grown.grows);
          leaf = ap (λ q. q.is_leaf) same ∙ first.leaf;
          empty = ap (λ q. q.keys) same ∙ first.entries;
        },
      )

  -- A new tree for at least one key per node: whatever keys are inserted and deleted, and whatever
  -- the writer threads do in between, no call throws or is undefined, and afterwards search returns
  -- null for every key, also for one that has just been inserted.
  pub search-run :
      (depth : ℕ) (m : Memory K) (file : List ℕ) (max_keys : ℕ) (cs : List (Call K))
      → 0 < max_keys
      → (t t' : BTree K) × (new_tree κ ℒ raw value_size m file max_keys ≡ some t)
        × (run (suc depth) t cs ≡ some t')
        × ((key : K) → search κ ℒ raw value_size (suc depth) t' key ≡ some (t', none))
  search-run depth m file max_keys cs h =
      let (t, made, r) = new_tree-EmptyRoot m file max_keys h in
      let (t', ran, r') = run-EmptyRoot depth t m.next cs r in
      (t, t', made, ran, λ key. search-EmptyRoot κ ℒ raw value_size depth t' m.next key r')
