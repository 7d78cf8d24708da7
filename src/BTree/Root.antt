-- ===== src/BTree/Root.antt =====
-- The root of the tree of src/Btree.cpp. insertNonFull assigns the modified leaf to its own copy of
-- the pointer, so that the pointer `root` of the tree keeps the page that it had.
use custom_database.Base.{
  ℕ, suc, ◌<◌, ◌≡◌, refl, sym, ap, subst, ◌∙◌, true, false, List, [], ◌∷◌, ◌++◌, none, some, arith,
  inl, inr, Bool-cases, length, ◌==◌,
}
use custom_database.Memory.{Extends-refl, Extends-trans, make_shared-Extends}
use custom_database.Page.{KeyType, Page, PageHeader}
use custom_database.PageCache.{Engine, store_at}
use custom_database.PageCache.Growth.{After, calls-After, store_at-Extends, dirty_flags-IsValid}
use custom_database.PageCache.Invariant.{IsValid}
use custom_database.PageCache.Reads.{view}
use custom_database.WriterQueue.{
  WriteRequest, process_request, process_batch, get_batch, max_batch_size,
}
use custom_database.Wal.{Layout}
use custom_database.BTree.{
  BTree, returned, thrown, page_of, fetch, make, enqueue, put_and_enqueue, start_transaction,
}
use custom_database.BTree.Nodes.{insert_leaf, sift, find_index, key_at}
use custom_database.BTree.Operations.{insert_into_leaf, insert_non_full}
use custom_database.BTree.Calls.{
  insert, ensure_transaction, log, prepare_root, insert_below, search, search_from, find_key,
  delete_from, delete_key, delete_from_node, shrink_root, write_batch,
}

module _ {K : Type 0} (κ : KeyType K) (ℒ : Layout K) (raw : ℕ → PageHeader) (value_size : ℕ) where
  -- The root is a leaf without keys.
  pub record EmptyRoot (t : BTree K) (a : ℕ) : Type 0 where
    pub room : 0 < t.max_keys_per_node
    pub valid : IsValid t.engine.cache
    pub rooted : t.root ≡ some a
    pub made : a < t.engine.memory.next
    pub leaf : (t.engine.memory.pages a).is_leaf ≡ true
    pub empty : (t.engine.memory.pages a).keys ≡ []

  -- `t'` has the root and the size of `t`, and comes after it.
  pub record Follows (t t' : BTree K) : Type 0 where
    pub size : t'.max_keys_per_node ≡ t.max_keys_per_node
    pub root : t'.root ≡ t.root
    pub after : After κ t.engine t'.engine

  Follows-EmptyRoot : {t t' : BTree K} {a : ℕ} → Follows t t' → EmptyRoot t a → EmptyRoot t' a
  Follows-EmptyRoot {t} {t'} {a} f r =
      let same = f.after.grown.keeps a r.made in
      record {
        room = omega (arith, r.room, f.size);
        valid = f.after.valid;
        rooted = f.root ∙ r.rooted;
        made = omega (arith, r.made, f.after.grown.grows);
        leaf = ap (λ p. p.is_leaf) same ∙ r.leaf;
        empty = ap (λ p. p.keys) same ∙ r.empty;
      }

  After-trans : {e e' e'' : Engine K} → After κ e e' → After κ e' e'' → After κ e e''
  After-trans f g = record { valid = g.valid; grown = Extends-trans f.grown g.grown }

  pub fetch-Follows :
      (t : BTree K) (id : ℕ)
      → IsValid t.engine.cache
      → (t' : BTree K) × (fetch κ ℒ raw value_size t id ≡ some (t', view κ t.engine id))
        × Follows t t'
  unfolding fetch
  fetch-Follows t id v =
      let (e', run, after) = (calls-After κ t.engine id 0 v).0 in
      (
        record t { engine = e' },
        rw (fetch, run),
        record { size = refl; root = refl; after = after },
      )

  put_and_enqueue-Follows :
      (t : BTree K) (id : ℕ) (p : Page K)
      → IsValid t.engine.cache
      → (t' : BTree K) × (put_and_enqueue κ ℒ raw value_size t id p ≡ some t') × Follows t t'
  unfolding put_and_enqueue make enqueue
  put_and_enqueue-Follows t id p v =
      let t₁ = make κ ℒ raw value_size t p in
      let (e', run, after) = (calls-After κ t₁.engine id t.engine.memory.next v).1 in
      (
        enqueue κ ℒ raw value_size (record t₁ { engine = e' }) id p,
        rw (put_and_enqueue, run),
        record {
          size = refl;
          root = refl;
          after = record {
            valid = after.valid;
            grown =
                Extends-trans (make_shared-Extends t.engine.memory p)
                  (Extends-trans after.grown (make_shared-Extends e'.memory p));
          };
        },
      )

  -- insertNonFull of an empty leaf.
  insert_into_leaf-Follows :
      (t : BTree K) (a : ℕ) (key : K) (value : List ℕ)
      → EmptyRoot t a
      → (t' : BTree K) × (insert_into_leaf κ ℒ raw value_size t a key value ≡ some t')
        × Follows t t'
  unfolding insert_into_leaf insert_leaf sift
  insert_into_leaf-Follows t a key value r =
      let p = page_of κ ℒ raw value_size t a in
      let p' : Page K = record p { keys = key ∷ []; bytes = p.bytes ++ value } in
      let id = p.header.page_id in
      let (t₁, run₁, f₁) = put_and_enqueue-Follows t id p' r.valid in
      let (t₂, run₂, f₂) = fetch-Follows t₁ id f₁.after.valid in
      let leaf : insert_leaf κ value_size p key value ≡ some p' = rw (insert_leaf, r.empty) in
      (
        t₂,
        rw (insert_into_leaf, leaf, run₁, run₂),
        record {
          size = f₂.size ∙ f₁.size;
          root = f₂.root ∙ f₁.root;
          after = After-trans f₁.after f₂.after;
        },
      )

  insert_non_full-Follows :
      (depth : ℕ) (t : BTree K) (a : ℕ) (key : K) (value : List ℕ)
      → EmptyRoot t a
      → (t' : BTree K) × (insert_non_full κ ℒ raw value_size (suc depth) t a key value
          ≡ returned t' tt)
        × Follows t t'
  unfolding insert_non_full
  insert_non_full-Follows depth t a key value r =
      let (t', run, f) = insert_into_leaf-Follows t a key value r in
      (t', rw (insert_non_full, r.leaf, run), f)

  -- Starting a transaction and logging touch the log alone.
  same-EmptyRoot :
      (now : ℕ) (t : BTree K) (a page_id : ℕ) (key : K) (value : List ℕ)
      → EmptyRoot t a
      → EmptyRoot (ensure_transaction κ ℒ raw value_size t) a
        × EmptyRoot (log κ ℒ raw value_size now t page_id key value) a
  unfolding ensure_transaction log start_transaction
  same-EmptyRoot now t a page_id key value r =
      let kept = λ (t' : BTree K) (f : Follows t t'). Follows-EmptyRoot f r in
      let after : After κ t.engine t.engine = record {
        valid = r.valid;
        grown = Extends-refl t.engine.memory;
      } in
      (
        elim (Bool-cases (t.current_transaction == 0)) [
          | inl e ↦
              rw (ensure_transaction, e)
                (kept _ (record { size = refl; root = refl; after = after }))
          | inr e ↦ rw (ensure_transaction, e) r
        ],
        kept _ (record { size = refl; root = refl; after = after }),
      )

  pub insert-EmptyRoot :
      (depth now : ℕ) (t : BTree K) (a : ℕ) (key : K) (value : List ℕ)
      → EmptyRoot t a
      → (t' : BTree K) × (insert κ ℒ raw value_size (suc depth) now t key value ≡ returned t' tt)
        × EmptyRoot t' a
  unfolding insert prepare_root insert_below ensure_transaction
  insert-EmptyRoot depth now t a key value r =
      let t₀ = ensure_transaction κ ℒ raw value_size t in
      let r₀ = (same-EmptyRoot now t a 0 key value r).0 in
      let id = (page_of κ ℒ raw value_size t₀ a).header.page_id in
      let r₁ = (same-EmptyRoot now t₀ a id key value r₀).1 in
      let (t', run, f) =
        insert_non_full-Follows depth (log κ ℒ raw value_size now t₀ id key value) a key value r₁ in
      let full : (length (page_of κ ℒ raw value_size t₀ a).keys == t₀.max_keys_per_node) ≡ false =
        ground (arith, r₀.room, ap length r₀.empty) in
      let prepared : prepare_root κ ℒ raw value_size now t₀ key value t₀.root ≡ some t₀ =
        rw (r₀.rooted, prepare_root, full) in
      (t', rw (insert, prepared, r₀.rooted, insert_below, run), Follows-EmptyRoot f r₁)

  -- deleteKey and search on a tree whose root is an empty leaf find nothing.
  pub delete_key-EmptyRoot :
      (depth : ℕ) (t : BTree K) (a : ℕ) (key : K)
      → EmptyRoot t a
      → delete_key κ ℒ raw value_size (suc depth) t key ≡ returned t tt
  unfolding delete_key delete_from delete_from_node shrink_root find_index key_at
  delete_key-EmptyRoot depth t a key r =
      let idle : delete_from_node κ ℒ raw value_size (suc depth) t a key ≡ returned t tt =
        rw (delete_from_node, r.leaf, r.empty) in
      let kept : shrink_root κ ℒ raw value_size t a ≡ some t = rw (shrink_root, r.leaf) in
      ap (delete_from κ ℒ raw value_size (suc depth) t key) r.rooted ∙ rw (delete_from, idle, kept)

  pub search-EmptyRoot :
      (depth : ℕ) (t : BTree K) (a : ℕ) (key : K)
      → EmptyRoot t a
      → search κ ℒ raw value_size (suc depth) t key ≡ some (t, none)
  unfolding search search_from find_key find_index key_at
  search-EmptyRoot depth t a key r =
      let missing : find_key κ ℒ raw value_size (suc depth) t a key ≡ thrown t =
        rw (find_key, r.leaf, r.empty) in
      ap (search_from κ ℒ raw value_size (suc depth) t key) r.rooted ∙ rw (search_from, missing)

  process_batch-After :
      (e : Engine K) (rs : List WriteRequest) → IsValid e.cache → After κ e (process_batch κ e rs)
  unfolding process_batch process_request
  process_batch-After e [] v = record { valid = v; grown = Extends-refl e.memory }
  process_batch-After e (r ∷ rs) v =
      let (grown, same) = store_at-Extends κ e r.page in
      let v' : IsValid (store_at κ e r.page).cache = subst IsValid (sym same) v in
      let cleared = (dirty_flags-IsValid (store_at κ e r.page).cache r.page_id v').1 in
      After-trans (record { valid = cleared; grown = grown })
        (process_batch-After (process_request κ e r) rs cleared)

  pub write_batch-EmptyRoot :
      (t : BTree K) (a : ℕ) → EmptyRoot t a → EmptyRoot (write_batch κ ℒ raw value_size t) a
  unfolding write_batch
  write_batch-EmptyRoot t a r =
      Follows-EmptyRoot
        (record {
          size = refl;
          root = refl;
          after = process_batch-After t.engine (get_batch max_batch_size t.writer_queue).1 r.valid;
        })
        r
