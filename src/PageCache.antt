-- ===== src/PageCache.antt =====
-- include/page_cache.h and src/page_cache.cpp: the LRU cache in front of the content storage.
-- An iterator into `lru_order` is named by the page id that its node holds, so `lru_iterators` is
-- the list of the ids that have one. The time stamp `last_accessed` is written and never read, and
-- is left out; so are the log lines.
pub mod Invariant
pub mod Eviction
pub mod Reads
pub mod Flush
pub mod Growth
use custom_database.Base.{
  ℕ, zero, suc, Bool, true, false, List, [], ◌∷◌, Option, none, some, length, leb, ℕ_discrete,
  if◌then◌else◌,
}
use mathlib.Core.Option
use custom_database.Base.Assoc
use custom_database.Base.Count.{count, remove, back, pop_back}
use custom_database.Memory.{Memory}
use custom_database.Page.{KeyType}
use custom_database.ContentStorage.{ContentStorage, store_page}
use custom_database.ContentStorage

pub record CachedPage : Type 0 where
  pub page : ℕ
  pub is_dirty : Bool

pub record PageCache : Type 0 where
  pub cache : List (ℕ × CachedPage)
  pub lru_order : List ℕ
  pub lru_iterators : List ℕ
  pub max_cache_size : ℕ

-- A cache with the storage that it points to, and the memory of both.
pub record Engine (K : Type 0) : Type 0 where
  pub memory : Memory K
  pub storage : ContentStorage
  pub cache : PageCache

unfoldable pub new_cache : ℕ → PageCache
new_cache max_size = record {
  cache = [];
  lru_order = [];
  lru_iterators = [];
  max_cache_size = max_size;
}

abbrev pub find_cached : PageCache → ℕ → Option CachedPage
find_cached c id = Assoc.lookup ℕ_discrete id c.cache

unfoldable pub put_cached : PageCache → ℕ → CachedPage → PageCache
put_cached c id entry = record c { cache = Assoc.insert ℕ_discrete id entry c.cache }

-- The node of `id` leaves the list, if there is an iterator to it, and a new one goes in front.
unfoldable pub update_lru : PageCache → ℕ → PageCache
update_lru c id = elim (count id c.lru_iterators) [
  | zero ↦ record c { lru_order = id ∷ c.lru_order; lru_iterators = id ∷ c.lru_iterators }
  | suc n ↦ record c { lru_order = id ∷ remove id c.lru_order }
]

-- The cache without the last node of `lru_order` = `x ∷ xs`.
unfoldable pub drop_back : PageCache → ℕ → List ℕ → PageCache
drop_back c x xs = record c {
  cache = Assoc.erase ℕ_discrete (back x xs) c.cache;
  lru_order = pop_back x xs;
  lru_iterators = remove (back x xs) c.lru_iterators;
}

abbrev pub with_cache : {K : Type 0} → Engine K → PageCache → Engine K
with_cache e c = record e { cache = c }

module _ {K : Type 0} (κ : KeyType K) where
  -- `content_storage->storePage(*page)`, for a page in the memory.
  unfoldable pub store_at : Engine K → ℕ → Engine K
  store_at e a =
      let r = store_page κ e.memory e.storage (e.memory.pages a) in
      record e { memory = r.0; storage = r.1 }

  -- A dirty page goes to the content storage, and a page that is not in the cache does not.
  unfoldable pub write_back : Engine K → Option CachedPage → Engine K
  write_back e none = e
  write_back e (some entry) = if entry.is_dirty then store_at e entry.page else e

  unfoldable pub evict_back : Engine K → List ℕ → Engine K
  evict_back e [] = e
  evict_back e (x ∷ xs) =
      with_cache (write_back e (find_cached e.cache (back x xs))) (drop_back e.cache x xs)

  -- evictLRU
  unfoldable pub evict_lru : Engine K → Engine K
  unfolding evict_back
  evict_lru e = evict_back e e.cache.lru_order

  -- The loop of evictIfNeeded with a bound on its rounds; `none` if it has not ended by then.
  unfoldable pub evict_loop : ℕ → Engine K → Option (Engine K)
  evict_loop zero e = none
  evict_loop (suc rounds) e =
      let rest = evict_loop rounds (evict_lru e) in
      if leb e.cache.max_cache_size (length e.cache.cache) then rest else some e

  -- evictIfNeeded: an entry leaves in each round, or the loop never ends.
  unfoldable pub evict_if_needed : Engine K → Option (Engine K)
  evict_if_needed e = evict_loop (suc (length e.cache.cache)) e

  load_page : ℕ → ℕ → Engine K → Engine K × Option ℕ
  load_page id a e = (
    with_cache e (update_lru (put_cached e.cache id (record { page = a; is_dirty = false })) id),
    some a,
  )

  -- getPage: the pointer, or null; `none` if the eviction does not end.
  unfoldable pub get_page : Engine K → ℕ → Option (Engine K × Option ℕ)
  unfolding load_page
  get_page e id = elim (find_cached e.cache id) [
    | some entry ↦ some (with_cache e (update_lru e.cache id), some entry.page)
    | none ↦ elim (ContentStorage.get_page e.storage id) [
      | none ↦ some (e, none)
      | some a ↦ Option.map (load_page id a) (evict_if_needed e)
    ]
  ]

  -- putPage. Both of its branches leave the new page, marked dirty, under the id.
  pub store_entry : ℕ → ℕ → Engine K → Engine K
  store_entry id a e =
      with_cache e (update_lru (put_cached e.cache id (record { page = a; is_dirty = true })) id)

  unfoldable pub put_page : Engine K → ℕ → ℕ → Option (Engine K)
  unfolding store_entry
  put_page e id a = Option.map (store_entry id a) (evict_if_needed e)

  -- The loop of flushAll, in the order of the list.
  unfoldable pub flush_entries : Engine K → List (ℕ × CachedPage) → Engine K × List (ℕ × CachedPage)
  flush_entries e [] = (e, [])
  flush_entries e ((id, entry) ∷ rest) =
      let r = flush_entries (write_back e (some entry)) rest in
      (r.0, (id, record entry { is_dirty = false }) ∷ r.1)

  unfoldable pub flush_all : Engine K → Engine K
  flush_all e =
      let r = flush_entries e e.cache.cache in with_cache r.0 (record e.cache { cache = r.1 })

set_dirty : Bool → PageCache → ℕ → CachedPage → PageCache
unfolding put_cached
set_dirty b c id entry = put_cached c id (record entry { is_dirty = b })

unfoldable pub mark_dirty : PageCache → ℕ → PageCache
unfolding set_dirty
mark_dirty c id = elim (find_cached c id) [
  | none ↦ c
  | some entry ↦ update_lru (set_dirty true c id entry) id
]

unfoldable pub clear_dirty_flag : PageCache → ℕ → PageCache
unfolding set_dirty
clear_dirty_flag c id = elim (find_cached c id) [
  | none ↦ c
  | some entry ↦ set_dirty false c id entry
]

-- The loop of getDirtyPages.
unfoldable pub dirty_entries : List (ℕ × CachedPage) → List (ℕ × ℕ)
dirty_entries [] = []
dirty_entries ((id, entry) ∷ rest) =
    let r = dirty_entries rest in if entry.is_dirty then (id, entry.page) ∷ r else r

unfoldable pub get_dirty_pages : PageCache → List (ℕ × ℕ)
get_dirty_pages c = dirty_entries c.cache
