-- ===== src/Examples/Cache.antt =====
-- Examples of the page cache: a cache for two pages over the storage of the storage examples, and
-- a full cache for one page with a newer, dirty page under the first id of that storage.
use custom_database.Base.{ℕ, ◌+◌, ◌<◌, ◌≡◌, refl, [], ◌∷◌, true, none, some, arith, length}
use custom_database.Base.Assoc
use custom_database.Base.Count.{back}
use custom_database.Page.{u16_mod}
use custom_database.ContentStorage
use custom_database.ContentStorage.{new_storage}
use custom_database.PageCache.{
  PageCache, Engine, find_cached, new_cache, get_page, put_page, evict_lru,
}
use custom_database.PageCache.Invariant.{IsValid, new_cache-IsValid}
use custom_database.PageCache.Reads.{get_page-put_page}
use custom_database.PageCache.Flush.{evict_lru-get_page}
use custom_database.Examples.{keys, memory}
use custom_database.Examples.Storage.{stored, stored-IsValid, first}

abbrev pub empty_engine : ℕ → Engine ℕ
empty_engine n = record { memory = memory; storage = new_storage; cache = new_cache n }

get_page-put_page_example :
    (e' e'' : Engine ℕ) × (put_page keys (empty_engine 2) 1 0 ≡ some e')
    × IsValid e'.cache
    × (find_cached e'.cache 1 ≡ some (record { page = 0; is_dirty = true }))
    × (get_page keys e' 1 ≡ some (e'', some 0))
get_page-put_page_example =
    get_page-put_page keys (empty_engine 2) 1 0 (new_cache-IsValid 2 (omega arith))

abbrev pub full_cache : PageCache
full_cache = record {
  cache = (1, record { page = 0; is_dirty = true }) ∷ [];
  lru_order = 1 ∷ [];
  lru_iterators = 1 ∷ [];
  max_cache_size = 1;
}

full-IsValid : IsValid full_cache
full-IsValid = record {
  positive = omega arith;
  within = omega arith;
  sized = refl;
  tracked = λ q. refl;
  once = λ q. ground arith;
  iterated = λ q. refl;
}

abbrev pub full_engine : Engine ℕ
full_engine = record { memory = memory; storage = new_storage; cache = full_cache }

pub ids_left : new_storage.next_page_id + length full_cache.cache < u16_mod
unfolding new_storage
ids_left = omega arith

-- The storage has a page under its id, and the cache a newer one.
abbrev stale_engine : Engine ℕ
stale_engine = record {
  memory = stored.0;
  storage = stored.1;
  cache = record {
    cache = (stored.2, record { page = 0; is_dirty = true }) ∷ [];
    lru_order = stored.2 ∷ [];
    lru_iterators = stored.2 ∷ [];
    max_cache_size = 1;
  };
}

stored_left : stored.1.next_page_id + 1 < u16_mod
unfolding ContentStorage.store_page ContentStorage.add_content new_storage Assoc.lookup
stored_left = omega arith

evict_lru-get_page_example :
    let e' = evict_lru keys stale_engine in
    (find_cached e'.cache stored.2 ≡ none)
    × (ContentStorage.get_page e'.storage stored.2 ≡ some (first.0))
    × (e'.memory.pages (first.0) ≡ stored.0.pages (first.0))
unfolding back ContentStorage.store_page
evict_lru-get_page_example =
    evict_lru-get_page keys stale_engine (first.0) stored.2 [] stored-IsValid stored_left refl
      (first.1)
