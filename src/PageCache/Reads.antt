-- ===== src/PageCache/Reads.antt =====
-- getPage and putPage: they return, keep the invariant, and what they read.
use custom_database.Base.{
  ℕ, ◌≡◌, ap, ◌∙◌, true, Option, none, some, arith, inl, inr, Option-cases, ℕ_discrete,
}
use custom_database.Base.Assoc
use custom_database.Base.Count.{count-keys_some}
use custom_database.Page.{KeyType}
use custom_database.ContentStorage
use custom_database.PageCache.{
  PageCache, CachedPage, Engine, find_cached, put_cached, update_lru, store_entry, load_page,
  get_page, put_page,
}
use custom_database.PageCache.Invariant.{
  IsValid, update_lru-IsValid, put_cached-Pending, IsValid-Pending,
}
use custom_database.PageCache.Eviction.{make_room, make_room-IsValid, evict_if_needed-make_room}

-- The LRU list is no part of what the map holds.
pub cache-update_lru : (c : PageCache) (id : ℕ) → (update_lru c id).cache ≡ c.cache
unfolding update_lru
cache-update_lru c id = ground arith

pub find_cached-put :
    (c : PageCache) (id : ℕ) (entry : CachedPage)
    → find_cached (update_lru (put_cached c id entry) id) id ≡ some entry
unfolding put_cached
find_cached-put c id entry =
    ap (Assoc.lookup ℕ_discrete id) (cache-update_lru (put_cached c id entry) id)
    ∙ Assoc.lookup-insert_self ℕ_discrete id entry c.cache

module _ {K : Type 0} (κ : KeyType K) where
  pub put_page-run :
      (e : Engine K) (id a : ℕ)
      → IsValid e.cache
      → put_page κ e id a ≡ some (store_entry κ id a (make_room κ e))
  unfolding put_page
  put_page-run e id a v = rw (evict_if_needed-make_room κ e v)

  pub entered-IsValid :
      (e : Engine K) (id : ℕ) (entry : CachedPage)
      → IsValid e.cache
      → IsValid (update_lru (put_cached (make_room κ e).cache id entry) id)
  entered-IsValid e id entry v =
      let (v', room) = make_room-IsValid κ e v in
      update_lru-IsValid _ id (put_cached-Pending _ id entry v' room)

  pub hit-IsValid :
      (e : Engine K) (id : ℕ) (entry : CachedPage)
      → IsValid e.cache
      → find_cached e.cache id ≡ some entry
      → IsValid (update_lru e.cache id)
  hit-IsValid e id entry v found = update_lru-IsValid _ id (
      IsValid-Pending e.cache id v
        (omega (arith, v.once id, count-keys_some id e.cache.cache found)))

  -- What a read of the page id should see: the cached page, or else that of the storage.
  abbrev pub view : Engine K → ℕ → Option ℕ
  view e id = elim (find_cached e.cache id) [
    | some entry ↦ some entry.page
    | none ↦ ContentStorage.get_page e.storage id
  ]

  pub view-cached :
      (e : Engine K) (id : ℕ) {entry : CachedPage}
      → find_cached e.cache id ≡ some entry
      → view e id ≡ some entry.page
  view-cached e id h = rw (h, view)

  -- On a valid cache getPage returns: it gives the cached page, or else the page of the content
  -- storage, and leaves a valid cache.
  pub get_page-view :
      (e : Engine K) (id : ℕ)
      → IsValid e.cache
      → (e' : Engine K) × (get_page κ e id ≡ some (e', view e id)) × IsValid e'.cache
  unfolding get_page load_page
  get_page-view e id v = elim (Option-cases (find_cached e.cache id)) [
    | inr (entry, hit) ↦ (
      record e { cache = update_lru e.cache id },
      rw (get_page, view, hit),
      hit-IsValid e id entry v hit,
    )
    | inl miss ↦ elim (Option-cases (ContentStorage.get_page e.storage id)) [
      | inl nowhere ↦ (e, rw (get_page, view, miss, nowhere), v)
      | inr (a, stored) ↦ (
        (load_page κ id a (make_room κ e)).0,
        rw (get_page, view, miss, stored, evict_if_needed-make_room κ e v),
        entered-IsValid e id _ v,
      )
    ]
  ]

  -- On a valid cache putPage returns and leaves a valid cache, which has the page under the page
  -- id, marked dirty; the getPage that follows returns that page.
  pub get_page-put_page :
      (e : Engine K) (id a : ℕ)
      → IsValid e.cache
      → (e' e'' : Engine K) × (put_page κ e id a ≡ some e')
        × IsValid e'.cache
        × (find_cached e'.cache id ≡ some (record { page = a; is_dirty = true }))
        × (get_page κ e' id ≡ some (e'', some a))
  unfolding store_entry
  get_page-put_page e id a v =
      let entry : CachedPage = record { page = a; is_dirty = true } in
      let e' = store_entry κ id a (make_room κ e) in
      let v' = entered-IsValid e id entry v in
      let there = find_cached-put (make_room κ e).cache id entry in
      let (e'', got, _) = get_page-view e' id v' in
      (
        e',
        e'',
        put_page-run e id a v,
        v',
        there,
        got ∙ ap (λ o. some (e'', o)) (view-cached e' id there),
      )
