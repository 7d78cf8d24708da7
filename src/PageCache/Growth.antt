-- ===== src/PageCache/Growth.antt =====
-- What every operation of src/page_cache.cpp keeps: the pages made so far, and a valid cache.
use custom_database.Base.{
  ℕ, ◌≡◌, refl, true, false, Option, none, some, arith, inl, inr, Option-cases, Bool-cases,
  List-cases, length, leb, Bool,
}
use custom_database.Base.Count.{
  back, count, keys, count-keys_some, count-keys_insert, length-insert,
}
use custom_database.Memory.{Extends, Extends-refl}
use custom_database.Page.{KeyType}
use custom_database.ContentStorage
use custom_database.ContentStorage.Lookup.{store_page-Extends}
use custom_database.PageCache.{
  PageCache, CachedPage, Engine, find_cached, put_cached, update_lru, store_at, write_back,
  evict_back, evict_lru, store_entry, load_page, get_page, put_page, set_dirty, mark_dirty,
  clear_dirty_flag,
}
use custom_database.PageCache.Invariant.{IsValid, update_lru-IsValid, IsValid-Pending}
use custom_database.PageCache.Eviction.{make_room, evict_lru-run, evict_if_needed-make_room}
use custom_database.PageCache.Reads.{view, put_page-run, entered-IsValid, hit-IsValid}

-- An entry of the cache is replaced under its own id.
put_cached-IsValid :
    (c : PageCache) (id : ℕ) (old new : CachedPage)
    → IsValid c
    → find_cached c id ≡ some old
    → IsValid (put_cached c id new)
unfolding put_cached
put_cached-IsValid c id old new v there =
    let one : count id (keys c.cache) ≡ 1 =
      omega (arith, v.once id, count-keys_some id c.cache there) in
    let same = λ (q : ℕ). count-keys_insert q id new c.cache in
    record {
      positive = v.positive;
      within = omega (arith, v.within, length-insert id new c.cache);
      sized = omega (arith, v.sized, length-insert id new c.cache);
      tracked = λ q. ground (arith, v.tracked q, same q);
      once = λ q. ground (arith, v.once q, same q);
      iterated = v.iterated;
    }

-- markDirty and clearDirtyFlag keep a valid cache, whether or not the page id is in it.
pub dirty_flags-IsValid :
    (c : PageCache) (id : ℕ)
    → IsValid c
    → IsValid (mark_dirty c id) × IsValid (clear_dirty_flag c id)
unfolding mark_dirty clear_dirty_flag set_dirty put_cached
dirty_flags-IsValid c id v = elim (Option-cases (find_cached c id)) [
  | inl miss ↦ rw (mark_dirty, clear_dirty_flag, miss) (v, v)
  | inr (entry, hit) ↦
      let kept =
        λ (b : Bool). put_cached-IsValid c id entry (record entry { is_dirty = b }) v hit in
      let marked : CachedPage = record entry { is_dirty = true } in
      let before : count id (keys c.cache) ≡ 1 =
        omega (arith, v.once id, count-keys_some id c.cache hit) in
      let one : count id (keys (put_cached c id marked).cache) ≡ 1 =
        ground (arith, before, count-keys_insert id id marked c.cache) in
      rw (mark_dirty, clear_dirty_flag, hit)
        (update_lru-IsValid _ id (IsValid-Pending _ id (kept true) one), kept false)
]

module _ {K : Type 0} (κ : KeyType K) where
  pub store_at-Extends :
      (e : Engine K) (a : ℕ)
      → Extends e.memory (store_at κ e a).memory × ((store_at κ e a).cache ≡ e.cache)
  unfolding store_at
  store_at-Extends e a = (store_page-Extends κ e.memory e.storage (e.memory.pages a), refl)

  write_back-Extends :
      (e : Engine K) (entry : Option CachedPage) → Extends e.memory (write_back κ e entry).memory
  unfolding write_back
  write_back-Extends e none = Extends-refl e.memory
  write_back-Extends e (some entry) = elim (Bool-cases entry.is_dirty) [
    | inl d ↦ rw (write_back, d) (store_at-Extends e entry.page).0
    | inr d ↦ rw (write_back, d) (Extends-refl e.memory)
  ]

  evict_lru-Extends : (e : Engine K) → Extends e.memory (evict_lru κ e).memory
  unfolding evict_lru evict_back
  evict_lru-Extends e = elim (List-cases e.cache.lru_order) [
    | inl empty ↦ rw (empty) (Extends-refl e.memory)
    | inr (x, xs, at) ↦
        rw (evict_lru-run κ e x xs at) (write_back-Extends e (find_cached e.cache (back x xs)))
  ]

  make_room-Extends : (e : Engine K) → Extends e.memory (make_room κ e).memory
  unfolding make_room
  make_room-Extends e = elim (Bool-cases (leb e.cache.max_cache_size (length e.cache.cache))) [
    | inl full ↦ rw (full, make_room) (evict_lru-Extends e)
    | inr room ↦ rw (room, make_room) (Extends-refl e.memory)
  ]

  -- `e'` comes after `e`: its cache is valid, and the pages of `e` are there unchanged.
  pub record After (e e' : Engine K) : Type 0 where
    pub valid : IsValid e'.cache
    pub grown : Extends e.memory e'.memory

  -- On a valid cache getPage and putPage return and keep the cache valid, and no page that has been
  -- made changes.
  pub calls-After :
      (e : Engine K) (id a : ℕ)
      → IsValid e.cache
      → ((e' : Engine K) × (get_page κ e id ≡ some (e', view κ e id)) × After e e')
        × ((e' : Engine K) × (put_page κ e id a ≡ some e') × After e e')
  unfolding get_page load_page store_entry
  calls-After e id a v = (
    elim (Option-cases (find_cached e.cache id)) [
      | inr (entry, hit) ↦ (
        record e { cache = update_lru e.cache id },
        rw (get_page, view, hit),
        record { valid = hit-IsValid κ e id entry v hit; grown = Extends-refl e.memory },
      )
      | inl miss ↦ elim (Option-cases (ContentStorage.get_page e.storage id)) [
        | inl nowhere ↦ (
          e,
          rw (get_page, view, miss, nowhere),
          record { valid = v; grown = Extends-refl e.memory },
        )
        | inr (p, stored) ↦ (
          (load_page κ id p (make_room κ e)).0,
          rw (get_page, view, miss, stored, evict_if_needed-make_room κ e v),
          record { valid = entered-IsValid κ e id _ v; grown = make_room-Extends e },
        )
      ]
    ],
    (
      store_entry κ id a (make_room κ e),
      put_page-run κ e id a v,
      record { valid = entered-IsValid κ e id _ v; grown = make_room-Extends e },
    ),
  )
