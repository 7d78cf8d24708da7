-- ===== src/PageCache/Eviction.antt =====
-- evictLRU and evictIfNeeded: when the loop ends, what it leaves, and when it cannot end.
use custom_database.Base.{
  ℕ, zero, suc, ◌+◌, ◌-◌, ◌<◌, ◌≡◌, refl, ap, ◌∙◌, true, List, ◌∷◌, none, some, arith, length, leb,
  if◌then◌else◌, inl, inr, Bool-cases, List-cases,
}
use custom_database.Base.Count.{back}
use custom_database.Page.{KeyType}
use custom_database.PageCache.{
  Engine, find_cached, with_cache, drop_back, write_back, evict_back, evict_lru, evict_loop,
  evict_if_needed,
}
use custom_database.PageCache.Invariant.{IsValid, drop_back-IsValid}

module _ {K : Type 0} (κ : KeyType K) where
  pub evict_lru-run :
      (e : Engine K) (x : ℕ) (xs : List ℕ)
      → e.cache.lru_order ≡ x ∷ xs
      → evict_lru κ e
        ≡ with_cache (write_back κ e (find_cached e.cache (back x xs))) (drop_back e.cache x xs)
  unfolding evict_lru evict_back
  evict_lru-run e x xs h = ap (evict_back κ e) h

  cache-evict_lru :
      (e : Engine K) (x : ℕ) (xs : List ℕ)
      → e.cache.lru_order ≡ x ∷ xs
      → (evict_lru κ e).cache ≡ drop_back e.cache x xs
  unfolding evict_lru evict_back
  cache-evict_lru e x xs h = ap (λ l. (evict_back κ e l).cache) h

  -- With an entry in the cache, evictLRU keeps the invariant and makes room for one.
  pub evict_lru-IsValid :
      (e : Engine K)
      → IsValid e.cache
      → 0 < length e.cache.cache
      → IsValid (evict_lru κ e).cache
        × (length (evict_lru κ e).cache.cache + 1 ≡ length e.cache.cache)
        × ((evict_lru κ e).cache.max_cache_size ≡ e.cache.max_cache_size)
  evict_lru-IsValid e v h = elim (List-cases e.cache.lru_order) [
    | inl empty ↦ absurd (omega (arith, v.sized, ap length empty))
    | inr (x, xs, at) ↦
        let (v', l) = drop_back-IsValid e.cache x xs v at in
        rw (cache-evict_lru e x xs at) (v', l, unfold drop_back in refl)
  ]

  -- A full cache gives up its least recent entry, and another is left as it is.
  unfoldable pub make_room : Engine K → Engine K
  make_room e = if leb e.cache.max_cache_size (length e.cache.cache) then evict_lru κ e else e

  pub make_room-IsValid :
      (e : Engine K)
      → IsValid e.cache
      → IsValid (make_room e).cache
        × (length (make_room e).cache.cache < (make_room e).cache.max_cache_size)
  unfolding make_room
  make_room-IsValid e v = elim (Bool-cases (leb e.cache.max_cache_size (length e.cache.cache))) [
    | inl full ↦
        let (v', l, m) = evict_lru-IsValid e v (ground (arith, v.positive)) in
        rw (full, make_room) (v', omega (arith, v.within))
    | inr room ↦ rw (room, make_room) (v, ground arith)
  ]

  evict_loop-done :
      (rounds : ℕ) (e : Engine K)
      → length e.cache.cache < e.cache.max_cache_size
      → evict_loop κ (suc rounds) e ≡ some e
  unfolding evict_loop
  evict_loop-done rounds e h = ground arith

  evict_loop-full :
      (rounds : ℕ) (e : Engine K)
      → leb e.cache.max_cache_size (length e.cache.cache) ≡ true
      → evict_loop κ (suc rounds) e ≡ evict_loop κ rounds (evict_lru κ e)
  unfolding evict_loop
  evict_loop-full rounds e h = ground arith

  -- On a valid cache the loop ends, after one round at most.
  pub evict_if_needed-make_room :
      (e : Engine K) → IsValid e.cache → evict_if_needed κ e ≡ some (make_room e)
  unfolding evict_if_needed make_room
  evict_if_needed-make_room e v =
      let n = length e.cache.cache in
      elim (Bool-cases (leb e.cache.max_cache_size n)) [
        | inl full ↦
            let (v', l, m) = evict_lru-IsValid e v (ground (arith, v.positive)) in
            let at_least_one : n ≡ suc (n - 1) = omega arith in
            rw (full, make_room)
              (evict_loop-full n e full
                ∙ ap (λ k. evict_loop κ k (evict_lru κ e)) at_least_one
                ∙ evict_loop-done (n - 1) (evict_lru κ e) (omega (arith, v.within)))
        | inr room ↦ rw (room, make_room) (evict_loop-done n e (ground arith))
      ]

  max-evict_lru : (e : Engine K) → (evict_lru κ e).cache.max_cache_size ≡ e.cache.max_cache_size
  unfolding evict_lru evict_back drop_back
  max-evict_lru e = elim (List-cases e.cache.lru_order) [
    | inl empty ↦ ap (λ l. (evict_back κ e l).cache.max_cache_size) empty
    | inr (x, xs, at) ↦ ap (λ l. (evict_back κ e l).cache.max_cache_size) at
  ]

  -- With a maximum of 0 the loop of evictIfNeeded never ends, however many rounds it is given.
  pub evict_loop-zero_capacity :
      (rounds : ℕ) (e : Engine K) → e.cache.max_cache_size ≡ 0 → evict_loop κ rounds e ≡ none
  unfolding evict_loop
  evict_loop-zero_capacity zero e h = refl
  evict_loop-zero_capacity (suc rounds) e h =
      ground (arith, evict_loop-zero_capacity rounds (evict_lru κ e), max-evict_lru e)
