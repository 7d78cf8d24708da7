-- ===== src/PageCache/Invariant.antt =====
-- The map, the LRU list and its iterators hold the same page ids, each once, and fit the cache.
use custom_database.Base.{
  ℕ, zero, suc, ◌+◌, ◌≤◌, ◌<◌, ◌≡◌, refl, ap, ◌≢◌, List, ◌∷◌, arith, length, ◌⊎◌, inl, inr,
}
use custom_database.Base.Count.{
  count, keys, back, count-remove, length-remove, count-pop_back, length-pop_back,
  count-keys_insert, length-insert, count-keys_erase, length-erase,
}
use custom_database.PageCache.{CachedPage, PageCache, new_cache, put_cached, update_lru, drop_back}

pub record IsValid (c : PageCache) : Type 0 where
  pub positive : 0 < c.max_cache_size
  pub within : length c.cache ≤ c.max_cache_size
  pub sized : length c.cache ≡ length c.lru_order
  pub tracked : (q : ℕ) → count q c.lru_order ≡ count q (keys c.cache)
  pub once : (q : ℕ) → count q (keys c.cache) ≤ 1
  pub iterated : (q : ℕ) → count q c.lru_iterators ≡ count q c.lru_order

pub new_cache-IsValid : (n : ℕ) → 0 < n → IsValid (new_cache n)
unfolding new_cache
new_cache-IsValid n h = record {
  positive = h;
  within = omega arith;
  sized = refl;
  tracked = λ q. refl;
  once = λ q. omega arith;
  iterated = λ q. refl;
}

back_once :
    (c : PageCache) (x : ℕ) (xs : List ℕ)
    → IsValid c
    → c.lru_order ≡ x ∷ xs
    → count (back x xs) (keys c.cache) ≡ 1
back_once c x xs v e =
    let b = back x xs in ground (arith, v.once b, v.tracked b, count-pop_back b x xs)

-- The eviction keeps the invariant, and makes room.
pub drop_back-IsValid :
    (c : PageCache) (x : ℕ) (xs : List ℕ)
    → IsValid c
    → c.lru_order ≡ x ∷ xs
    → IsValid (drop_back c x xs) × (length (drop_back c x xs).cache + 1 ≡ length c.cache)
unfolding drop_back
drop_back-IsValid c x xs v e =
    let b = back x xs in
    let one = back_once c x xs v e in
    let shorter = length-erase b c.cache in
    (
      record {
        positive = v.positive;
        within = omega (arith, v.within);
        sized = omega (arith, v.sized, ap length e, length-pop_back x xs);
        tracked = λ q. ground (
          arith,
          v.tracked q,
          ap (count q) e,
          count-pop_back q x xs,
          count-keys_erase q b c.cache,
        );
        once = λ q. ground (arith, v.once q, count-keys_erase q b c.cache);
        iterated = λ q. ground (
          arith,
          v.iterated q,
          ap (count q) e,
          count-pop_back q x xs,
          count-remove q b c.lru_iterators,
        );
      },
      omega arith,
    )

-- What holds when `id` is in the map and not yet in front of the list.
pub record Pending (c : PageCache) (id : ℕ) : Type 0 where
  pub positive : 0 < c.max_cache_size
  pub within : length c.cache ≤ c.max_cache_size
  pub present : count id (keys c.cache) ≡ 1
  pub sized : length c.cache + count id c.lru_order ≡ suc (length c.lru_order)
  pub tracked : (q : ℕ) → q ≢ id → count q c.lru_order ≡ count q (keys c.cache)
  pub once : (q : ℕ) → count q (keys c.cache) ≤ 1
  pub once_listed : count id c.lru_order ≤ 1
  pub iterated : (q : ℕ) → count q c.lru_iterators ≡ count q c.lru_order

ℕ-cases : (n : ℕ) → (n ≡ 0) ⊎ ((k : ℕ) × (n ≡ suc k))
ℕ-cases zero = inl refl
ℕ-cases (suc k) = inr (k, refl)

pub update_lru-IsValid : (c : PageCache) (id : ℕ) → Pending c id → IsValid (update_lru c id)
unfolding update_lru
update_lru-IsValid c id p = elim (ℕ-cases (count id c.lru_iterators)) [
  | inl new ↦
      rw (new, update_lru)
        (record {
          positive = p.positive;
          within = p.within;
          sized = omega (arith, p.sized, p.iterated id);
          tracked = λ q. ground (arith, p.tracked q, p.iterated id, p.present);
          once = p.once;
          iterated = λ q. omega (arith, p.iterated q);
        })
  | inr (n, old) ↦
      rw (old, update_lru)
        (record {
          positive = p.positive;
          within = p.within;
          sized =
              omega (arith, p.sized, p.iterated id, p.once_listed, length-remove id c.lru_order);
          tracked = λ q.
              ground (arith, p.tracked q, p.present, p.once_listed, count-remove q id c.lru_order);
          once = p.once;
          iterated =
              λ q. ground (arith, p.iterated q, p.iterated id, count-remove q id c.lru_order);
        })
]

pub IsValid-Pending :
    (c : PageCache) (id : ℕ) → IsValid c → count id (keys c.cache) ≡ 1 → Pending c id
IsValid-Pending c id v one = record {
  positive = v.positive;
  within = v.within;
  present = one;
  sized = omega (arith, v.sized, v.tracked id);
  tracked = λ q _. v.tracked q;
  once = v.once;
  once_listed = omega (arith, v.tracked id);
  iterated = v.iterated;
}

-- A new entry, in a cache that has room.
pub put_cached-Pending :
    (c : PageCache) (id : ℕ) (entry : CachedPage)
    → IsValid c
    → length c.cache < c.max_cache_size
    → Pending (put_cached c id entry) id
unfolding put_cached
put_cached-Pending c id entry v room = record {
  positive = v.positive;
  within = omega (arith, length-insert id entry c.cache);
  present = ground (arith, v.once id, count-keys_insert id id entry c.cache);
  sized = omega (arith, v.sized, v.tracked id, v.once id, length-insert id entry c.cache);
  tracked = λ q ne. ground (arith, v.tracked q, count-keys_insert q id entry c.cache);
  once = λ q. ground (arith, v.once q, v.once id, count-keys_insert q id entry c.cache);
  once_listed = omega (arith, v.tracked id, v.once id);
  iterated = v.iterated;
}
