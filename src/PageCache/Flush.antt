-- ===== src/PageCache/Flush.antt =====
-- flushAll and the write-back of an eviction: what reaches the content storage, and under which
-- page id.
use custom_database.Base.{
  ℕ, ◌+◌, ◌≤◌, ◌<◌, ◌≡◌, refl, ◌∙◌, true, List, [], ◌∷◌, Option, none, some, arith, inl, inr,
  Bool-cases, ℕ_discrete, length, All,
}
use custom_database.Base.Assoc
use custom_database.Base.Count.{back}
use custom_database.Memory.{Extends, Extends-refl, Extends-trans}
use custom_database.Page.{KeyType, u16_mod, page_hash}
use custom_database.ContentStorage.{get_page, find_content}
use custom_database.ContentStorage.Validity
use custom_database.ContentStorage.Validity.{store_page-IsValid}
use custom_database.ContentStorage.Lookup.{
  store_page-Extends, find_content-store_page, get_page-stable, find_content-stable,
  next_page_id-store_page,
}
use custom_database.PageCache.Eviction.{evict_lru-run}
use custom_database.PageCache.{
  CachedPage, Engine, find_cached, store_at, write_back, drop_back, evict_lru, flush_entries,
  flush_all, dirty_entries, get_dirty_pages,
}

module _ {K : Type 0} (κ : KeyType K) where
  abbrev pub Stored : Engine K → Type 0
  Stored e = Validity.IsValid κ e.memory e.storage

  -- From `e` to `e'` the storage has used at most `n` more page ids, and whatever it returned or
  -- knew it still does.
  pub record Kept (n : ℕ) (e e' : Engine K) : Type 0 where
    pub valid : Stored e'
    pub used : e'.storage.next_page_id ≤ e.storage.next_page_id + n
    pub memory : Extends e.memory e'.memory
    pub same :
        (i a : ℕ)
        → get_page e.storage i ≡ some a
        → (get_page e'.storage i ≡ some a) × (e'.memory.pages a ≡ e.memory.pages a)
    pub known :
        (h : Prim.Native.String.String) (a : ℕ)
        → find_content e.storage h ≡ some a
        → find_content e'.storage h ≡ some a

  Kept-refl : (n : ℕ) (e : Engine K) → Stored e → Kept n e e
  Kept-refl n e v = record {
    valid = v;
    used = omega arith;
    memory = Extends-refl e.memory;
    same = λ i a h. (h, refl);
    known = λ h a p. p;
  }

  Kept-trans : {n k : ℕ} {e e' e'' : Engine K} → Kept n e e' → Kept k e' e'' → Kept (n + k) e e''
  Kept-trans p q = record {
    valid = q.valid;
    used = omega (arith, p.used, q.used);
    memory = Extends-trans p.memory q.memory;
    same = λ i a h.
        let first = p.same i a h in
        let second = q.same i a first.0 in (second.0, second.1 ∙ first.1);
    known = λ h a f. q.known h a (p.known h a f);
  }

  Kept-weaken : {n k : ℕ} {e e' : Engine K} → Kept n e e' → n ≤ k → Kept k e e'
  Kept-weaken p h = record {
    valid = p.valid;
    used = omega (arith, p.used);
    memory = p.memory;
    same = p.same;
    known = p.known;
  }

  store_at-Kept :
      (e : Engine K) (a : ℕ)
      → Stored e
      → e.storage.next_page_id + 1 < u16_mod
      → Kept 1 e (store_at κ e a)
  unfolding store_at
  store_at-Kept e a v room =
      let p = e.memory.pages a in
      record {
        valid = store_page-IsValid κ e.memory e.storage p v room;
        used = next_page_id-store_page κ e.memory e.storage p;
        memory = store_page-Extends κ e.memory e.storage p;
        same = λ i b h. get_page-stable κ e.memory e.storage p i v h;
        known = λ h b f. find_content-stable κ e.memory e.storage p h f;
      }

  write_back-Kept :
      (e : Engine K) (entry : Option CachedPage)
      → Stored e
      → e.storage.next_page_id + 1 < u16_mod
      → Kept 1 e (write_back κ e entry)
  unfolding write_back
  write_back-Kept e none v room = Kept-refl 1 e v
  write_back-Kept e (some entry) v room = elim (Bool-cases entry.is_dirty) [
    | inl dirty ↦ rw (write_back, dirty) (store_at-Kept e entry.page v room)
    | inr clean ↦ rw (write_back, clean) (Kept-refl 1 e v)
  ]

  flush_entries-Kept :
      (e : Engine K) (l : List (ℕ × CachedPage))
      → Stored e
      → e.storage.next_page_id + length l < u16_mod
      → Kept (length l) e (flush_entries κ e l).0
  unfolding flush_entries
  flush_entries-Kept e [] v room = Kept-refl 0 e v
  flush_entries-Kept e ((id, entry) ∷ l) v room =
      let first = write_back-Kept e (some entry) v (omega arith) in
      let rest =
        flush_entries-Kept (write_back κ e (some entry)) l first.valid
          (omega (arith, first.used)) in
      Kept-weaken (Kept-trans first rest) (omega arith)

  clean_entries :
      (e : Engine K) (l : List (ℕ × CachedPage)) → dirty_entries (flush_entries κ e l).1 ≡ []
  unfolding flush_entries dirty_entries
  clean_entries e [] = refl
  clean_entries e ((id, entry) ∷ l) = clean_entries (write_back κ e (some entry)) l

  -- Every entry that was dirty has the hash of its page in the storage.
  abbrev pub Saved : Engine K → Engine K → ℕ × CachedPage → Type 0
  Saved e e' x =
      x.1.is_dirty ≡ true
      → (a : ℕ) × (find_content e'.storage (page_hash κ (e.memory.pages x.1.page)) ≡ some a)

  abbrev pub Made : Engine K → ℕ × CachedPage → Type 0
  Made e x = x.1.page < e.memory.next

  write_back-Saved :
      (e₀ e : Engine K) (id : ℕ) (entry : CachedPage)
      → Extends e₀.memory e.memory
      → Made e₀ (id, entry)
      → Saved e₀ (write_back κ e (some entry)) (id, entry)
  unfolding write_back store_at
  write_back-Saved e₀ e id entry ext made dirty =
      rw (write_back, dirty, ← ext.keeps entry.page made)
        (find_content-store_page κ e.memory e.storage (e.memory.pages entry.page))

  Saved-flush_entries :
      (e₀ e : Engine K) (l : List (ℕ × CachedPage))
      → Extends e₀.memory e.memory
      → Stored e
      → e.storage.next_page_id + length l < u16_mod
      → All (Made e₀) l
      → All (Saved e₀ (flush_entries κ e l).0) l
  unfolding flush_entries
  Saved-flush_entries e₀ e [] ext v room made = tt
  Saved-flush_entries e₀ e ((id, entry) ∷ l) ext v room made =
      let e₁ = write_back κ e (some entry) in
      let first = write_back-Kept e (some entry) v (omega arith) in
      let left : e₁.storage.next_page_id + length l < u16_mod = omega (arith, first.used) in
      let rest = flush_entries-Kept e₁ l first.valid left in
      (
        (λ dirty.
            let (a, found) = write_back-Saved e₀ e id entry ext made.0 dirty in
            (a, rest.known _ a found)),
        Saved-flush_entries e₀ e₁ l (Extends-trans ext first.memory) first.valid left made.1,
      )

  -- flushAll leaves no dirty page.
  pub flush_all-clean : (e : Engine K) → get_dirty_pages (flush_all κ e).cache ≡ []
  unfolding flush_all get_dirty_pages
  flush_all-clean e = clean_entries e e.cache.cache

  -- While ids are left, flushAll leaves no dirty page; for every dirty page there was, the content
  -- storage knows the hash of its content.
  pub flush_all-Saved :
      (e : Engine K)
      → Stored e
      → e.storage.next_page_id + length e.cache.cache < u16_mod
      → All (Made e) e.cache.cache
      → (get_dirty_pages (flush_all κ e).cache ≡ []) × All (Saved e (flush_all κ e)) e.cache.cache
  unfolding flush_all get_dirty_pages
  flush_all-Saved e v room made = (
    clean_entries e e.cache.cache,
    Saved-flush_entries e e e.cache.cache (Extends-refl _) v room made,
  )

  -- While ids are left, flushAll changes nothing of what the content storage returns for any page
  -- id, whatever page the cache held for that id: same pointer, same page.
  pub flush_all-get_page :
      (e : Engine K) (id a : ℕ)
      → Stored e
      → e.storage.next_page_id + length e.cache.cache < u16_mod
      → get_page e.storage id ≡ some a
      → (get_page (flush_all κ e).storage id ≡ some a)
        × ((flush_all κ e).memory.pages a ≡ e.memory.pages a)
  unfolding flush_all
  flush_all-get_page e id a v room h = (flush_entries-Kept e e.cache.cache v room).same id a h

  -- Evicting the least recent page, dirty or not, changes nothing of what the content storage
  -- returns for its id: the page id is out of the cache afterwards, and leads to the page that the
  -- storage had for it before, whatever page the cache held.
  pub evict_lru-get_page :
      (e : Engine K) (a x : ℕ) (xs : List ℕ)
      → Stored e
      → e.storage.next_page_id + 1 < u16_mod
      → e.cache.lru_order ≡ x ∷ xs
      → get_page e.storage (back x xs) ≡ some a
      → let e' = evict_lru κ e in
        (find_cached e'.cache (back x xs) ≡ none)
        × (get_page e'.storage (back x xs) ≡ some a)
        × (e'.memory.pages a ≡ e.memory.pages a)
  unfolding drop_back
  evict_lru-get_page e a x xs v room at h =
      let written = find_cached e.cache (back x xs) in
      let kept = (write_back-Kept e written v room).same (back x xs) a h in
      rw (evict_lru-run κ e x xs at) (
        ground (arith, Assoc.lookup-erase ℕ_discrete (back x xs) (back x xs) e.cache.cache),
        kept.0,
        kept.1,
      )
