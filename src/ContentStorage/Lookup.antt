-- ===== src/ContentStorage/Lookup.antt =====
-- What `getPage` returns before and after `storePage`.
use custom_database.Base.{
  ℕ, ◌+◌, ◌≤◌, ◌<◌, ◌≡◌, ◌∙◌, String, none, some, arith, inl, inr, Option-cases,
}
use custom_database.Memory.{Memory, Extends, Extends-refl, make_shared, make_shared-Extends}
use custom_database.Page.{KeyType, Page, u16_mod, page_hash}
use custom_database.ContentStorage.{
  ContentStorage, find_content, find_hash, fresh_copy, add_content, get_page, store_page,
}
use custom_database.ContentStorage.Validity.{
  IsValid, find_content-add_self, find_content-add_ne, find_hash-add_self, find_hash-add_ne,
  store_page-IsValid,
}

-- `getPage` by its two searches.
pub get_page-found :
    (s : ContentStorage) (i : ℕ) (h : String) {a : ℕ}
    → find_hash s i ≡ some h
    → find_content s h ≡ some a
    → get_page s i ≡ some a
unfolding get_page
get_page-found s i h e f = rw (e, get_page) f

pub get_page-inverted :
    (s : ContentStorage) (i : ℕ) {a : ℕ}
    → get_page s i ≡ some a
    → (h : String) × (find_hash s i ≡ some h) × (find_content s h ≡ some a)
unfolding get_page
get_page-inverted s i e = ground arith

module _ {K : Type 0} (κ : KeyType K) (m : Memory K) (s : ContentStorage) (page : Page K) where
  -- No page that has been made changes.
  pub store_page-Extends : Extends m (store_page κ m s page).0
  unfolding store_page
  store_page-Extends = elim (Option-cases (find_content s (page_hash κ page))) [
    | inl missing ↦ rw (missing, store_page) (make_shared-Extends m (fresh_copy κ s page))
    | inr (a, e) ↦ rw (e, store_page) (Extends-refl m)
  ]

  -- Content that is there: nothing changes, and its id is returned.
  pub store_page-known :
      {a : ℕ}
      → find_content s (page_hash κ page) ≡ some a
      → store_page κ m s page ≡ (m, s, (m.pages a).header.page_id)
  unfolding store_page
  store_page-known e = rw (e, store_page)

  pub store_page-new :
      find_content s (page_hash κ page) ≡ none
      → store_page κ m s page ≡ (
        make_shared m (fresh_copy κ s page),
        add_content κ s m (page_hash κ page),
        s.next_page_id,
      )
  unfolding store_page
  store_page-new e = rw (e, store_page)

  -- After storePage the page's hash is in the content map.
  pub find_content-store_page :
      (a : ℕ) × (find_content (store_page κ m s page).1 (page_hash κ page) ≡ some a)
  find_content-store_page = elim (Option-cases (find_content s (page_hash κ page))) [
    | inl missing ↦ rw (store_page-new missing) (m.next, find_content-add_self κ m s _)
    | inr (a, e) ↦ rw (store_page-known e) (a, e)
  ]

  -- The id that storePage returns leads to the hash.
  find_hash-store_page :
      IsValid κ m s
      → find_hash (store_page κ m s page).1 (store_page κ m s page).2 ≡ some (page_hash κ page)
  find_hash-store_page v = elim (Option-cases (find_content s (page_hash κ page))) [
    | inl missing ↦ rw (store_page-new missing) (find_hash-add_self κ m s _)
    | inr (a, e) ↦ rw (store_page-known e) (v.holds _ a e).indexed
  ]

  -- The page that is kept for the hash carries the id that storePage returns.
  pub store_page-owner :
      IsValid κ m s
      → s.next_page_id + 1 < u16_mod
      → let r = store_page κ m s page in
        (a : ℕ) × (find_content r.1 (page_hash κ page) ≡ some a)
        × (get_page r.1 r.2 ≡ some a)
        × ((r.0.pages a).header.page_id ≡ r.2)
  store_page-owner v room =
      let (a, found) = find_content-store_page in
      let r = store_page κ m s page in
      let v' = store_page-IsValid κ m s page v room in
      let given = v'.given r.2 _ (find_hash-store_page v) in
      let same : given.address ≡ a = cc (given.found, found) in
      (a, found, get_page-found r.1 r.2 _ (find_hash-store_page v) found, rw (← same) given.owned)

  -- While ids are left, the page id that storePage returns leads getPage to a page with the hash
  -- of the page that was stored, which carries that id and its own hash in its header.
  pub get_page-store_page :
      IsValid κ m s
      → s.next_page_id + 1 < u16_mod
      → let r = store_page κ m s page in
        (a : ℕ) × (get_page r.1 r.2 ≡ some a)
        × (page_hash κ (r.0.pages a) ≡ page_hash κ page)
        × ((r.0.pages a).header.page_id ≡ r.2)
        × ((r.0.pages a).header.content_hash ≡ page_hash κ page)
  get_page-store_page v room =
      let (a, found, got, owned) = store_page-owner v room in
      let holds = (store_page-IsValid κ m s page v room).holds _ a found in
      (a, got, holds.hashed, owned, holds.labelled)

  find_hash-stable :
      (i : ℕ) (h : String)
      → IsValid κ m s
      → find_hash s i ≡ some h
      → find_hash (store_page κ m s page).1 i ≡ some h
  find_hash-stable i h v e = elim (Option-cases (find_content s (page_hash κ page))) [
    | inl missing ↦
        rw (store_page-new missing)
          (find_hash-add_ne κ m s _ i (omega (arith, (v.given i h e).used)) ∙ e)
    | inr (a, f) ↦ rw (store_page-known f) e
  ]

  pub find_content-stable :
      (h : String) {a : ℕ}
      → find_content s h ≡ some a
      → find_content (store_page κ m s page).1 h ≡ some a
  find_content-stable h {a} e = elim (Option-cases (find_content s (page_hash κ page))) [
    | inl missing ↦
        rw (store_page-new missing) (find_content-add_ne κ m s _ h (λ q. cc (q, missing, e)) ∙ e)
    | inr (b, f) ↦ rw (store_page-known f) e
  ]

  -- storePage never changes what getPage returns for a page id that is in use: not the pointer,
  -- and not the page behind it.
  pub get_page-stable :
      (i : ℕ) {a : ℕ}
      → IsValid κ m s
      → get_page s i ≡ some a
      → (get_page (store_page κ m s page).1 i ≡ some a)
        × ((store_page κ m s page).0.pages a ≡ m.pages a)
  get_page-stable i {a} v e =
      let (h, eh, ea) = get_page-inverted s i e in
      (
        get_page-found (store_page κ m s page).1 i h (find_hash-stable i h v eh)
            (find_content-stable h ea),
        store_page-Extends.keeps a (v.holds h a ea).made,
      )

  -- storePage uses one page id at most.
  pub next_page_id-store_page : (store_page κ m s page).1.next_page_id ≤ s.next_page_id + 1
  next_page_id-store_page = elim (Option-cases (find_content s (page_hash κ page))) [
    | inl missing ↦ rw (store_page-new missing) (unfold add_content in omega arith)
    | inr (a, e) ↦ rw (store_page-known e) (omega arith)
  ]
