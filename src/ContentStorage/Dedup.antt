-- ===== src/ContentStorage/Dedup.antt =====
-- Deduplication: pages with equal content share one stored page.
use custom_database.Base.{
  ℕ, suc, ◌+◌, ◌<◌, ◌≡◌, refl, ap, ◌∙◌, true, false, none, some, inl, inr, Option-cases,
  if◌then◌else◌,
}
use custom_database.Memory.{Memory, make_shared, pages-make_shared}
use custom_database.Page.{KeyType, Page, u16_mod, page_hash}
use custom_database.ContentStorage.{
  ContentStorage, find_content, fresh_copy, get_page, store_page, has_content, page_id_for_content,
}
use custom_database.ContentStorage.Validity.{IsValid, find_content-add_self, find_hash-add_self}
use custom_database.ContentStorage.Lookup.{
  get_page-found, store_page-known, store_page-new, find_content-store_page, store_page-owner,
}

module _ {K : Type 0} (κ : KeyType K) (m : Memory K) (s : ContentStorage) (page : Page K) where
  has_content-found :
      {a : ℕ} → find_content s (page_hash κ page) ≡ some a → has_content κ s page ≡ true
  unfolding has_content
  has_content-found e = rw (e, has_content)

  has_content-missing : find_content s (page_hash κ page) ≡ none → has_content κ s page ≡ false
  unfolding has_content
  has_content-missing e = rw (e, has_content)

  page_id_for_content-found :
      {a : ℕ}
      → find_content s (page_hash κ page) ≡ some a
      → page_id_for_content κ m s page ≡ (m.pages a).header.page_id
  unfolding page_id_for_content
  page_id_for_content-found e = rw (e, page_id_for_content)

  -- `storePage`, `hasContent` and `getPageIdForContent` agree. If hasContent reports the content,
  -- storePage makes no page and returns the id that getPageIdForContent returns; if not, it makes
  -- one page and returns the next page id. Afterwards hasContent reports the content.
  pub store_page-has_content :
      let r = store_page κ m s page in
      (r.2 ≡ (if has_content κ s page then page_id_for_content κ m s page else s.next_page_id))
      × (r.0.next ≡ (if has_content κ s page then m.next else suc m.next))
      × (has_content κ r.1 page ≡ true)
  unfolding make_shared has_content
  store_page-has_content =
      let (b, stored) = find_content-store_page κ m s page in
      let there : has_content κ (store_page κ m s page).1 page ≡ true = rw (has_content, stored) in
      elim (Option-cases (find_content s (page_hash κ page))) [
        | inl missing ↦
            let e = store_page-new κ m s page missing in
            (rw (e, has_content-missing missing), rw (e, has_content-missing missing), there)
        | inr (a, found) ↦
            let e = store_page-known κ m s page found in
            (
              rw (e, has_content-found found, page_id_for_content-found found),
              rw (e, has_content-found found),
              there,
            )
      ]

-- Storing the same content a second time changes nothing and returns the same page id.
pub store_page_twice :
    {K : Type 0} (κ : KeyType K) (m : Memory K) (s : ContentStorage) (p q : Page K)
    → IsValid κ m s
    → s.next_page_id + 1 < u16_mod
    → page_hash κ q ≡ page_hash κ p
    → let r = store_page κ m s p in store_page κ r.0 r.1 q ≡ r
store_page_twice κ m s p q v room same =
    let r = store_page κ m s p in
    let (a, found, _, owned) = store_page-owner κ m s p v room in
    store_page-known κ r.0 r.1 q (rw same found) ∙ ap (λ i. (r.0, r.1, i)) owned

-- The hash covers the keys and the bytes of a page, and not its children: once a page is stored
-- as new content, a page that differs from it in the children alone is not stored, and the id
-- that storePage returns for it leads to a page with the first one's children.
pub store_page-children :
    {K : Type 0} (κ : KeyType K) (m : Memory K) (s : ContentStorage) (p q : Page K)
    → IsValid κ m s
    → s.next_page_id + 1 < u16_mod
    → find_content s (page_hash κ p) ≡ none
    → q.keys ≡ p.keys
    → q.bytes ≡ p.bytes
    → let r = store_page κ m s p in
      let r' = store_page κ r.0 r.1 q in
      (a : ℕ) × (get_page r'.1 r'.2 ≡ some a) × ((r'.0.pages a).children ≡ p.children)
store_page-children κ m s p q v room missing same_keys same_bytes =
    let again = store_page_twice κ m s p q v room same_hash in
    rw (again, store_page-new κ m s p missing)
      (
        m.next,
        get_page-found _ _ _ (find_hash-add_self κ m s _) (find_content-add_self κ m s _),
        rw (pages-make_shared m (fresh_copy κ s p)) (unfold fresh_copy in refl),
      )
  where
    same_hash : page_hash κ q ≡ page_hash κ p
    same_hash = unfold page_hash in rw (same_keys, same_bytes)
