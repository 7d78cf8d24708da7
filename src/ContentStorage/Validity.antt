-- ===== src/ContentStorage/Validity.antt =====
-- What holds of the content storage between calls.
use custom_database.Base.{
  ℕ, ◌+◌, ◌<◌, ◌≡◌, refl, sym, ◌∙◌, ◌≢◌, String, none, some, string_dec, ℕ_discrete, arith, inl,
  inr, Option-cases,
}
use custom_database.Base.Assoc
use mathlib.Core.Path.{subst₂}
use custom_database.Memory.{Memory, Extends, make_shared, make_shared-Extends, pages-make_shared}
use custom_database.Page.{KeyType, Page, u16_mod, page_hash}
use custom_database.ContentStorage.{
  ContentStorage, new_storage, find_content, find_hash, fresh_copy, add_content, store_page,
}

module _ {K : Type 0} (κ : KeyType K) where
  -- The page at `a` is the one that the storage keeps for the hash `h`.
  pub record Holds (m : Memory K) (s : ContentStorage) (h : String) (a : ℕ) : Type 0 where
    pub made : a < m.next
    pub hashed : page_hash κ (m.pages a) ≡ h
    pub labelled : (m.pages a).header.content_hash ≡ h
    pub indexed : find_hash s (m.pages a).header.page_id ≡ some h

  -- The page id `i` was given out for the hash `h`.
  pub record Given (m : Memory K) (s : ContentStorage) (i : ℕ) (h : String) : Type 0 where
    pub positive : 0 < i
    pub used : i < s.next_page_id
    pub address : ℕ
    pub found : find_content s h ≡ some address
    pub owned : (m.pages address).header.page_id ≡ i

  pub record IsValid (m : Memory K) (s : ContentStorage) : Type 0 where
    pub some_id : 0 < s.next_page_id
    pub in_range : s.next_page_id < u16_mod
    pub holds : (h : String) (a : ℕ) → find_content s h ≡ some a → Holds m s h a
    pub given : (i : ℕ) (h : String) → find_hash s i ≡ some h → Given m s i h

  pub new_storage-IsValid : (m : Memory K) → IsValid m new_storage
  unfolding new_storage Assoc.lookup
  new_storage-IsValid m = record {
    some_id = omega arith;
    in_range = omega arith;
    holds = λ h a e. absurd (cc);
    given = λ i h e. absurd (cc);
  }

  -- Pages that are made elsewhere do not matter.
  pub IsValid-Extends :
      {m m' : Memory K} {s : ContentStorage} → Extends m m' → IsValid m s → IsValid m' s
  IsValid-Extends {m} {m'} {s} e v = record {
    some_id = v.some_id;
    in_range = v.in_range;
    holds = λ h a f.
        let old = v.holds h a f in
        let same = e.keeps a old.made in
        record {
          made = omega (arith, e.grows);
          hashed = rw same old.hashed;
          labelled = rw same old.labelled;
          indexed = rw same old.indexed;
        };
    given = λ i h f.
        let old = v.given i h f in
        let same = e.keeps old.address (v.holds h old.address old.found).made in
        record {
          positive = old.positive;
          used = old.used;
          address = old.address;
          found = old.found;
          owned = rw same old.owned;
        };
  }

  pub page_hash-fresh_copy :
      (s : ContentStorage) (page : Page K) → page_hash κ (fresh_copy κ s page) ≡ page_hash κ page
  unfolding fresh_copy page_hash
  page_hash-fresh_copy s page = refl

  module _ (m : Memory K) (s : ContentStorage) (h : String) where
    pub find_content-add_self : find_content (add_content κ s m h) h ≡ some m.next
    unfolding add_content
    find_content-add_self = Assoc.lookup-insert_self string_dec h m.next s.content_map

    pub find_content-add_ne :
        (q : String) → h ≢ q → find_content (add_content κ s m h) q ≡ find_content s q
    unfolding add_content
    find_content-add_ne q = Assoc.lookup-insert_ne string_dec h q m.next s.content_map

    pub find_hash-add_self : find_hash (add_content κ s m h) s.next_page_id ≡ some h
    unfolding add_content
    find_hash-add_self = Assoc.lookup-insert_self ℕ_discrete s.next_page_id h s.page_to_hash

    pub find_hash-add_ne :
        (i : ℕ) → s.next_page_id ≢ i → find_hash (add_content κ s m h) i ≡ find_hash s i
    unfolding add_content
    find_hash-add_ne i = Assoc.lookup-insert_ne ℕ_discrete s.next_page_id i h s.page_to_hash

  module _ (m : Memory K) (s : ContentStorage) (page : Page K) where
    abbrev grown : Memory K
    grown = make_shared m (fresh_copy κ s page)

    abbrev added : ContentStorage
    added = add_content κ s m (page_hash κ page)

    new_page : grown.pages m.next ≡ fresh_copy κ s page
    new_page = pages-make_shared m (fresh_copy κ s page)

    new_Holds : Holds grown added (page_hash κ page) m.next
    unfolding fresh_copy
    new_Holds = record {
      made = made;
      hashed = rw new_page (page_hash-fresh_copy s page);
      labelled = rw new_page refl;
      indexed = rw new_page (find_hash-add_self m s (page_hash κ page));
    }
      where
        made : m.next < grown.next
        made = unfold make_shared in omega arith

    old_Holds :
        (h : String) (a : ℕ) → IsValid m s → find_content s h ≡ some a → Holds grown added h a
    old_Holds h a v f =
        let old = v.holds h a f in
        let e = make_shared-Extends m (fresh_copy κ s page) in
        let same = e.keeps a old.made in
        let g = v.given _ h old.indexed in
        record {
          made = omega (arith, e.grows, old.made);
          hashed = rw same old.hashed;
          labelled = rw same old.labelled;
          indexed =
              rw same
                (find_hash-add_ne m s (page_hash κ page) _ (omega (arith, g.used)) ∙ old.indexed);
        }

    new_Given :
        0 < s.next_page_id
        → s.next_page_id + 1 < u16_mod
        → Given grown added s.next_page_id (page_hash κ page)
    unfolding fresh_copy add_content
    new_Given some_id room = record {
      positive = some_id;
      used = omega arith;
      address = m.next;
      found = find_content-add_self m s (page_hash κ page);
      owned = rw new_page refl;
    }

    old_Given :
        (i : ℕ) (h : String)
        → IsValid m s
        → s.next_page_id + 1 < u16_mod
        → page_hash κ page ≢ h
        → find_hash s i ≡ some h
        → Given grown added i h
    unfolding add_content
    old_Given i h v room ne f =
        let old = v.given i h f in
        let e = make_shared-Extends m (fresh_copy κ s page) in
        let same = e.keeps old.address (v.holds h old.address old.found).made in
        record {
          positive = old.positive;
          used = omega (arith, old.used);
          address = old.address;
          found = find_content-add_ne m s (page_hash κ page) h ne ∙ old.found;
          owned = rw same old.owned;
        }

    -- New content, in a storage that has ids left.
    pub added-IsValid :
        IsValid m s
        → find_content s (page_hash κ page) ≡ none
        → s.next_page_id + 1 < u16_mod
        → IsValid grown added
    added-IsValid v missing room = record {
      some_id = unfold add_content in omega (arith, v.some_id);
      in_range = unfold add_content in omega arith;
      holds = λ h a f. elim (string_dec (page_hash κ page) h) [
        | yes p ↦
            let same : m.next ≡ a = cc (find_content-add_self m s (page_hash κ page)) in
            subst₂ (Holds grown added) p same new_Holds
        | no p ↦ old_Holds h a v (sym (find_content-add_ne m s (page_hash κ page) h p) ∙ f)
      ];
      given = λ i h f. elim (ℕ_discrete s.next_page_id i) [
        | yes p ↦
            let same : page_hash κ page ≡ h = cc (find_hash-add_self m s (page_hash κ page)) in
            subst₂ (Given grown added) p same (new_Given v.some_id room)
        | no p ↦
            let f' = sym (find_hash-add_ne m s (page_hash κ page) i p) ∙ f in
            let ne : page_hash κ page ≢ h = λ q. cc (q, (v.given i h f').found) in
            old_Given i h v room ne f'
      ];
    }

    -- storePage keeps the storage valid, while ids are left.
    pub store_page-IsValid :
        IsValid m s
        → s.next_page_id + 1 < u16_mod
        → IsValid (store_page κ m s page).0 (store_page κ m s page).1
    unfolding store_page
    store_page-IsValid v room = elim (Option-cases (find_content s (page_hash κ page))) [
      | inl missing ↦ rw (missing, store_page) (added-IsValid v missing room)
      | inr (a, e) ↦ rw (e, store_page) v
    ]
