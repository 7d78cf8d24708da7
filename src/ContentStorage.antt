-- ===== src/ContentStorage.antt =====
-- include/content_storage.h: pages by content hash, and page ids.
pub mod Validity
pub mod Lookup
pub mod Dedup
use custom_database.Base.{
  ℕ, ◌+◌, ◌%◌, String, Bool, true, false, List, [], Option, none, some, string_dec, ℕ_discrete,
}
use custom_database.Base.Assoc
use custom_database.Memory.{Memory, make_shared}
use custom_database.Page.{KeyType, Page, u16_mod, page_hash, update_content_hash}

pub record ContentStorage : Type 0 where
  pub content_map : List (String × ℕ)
  pub page_to_hash : List (ℕ × String)
  pub next_page_id : ℕ

unfoldable pub new_storage : ContentStorage
new_storage = record { content_map = []; page_to_hash = []; next_page_id = 1 }

abbrev pub find_content : ContentStorage → String → Option ℕ
find_content s h = Assoc.lookup string_dec h s.content_map

abbrev pub find_hash : ContentStorage → ℕ → Option String
find_hash s id = Assoc.lookup ℕ_discrete id s.page_to_hash

-- getPage: a pointer into the memory, or null.
unfoldable pub get_page : ContentStorage → ℕ → Option ℕ
get_page s id = elim (find_hash s id) [ none ↦ none | some h ↦ find_content s h ]

module _ {K : Type 0} (κ : KeyType K) where
  -- `page_copy` with its hash and its new id.
  unfoldable pub fresh_copy : ContentStorage → Page K → Page K
  unfolding update_content_hash
  fresh_copy s page = record copy { header = record copy.header { page_id = s.next_page_id } }
    where
      copy : Page K
      copy = update_content_hash κ page

  -- The writes for new content. `next_page_id` is a uint16_t.
  unfoldable pub add_content : ContentStorage → Memory K → String → ContentStorage
  add_content s m h = record s {
    content_map = Assoc.insert string_dec h m.next s.content_map;
    page_to_hash = Assoc.insert ℕ_discrete s.next_page_id h s.page_to_hash;
    next_page_id = (s.next_page_id + 1) % u16_mod;
  }

  -- storePage: the memory, the storage and the page id.
  unfoldable pub store_page : Memory K → ContentStorage → Page K → Memory K × ContentStorage × ℕ
  unfolding fresh_copy add_content make_shared
  store_page m s page = elim (find_content s (page_hash κ page)) [
    | some a ↦ (m, s, (m.pages a).header.page_id)
    | none ↦ (make_shared m (fresh_copy s page), add_content s m (page_hash κ page), s.next_page_id)
  ]

  unfoldable pub has_content : ContentStorage → Page K → Bool
  has_content s page = elim (find_content s (page_hash κ page)) [ none ↦ false | some _ ↦ true ]

  unfoldable pub page_id_for_content : Memory K → ContentStorage → Page K → ℕ
  page_id_for_content m s page = elim (find_content s (page_hash κ page)) [
    | none ↦ 0
    | some a ↦ (m.pages a).header.page_id
  ]
