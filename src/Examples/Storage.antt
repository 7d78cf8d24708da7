-- ===== src/Examples/Storage.antt =====
-- Examples of the content storage: a page with the keys 1 and 2 in an empty storage.
use custom_database.Base.{ℕ, ◌+◌, ◌<◌, ◌≡◌, refl, [], ◌∷◌, none, some, arith}
use custom_database.Base.Assoc
use custom_database.Memory.{Memory}
use custom_database.Page.{Page, page_hash, u16_mod}
use custom_database.ContentStorage.{ContentStorage, new_storage, store_page, get_page, find_content}
use custom_database.ContentStorage.Validity.{IsValid, new_storage-IsValid, store_page-IsValid}
use custom_database.ContentStorage.Lookup.{get_page-store_page, get_page-stable}
use custom_database.ContentStorage.Dedup.{store_page-children}
use custom_database.Examples.{keys, leaf, memory}

abbrev pub page : Page ℕ
page = leaf (1 ∷ 2 ∷ []) (9 ∷ [])

abbrev pub inner : Page ℕ
inner = record page { children = 5 ∷ [] }

pub empty-IsValid : IsValid keys memory new_storage
empty-IsValid = new_storage-IsValid keys memory

pub ids_left : new_storage.next_page_id + 1 < u16_mod
unfolding new_storage
ids_left = omega arith

missing : find_content new_storage (page_hash keys page) ≡ none
unfolding new_storage Assoc.lookup
missing = refl

-- The storage and the memory once the page is stored.
abbrev pub stored : Memory ℕ × ContentStorage × ℕ
stored = store_page keys memory new_storage page

store_page-IsValid_example : IsValid keys stored.0 stored.1
store_page-IsValid_example = store_page-IsValid keys memory new_storage page empty-IsValid ids_left

get_page-store_page_example :
    (a : ℕ) × (get_page stored.1 stored.2 ≡ some a)
    × (page_hash keys (stored.0.pages a) ≡ page_hash keys page)
    × ((stored.0.pages a).header.page_id ≡ stored.2)
    × ((stored.0.pages a).header.content_hash ≡ page_hash keys page)
get_page-store_page_example =
    get_page-store_page keys memory new_storage page empty-IsValid ids_left

pub stored-IsValid : IsValid keys stored.0 stored.1
stored-IsValid = store_page-IsValid keys memory new_storage page empty-IsValid ids_left

-- The page that the storage returns for the first id.
abbrev pub first : (a : ℕ) × (get_page stored.1 stored.2 ≡ some a)
first =
    let r = get_page-store_page keys memory new_storage page empty-IsValid ids_left in (r.0, r.1)

get_page-stable_example :
    (get_page (store_page keys stored.0 stored.1 (leaf (4 ∷ []) [])).1 stored.2 ≡ some (first.0))
    × ((store_page keys stored.0 stored.1 (leaf (4 ∷ []) [])).0.pages (first.0)
        ≡ stored.0.pages (first.0))
get_page-stable_example =
    get_page-stable keys stored.0 stored.1 (leaf (4 ∷ []) []) stored.2 stored-IsValid (first.1)

store_page-children_example :
    let r' = store_page keys stored.0 stored.1 inner in
    (a : ℕ) × (get_page r'.1 r'.2 ≡ some a) × ((r'.0.pages a).children ≡ [])
store_page-children_example =
    store_page-children keys memory new_storage page inner empty-IsValid ids_left missing refl refl
