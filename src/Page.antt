-- ===== src/Page.antt =====
-- include/page_manager.h, include/content_hash.h and src/page_manager.cpp: the page, its slot
-- directory and its content hash. What the C++ leaves undefined (a read or a write outside a
-- vector) is `none`.
pub mod Records
pub mod Compact
use custom_database.Base.{
  ℕ, zero, suc, ◌+◌, ◌-◌, ◌%◌, String, Bool, true, false, List, [], ◌∷◌, ◌++◌, Option, none, some,
  ltb, leb, if◌then◌else◌, length, take, drop, string_dec,
}

-- What a page needs of its key type and of the C++ library: the bytes of a key in memory,
-- `operator<` and `operator==` of the keys, `std::hash<std::string>` and `std::to_string`.
pub record KeyType (K : Type 0) : Type 0 where
  pub key_bytes : K → List ℕ
  pub less : K → K → Bool
  pub key_dec : Discrete K
  pub hasher : List ℕ → ℕ
  pub to_string : ℕ → String

abbrev pub u16_mod : ℕ
u16_mod = 65536

-- sizeof(SlotEntry): three uint16_t, one uint8_t and the padding.
abbrev pub slot_size : ℕ
slot_size = 8

pub record PageHeader : Type 0 where
  pub page_id : ℕ
  pub num_slots : ℕ
  pub free_space_offset : ℕ
  pub free_space_size : ℕ
  pub checksum : String
  pub content_hash : String
  pub flags : ℕ

pub record SlotEntry : Type 0 where
  pub id : ℕ
  pub offset : ℕ
  pub len : ℕ
  pub is_deleted : Bool

pub record Page (K : Type 0) : Type 0 where
  pub header : PageHeader
  pub is_leaf : Bool
  pub keys : List K
  pub children : List ℕ
  pub slot_directory : List SlotEntry
  pub bytes : List ℕ

-- `data[offset .. offset + n)`; `none` if that leaves the vector.
unfoldable pub slice : List ℕ → ℕ → ℕ → Option (List ℕ)
slice bytes offset n =
    if leb (offset + n) (length bytes) then some (take n (drop offset bytes)) else none

module _ {K : Type 0} (κ : KeyType K) where
  -- ContentHash::computeHash
  unfoldable pub compute_hash : List ℕ → String
  compute_hash content = κ.to_string (κ.hasher content)

  unfoldable pub keys_content : List K → List ℕ
  keys_content [] = []
  keys_content (k ∷ ks) = κ.key_bytes k ++ keys_content ks

  -- The hash that `updateContentHash` computes.
  unfoldable pub page_hash : Page K → String
  page_hash p = compute_hash (keys_content p.keys ++ p.bytes)

  unfoldable pub update_content_hash : Page K → Page K
  update_content_hash p = record p { header = record p.header { content_hash = page_hash p } }

  -- getContentHash and hasSameContent
  unfoldable pub hash_of : Page K → String
  hash_of p = p.header.content_hash

  unfoldable pub has_same_content : Page K → Page K → Bool
  has_same_content p q = elim (string_dec (hash_of p) (hash_of q)) [ yes _ ↦ true | no _ ↦ false ]

  -- `raw` holds what the uninitialised integers of the header happen to be.
  unfoldable pub create_page : PageHeader → Bool → Page K
  create_page raw is_leaf = update_content_hash (record {
    header = record raw { checksum = ""; content_hash = "" };
    is_leaf = is_leaf;
    keys = [];
    children = [];
    slot_directory = [];
    bytes = [];
  })

  -- The page after the writes of `insertRecord`, `n` being the length as a uint16_t.
  unfoldable pub add_record : Page K → List ℕ → ℕ → Page K
  add_record p rec n = update_content_hash (record p {
    header = record header {
      num_slots = (header.num_slots + 1) % u16_mod;
      free_space_size = header.free_space_size - (n + slot_size);
      free_space_offset = (header.free_space_offset + n) % u16_mod;
    };
    slot_directory = p.slot_directory ++ slot ∷ [];
    bytes = p.bytes ++ rec;
  })
    where
      open p use {header}

      slot : SlotEntry
      slot = record {
        id = header.num_slots;
        offset = header.free_space_offset;
        len = n;
        is_deleted = false;
      }

  unfoldable pub insert_record : Page K → List ℕ → Page K × Bool
  insert_record p rec =
      if ltb p.header.free_space_size (length rec % u16_mod + slot_size)
      then (p, false)
      else (add_record p rec (length rec % u16_mod), true)

  -- `slot_directory[i].is_deleted = true`
  unfoldable pub mark_slot : ℕ → List SlotEntry → Option (List SlotEntry)
  mark_slot i [] = none
  mark_slot zero (s ∷ ss) = some (record s { is_deleted = true } ∷ ss)
  mark_slot (suc i) (s ∷ ss) = elim (mark_slot i ss) [ none ↦ none | some ss' ↦ some (s ∷ ss') ]

  -- deleteRecord(page, slot_id)
  unfoldable pub delete_record : Page K → ℕ → Option (Page K × Bool)
  delete_record p slot_id =
      if leb p.header.num_slots slot_id
      then some (p, false)
      else elim (mark_slot slot_id p.slot_directory) [
        | none ↦ none
        | some slots ↦ some (update_content_hash (record p { slot_directory = slots }), true)
      ]

-- The local variables of the compaction, and the header fields that it writes.
pub record Compaction : Type 0 where
  pub num_slots : ℕ
  pub free_space_size : ℕ
  pub new_data : List ℕ
  pub new_directory : List SlotEntry

unfoldable pub drop_slot : SlotEntry → Compaction → Compaction
drop_slot s c = record c {
  num_slots = (c.num_slots + u16_mod - 1) % u16_mod;
  free_space_size = (c.free_space_size + (slot_size + s.len)) % u16_mod;
}

unfoldable pub keep_slot : SlotEntry → List ℕ → Compaction → Compaction
keep_slot s kept c = record c {
  new_data = c.new_data ++ kept;
  new_directory = c.new_directory ++ record s { offset = length c.new_data % u16_mod } ∷ [];
}

-- The loop over the slot directory.
unfoldable pub compact_slots : List ℕ → List SlotEntry → Compaction → Option Compaction
compact_slots bytes [] c = some c
compact_slots bytes (s ∷ ss) c =
    if s.is_deleted
    then compact_slots bytes ss (drop_slot s c)
    else elim (slice bytes s.offset s.len) [
      | none ↦ none
      | some kept ↦ compact_slots bytes ss (keep_slot s kept c)
    ]

module _ {K : Type 0} (κ : KeyType K) where
  unfoldable pub after_compaction : Page K → Compaction → Page K
  after_compaction p c = update_content_hash κ (record p {
    header = record header { num_slots = c.num_slots; free_space_size = c.free_space_size };
    slot_directory = c.new_directory;
    bytes = c.new_data;
  })
    where
      open p use {header}

  -- deleteRecord(page)
  unfoldable pub compact : Page K → Option (Page K × Bool)
  compact p =
      elim (compact_slots p.bytes p.slot_directory (record {
        num_slots = p.header.num_slots;
        free_space_size = p.header.free_space_size;
        new_data = [];
        new_directory = [];
      })) [ none ↦ none | some c ↦ some (after_compaction p c, true) ]
