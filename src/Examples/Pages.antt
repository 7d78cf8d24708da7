-- ===== src/Examples/Pages.antt =====
-- Examples of the page: three records, the second one deleted.
use custom_database.Base.{ℕ, length, ◌+◌, ◌≡◌, refl, [], ◌∷◌, ◌++◌, Bool, true, false, some, arith}
use custom_database.Page.{Page, SlotEntry, insert_record, compact, slice, slot_size}
use custom_database.Page.Records.{new_slot, insert_record-new_slot}
use custom_database.Page.Compact.{live, records, compact-records}
use custom_database.Examples.{keys, leaf, raw_header}

abbrev slot : ℕ → ℕ → ℕ → Bool → SlotEntry
slot i o n gone = record { id = i; offset = o; len = n; is_deleted = gone }

abbrev three : Page ℕ
three = record (leaf [] (1 ∷ 2 ∷ 3 ∷ 4 ∷ 5 ∷ [])) {
  header = record raw_header { num_slots = 3; free_space_offset = 5; free_space_size = 100 };
  slot_directory = slot 0 0 2 false ∷ slot 1 2 1 true ∷ slot 2 3 2 false ∷ [];
}

compact-records_example :
    (p' : Page ℕ) × (compact keys three ≡ some (p', true))
    × (records p'.bytes p'.slot_directory ≡ records three.bytes (live three.slot_directory))
    × (p'.header.free_space_offset ≡ three.header.free_space_offset)
compact-records_example = compact-records keys three (omega arith, (omega arith, tt)) (omega arith)

insert_record-new_slot_example :
    let r = insert_record keys three (6 ∷ 7 ∷ []) in
    (r.1 ≡ true)
    × (length (r.0).bytes ≡ (r.0).header.free_space_offset)
    × ((r.0).header.free_space_size + (2 + slot_size) ≡ 100)
    × ((r.0).slot_directory ≡ three.slot_directory ++ new_slot keys three (6 ∷ 7 ∷ []) ∷ [])
    × (slice (r.0).bytes 5 2 ≡ some (6 ∷ 7 ∷ []))
insert_record-new_slot_example =
    insert_record-new_slot keys three (6 ∷ 7 ∷ []) refl (omega arith) (omega arith)
