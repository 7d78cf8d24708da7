-- ===== src/Page/Compact.antt =====
-- What the compaction of src/page_manager.cpp, deleteRecord(page), keeps.
use mathlib.Core.List.{append-nil, append_assoc}
use mathlib.Core.Path.{ap₂}
use custom_database.Base.{
  ℕ, ◌+◌, ◌%◌, ◌≤◌, ◌<◌, ◌≡◌, refl, sym, ap, subst, ◌∙◌, true, false, List, [], ◌∷◌, ◌++◌, map,
  Option, none, some, arith, length, take, drop, length-append, length-take, length-drop,
  if◌then◌else◌, All, Bool-cases, inl, inr,
}
use custom_database.Page.{
  KeyType, Page, SlotEntry, Compaction, u16_mod, slice, drop_slot, keep_slot, compact_slots,
  after_compaction, compact, update_content_hash,
}
use custom_database.Page.Records.{slice-appended, slice-stable}

-- The slots that are not marked deleted.
abbrev pub live : List SlotEntry → List SlotEntry
live [] = []
live (s ∷ ss) = let rest = live ss in if s.is_deleted then rest else s ∷ rest

abbrev pub total : List SlotEntry → ℕ
total [] = 0
total (s ∷ ss) = s.len + total ss

-- The records of some slots.
abbrev pub records : List ℕ → List SlotEntry → List (Option (List ℕ))
records bytes ss = map (λ s. slice bytes s.offset s.len) ss

abbrev pub InPage : List ℕ → List SlotEntry → Type 0
InPage bytes ss = All (λ s. s.offset + s.len ≤ length bytes) ss

-- What the loop adds to what it has: some bytes, and slots that hold the live records.
record Added (bytes : List ℕ) (ss : List SlotEntry) (c c' : Compaction) : Type 0 where
  new_bytes : List ℕ
  new_slots : List SlotEntry
  data_eq : c'.new_data ≡ c.new_data ++ new_bytes
  slots_eq : c'.new_directory ≡ c.new_directory ++ new_slots
  same : records c'.new_data new_slots ≡ records bytes (live ss)

compact_slots-kept :
    (bytes rec : List ℕ) (s : SlotEntry) (ss : List SlotEntry) (c : Compaction)
    → s.is_deleted ≡ false
    → slice bytes s.offset s.len ≡ some rec
    → compact_slots bytes (s ∷ ss) c ≡ compact_slots bytes ss (keep_slot s rec c)
unfolding compact_slots
compact_slots-kept bytes rec s ss c kept old =
    let next : Option (List ℕ) → Option Compaction =
      λ o. elim o [ none ↦ none | some r ↦ compact_slots bytes ss (keep_slot s r c) ] in
    ap
      (λ b. if b then compact_slots bytes ss (drop_slot s c) else next (slice bytes s.offset s.len))
      kept
    ∙ ap next old

compact_slots-Added :
    (bytes : List ℕ) (ss : List SlotEntry) (c : Compaction)
    → InPage bytes (live ss)
    → length c.new_data + total (live ss) < u16_mod
    → (c' : Compaction) × (compact_slots bytes ss c ≡ some c') × Added bytes ss c c'
unfolding compact_slots drop_slot keep_slot
compact_slots-Added bytes [] c h room = (
  c,
  refl,
  record {
    new_bytes = [];
    new_slots = [];
    data_eq = sym (append-nil c.new_data);
    slots_eq = sym (append-nil c.new_directory);
    same = refl;
  },
)
compact_slots-Added bytes (s ∷ ss) c h room = elim (Bool-cases s.is_deleted) [
  | inl gone ↦
      let alive : live (s ∷ ss) ≡ live ss = rw (gone) in
      let (c', run, a) =
        compact_slots-Added bytes ss (drop_slot s c) (subst (InPage bytes) alive h)
          (omega (arith, room, ap total alive)) in
      (
        c',
        rw (compact_slots, gone) run,
        record {
          new_bytes = a.new_bytes;
          new_slots = a.new_slots;
          data_eq = a.data_eq;
          slots_eq = a.slots_eq;
          same = a.same ∙ ap (records bytes) (sym alive);
        },
      )
  | inr kept ↦
      let alive : live (s ∷ ss) ≡ s ∷ live ss = rw (kept) in
      let inside = subst (InPage bytes) alive h in
      let rec = take s.len (drop s.offset bytes) in
      let size : length rec ≡ s.len =
        omega
          (arith, inside.0, length-take s.len (drop s.offset bytes), length-drop s.offset bytes) in
      let old : slice bytes s.offset s.len ≡ some rec = unfold slice in ground (arith, inside.0) in
      let grown = length-append c.new_data rec in
      let (c', run, a) =
        compact_slots-Added bytes ss (keep_slot s rec c) inside.1
          (omega (arith, room, ap total alive, grown, size)) in
      let moved : SlotEntry = record s { offset = length c.new_data % u16_mod } in
      let at : length c.new_data ≡ length c.new_data % u16_mod = omega (arith, room) in
      let found : slice c'.new_data moved.offset s.len ≡ some rec =
        ap (λ d. slice d moved.offset s.len) a.data_eq
        ∙ slice-stable (c.new_data ++ rec) a.new_bytes moved.offset s.len
            (omega (arith, grown, size, at))
        ∙ slice-appended c.new_data rec moved.offset s.len at size in
      (
        c',
        compact_slots-kept bytes rec s ss c kept old ∙ run,
        record {
          new_bytes = rec ++ a.new_bytes;
          new_slots = moved ∷ a.new_slots;
          data_eq = a.data_eq ∙ append_assoc c.new_data rec a.new_bytes;
          slots_eq = a.slots_eq ∙ append_assoc c.new_directory (moved ∷ []) a.new_slots;
          same = ap₂ (◌∷◌) (found ∙ sym old) a.same ∙ ap (records bytes) (sym alive);
        },
      )
]

-- The compaction of a page whose live slots lie within its bytes and hold less than 65536 bytes
-- together: it returns true, and the records of the new slots are those of the live slots, in their
-- order. The free space still begins where it began before.
pub compact-records :
    {K : Type 0} (κ : KeyType K) (p : Page K)
    → InPage p.bytes (live p.slot_directory)
    → total (live p.slot_directory) < u16_mod
    → (p' : Page K) × (compact κ p ≡ some (p', true))
      × (records p'.bytes p'.slot_directory ≡ records p.bytes (live p.slot_directory))
      × (p'.header.free_space_offset ≡ p.header.free_space_offset)
unfolding compact after_compaction update_content_hash
compact-records κ p h room =
    let c : Compaction = record {
      num_slots = p.header.num_slots;
      free_space_size = p.header.free_space_size;
      new_data = [];
      new_directory = [];
    } in
    let (c', run, a) = compact_slots-Added p.bytes p.slot_directory c h (omega (arith, room)) in
    (after_compaction κ p c', rw (compact, run), ap (records c'.new_data) a.slots_eq ∙ a.same, refl)
