-- ===== src/Page/Records.antt =====
-- What insertRecord of src/page_manager.cpp writes, and where it is found again.
use custom_database.Base.{
  ℕ, zero, suc, ◌+◌, ◌%◌, ◌≤◌, ◌<◌, ◌≡◌, refl, ap, ◌∙◌, true, false, List, [], ◌∷◌, ◌++◌, some,
  arith, leb, ltb, length, take, drop, take-append, take_all, drop-append_length, length-append,
  length-drop, Bool-cases, inl, inr,
}
use custom_database.Page.{
  KeyType, Page, SlotEntry, u16_mod, slot_size, slice, update_content_hash, add_record,
  insert_record,
}

-- A slice behind the end of the old bytes.
pub slice-appended :
    (xs ys : List ℕ) (o n : ℕ) → length xs ≡ o → length ys ≡ n → slice (xs ++ ys) o n ≡ some ys
unfolding slice
slice-appended xs ys o n at size =
    let fits : leb (o + n) (length (xs ++ ys)) ≡ true = ground (arith, length-append xs ys) in
    rw (slice, fits) (ap some (ap (take n) (drop-append_length o xs ys at) ∙ take_all n ys size))

drop-append : (n : ℕ) (xs ys : List ℕ) → n ≤ length xs → drop n (xs ++ ys) ≡ drop n xs ++ ys
drop-append zero xs ys h = refl
drop-append (suc n) [] ys h = absurd (omega arith)
drop-append (suc n) (x ∷ xs) ys h = drop-append n xs ys (omega arith)

-- A slice of the old bytes.
pub slice-stable :
    (xs ys : List ℕ) (o n : ℕ) → o + n ≤ length xs → slice (xs ++ ys) o n ≡ slice xs o n
unfolding slice
slice-stable xs ys o n h =
    let before : leb (o + n) (length xs) ≡ true = ground arith in
    let after : leb (o + n) (length (xs ++ ys)) ≡ true = ground (arith, length-append xs ys) in
    rw (slice, before, after)
      (ap some (
        ap (take n) (drop-append o xs ys (omega arith))
        ∙ take-append n (drop o xs) ys (omega (arith, length-drop o xs))))

module _ {K : Type 0} (κ : KeyType K) (p : Page K) (rec : List ℕ) where
  -- The slot that the record gets.
  abbrev pub new_slot : SlotEntry
  new_slot = record {
    id = p.header.num_slots;
    offset = p.header.free_space_offset;
    len = length rec;
    is_deleted = false;
  }

  -- insertRecord, on a page whose free space begins where its bytes end and is large enough for the
  -- record and its slot, with offsets that fit 16 bits: it returns true, the free space begins where
  -- the bytes end again and is smaller by the record and its slot, and the page has one more slot,
  -- at whose offset and length the record is found.
  pub insert_record-new_slot :
      length p.bytes ≡ p.header.free_space_offset
      → length rec + slot_size ≤ p.header.free_space_size
      → p.header.free_space_offset + length rec < u16_mod
      → let r = insert_record κ p rec in
        (r.1 ≡ true)
        × (length (r.0).bytes ≡ (r.0).header.free_space_offset)
        × ((r.0).header.free_space_size + (length rec + slot_size) ≡ p.header.free_space_size)
        × ((r.0).slot_directory ≡ p.slot_directory ++ new_slot ∷ [])
        × (slice (r.0).bytes new_slot.offset new_slot.len ≡ some rec)
  unfolding insert_record add_record update_content_hash
  insert_record-new_slot at room small =
      let n : length rec % u16_mod ≡ length rec = omega arith in
      let fits : ltb p.header.free_space_size (length rec + slot_size) ≡ false = ground arith in
      rw (n, fits, insert_record)
        (
          refl,
          omega (arith, length-append p.bytes rec),
          omega arith,
          refl,
          slice-appended p.bytes rec p.header.free_space_offset (length rec) at refl,
        )

  -- Whether or not insertRecord has room for the record, every range of bytes that was on the page
  -- still holds the same bytes.
  pub insert_record-slice :
      (o n : ℕ)
      → o + n ≤ length p.bytes
      → slice (insert_record κ p rec).0.bytes o n ≡ slice p.bytes o n
  unfolding insert_record add_record update_content_hash
  insert_record-slice o n h =
      elim (Bool-cases (ltb p.header.free_space_size (length rec % u16_mod + slot_size))) [
        | inl e ↦ rw (insert_record, e)
        | inr e ↦ rw (insert_record, e) (slice-stable p.bytes rec o n h)
      ]
