-- ===== src/Wal/RedoRecords.antt =====
-- How replay(from_lsn, handlers) of src/wal.cpp reads one record that the log has written.
use mathlib.Core.List.{append_assoc}
use custom_database.Base.{
  ℕ, suc, ◌+◌, ◌-◌, ◌≤◌, ◌≡◌, ap, ◌∙◌, true, false, List, ◌++◌, arith, ltb, leb, length,
  length-append, length-drop, take, drop, take-append, take_all, drop-append, drop-append_length,
  if◌then◌else◌,
}
use custom_database.Wal.{Layout, RecordHeader}
use custom_database.Wal.Replay.{Seen, track, track_checkpoint}
use custom_database.Wal.Redo.{RedoHandlers, Reader, redo, redo_data, redo_record, redo_loop}
use custom_database.Wal.Records.{IsRecord, length-IsRecord, head-IsRecord, tail-IsRecord}

module _ {K S : Type 0} (ℒ : Layout K) (ρ : Reader K) (from_lsn : ℕ) (hs : RedoHandlers K S) where
  pub redo_data-body :
      (h : RecordHeader) (object payload rest : List ℕ) (s : S)
      → 2 + ℒ.key_size ≤ length object
      → redo_data ℒ ρ from_lsn hs h (length (object ++ payload)) ((object ++ payload) ++ rest) s ≡ (
        rest,
        if leb from_lsn h.lsn
            then redo hs h.type
                (ρ.read_page_id (take 2 object))
                (ρ.read_key (take ℒ.key_size (drop 2 object)))
                (drop (2 + ℒ.key_size) object ++ payload)
                s
            else s,
      )
  unfolding redo_data
  redo_data-body h object payload rest s long =
      let k = 2 + ℒ.key_size in
      let body = object ++ payload in
      let tail = drop k object ++ payload in
      let v = length body - k in
      let sizes = length-append object payload in
      let enough : leb k (length (body ++ rest)) ≡ true =
        ground (arith, length-append body rest, sizes) in
      let split : drop k (body ++ rest) ≡ tail ++ rest =
        drop-append k body rest (omega (arith, sizes))
        ∙ ap (λ b. b ++ rest) (drop-append k object payload long) in
      let size : length tail ≡ v =
        omega (arith, length-append (drop k object) payload, length-drop k object, sizes) in
      let fits : leb v (length (tail ++ rest)) ≡ true =
        ground (arith, length-append tail rest, size) in
      let page : take 2 (body ++ rest) ≡ take 2 object =
        take-append 2 body rest (omega (arith, sizes, long))
        ∙ take-append 2 object payload (omega (arith, long)) in
      let key : take ℒ.key_size (drop 2 (body ++ rest)) ≡ take ℒ.key_size (drop 2 object) =
        ap (take ℒ.key_size) (
          drop-append 2 body rest (omega (arith, sizes, long))
          ∙ ap (λ b. b ++ rest) (drop-append 2 object payload (omega (arith, long)))
          ∙ append_assoc (drop 2 object) payload rest)
        ∙ take-append ℒ.key_size (drop 2 object) (payload ++ rest)
            (omega (arith, length-drop 2 object, long)) in
      let taken : take v (tail ++ rest) ≡ tail =
        take-append v tail rest (omega (arith, size)) ∙ take_all v tail size in
      rw (enough, split, fits, page, key, taken, drop-append_length v tail rest size)

  pub redo_loop-record :
      (rounds : ℕ) (header : RecordHeader) (body bytes rest : List ℕ) (seen : Seen) (s s' : S)
      → IsRecord ℒ header body bytes
      → redo_record ℒ ρ from_lsn hs header.type header (length body) (body ++ rest) s ≡ (rest, s')
      → redo_loop ℒ ρ from_lsn hs (suc rounds) (bytes ++ rest) seen s
        ≡ redo_loop ℒ ρ from_lsn hs rounds rest
            (track_checkpoint header.type header.lsn (track header seen))
            s'
  unfolding redo_loop
  redo_loop-record rounds header body bytes rest seen s s' r done =
      let n = ℒ.header_size in
      let long : ltb (length (bytes ++ rest)) n ≡ false =
        ground (arith, length-append bytes rest, length-IsRecord ℒ header body bytes r) in
      let enough : ltb header.record_size n ≡ false = ground (arith, r.size_is) in
      let size : header.record_size - n ≡ length body = omega (arith, r.size_is) in
      rw (
        long,
        head-IsRecord ℒ header body bytes rest r,
        enough,
        tail-IsRecord ℒ header body bytes rest r,
        size,
        done,
      )
