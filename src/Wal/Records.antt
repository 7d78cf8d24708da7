-- ===== src/Wal/Records.antt =====
-- How replay of src/wal.cpp reads one record that the log has written.
use mathlib.Core.List.{append-nil, append_assoc}
use custom_database.Base.{
  ℕ, suc, ◌+◌, ◌-◌, ◌≤◌, ◌<◌, ◌≡◌, refl, sym, ap, ◌∙◌, Bool, true, false, List, [], ◌++◌, some,
  arith, ltb, leb, if◌then◌else◌, length, length-append, take, drop, take-append, take_all,
  take-append-drop, drop-append_length, drop-drop, length-drop,
}
use custom_database.Wal.{
  Layout, RecordHeader, RecordType, u32_mod, plain_header, plain_record, full_data, data_record,
}
use custom_database.Wal.Replay.{Seen, track, track_checkpoint, skip_data, skip_record, replay_loop}

module _ {K : Type 0} (ℒ : Layout K) where
  -- Bytes that replay reads as one record with this header, and this body behind it.
  pub record IsRecord (header : RecordHeader) (body bytes : List ℕ) : Type 0 where
    pub bytes_are : bytes ≡ ℒ.header_bytes header ++ body
    pub size_is : header.record_size ≡ ℒ.header_size + length body
    pub skipped : (rest : List ℕ) → skip_record ℒ header.type (length body) (body ++ rest) ≡ rest

  pub file-IsRecord :
      (header : RecordHeader) (body bytes rest : List ℕ) (r : IsRecord header body bytes)
      → bytes ++ rest ≡ ℒ.header_bytes header ++ (body ++ rest)
  file-IsRecord header body bytes rest r =
      ap (λ b. b ++ rest) r.bytes_are ∙ append_assoc (ℒ.header_bytes header) body rest

  pub head-IsRecord :
      (header : RecordHeader) (body bytes rest : List ℕ)
      → IsRecord header body bytes
      → ℒ.read_header (take ℒ.header_size (bytes ++ rest)) ≡ header
  head-IsRecord header body bytes rest r =
      let n = ℒ.length-header_bytes header in
      ap (λ f. ℒ.read_header (take ℒ.header_size f)) (file-IsRecord header body bytes rest r)
      ∙ ap ℒ.read_header (
          take-append ℒ.header_size (ℒ.header_bytes header) (body ++ rest) (omega (arith, n))
          ∙ take_all ℒ.header_size (ℒ.header_bytes header) n)
      ∙ ℒ.read-header_bytes header

  pub tail-IsRecord :
      (header : RecordHeader) (body bytes rest : List ℕ) (r : IsRecord header body bytes)
      → drop ℒ.header_size (bytes ++ rest) ≡ body ++ rest
  tail-IsRecord header body bytes rest r =
      ap (drop ℒ.header_size) (file-IsRecord header body bytes rest r)
      ∙ drop-append_length ℒ.header_size (ℒ.header_bytes header) (body ++ rest)
          (ℒ.length-header_bytes header)

  pub length-IsRecord :
      (header : RecordHeader) (body bytes : List ℕ)
      → IsRecord header body bytes
      → ℒ.header_size ≤ length bytes
  length-IsRecord header body bytes r = omega (
    arith,
    ap length r.bytes_are,
    length-append (ℒ.header_bytes header) body,
    ℒ.length-header_bytes header,
  )

  pub replay_loop-record :
      (rounds : ℕ) (header : RecordHeader) (body bytes rest : List ℕ) (s : Seen)
      → IsRecord header body bytes
      → replay_loop ℒ (suc rounds) (bytes ++ rest) s
        ≡ replay_loop ℒ rounds rest (track_checkpoint header.type header.lsn (track header s))
  unfolding replay_loop
  replay_loop-record rounds header body bytes rest s r =
      let n = ℒ.header_size in
      let next = λ (h : RecordHeader) (t : List ℕ).
        replay_loop ℒ rounds (skip_record ℒ h.type (h.record_size - n) t)
          (track_checkpoint h.type h.lsn (track h s)) in
      let go = λ (b : Bool) (h : RecordHeader) (t : List ℕ).
        if b then some s else if ltb h.record_size n then some (track h s) else next h t in
      let long : ltb (length (bytes ++ rest)) n ≡ false =
        ground (arith, length-append bytes rest, length-IsRecord header body bytes r) in
      let enough : ltb header.record_size n ≡ false = ground (arith, r.size_is) in
      let size : header.record_size - n ≡ length body = omega (arith, r.size_is) in
      ap (λ b. go b (ℒ.read_header (take n (bytes ++ rest))) (drop n (bytes ++ rest))) long
      ∙ ap (λ h. go false h (drop n (bytes ++ rest))) (head-IsRecord header body bytes rest r)
      ∙ ap (go false header) (tail-IsRecord header body bytes rest r)
      ∙ ap (λ b. if b then some (track header s) else next header (body ++ rest)) enough
      ∙ ap
          (λ m.
            replay_loop ℒ rounds (skip_record ℒ header.type m (body ++ rest))
              (track_checkpoint header.type header.lsn (track header s)))
          size
      ∙ ap (λ t. replay_loop ℒ rounds t (track_checkpoint header.type header.lsn (track header s)))
          (r.skipped rest)

  pub plain-IsRecord :
      (now : ℕ) (type : RecordType) (txn_id lsn : ℕ)
      → ((n : ℕ) (rest : List ℕ) → skip_record ℒ type n rest ≡ rest)
      → IsRecord (plain_header ℒ now type txn_id lsn) [] (plain_record ℒ now type txn_id lsn)
  unfolding plain_record plain_header
  plain-IsRecord now type txn_id lsn skips = record {
    bytes_are = sym (append-nil _);
    size_is = omega arith;
    skipped = λ rest. skips 0 rest;
  }

  skip_data-body :
      (body rest : List ℕ)
      → 2 + ℒ.key_size ≤ length body
      → skip_data ℒ (length body) (body ++ rest) ≡ rest
  unfolding skip_data
  skip_data-body body rest h =
      let k = 2 + ℒ.key_size in
      let long : leb k (length (body ++ rest)) ≡ true = ground (arith, length-append body rest) in
      ap
        (λ b.
          if b
          then drop (length body - k) (drop k (body ++ rest))
          else drop (length body) (body ++ rest))
        long
      ∙ drop-drop (length body - k) k (length body) (body ++ rest) (omega arith)
      ∙ drop-append_length (length body) body rest refl

  pub data-IsRecord :
      (now : ℕ) (type : RecordType) (txn_id lsn page_id : ℕ) (key : K) (old_data new_data : List ℕ)
      → ((n : ℕ) (rest : List ℕ) → skip_record ℒ type n rest ≡ skip_data ℒ n rest)
      → ℒ.data_size + length old_data + length new_data < u32_mod
      → IsRecord
          (full_data ℒ now type txn_id lsn page_id key old_data new_data).header
          (drop ℒ.header_size
              (ℒ.data_bytes (full_data ℒ now type txn_id lsn page_id key old_data new_data))
            ++ (old_data ++ new_data))
          (data_record ℒ now type txn_id lsn page_id key old_data new_data)
  unfolding data_record full_data
  data-IsRecord now type txn_id lsn page_id key old_data new_data skips h =
      let r = full_data ℒ now type txn_id lsn page_id key old_data new_data in
      let n = ℒ.header_size in
      let payload = old_data ++ new_data in
      let body = drop n (ℒ.data_bytes r) ++ payload in
      let length_body : n + length body ≡ ℒ.data_size + length old_data + length new_data = omega (
        arith,
        length-append (drop n (ℒ.data_bytes r)) payload,
        length-append old_data new_data,
        length-drop n (ℒ.data_bytes r),
        ℒ.length-data_bytes r,
        ℒ.data_size_le,
      ) in
      record {
        bytes_are =
            ap (λ b. b ++ payload)
              (sym (take-append-drop n (ℒ.data_bytes r))
                ∙ ap (λ b. b ++ drop n (ℒ.data_bytes r)) (ℒ.header_first r))
            ∙ append_assoc (ℒ.header_bytes r.header) (drop n (ℒ.data_bytes r)) payload;
        size_is = omega (arith, length_body);
        skipped = λ rest.
            skips (length body) (body ++ rest)
            ∙ skip_data-body body rest (omega (arith, length_body, ℒ.data_size_le));
      }
