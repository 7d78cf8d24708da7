-- ===== src/Wal/Redone.antt =====
-- replay(from_lsn, handlers) of src/wal.cpp on the file that a history of log calls has written.
use custom_database.Base.{
  ℕ, zero, suc, ◌+◌, ◌<◌, ◌≡◌, refl, ap, ◌∙◌, true, List, [], ◌∷◌, ◌++◌, Option, none, some, arith,
  ltb, leb, length, length-append, length-drop, take, drop, if◌then◌else◌, All,
}
use custom_database.Wal.{
  Layout, RecordHeader, RecordType, DataRecord, WalManager, full_data, data_record, plain_header,
  u32_mod, u64_mod, open_wal, sync,
}
use custom_database.Wal.Replay.{Seen, track, track_checkpoint, skip_data, skip_record, set_counters}
use custom_database.Wal.Buffer.{file-sync}
use custom_database.Wal.Redo.{
  RedoHandlers, Reader, redo, redo_data, redo_record, redo_loop, replay_redo,
}
use custom_database.Wal.Records.{IsRecord, length-IsRecord, plain-IsRecord, data-IsRecord}
use custom_database.Wal.Journal.{Call, lsns, ids, run, entry, journal, log-run}
use custom_database.Wal.Restore.{Fits}
use custom_database.Wal.RedoRecords.{redo_data-body, redo_loop-record}

module _ {K S : Type 0} (ℒ : Layout K) (ρ : Reader K) (from_lsn : ℕ) (hs : RedoHandlers K S) where
  -- What the handlers are given for a data record that was logged: its page id; a key read from the
  -- bytes of the record's object behind the page id; and all the bytes after that, those of the
  -- object first, then the logged old and new data.
  abbrev pub redone_data : ℕ → RecordType → ℕ → ℕ → ℕ → K → List ℕ → List ℕ → S → S
  redone_data now type txn_id lsn page_id key old_data new_data s =
      let object =
        drop ℒ.header_size
          (ℒ.data_bytes (full_data ℒ now type txn_id lsn page_id key old_data new_data)) in
      if leb from_lsn lsn
      then redo hs type page_id (ρ.read_key (take ℒ.key_size (drop 2 object)))
          (drop (2 + ℒ.key_size) object ++ (old_data ++ new_data)) s
      else s

  abbrev pub redone_call : ℕ → ℕ × Call K → S → S
  redone_call lsn (now, Call.inserts t p k bytes) s =
      redone_data now RecordType.insert t lsn p k [] bytes s
  redone_call lsn (now, Call.deletes t p k old) s =
      redone_data now RecordType.delete t lsn p k old [] s
  redone_call lsn (now, Call.updates t p k old bytes) s =
      redone_data now RecordType.update t lsn p k old bytes s
  redone_call lsn (now, c) s = s

  -- The calls of a history, numbered one after another, in their order.
  abbrev pub redone : ℕ → List (ℕ × Call K) → S → S
  redone lsn [] s = s
  redone lsn (c ∷ cs) s = redone (lsn + lsns c) cs (redone_call lsn c s)

  -- The page id follows the header of a data record, and is read back from its bytes.
  abbrev pub ReadsPageId : Type 0
  ReadsPageId =
      (r : DataRecord K) → ρ.read_page_id (take 2 (drop ℒ.header_size (ℒ.data_bytes r))) ≡ r.page_id

  redo_data-logged :
      ReadsPageId
      → (now : ℕ) (type : RecordType) (txn_id lsn page_id : ℕ) (key : K)
      → (old_data new_data rest : List ℕ) (s : S)
      → let r = full_data ℒ now type txn_id lsn page_id key old_data new_data in
        let body = drop ℒ.header_size (ℒ.data_bytes r) ++ (old_data ++ new_data) in
        redo_data ℒ ρ from_lsn hs r.header (length body) (body ++ rest) s
        ≡ (rest, redone_data now type txn_id lsn page_id key old_data new_data s)
  unfolding full_data
  redo_data-logged reads now type txn_id lsn page_id key old_data new_data rest s =
      let r = full_data ℒ now type txn_id lsn page_id key old_data new_data in
      let object = drop ℒ.header_size (ℒ.data_bytes r) in
      redo_data-body ℒ ρ from_lsn hs r.header object (old_data ++ new_data) rest s (
        omega (
          arith,
          length-drop ℒ.header_size (ℒ.data_bytes r),
          ℒ.length-data_bytes r,
          ℒ.data_size_le,
        ))
      ∙ ap
          (λ (p : ℕ). (
            rest,
            if leb from_lsn lsn
                then redo hs type p (ρ.read_key (take ℒ.key_size (drop 2 object)))
                    (drop (2 + ℒ.key_size) object ++ (old_data ++ new_data)) s
                else s,
          ))
          (reads r)

  -- The loop has read the bytes, stands before `rest`, and has the state `s'`.
  record Redoes (rounds : ℕ) (bytes rest : List ℕ) (seen : Seen) (s s' : S) : Type 0 where
    seen' : Seen
    left : ℕ
    loop_is :
        redo_loop ℒ ρ from_lsn hs rounds (bytes ++ rest) seen s
        ≡ redo_loop ℒ ρ from_lsn hs left rest seen' s'
    enough : length rest < left

  record-Redoes :
      (rounds : ℕ) (header : RecordHeader) (body bytes rest : List ℕ) (seen : Seen) (s s' : S)
      → length (bytes ++ rest) < rounds
      → IsRecord ℒ header body bytes
      → redo_record ℒ ρ from_lsn hs header.type header (length body) (body ++ rest) s ≡ (rest, s')
      → Redoes rounds bytes rest seen s s'
  record-Redoes zero header body bytes rest seen s s' long r done = absurd (omega arith)
  record-Redoes (suc rounds) header body bytes rest seen s s' long r done = record {
    seen' = track_checkpoint header.type header.lsn (track header seen);
    left = rounds;
    loop_is = redo_loop-record ℒ ρ from_lsn hs rounds header body bytes rest seen s s' r done;
    enough =
        omega (
          arith,
          length-append bytes rest,
          length-IsRecord ℒ header body bytes r,
          ℒ.header_size_pos,
        );
  }

  module _ (reads : ReadsPageId) where
    data-Redoes :
        (now : ℕ) (type : RecordType) (txn_id lsn page_id : ℕ) (key : K)
        → (old_data new_data : List ℕ) (rounds : ℕ) (rest : List ℕ) (seen : Seen) (s : S)
        → ((n : ℕ) (b : List ℕ) → skip_record ℒ type n b ≡ skip_data ℒ n b)
        → ((h : RecordHeader) (n : ℕ) (b : List ℕ)
            → redo_record ℒ ρ from_lsn hs type h n b s ≡ redo_data ℒ ρ from_lsn hs h n b s)
        → ℒ.data_size + length old_data + length new_data < u32_mod
        → let bytes = data_record ℒ now type txn_id lsn page_id key old_data new_data in
          length (bytes ++ rest) < rounds
          → Redoes rounds bytes rest seen s
              (redone_data now type txn_id lsn page_id key old_data new_data s)
    unfolding full_data
    data-Redoes now type txn_id lsn page_id key old_data new_data rounds rest seen s skips same fits
          long =
        let r = full_data ℒ now type txn_id lsn page_id key old_data new_data in
        let body = drop ℒ.header_size (ℒ.data_bytes r) ++ (old_data ++ new_data) in
        record-Redoes rounds r.header body _ rest seen s _ long
          (data-IsRecord ℒ now type txn_id lsn page_id key old_data new_data skips fits)
          (same r.header (length body) (body ++ rest)
            ∙ redo_data-logged reads now type txn_id lsn page_id key old_data new_data rest s)

    entry-Redoes :
        (c : ℕ × Call K) (lsn txn rounds : ℕ) (rest : List ℕ) (seen : Seen) (s : S)
        → Fits ℒ c
        → length (entry ℒ lsn txn c ++ rest) < rounds
        → Redoes rounds (entry ℒ lsn txn c) rest seen s (redone_call lsn c s)
    unfolding entry redo_record plain_header skip_record
    entry-Redoes (now, Call.begins) lsn txn rounds rest seen s fits long = record {
      seen' = seen;
      left = rounds;
      loop_is = refl;
      enough = long;
    }
    entry-Redoes (now, Call.syncs) lsn txn rounds rest seen s fits long = record {
      seen' = seen;
      left = rounds;
      loop_is = refl;
      enough = long;
    }
    entry-Redoes (now, Call.commits t) lsn txn rounds rest seen s fits long =
        record-Redoes rounds (plain_header ℒ now RecordType.commit t lsn) [] _ rest seen s s long
          (plain-IsRecord ℒ now RecordType.commit t lsn (λ n r. refl)) refl
    entry-Redoes (now, Call.aborts t) lsn txn rounds rest seen s fits long =
        record-Redoes rounds (plain_header ℒ now RecordType.abort t lsn) [] _ rest seen s s long
          (plain-IsRecord ℒ now RecordType.abort t lsn (λ n r. refl)) refl
    entry-Redoes (now, Call.checkpoints) lsn txn rounds rest seen s fits long =
        record-Redoes rounds (plain_header ℒ now RecordType.checkpoint txn lsn) [] _ rest seen s s
          long (plain-IsRecord ℒ now RecordType.checkpoint txn lsn (λ n r. refl)) refl
    entry-Redoes (now, Call.inserts t p k bytes) lsn txn rounds rest seen s fits long =
        data-Redoes now RecordType.insert t lsn p k [] bytes rounds rest seen s (λ n r. refl)
          (λ h n b. refl) (omega (arith, fits)) long
    entry-Redoes (now, Call.deletes t p k old) lsn txn rounds rest seen s fits long =
        data-Redoes now RecordType.delete t lsn p k old [] rounds rest seen s (λ n r. refl)
          (λ h n b. refl) (omega (arith, fits)) long
    entry-Redoes (now, Call.updates t p k old bytes) lsn txn rounds rest seen s fits long =
        data-Redoes now RecordType.update t lsn p k old bytes rounds rest seen s (λ n r. refl)
          (λ h n b. refl) (omega (arith, fits)) long

    redo_loop-nil :
        (rounds : ℕ) (seen : Seen) (s : S)
        → 0 < rounds
        → redo_loop ℒ ρ from_lsn hs rounds [] seen s ≡ some (seen, s)
    unfolding redo_loop
    redo_loop-nil zero seen s h = absurd (omega arith)
    redo_loop-nil (suc rounds) seen s h =
        let short : ltb 0 ℒ.header_size ≡ true = ground (arith, ℒ.header_size_pos) in rw (short)

    redo_loop-journal :
        (cs : List (ℕ × Call K)) (lsn txn rounds : ℕ) (seen : Seen) (s : S)
        → All (Fits ℒ) cs
        → length (journal ℒ lsn txn cs) < rounds
        → (seen' : Seen) × (redo_loop ℒ ρ from_lsn hs rounds (journal ℒ lsn txn cs) seen s
            ≡ some (seen', redone lsn cs s))
    unfolding journal
    redo_loop-journal [] lsn txn rounds seen s fits long = (seen, redo_loop-nil rounds seen s long)
    redo_loop-journal (c ∷ cs) lsn txn rounds seen s fits long =
        let rest = journal ℒ (lsn + lsns c) (txn + ids c) cs in
        let r = entry-Redoes c lsn txn rounds rest seen s fits.0 long in
        let (seen', e) =
          redo_loop-journal cs (lsn + lsns c) (txn + ids c) r.left r.seen' (redone_call lsn c s)
            fits.1 r.enough in
        (seen', r.loop_is ∙ e)

    -- A log that is opened on an empty file, used for any history of calls and synced leaves a file
    -- from which the replay with handlers of a newly opened log gives each handler that is set the
    -- data records numbered from `from_lsn` on, in the order of the calls: with the logged page id,
    -- a key read from the bytes behind it, and, where the logged data is expected, first the rest of
    -- the bytes of the record's object and then that data; for as long as the 64-bit counters and
    -- the 32-bit record sizes do not wrap, and where the page id directly follows the header.
    pub replay_redo-run :
        (cs : List (ℕ × Call K)) (limit limit' : ℕ) (s : S)
        → All (Fits ℒ) cs
        → 1 + length cs < u64_mod
        → let w = sync (run ℒ (open_wal [] limit) cs) in
          (w' : WalManager) × (replay_redo ℒ ρ from_lsn hs (open_wal w.wal_file limit') s
            ≡ some (w', redone 1 cs s))
    unfolding replay_redo open_wal sync
    replay_redo-run cs limit limit' s fits room =
        let w₀ = open_wal [] limit in
        let w = run ℒ w₀ cs in
        let file = (sync w).wal_file in
        let fresh = open_wal file limit' in
        let s₀ : Seen = record { max_lsn = 0; max_txn = 0; last_ckpt = 0 } in
        let written : file ≡ journal ℒ 1 1 cs = file-sync w ∙ log-run ℒ w₀ cs room room in
        let (seen, e) =
          redo_loop-journal cs 1 1 (suc (length (journal ℒ 1 1 cs))) s₀ s fits (omega arith) in
        (
          set_counters ℒ from_lsn fresh seen,
          ap
              (λ (o : Option (Seen × S)). elim o [
                | none ↦ none
                | some r ↦ some (set_counters ℒ from_lsn fresh r.0, r.1)
              ])
              (ap (λ f. redo_loop ℒ ρ from_lsn hs (suc (length f)) f s₀ s) written ∙ e),
        )
