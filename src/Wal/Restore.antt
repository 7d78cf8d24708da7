-- ===== src/Wal/Restore.antt =====
-- replay of src/wal.cpp on the file that a history of log calls has written.
use mathlib.Core.Path.{ap₂}
use custom_database.Base.{
  ℕ, zero, suc, ◌+◌, ◌<◌, ◌≡◌, refl, sym, ap, ◌∙◌, List, [], ◌∷◌, ◌++◌, Option, none, some, by_test,
  arith, ltb, length, length-append, All,
}
use custom_database.Wal.{
  open_wal, append_bytes, take_lsn, begin_transaction, sync, log_data, log_insert, log_delete,
  log_update, commit_transaction, abort_transaction, write_checkpoint, Layout, RecordHeader,
  RecordType, WalManager, u32_mod, u64_mod, plain_header, full_data,
}
use custom_database.Wal.Replay.{
  Seen, track, track_checkpoint, skip_record, replay_loop, set_counters, replay,
}
use custom_database.Wal.Buffer.{lsn-flush_buffer, last-flush_buffer, last-flush_if_full, file-sync}
use custom_database.Wal.Journal.{
  Call, lsns, ids, step, run, entry, journal, log-run, counters-step, lsns-le, ids-le,
}
use custom_database.Wal.Records.{
  IsRecord, length-IsRecord, replay_loop-record, plain-IsRecord, data-IsRecord,
}

max-track_checkpoint :
    (type : RecordType) (lsn : ℕ) (s : Seen) → (track_checkpoint type lsn s).max_lsn ≡ s.max_lsn
unfolding track_checkpoint
max-track_checkpoint RecordType.insert lsn s = refl
max-track_checkpoint RecordType.delete lsn s = refl
max-track_checkpoint RecordType.update lsn s = refl
max-track_checkpoint RecordType.checkpoint lsn s = refl
max-track_checkpoint RecordType.commit lsn s = refl
max-track_checkpoint RecordType.abort lsn s = refl
max-track_checkpoint (RecordType.unknown c) lsn s = refl

module _ {K : Type 0} (ℒ : Layout K) where
  -- A data record of the call has a size of 32 bits.
  abbrev pub Fits : ℕ × Call K → Type 0
  Fits (now, Call.inserts t p k bytes) = ℒ.data_size + length bytes < u32_mod
  Fits (now, Call.deletes t p k old) = ℒ.data_size + length old < u32_mod
  Fits (now, Call.updates t p k old bytes) = ℒ.data_size + length old + length bytes < u32_mod
  Fits (now, c) = Unit

  -- What replay has seen agrees with the counters of this log.
  record Agrees (w : WalManager) (s : Seen) : Type 0 where
    max_is : s.max_lsn + 1 ≡ w.next_lsn
    last_is : s.last_ckpt ≡ w.last_checkpoint_lsn

  -- The loop reads the bytes, stands before `rest`, and agrees with `w`.
  record Reads (w : WalManager) (rounds : ℕ) (bytes rest : List ℕ) (s : Seen) : Type 0 where
    seen : Seen
    left : ℕ
    loop_is : replay_loop ℒ rounds (bytes ++ rest) s ≡ replay_loop ℒ left rest seen
    enough : length rest < left
    agrees : Agrees w seen

  record-Reads :
      (w : WalManager) (rounds : ℕ) (header : RecordHeader) (body bytes rest : List ℕ) (s : Seen)
      → IsRecord ℒ header body bytes
      → length (bytes ++ rest) < rounds
      → s.max_lsn < header.lsn
      → header.lsn + 1 ≡ w.next_lsn
      → (track_checkpoint header.type header.lsn (track header s)).last_ckpt ≡ w.last_checkpoint_lsn
      → Reads w rounds bytes rest s
  unfolding track
  record-Reads w zero header body bytes rest s r long more next last = absurd (omega arith)
  record-Reads w (suc rounds) header body bytes rest s r long more next last = record {
    seen = track_checkpoint header.type header.lsn (track header s);
    left = rounds;
    loop_is = replay_loop-record ℒ rounds header body bytes rest s r;
    enough =
        omega (
          arith,
          length-append bytes rest,
          length-IsRecord ℒ header body bytes r,
          ℒ.header_size_pos,
        );
    agrees = record {
      max_is = ground (arith, max-track_checkpoint header.type header.lsn (track header s));
      last_is = last;
    };
  }

  silent-Reads :
      (w : WalManager) (rounds : ℕ) (rest : List ℕ) (s : Seen)
      → length rest < rounds
      → Agrees w s
      → Reads w rounds [] rest s
  silent-Reads w rounds rest s long a = record {
    seen = s;
    left = rounds;
    loop_is = refl;
    enough = long;
    agrees = a;
  }

  step-Reads :
      (w : WalManager) (c : ℕ × Call K) (rounds : ℕ) (rest : List ℕ) (s : Seen)
      → Fits c
      → w.next_lsn + 1 < u64_mod
      → w.next_transaction_id + 1 < u64_mod
      → Agrees w s
      → length (entry ℒ w.next_lsn w.next_transaction_id c ++ rest) < rounds
      → Reads (step ℒ w c) rounds (entry ℒ w.next_lsn w.next_transaction_id c) rest s
  unfolding step entry begin_transaction commit_transaction abort_transaction log_insert log_delete
      log_update log_data sync write_checkpoint take_lsn append_bytes lsns plain_header full_data
      track track_checkpoint skip_record
  step-Reads w (now, Call.begins) rounds rest s fits room ids_room a long =
      silent-Reads _ rounds rest s long (record { max_is = a.max_is; last_is = a.last_is })
  step-Reads w (now, Call.commits t) rounds rest s fits room ids_room a long =
      record-Reads _ rounds (plain_header ℒ now RecordType.commit t w.next_lsn) _ _ rest s
        (plain-IsRecord ℒ now RecordType.commit t w.next_lsn (λ n r. refl)) long
        (omega (arith, a.max_is))
        (omega (arith, (counters-step ℒ w (now, Call.commits t) room ids_room).0))
        (a.last_is ∙ sym (last-flush_if_full _) ∙ sym (last-flush_buffer _))
  step-Reads w (now, Call.aborts t) rounds rest s fits room ids_room a long =
      record-Reads _ rounds (plain_header ℒ now RecordType.abort t w.next_lsn) _ _ rest s
        (plain-IsRecord ℒ now RecordType.abort t w.next_lsn (λ n r. refl)) long
        (omega (arith, a.max_is))
        (omega (arith, (counters-step ℒ w (now, Call.aborts t) room ids_room).0)) a.last_is
  step-Reads w (now, Call.inserts t p k bytes) rounds rest s fits room ids_room a long =
      record-Reads _ rounds (full_data ℒ now RecordType.insert t w.next_lsn p k [] bytes).header _ _
        rest s
        (data-IsRecord ℒ now RecordType.insert t w.next_lsn p k [] bytes (λ n r. refl)
          (omega (arith, fits)))
        long (omega (arith, a.max_is))
        (omega (arith, (counters-step ℒ w (now, Call.inserts t p k bytes) room ids_room).0))
        (a.last_is ∙ sym (last-flush_if_full _))
  step-Reads w (now, Call.deletes t p k old) rounds rest s fits room ids_room a long =
      record-Reads _ rounds (full_data ℒ now RecordType.delete t w.next_lsn p k old []).header _ _
        rest s
        (data-IsRecord ℒ now RecordType.delete t w.next_lsn p k old [] (λ n r. refl)
          (omega (arith, fits)))
        long (omega (arith, a.max_is))
        (omega (arith, (counters-step ℒ w (now, Call.deletes t p k old) room ids_room).0))
        (a.last_is ∙ sym (last-flush_if_full _))
  step-Reads w (now, Call.updates t p k old bytes) rounds rest s fits room ids_room a long =
      record-Reads _ rounds (full_data ℒ now RecordType.update t w.next_lsn p k old bytes).header _
        _ rest s
        (data-IsRecord ℒ now RecordType.update t w.next_lsn p k old bytes (λ n r. refl)
          (omega (arith, fits)))
        long (omega (arith, a.max_is))
        (omega (arith, (counters-step ℒ w (now, Call.updates t p k old bytes) room ids_room).0))
        (a.last_is ∙ sym (last-flush_if_full _))
  step-Reads w (now, Call.checkpoints) rounds rest s fits room ids_room a long =
      record-Reads _ rounds
        (plain_header ℒ now RecordType.checkpoint w.next_transaction_id w.next_lsn) _ _ rest s
        (plain-IsRecord ℒ now RecordType.checkpoint w.next_transaction_id w.next_lsn (λ n r. refl))
        long (omega (arith, a.max_is))
        (omega (arith, (counters-step ℒ w (now, Call.checkpoints) room ids_room).0))
        (sym (lsn-flush_buffer w))
  step-Reads w (now, Call.syncs) rounds rest s fits room ids_room a long =
      silent-Reads _ rounds rest s long (record {
        max_is = omega (arith, a.max_is, lsn-flush_buffer w);
        last_is = a.last_is ∙ sym (last-flush_buffer w);
      })

  -- What replay has seen at the end of the journal.
  record Ends (w : WalManager) (rounds : ℕ) (file : List ℕ) (s : Seen) : Type 0 where
    seen : Seen
    loop_is : replay_loop ℒ rounds file s ≡ some seen
    agrees : Agrees w seen
    below : w.next_lsn < u64_mod

  replay_loop-nil : (rounds : ℕ) (s : Seen) → 0 < rounds → replay_loop ℒ rounds [] s ≡ some s
  unfolding replay_loop
  replay_loop-nil zero s h = absurd (omega arith)
  replay_loop-nil (suc rounds) s h =
      by_test (λ o. o ≡ some s) (ltb 0 ℒ.header_size) (λ e. refl)
        (λ e. absurd (ground (arith, ℒ.header_size_pos)))

  journal-Ends :
      (cs : List (ℕ × Call K)) (w : WalManager) (rounds : ℕ) (s : Seen)
      → All Fits cs
      → w.next_lsn + length cs < u64_mod
      → w.next_transaction_id + length cs < u64_mod
      → Agrees w s
      → length (journal ℒ w.next_lsn w.next_transaction_id cs) < rounds
      → Ends (run ℒ w cs) rounds (journal ℒ w.next_lsn w.next_transaction_id cs) s
  unfolding journal run
  journal-Ends [] w rounds s fits room ids_room a long = record {
    seen = s;
    loop_is = replay_loop-nil rounds s long;
    agrees = a;
    below = omega arith;
  }
  journal-Ends (c ∷ cs) w rounds s fits room ids_room a long =
      let w' = step ℒ w c in
      let (l, i) = counters-step ℒ w c (omega arith) (omega arith) in
      let rest = journal ℒ w'.next_lsn w'.next_transaction_id cs in
      let same : journal ℒ (w.next_lsn + lsns c) (w.next_transaction_id + ids c) cs ≡ rest =
        ap₂ (λ a b. journal ℒ a b cs) (sym l) (sym i) in
      let read = step-Reads w c rounds rest s fits.0 (omega arith) (omega arith) a (
        omega (
          arith,
          ap length same,
          length-append (entry ℒ w.next_lsn w.next_transaction_id c) rest,
          length-append (entry ℒ w.next_lsn w.next_transaction_id c)
              (journal ℒ (w.next_lsn + lsns c) (w.next_transaction_id + ids c) cs),
        )) in
      let end =
        journal-Ends cs (step ℒ w c) read.left read.seen fits.1 (omega (arith, lsns-le c))
          (omega (arith, ids-le c)) read.agrees read.enough in
      record {
        seen = end.seen;
        loop_is =
            ap (λ j. replay_loop ℒ rounds (entry ℒ w.next_lsn w.next_transaction_id c ++ j) s) same
            ∙ read.loop_is
            ∙ end.loop_is;
        agrees = end.agrees;
        below = end.below;
      }

  -- A log that is opened on an empty file, used for any history of calls and synced leaves a file
  -- from which the replay of a newly opened log restores the next number and the number of the last
  -- checkpoint, and keeps the file; for as long as the 64-bit counters and the 32-bit record sizes
  -- do not wrap.
  pub replay-run :
      (cs : List (ℕ × Call K)) (limit limit' : ℕ)
      → All Fits cs
      → 1 + length cs < u64_mod
      → let w = sync (run ℒ (open_wal [] limit) cs) in
        (w' : WalManager) × (replay ℒ 0 (open_wal w.wal_file limit') ≡ some w')
        × (w'.next_lsn ≡ w.next_lsn)
        × (w'.last_checkpoint_lsn ≡ w.last_checkpoint_lsn)
        × (w'.wal_file ≡ w.wal_file)
  unfolding replay set_counters open_wal sync
  replay-run cs limit limit' fits room =
      let w₀ = open_wal [] limit in
      let w = run ℒ w₀ cs in
      let file = (sync w).wal_file in
      let fresh = open_wal file limit' in
      let s₀ : Seen = record { max_lsn = 0; max_txn = 0; last_ckpt = 0 } in
      let written : file ≡ journal ℒ 1 1 cs = file-sync w ∙ log-run ℒ w₀ cs room room in
      let end =
        journal-Ends cs w₀ (suc (length (journal ℒ 1 1 cs))) s₀ fits room room
          (record { max_is = refl; last_is = refl }) (omega arith) in
      (
        set_counters ℒ 0 fresh end.seen,
        ap (λ (o : Option Seen). elim o [ none ↦ none | some s ↦ some (set_counters ℒ 0 fresh s) ])
            (ap (λ f. replay_loop ℒ (suc (length f)) f s₀) written ∙ end.loop_is),
        ground (arith, end.agrees.max_is, end.below, lsn-flush_buffer w),
        end.agrees.last_is ∙ sym (last-flush_buffer w),
        refl,
      )
