-- ===== src/CheckpointManager/Triggers.antt =====
-- When src/checkpoint_manager.cpp asks for a checkpoint, and the size of the log's file.
use custom_database.Base.{
  ℕ, ◌≤◌, ◌≡◌, refl, ◌∙◌, Bool, true, List, [], ◌∷◌, arith, ltb, length-append, by_test,
}
use custom_database.Page.{KeyType}
use custom_database.Wal.{
  Layout, RecordType, WalManager, flush_buffer, flush_if_full, append_bytes, take_lsn, sync,
  begin_transaction, commit_transaction, abort_transaction, log_data, log_insert, log_delete,
  log_update, plain_record, write_checkpoint,
}
use custom_database.Wal.Journal.{Call, step}
use custom_database.CheckpointManager.{
  System, get_wal_size, truncate, should_checkpoint, perform_checkpoint, checkpoint_job_func,
  cleanup_job_func, note_checkpoint, truncate_lsn,
}

-- What happens to a manager's database: calls on the log, checkpoints, and the two recurring jobs,
-- with their times.
pub data Event (K : Type 0) : Type 0 where
  logs : ℕ × Call K → Event K
  performs : ℕ → ℕ → Event K
  checkpoint_job : ℕ → ℕ → Event K
  cleanup_job : Event K

size-flush_buffer : (w : WalManager) → get_wal_size w ≤ get_wal_size (flush_buffer w)
unfolding flush_buffer get_wal_size
size-flush_buffer w = ground (arith, length-append w.wal_file w.write_buffer)

size-flush_if_full : (w : WalManager) → get_wal_size w ≤ get_wal_size (flush_if_full w)
unfolding flush_if_full
size-flush_if_full w = ground (arith, size-flush_buffer w)

module _ {K : Type 0} (ℒ : Layout K) where
  size-logged :
      (w : WalManager) (b : List ℕ)
      → get_wal_size w ≤ get_wal_size (flush_if_full (append_bytes (take_lsn w) b))
  unfolding get_wal_size append_bytes take_lsn
  size-logged w b = size-flush_if_full (append_bytes (take_lsn w) b)

  size-write_checkpoint :
      (now : ℕ) (w : WalManager) → get_wal_size w ≤ get_wal_size (write_checkpoint ℒ now w).0
  unfolding write_checkpoint get_wal_size
  size-write_checkpoint now w =
      let w' = flush_buffer w in
      omega (
        arith,
        size-flush_buffer w,
        length-append w'.wal_file
            (plain_record ℒ now RecordType.checkpoint w'.next_transaction_id w'.next_lsn),
      )

  -- No call on the log makes its file shorter.
  size-step : (w : WalManager) (c : ℕ × Call K) → get_wal_size w ≤ get_wal_size (step ℒ w c)
  unfolding step get_wal_size begin_transaction commit_transaction abort_transaction log_insert
      log_delete log_update log_data sync take_lsn append_bytes
  size-step w (now, Call.begins) = omega arith
  size-step w (now, Call.commits t) =
      let b = plain_record ℒ now RecordType.commit t w.next_lsn in
      omega
        (arith, size-logged w b, size-flush_buffer (flush_if_full (append_bytes (take_lsn w) b)))
  size-step w (now, Call.aborts t) = omega arith
  size-step w (now, Call.inserts t p k bytes) = size-logged w _
  size-step w (now, Call.deletes t p k old) = size-logged w _
  size-step w (now, Call.updates t p k old bytes) = size-logged w _
  size-step w (now, Call.checkpoints) = size-write_checkpoint now w
  size-step w (now, Call.syncs) = size-flush_buffer w

module _ {K : Type 0} (κ : KeyType K) (ℒ : Layout K) where
  unfoldable pub happen : System K → Event K → System K
  happen s (logs c) = record s { wal = step ℒ s.wal c }
  happen s (performs stamp now) = (perform_checkpoint κ ℒ stamp now s).0
  happen s (checkpoint_job stamp now) = (checkpoint_job_func κ ℒ stamp now s).0
  happen s cleanup_job = (cleanup_job_func s).0

  unfoldable pub run : System K → List (Event K) → System K
  run s [] = s
  run s (e ∷ es) = run (happen s e) es

  -- The file is no shorter, and the threshold is the same.
  record Grows (s s' : System K) : Type 0 where
    size : get_wal_size s.wal ≤ get_wal_size s'.wal
    same : s'.manager.wal_size_threshold ≡ s.manager.wal_size_threshold

  perform-Grows : (stamp now : ℕ) (s : System K) → Grows s (perform_checkpoint κ ℒ stamp now s).0
  unfolding perform_checkpoint note_checkpoint sync
  perform-Grows stamp now s =
      let w' = (write_checkpoint ℒ stamp s.wal).0 in
      record {
        size = omega (arith, size-write_checkpoint ℒ stamp s.wal, size-flush_buffer w');
        same = refl;
      }

  happen-Grows : (s : System K) (e : Event K) → Grows s (happen s e)
  unfolding happen checkpoint_job_func cleanup_job_func truncate
  happen-Grows s (logs c) = record { size = size-step ℒ s.wal c; same = refl }
  happen-Grows s (performs stamp now) = perform-Grows stamp now s
  happen-Grows s (checkpoint_job stamp now) =
      by_test (λ (r : System K × Bool). Grows s (r.0)) (should_checkpoint now s.manager s.wal)
        (λ e. perform-Grows stamp now s) (λ e. record { size = omega arith; same = refl })
  happen-Grows s cleanup_job =
      let lsn = s.manager.last_checkpoint_lsn in
      let P = λ (r : System K × Bool). Grows s (r.0) in
      let kept : Grows s s = record { size = omega arith; same = refl } in
      by_test P (ltb 0 lsn)
        (λ e.
          by_test P (ltb 0 (truncate_lsn lsn)) (λ f. record { size = omega arith; same = refl })
            (λ f. kept))
        (λ e. kept)

  run-Grows : (s : System K) (es : List (Event K)) → Grows s (run s es)
  unfolding run
  run-Grows s [] = record { size = omega arith; same = refl }
  run-Grows s (e ∷ es) =
      let first = happen-Grows s e in
      let rest = run-Grows (happen s e) es in
      record { size = omega (arith, first.size, rest.size); same = rest.same ∙ first.same }

  -- Once the file of the log has reached the size threshold, shouldCheckpoint answers true at any
  -- time after any calls on the log, checkpoints and runs of the two recurring jobs: neither a
  -- checkpoint nor the clean-up, which calls truncate, makes the file shorter.
  pub should_checkpoint-forever :
      (s : System K) (es : List (Event K)) (now : ℕ)
      → s.manager.wal_size_threshold ≤ get_wal_size s.wal
      → should_checkpoint now (run s es).manager (run s es).wal ≡ true
  unfolding should_checkpoint
  should_checkpoint-forever s es now h = let g = run-Grows s es in ground (arith, g.size, g.same, h)
