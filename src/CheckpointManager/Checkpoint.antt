-- ===== src/CheckpointManager/Checkpoint.antt =====
-- What performCheckpoint of src/checkpoint_manager.cpp leaves in the cache, in the log and in the
-- manager.
use custom_database.Base.{ℕ, ◌+◌, ◌<◌, ◌≡◌, ◌∙◌, false, [], ◌++◌, arith, length, All}
use custom_database.Page.{KeyType, u16_mod}
use custom_database.PageCache.{get_dirty_pages}
use custom_database.PageCache.Flush.{Stored, Saved, Made, flush_all-Saved}
use custom_database.Wal.{Layout, RecordType, WalManager, sync, plain_record, write_checkpoint}
use custom_database.Wal.Buffer.{log, lsn-flush_buffer, last-flush_buffer, buffer-sync, file-sync}
use custom_database.Wal.Journal.{log-write_checkpoint}
use custom_database.CheckpointManager.{
  System, get_wal_size, interval_over, should_checkpoint, note_checkpoint, perform_checkpoint,
}

module _ {K : Type 0} (κ : KeyType K) (ℒ : Layout K) where
  lsn-write_checkpoint : (stamp : ℕ) (w : WalManager) → (write_checkpoint ℒ stamp w).1 ≡ w.next_lsn
  unfolding write_checkpoint
  lsn-write_checkpoint stamp w = lsn-flush_buffer w

  last-write_checkpoint :
      (stamp : ℕ) (w : WalManager) → (write_checkpoint ℒ stamp w).0.last_checkpoint_lsn ≡ w.next_lsn
  unfolding write_checkpoint
  last-write_checkpoint stamp w = lsn-flush_buffer w

  -- While the storage has ids left, performCheckpoint leaves no dirty page in the cache, and the
  -- storage knows the content of each page that was dirty; the buffer of the log is empty, and its
  -- file is all that was logged, then the checkpoint record; the manager and the log both note the
  -- number of that record. Right after it no checkpoint is due, if the interval is positive and the
  -- file is below the size threshold.
  pub perform_checkpoint-durable :
      (stamp now : ℕ) (s : System K)
      → Stored κ s.engine
      → s.engine.storage.next_page_id + length s.engine.cache.cache < u16_mod
      → All (Made κ s.engine) s.engine.cache.cache
      → let s' = (perform_checkpoint κ ℒ stamp now s).0 in
        (get_dirty_pages s'.engine.cache ≡ [])
        × All (Saved κ s.engine s'.engine) s.engine.cache.cache
        × (s'.wal.write_buffer ≡ [])
        × (s'.wal.wal_file
            ≡ log s.wal
              ++ plain_record ℒ stamp RecordType.checkpoint s.wal.next_transaction_id
                  s.wal.next_lsn)
        × (s'.manager.last_checkpoint_lsn ≡ s.wal.next_lsn)
        × (s'.wal.last_checkpoint_lsn ≡ s.wal.next_lsn)
        × (0 < s.manager.checkpoint_interval
            → get_wal_size s'.wal < s.manager.wal_size_threshold
            → should_checkpoint now s'.manager s'.wal ≡ false)
  unfolding sync perform_checkpoint note_checkpoint should_checkpoint interval_over
  perform_checkpoint-durable stamp now s v room made =
      let w = (write_checkpoint ℒ stamp s.wal).0 in
      let (clean, saved) = flush_all-Saved κ s.engine v room made in
      (
        clean,
        saved,
        buffer-sync w,
        file-sync w ∙ log-write_checkpoint ℒ stamp s.wal,
        lsn-write_checkpoint stamp s.wal,
        last-flush_buffer w ∙ last-write_checkpoint stamp s.wal,
        λ h k. ground (arith, h, k),
      )
