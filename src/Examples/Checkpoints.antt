-- ===== src/Examples/Checkpoints.antt =====
-- Examples of the checkpoint manager, over the full cache of the cache examples and the log of the
-- log examples.
use text.Mathlib.Text.{◌==◌ as str_eq}
use text.Mathlib.TextEquality.{eq_iff}
use custom_database.Base.{
  ℕ, ◌<◌, ◌≡◌, ◌≢◌, refl, String, true, false, [], ◌∷◌, ◌++◌, some, arith, All,
}
use custom_database.PageCache.{get_dirty_pages}
use custom_database.PageCache.Flush.{Saved}
use custom_database.Wal.{RecordType, plain_record}
use custom_database.Wal.Buffer.{log}
use custom_database.Wal.Journal.{Call}
use custom_database.CheckpointManager.{
  CheckpointManager, System, new_manager, get_wal_size, should_checkpoint, perform_checkpoint,
}
use custom_database.CheckpointManager.Triggers.{
  logs, performs, checkpoint_job, cleanup_job, run, should_checkpoint-forever,
}
use custom_database.CheckpointManager.Checkpoint.{perform_checkpoint-durable}
use custom_database.Examples.{keys, fields}
use custom_database.Examples.Storage.{empty-IsValid}
use custom_database.Examples.Cache.{full_cache, full_engine, ids_left}
use custom_database.Examples.Log.{opened}
use custom_database.Examples.Jobs.{idle}

-- A checkpoint every 50 milliseconds, or when the file has 3 bytes.
abbrev manager : CheckpointManager
manager = new_manager 0 50 3 100

abbrev system : System ℕ
system = record { manager = manager; engine = full_engine; wal = opened; job_scheduler = some idle }

should_checkpoint-forever_example :
    let s =
      run keys fields system
        (logs (7, Call.commits 1) ∷ performs 8 8 ∷ checkpoint_job 9 9 ∷ cleanup_job ∷ []) in
    should_checkpoint 10 s.manager s.wal ≡ true
unfolding new_manager get_wal_size
should_checkpoint-forever_example =
    should_checkpoint-forever keys fields system
      (logs (7, Call.commits 1) ∷ performs 8 8 ∷ checkpoint_job 9 9 ∷ cleanup_job ∷ []) 10
      (omega arith)

perform_checkpoint-durable_example :
    let s' = (perform_checkpoint keys fields 8 9 system).0 in
    (get_dirty_pages s'.engine.cache ≡ [])
    × All (Saved keys full_engine s'.engine) full_cache.cache
    × (s'.wal.write_buffer ≡ [])
    × (s'.wal.wal_file ≡ log opened ++ plain_record fields 8 RecordType.checkpoint 1 1)
    × (s'.manager.last_checkpoint_lsn ≡ 1)
    × (s'.wal.last_checkpoint_lsn ≡ 1)
    × (0 < manager.checkpoint_interval
        → get_wal_size s'.wal < manager.wal_size_threshold
        → should_checkpoint 9 s'.manager s'.wal ≡ false)
perform_checkpoint-durable_example =
    perform_checkpoint-durable keys fields 8 9 system empty-IsValid ids_left (omega arith, tt)

-- The names of the jobs, and another name.
differ : (s t : String) → str_eq s t ≡ false → s ≢ t
differ s t h p = absurd (cc (h, (eq_iff s t).1 p))

abbrev other : String
other = "backup"

checkpoint-other : manager.checkpoint_job_name ≢ other
unfolding new_manager
checkpoint-other = differ manager.checkpoint_job_name other refl
