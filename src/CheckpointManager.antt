-- ===== src/CheckpointManager.antt =====
-- include/checkpoint_manager.h and src/checkpoint_manager.cpp, with truncate and getWALSize of
-- src/wal.cpp. The manager works on a cache, a log and a scheduler that it has by pointers; the one
-- to the scheduler may be null. The functions that it gives to the scheduler have handles, which are
-- parameters here. `now` is the steady clock in milliseconds and `stamp` the clock of the log.
pub mod Triggers
pub mod Checkpoint
pub mod Jobs
pub mod Statistics
use custom_database.Base.{
  ℕ, ◌+◌, ◌-◌, ◌*◌, ◌%◌, String, Bool, true, false, List, Option, none, some, ltb, leb,
  if◌then◌else◌, length,
}
use custom_database.Page.{KeyType}
use custom_database.PageCache.{Engine, flush_all}
use custom_database.Wal.{Layout, WalManager, u64_mod, write_checkpoint, sync}
use custom_database.JobScheduler.{JobScheduler, high, normal}
use custom_database.JobScheduler.Jobs.{schedule_checkpoint}
use custom_database.JobScheduler.Recurring.{add_recurring_job, remove_recurring_job}

pub record CheckpointManager : Type 0 where
  pub checkpoint_interval : ℕ
  pub wal_size_threshold : ℕ
  pub dirty_page_threshold : ℕ
  pub last_checkpoint_lsn : ℕ
  pub last_checkpoint_time : ℕ
  pub checkpoints_completed : ℕ
  pub checkpoints_failed : ℕ
  pub checkpoint_job_name : String
  pub cleanup_job_name : String

-- The manager and what its pointers lead to.
pub record System (K : Type 0) : Type 0 where
  pub manager : CheckpointManager
  pub engine : Engine K
  pub wal : WalManager
  pub job_scheduler : Option JobScheduler

unfoldable pub new_manager : ℕ → ℕ → ℕ → ℕ → CheckpointManager
new_manager now interval wal_threshold dirty_threshold = record {
  checkpoint_interval = interval;
  wal_size_threshold = wal_threshold;
  dirty_page_threshold = dirty_threshold;
  last_checkpoint_lsn = 0;
  last_checkpoint_time = now;
  checkpoints_completed = 0;
  checkpoints_failed = 0;
  checkpoint_job_name = "checkpoint_recurring";
  cleanup_job_name = "cleanup_recurring";
}

-- getWALSize, for a file that can be opened.
unfoldable pub get_wal_size : WalManager → ℕ
get_wal_size w = length w.wal_file

-- truncate prints a message.
unfoldable pub truncate : WalManager → ℕ → WalManager
truncate w up_to_lsn = w

unfoldable pub set_wal_size_threshold : CheckpointManager → ℕ → CheckpointManager
set_wal_size_threshold m threshold = record m { wal_size_threshold = threshold }

unfoldable pub set_dirty_page_threshold : CheckpointManager → ℕ → CheckpointManager
set_dirty_page_threshold m threshold = record m { dirty_page_threshold = threshold }

-- `now - last_checkpoint_time >= checkpoint_interval`
unfoldable pub interval_over : ℕ → CheckpointManager → Bool
interval_over now m = leb (m.last_checkpoint_time + m.checkpoint_interval) now

unfoldable pub should_checkpoint : ℕ → CheckpointManager → WalManager → Bool
should_checkpoint now m w =
    if interval_over now m
    then true
    else if leb m.wal_size_threshold (get_wal_size w)
    then true
    else false

-- The tracking of performCheckpoint, and what its handler of exceptions does.
unfoldable pub note_checkpoint : ℕ → CheckpointManager → ℕ → CheckpointManager
note_checkpoint now m lsn = record m {
  last_checkpoint_lsn = lsn;
  last_checkpoint_time = now;
  checkpoints_completed = (m.checkpoints_completed + 1) % u64_mod;
}

unfoldable pub note_failure : CheckpointManager → CheckpointManager
note_failure m = record m { checkpoints_failed = (m.checkpoints_failed + 1) % u64_mod }

module _ {K : Type 0} (κ : KeyType K) (ℒ : Layout K) where
  -- performCheckpoint, where no call throws.
  unfoldable pub perform_checkpoint : ℕ → ℕ → System K → System K × Bool
  perform_checkpoint stamp now s =
      let r = write_checkpoint ℒ stamp s.wal in
      (
        record s {
          manager = note_checkpoint now s.manager r.1;
          engine = flush_all κ s.engine;
          wal = sync r.0;
        },
        true,
      )

  unfoldable pub checkpoint_job_func : ℕ → ℕ → System K → System K × Bool
  checkpoint_job_func stamp now s =
      if should_checkpoint now s.manager s.wal then perform_checkpoint stamp now s else (s, true)

-- `checkpoint_lsn > 100 ? checkpoint_lsn - 100 : 0`
unfoldable pub truncate_lsn : ℕ → ℕ
truncate_lsn lsn = if ltb 100 lsn then lsn - 100 else 0

unfoldable pub cleanup_job_func : {K : Type 0} → System K → System K × Bool
cleanup_job_func s =
    let lsn = s.manager.last_checkpoint_lsn in
    if ltb 0 lsn
    then (if ltb 0 (truncate_lsn lsn)
        then (record s { wal = truncate s.wal (truncate_lsn lsn) }, true)
        else (s, true))
    else (s, true)

-- What the manager asks of the scheduler.
module _ (checkpoint_func cleanup_func perform_func : ℕ) where
  -- The two calls of start.
  unfoldable pub add_jobs : ℕ → CheckpointManager → JobScheduler → JobScheduler
  add_jobs now m s =
      (add_recurring_job now
        (add_recurring_job now s m.checkpoint_job_name m.checkpoint_interval checkpoint_func high).0
        m.cleanup_job_name (m.checkpoint_interval * 4) cleanup_func normal).0

  unfoldable pub start : ℕ → CheckpointManager → Option JobScheduler → Option JobScheduler
  start now m none = none
  start now m (some s) = if s.is_running then some (add_jobs now m s) else some s

  unfoldable pub stop : CheckpointManager → Option JobScheduler → Option JobScheduler
  stop m none = none
  stop m (some s) =
      some
        (remove_recurring_job (remove_recurring_job s m.checkpoint_job_name).0 m.cleanup_job_name).0

  unfoldable pub set_checkpoint_interval :
      ℕ → CheckpointManager → Option JobScheduler → ℕ → CheckpointManager × Option JobScheduler
  set_checkpoint_interval now m none interval = (record m { checkpoint_interval = interval }, none)
  set_checkpoint_interval now m (some s) interval = (
    record m { checkpoint_interval = interval },
    some
        (add_recurring_job now (remove_recurring_job s m.checkpoint_job_name).0
          m.checkpoint_job_name interval checkpoint_func high).0,
  )

  -- `none` is the call through the null pointer.
  unfoldable pub schedule_checkpoint_if_needed :
      ℕ → CheckpointManager → WalManager → Option JobScheduler → Option (Option JobScheduler)
  schedule_checkpoint_if_needed now m w none = if should_checkpoint now m w then none else some none
  schedule_checkpoint_if_needed now m w (some s) =
      if should_checkpoint now m w
      then some (some (schedule_checkpoint now s perform_func 0).0)
      else some (some s)
