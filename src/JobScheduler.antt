-- ===== src/JobScheduler.antt =====
-- include/job_scheduler.h and src/job_scheduler.cpp: the scheduler of background jobs. A job is made
-- once, under an id of its own, so a `shared_ptr<Job>` is named by the id of its job, and a map from
-- ids to jobs is the set of its ids, without repetition. `address` is where the allocator put the
-- job of an id; the priority queue compares its pointers, and so the addresses. A job's function is
-- a handle that `call` runs. `now` is the steady clock in milliseconds. Descriptions, which are only
-- printed, are left out, and so are the making and joining of threads.
pub mod Jobs
pub mod Recurring
pub mod Entries
pub mod Queue
pub mod Execution
pub mod Progress
pub mod Threads
pub mod Ticks
pub mod Statistics
use custom_database.Base.{
  ℕ, zero, suc, ◌+◌, ◌%◌, String, Bool, true, false, List, [], ◌∷◌, Option, none, some, ltb, leb,
  ◌==◌, if◌then◌else◌,
}
use custom_database.Base.Count.{count, remove}

pub data JobType : Type 0 where
  checkpoint version_prune health_check custom : JobType

pub data JobStatus : Type 0 where
  pending running completed failed cancelled : JobStatus

pub data JobPriority : Type 0 where
  low normal high critical : JobPriority

pub record Job : Type 0 where
  pub type : JobType
  pub priority : JobPriority
  pub status : JobStatus
  pub created_at : ℕ
  pub scheduled_at : ℕ
  pub timeout : ℕ
  pub execute_func : ℕ

pub record RecurringJobInfo : Type 0 where
  pub interval : ℕ
  pub next_execution : ℕ
  pub job_func : ℕ
  pub priority : JobPriority
  pub enabled : Bool

-- `jobs` are the jobs that have been made, by their ids.
pub record JobScheduler : Type 0 where
  pub is_running : Bool
  pub jobs : ℕ → Job
  pub job_queue : List ℕ
  pub active_jobs : List ℕ
  pub completed_jobs : List ℕ
  pub next_job_id : ℕ
  pub total_jobs_executed : ℕ
  pub failed_jobs : ℕ
  pub successful_jobs : ℕ
  pub recurring_jobs : List (String × RecurringJobInfo)

-- What a job's function does; what it throws is a `std::exception`.
pub data Outcome : Type 0 where
  returns_true returns_false throws : Outcome

abbrev pub u64_mod : ℕ
u64_mod = 18446744073709551616

-- The value of the enumerator.
abbrev pub rank : JobPriority → ℕ
rank low = 0
rank normal = 1
rank high = 2
rank critical = 3

-- operator< of Job, which the priority queue of pointers does not use.
unfoldable pub job_less : Job → Job → Bool
job_less a b =
    if rank a.priority == rank b.priority
    then ltb b.scheduled_at a.scheduled_at
    else ltb (rank a.priority) (rank b.priority)

-- `m.find(id) != m.end()` and `m[id] = job`
abbrev pub has : ℕ → List ℕ → Bool
has id ids = leb 1 (count id ids)

unfoldable pub add : ℕ → List ℕ → List ℕ
add id ids = if has id ids then ids else id ∷ ids

unfoldable pub new_scheduler : (ℕ → Job) → JobScheduler
new_scheduler jobs = record {
  is_running = false;
  jobs = jobs;
  job_queue = [];
  active_jobs = [];
  completed_jobs = [];
  next_job_id = 1;
  total_jobs_executed = 0;
  failed_jobs = 0;
  successful_jobs = 0;
  recurring_jobs = [];
}

-- start and stop, without their threads.
unfoldable pub start : JobScheduler → JobScheduler
start s = record s { is_running = true }

unfoldable pub stop : JobScheduler → JobScheduler
stop s = record s { is_running = false }
