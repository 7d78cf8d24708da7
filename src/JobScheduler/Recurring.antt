-- ===== src/JobScheduler/Recurring.antt =====
-- src/job_scheduler.cpp: the recurring jobs.
use custom_database.Base.{
  ℕ, ◌+◌, ◌*◌, String, Bool, true, false, List, [], ◌∷◌, Option, none, some, ltb, not, ◌||◌,
  string_dec, if◌then◌else◌,
}
use custom_database.Base.Assoc
use custom_database.JobScheduler.{JobScheduler, RecurringJobInfo, JobPriority, custom}
use custom_database.JobScheduler.Jobs.{schedule_job, minute}

abbrev pub find_recurring : JobScheduler → String → Option RecurringJobInfo
find_recurring s name = Assoc.lookup string_dec name s.recurring_jobs

unfoldable pub put_recurring : JobScheduler → String → RecurringJobInfo → JobScheduler
put_recurring s name info = record s {
  recurring_jobs = Assoc.insert string_dec name info s.recurring_jobs;
}

unfoldable pub add_recurring_job :
    ℕ → JobScheduler → String → ℕ → ℕ → JobPriority → JobScheduler × Bool
add_recurring_job now s name interval func priority = elim (find_recurring s name) [
  | some _ ↦ (s, false)
  | none ↦ (
    put_recurring s name (record {
      interval = interval;
      next_execution = now + interval;
      job_func = func;
      priority = priority;
      enabled = true;
    }),
    true,
  )
]

unfoldable pub remove_recurring_job : JobScheduler → String → JobScheduler × Bool
remove_recurring_job s name = elim (find_recurring s name) [
  | none ↦ (s, false)
  | some _ ↦ (record s { recurring_jobs = Assoc.erase string_dec name s.recurring_jobs }, true)
]

unfoldable pub enable_recurring_job : JobScheduler → String → Bool → JobScheduler × Bool
enable_recurring_job s name enabled = elim (find_recurring s name) [
  | none ↦ (s, false)
  | some info ↦ (put_recurring s name (record info { enabled = enabled }), true)
]

-- `!info.enabled || now < info.next_execution`
unfoldable pub is_skipped : ℕ → RecurringJobInfo → Bool
is_skipped now info = not info.enabled || ltb now info.next_execution

-- The job of an entry, with the defaults of scheduleJob for its delay and its timeout.
unfoldable pub schedule_entry : ℕ → JobScheduler → RecurringJobInfo → JobScheduler
schedule_entry now s info = (schedule_job now s custom info.priority info.job_func 0 (5 * minute)).0

-- The loop of scheduleRecurringJobs: the scheduler, and the entries that it leaves.
unfoldable pub schedule_due :
    ℕ
    → JobScheduler
    → List (String × RecurringJobInfo)
    → JobScheduler × List (String × RecurringJobInfo)
schedule_due now s [] = (s, [])
schedule_due now s ((name, info) ∷ rest) =
    let skip = schedule_due now s rest in
    let go = schedule_due now (schedule_entry now s info) rest in
    if is_skipped now info
    then (skip.0, (name, info) ∷ skip.1)
    else (go.0, (name, record info { next_execution = now + info.interval }) ∷ go.1)

unfoldable pub schedule_recurring_jobs : ℕ → JobScheduler → JobScheduler
schedule_recurring_jobs now s =
    let r = schedule_due now s s.recurring_jobs in record r.0 { recurring_jobs = r.1 }

-- The loop of schedulerThread, with the times of its rounds.
unfoldable pub scheduler_thread : List ℕ → JobScheduler → JobScheduler
scheduler_thread [] s = s
scheduler_thread (now ∷ times) s =
    let rest = scheduler_thread times (schedule_recurring_jobs now s) in
    if s.is_running then rest else s
