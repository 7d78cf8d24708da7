-- ===== src/JobScheduler/Threads.antt =====
-- The threads of src/job_scheduler.cpp, one critical section at a time: any number of threads are
-- inside scheduleJob, workerThread and cleanupCompletedJobs at once. scheduleJob makes the job, pushes
-- it under the mutex of the queue and enters it into the active jobs under the mutex of the jobs; a
-- worker takes a job under the mutex of the queue, runs its function under none, and moves it to the
-- completed jobs under the mutex of the jobs. The lists tell where the threads stand. The counters
-- change with the step that is nearest to them; no theorem on these steps is about them.
pub mod Places
pub mod Overtaken
use custom_database.Base.{
  ℕ, ◌+◌, ◌≤◌, ◌<◌, ◌≡◌, String, List, [], ◌∷◌, ◌++◌, Option, some, ltb, if◌then◌else◌,
}
use custom_database.Base.Count.{count, remove}
use custom_database.JobScheduler.{
  Job, JobScheduler, JobType, JobPriority, RecurringJobInfo, Outcome, u64_mod, new_scheduler, start,
  stop,
}
use custom_database.JobScheduler.Jobs.{
  make_job, push_job, register_job, take_job, run_job, finish_job, cleanup_completed_jobs,
}

-- `made` are the jobs that scheduleJob has made and not pushed, `pushed` those that it has pushed and
-- not entered into the active ones; `taken` are the jobs that a worker has taken and not run, `ran`
-- those that it has run and not moved; `cleaned` are those that a clean-up has dropped.
pub record SchedulerThreads : Type 0 where
  pub scheduler : JobScheduler
  pub made : List ℕ
  pub pushed : List ℕ
  pub taken : List ℕ
  pub ran : List ℕ
  pub cleaned : List ℕ

-- Before the first call.
abbrev pub idle_threads : (ℕ → Job) → SchedulerThreads
idle_threads jobs = record {
  scheduler = new_scheduler jobs;
  made = [];
  pushed = [];
  taken = [];
  ran = [];
  cleaned = [];
}

-- What the loop of cleanupCompletedJobs erases.
unfoldable pub old_ids : ℕ → ℕ → (ℕ → Job) → List ℕ → List ℕ
old_ids now max_age jobs [] = []
old_ids now max_age jobs (id ∷ ids) =
    let rest = old_ids now max_age jobs ids in
    if ltb ((jobs id).created_at + max_age) now then id ∷ rest else rest

module _ (address : ℕ → ℕ) (call : ℕ → Outcome) where
  -- A step of one of the threads. The ids do not wrap around. What the methods for recurring jobs
  -- make of the recurring jobs is left open; the scheduler thread calls scheduleJob like any other.
  pub data SchedulerStep (c : SchedulerThreads) : SchedulerThreads → Type 0 where
    makes :
        (now : ℕ) (type : JobType) (priority : JobPriority) (func delay timeout : ℕ)
        → c.scheduler.next_job_id + 1 < u64_mod
        → SchedulerStep c (record c {
          scheduler = make_job now c.scheduler type priority func delay timeout;
          made = c.scheduler.next_job_id ∷ c.made;
        })
    pushes :
        (id : ℕ)
        → 1 ≤ count id c.made
        → SchedulerStep c (record c {
          scheduler = push_job c.scheduler id;
          made = remove id c.made;
          pushed = id ∷ c.pushed;
        })
    registers :
        (id : ℕ)
        → 1 ≤ count id c.pushed
        → SchedulerStep c
            (record c { scheduler = register_job c.scheduler id; pushed = remove id c.pushed })
    takes :
        (now id : ℕ) (s : JobScheduler)
        → take_job address now c.scheduler ≡ (s, some id)
        → SchedulerStep c (record c { scheduler = s; taken = id ∷ c.taken })
    runs :
        (id : ℕ)
        → 1 ≤ count id c.taken
        → SchedulerStep c (record c {
          scheduler = run_job (call (c.scheduler.jobs id).execute_func) c.scheduler id;
          taken = remove id c.taken;
          ran = id ∷ c.ran;
        })
    finishes :
        (id : ℕ)
        → 1 ≤ count id c.ran
        → SchedulerStep c
            (record c { scheduler = finish_job c.scheduler id; ran = remove id c.ran })
    cleans :
        (now max_age : ℕ)
        → SchedulerStep c (record c {
          scheduler = cleanup_completed_jobs now c.scheduler max_age;
          cleaned = old_ids now max_age c.scheduler.jobs c.scheduler.completed_jobs ++ c.cleaned;
        })
    recurs :
        (recurring : List (String × RecurringJobInfo))
        → SchedulerStep c
            (record c { scheduler = record c.scheduler { recurring_jobs = recurring } })
    starts : SchedulerStep c (record c { scheduler = start c.scheduler })
    stops : SchedulerStep c (record c { scheduler = stop c.scheduler })

  pub data SchedulerSteps : SchedulerThreads → SchedulerThreads → Type 0 where
    none_made : {c : SchedulerThreads} → SchedulerSteps c c
    one_more :
        {c c' c'' : SchedulerThreads}
        → SchedulerStep c c'
        → SchedulerSteps c' c''
        → SchedulerSteps c c''
