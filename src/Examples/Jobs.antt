-- ===== src/Examples/Jobs.antt =====
-- Examples of the job scheduler: jobs whose functions are named by numbers, at addresses that fall
-- as the ids grow.
use custom_database.Base.{
  ℕ, zero, suc, ◌-◌, ◌≤◌, ◌<◌, ◌≡◌, ◌≢◌, refl, true, [], ◌∷◌, arith, ℕ_discrete,
}
use custom_database.Base.Count.{count, remove}
use custom_database.JobScheduler.{
  Job, JobScheduler, RecurringJobInfo, Outcome, returns_true, returns_false, throws, checkpoint,
  custom, cancelled, low, normal, critical, new_scheduler, start, add,
}
use custom_database.JobScheduler.Jobs.{
  top, schedule_job, register_job, push_job, make_job, worker_thread, pop_job, set_status, take_job,
  take_from, run_job, finish_job,
}
use custom_database.JobScheduler.Recurring.{put_recurring}
use custom_database.JobScheduler.Execution.{status_of}
use custom_database.JobScheduler.Progress.{worker_thread-drains, worker_thread-blocked}
use custom_database.JobScheduler.Threads.{
  SchedulerThreads, idle_threads, makes, pushes, registers, takes, runs, finishes, SchedulerSteps,
  none_made, one_more,
}
use custom_database.JobScheduler.Threads.Places.{InPlace, steps-idle_threads}
use custom_database.JobScheduler.Threads.Overtaken.{entered-ends_inactive}

abbrev address : ℕ → ℕ
address id = 100 - id

abbrev call : ℕ → Outcome
call zero = returns_true
call (suc zero) = returns_false
call n = throws

abbrev blank_job : Job
blank_job = record {
  type = custom;
  priority = normal;
  status = cancelled;
  created_at = 0;
  scheduled_at = 0;
  timeout = 0;
  execute_func = 0;
}

abbrev pub no_jobs : ℕ → Job
no_jobs id = blank_job

-- The steps of a job: made, queued, entered, taken, run and finished.
abbrev made_one : SchedulerThreads
made_one = record (idle_threads no_jobs) {
  scheduler = make_job 0 (new_scheduler no_jobs) custom normal 1 0 100;
  made = 1 ∷ [];
}

abbrev queued_one : SchedulerThreads
queued_one = record made_one {
  scheduler = push_job made_one.scheduler 1;
  made = remove 1 made_one.made;
  pushed = 1 ∷ [];
}

abbrev entered_one : SchedulerThreads
entered_one = record queued_one {
  scheduler = register_job queued_one.scheduler 1;
  pushed = remove 1 queued_one.pushed;
}

abbrev taken_one : SchedulerThreads
taken_one = record entered_one { scheduler = pop_job entered_one.scheduler 1; taken = 1 ∷ [] }

abbrev ran_one : SchedulerThreads
ran_one = record taken_one {
  scheduler = run_job returns_false taken_one.scheduler 1;
  taken = remove 1 taken_one.taken;
  ran = 1 ∷ [];
}

abbrev done_one : SchedulerThreads
done_one = record ran_one { scheduler = finish_job ran_one.scheduler 1; ran = remove 1 ran_one.ran }

to_taken : SchedulerSteps address call (idle_threads no_jobs) taken_one
unfolding new_scheduler make_job push_job register_job pop_job set_status take_job take_from top
    remove ℕ_discrete add
to_taken = one_more (makes 0 custom normal 1 0 100 (omega arith)) (
    one_more (pushes 1 (omega arith))
      (one_more (registers 1 (omega arith)) (one_more (takes 0 1 _ refl) none_made)))

to_done : SchedulerSteps address call taken_one done_one
unfolding new_scheduler make_job push_job register_job pop_job set_status run_job remove ℕ_discrete
    add
to_done = one_more (runs 1 (omega arith)) (one_more (finishes 1 (omega arith)) none_made)

steps-idle_threads_example : InPlace taken_one
steps-idle_threads_example = steps-idle_threads address call no_jobs to_taken

entered-ends_inactive_example : count 1 done_one.scheduler.active_jobs ≡ 0
unfolding new_scheduler make_job push_job register_job pop_job set_status run_job finish_job remove
    ℕ_discrete add
entered-ends_inactive_example =
    entered-ends_inactive address call no_jobs to_taken 1 (omega arith) (omega arith) to_done
      (omega arith)

-- Two jobs, the first for later and of low priority, the second due and critical.
abbrev two_jobs : JobScheduler
two_jobs =
    (schedule_job 1 (schedule_job 0 (start (new_scheduler no_jobs)) custom low 1 50 100).0
      checkpoint critical 0 0 100).0

two_jobs-due : (i : ℕ) → 1 ≤ count i two_jobs.job_queue → (two_jobs.jobs i).scheduled_at ≤ 50
unfolding schedule_job register_job push_job make_job start new_scheduler add
two_jobs-due i h = ground arith

worker_thread-drains_example :
    ((worker_thread address call (50 ∷ 60 ∷ []) two_jobs).job_queue ≡ [])
    × ((i : ℕ)
        → 1 ≤ count i two_jobs.job_queue
        → (1 ≤ count i (worker_thread address call (50 ∷ 60 ∷ []) two_jobs).completed_jobs)
          × (((worker_thread address call (50 ∷ 60 ∷ []) two_jobs).jobs i).status
              ≡ status_of (call (two_jobs.jobs i).execute_func)))
unfolding schedule_job register_job push_job make_job start new_scheduler add
worker_thread-drains_example =
    worker_thread-drains call address 50 (50 ∷ 60 ∷ []) two_jobs refl two_jobs-due
      (omega arith, (omega arith, tt)) (omega arith)

-- The first job has the greater address.
two_jobs-greatest : (i : ℕ) → 1 ≤ count i two_jobs.job_queue → i ≢ 1 → address i < address 1
unfolding schedule_job register_job push_job make_job start new_scheduler add
two_jobs-greatest i h n = ground arith

worker_thread-blocked_example : worker_thread address call (10 ∷ 20 ∷ []) two_jobs ≡ two_jobs
unfolding schedule_job register_job push_job make_job start new_scheduler add ℕ_discrete
worker_thread-blocked_example =
    worker_thread-blocked call address (10 ∷ 20 ∷ []) two_jobs 1 (omega arith) two_jobs-greatest
      (omega arith, (omega arith, tt))

abbrev pub idle : JobScheduler
idle = start (new_scheduler no_jobs)

abbrev info : RecurringJobInfo
info = record {
  interval = 10;
  next_execution = 20;
  job_func = 0;
  priority = normal;
  enabled = true;
}

abbrev recurring : JobScheduler
recurring = put_recurring idle "checkpoint" info
