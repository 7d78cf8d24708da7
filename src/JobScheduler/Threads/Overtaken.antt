-- ===== src/JobScheduler/Threads/Overtaken.antt =====
-- scheduleJob of src/job_scheduler.cpp puts the job into the queue under one mutex and into the
-- active jobs under another: what becomes of a job that a worker finishes in between, and of one that
-- it finishes later.
use custom_database.Base.{ℕ, ◌+◌, ◌≤◌, ◌<◌, ◌≡◌, sym, subst, ◌∷◌, arith}
use custom_database.Base.Count.{count, remove, count-remove}
use custom_database.JobScheduler.{Job, Outcome, start, stop}
use custom_database.JobScheduler.Jobs.{
  make_job, push_job, register_job, pop_job, set_status, finish_job, cleanup_completed_jobs,
}
use custom_database.JobScheduler.Queue.{count-add}
use custom_database.JobScheduler.Threads.{
  SchedulerThreads, idle_threads, SchedulerStep, makes, pushes, registers, takes, runs, finishes,
  cleans, recurs, starts, stops, SchedulerSteps, none_made, one_more,
}
use custom_database.JobScheduler.Threads.Places.{
  InPlace, steps-idle_threads, done_count, done_count-cleans, run_job-Ran, take_job-inverted,
  step-InPlace,
}

-- The job is done, and among the active ones.
record Leaked (id : ℕ) (c : SchedulerThreads) : Type 0 where
  still_active : 1 ≤ count id c.scheduler.active_jobs
  is_done : 1 ≤ done_count c id

-- The job has been entered into the active ones, and is not among them if it is done.
pub record Entered (id : ℕ) (c : SchedulerThreads) : Type 0 where
  pub not_ahead : count id c.made + count id c.pushed ≡ 0
  pub given : 1 ≤ id × (id < c.scheduler.next_job_id)
  pub inactive : 1 ≤ done_count c id → count id c.scheduler.active_jobs ≡ 0

module _ (address : ℕ → ℕ) (call : ℕ → Outcome) where
  -- A job that is done when scheduleJob enters it into the active jobs.
  registers-Leaked :
      (id : ℕ) (c : SchedulerThreads)
      → 1 ≤ done_count c id
      → Leaked id
          (record c { scheduler = register_job c.scheduler id; pushed = remove id c.pushed })
  unfolding register_job
  registers-Leaked id c h = record {
    still_active = ground (arith, count-add id id c.scheduler.active_jobs);
    is_done = h;
  }

  step-Entered :
      (id : ℕ) {c c' : SchedulerThreads}
      → SchedulerStep address call c c'
      → InPlace c
      → Entered id c
      → Entered id c'
  unfolding make_job push_job register_job pop_job set_status finish_job cleanup_completed_jobs
      start stop
  step-Entered id {c} {c'} (makes now type priority func delay timeout room) v l = record {
    not_ahead = ground (arith, l.not_ahead, l.given.1);
    given = (l.given.0, omega (arith, l.given.1));
    inactive = l.inactive;
  }
  step-Entered id {c} {c'} (pushes i h) v l = record {
    not_ahead = ground (arith, l.not_ahead, count-remove id i c.made);
    given = l.given;
    inactive = l.inactive;
  }
  step-Entered id {c} {c'} (registers i h) v l = record {
    not_ahead = omega (arith, l.not_ahead, count-remove id i c.pushed);
    given = l.given;
    inactive =
        λ d. ground (arith, l.not_ahead, l.inactive d, count-add id i c.scheduler.active_jobs);
  }
  step-Entered id {c} {c'} (takes now i s e) v l =
      subst (λ s'. Entered id (record c { scheduler = s'; taken = i ∷ c.taken }))
        (sym (take_job-inverted address now c.scheduler i s e).popped)
        (record { not_ahead = l.not_ahead; given = l.given; inactive = l.inactive })
  step-Entered id {c} {c'} (runs i h) v l =
      let r = run_job-Ran (call (c.scheduler.jobs i).execute_func) c.scheduler i in
      record {
        not_ahead = l.not_ahead;
        given = (l.given.0, omega (arith, l.given.1, r.same_next));
        inactive = rw (r.same_completed, r.same_active) l.inactive;
      }
  step-Entered id {c} {c'} (finishes i h) v l = record {
    not_ahead = l.not_ahead;
    given = l.given;
    inactive = λ d. ground (
      arith,
      l.inactive,
      v.one_entry id,
      count-remove id i c.scheduler.active_jobs,
      count-add id i c.scheduler.completed_jobs,
    );
  }
  step-Entered id {c} {c'} (cleans now max_age) v l = record {
    not_ahead = l.not_ahead;
    given = l.given;
    inactive = λ d. l.inactive (omega (arith, d, done_count-cleans c v now max_age id));
  }
  step-Entered id {c} {c'} (recurs recurring) v l = record {
    not_ahead = l.not_ahead;
    given = l.given;
    inactive = l.inactive;
  }
  step-Entered id {c} {c'} starts v l = record {
    not_ahead = l.not_ahead;
    given = l.given;
    inactive = l.inactive;
  }
  step-Entered id {c} {c'} stops v l = record {
    not_ahead = l.not_ahead;
    given = l.given;
    inactive = l.inactive;
  }

  steps-Entered :
      (id : ℕ) {c c' : SchedulerThreads}
      → SchedulerSteps address call c c'
      → InPlace c
      → Entered id c
      → Entered id c'
  steps-Entered id {c} {c'} none_made v l = l
  steps-Entered id {c} {c'} (one_more s rest) v l =
      steps-Entered id rest (step-InPlace address call s v) (step-Entered id s v l)

  module _ (jobs : ℕ → Job) {c : SchedulerThreads}
      (history : SchedulerSteps address call (idle_threads jobs) c) where
    -- A job that is active while it is queued, or while a worker has taken or run it, will not be
    -- active once it is done, whatever steps the threads make until then and after that.
    pub entered-ends_inactive :
        (id : ℕ) {c' : SchedulerThreads}
        → 1 ≤ count id c.scheduler.active_jobs
        → 1 ≤ count id c.scheduler.job_queue + count id c.taken + count id c.ran
        → SchedulerSteps address call c c'
        → 1 ≤ done_count c' id
        → count id c'.scheduler.active_jobs ≡ 0
    entered-ends_inactive id {c'} active unfinished steps done =
        let v = steps-idle_threads address call jobs history in
        let e = steps-Entered id steps v (record {
          not_ahead = ground (arith, active, v.one_entry id);
          given = ground (arith, unfinished, v.one_place id);
          inactive = λ d. absurd (ground (arith, d, unfinished, v.one_place id));
        }) in
        e.inactive done
