-- ===== src/JobScheduler/Execution.antt =====
-- What the execution of one job by src/job_scheduler.cpp changes.
use custom_database.Base.{ℕ, ◌≤◌, ◌≡◌, ◌≢◌, refl, sym, ap, ◌∙◌, subst, arith, ℕ_discrete}
use custom_database.Base.Count.{count, remove}
use custom_database.JobScheduler.{
  JobScheduler, JobStatus, Outcome, returns_true, returns_false, throws, completed, failed,
}
use custom_database.JobScheduler.Jobs.{set_status, pop_job, run_job, finish_job, execute_job}
use custom_database.JobScheduler.Queue.{count-add}

-- The status that a job ends with.
abbrev pub status_of : Outcome → JobStatus
status_of returns_true = completed
status_of returns_false = failed
status_of throws = failed

module _ (call : ℕ → Outcome) where
  -- The job is completed, with the status that its function gives.
  pub record IsDone (s : JobScheduler) (i : ℕ) : Type 0 where
    pub listed : 1 ≤ count i s.completed_jobs
    pub status_is : (s.jobs i).status ≡ status_of (call (s.jobs i).execute_func)

  -- The job `id` of the queue is executed between `s` and `s'`.
  pub record Executed (id : ℕ) (s s' : JobScheduler) : Type 0 where
    pub same_running : s'.is_running ≡ s.is_running
    pub queue_is : s'.job_queue ≡ remove id s.job_queue
    pub same_schedule : (i : ℕ) → (s'.jobs i).scheduled_at ≡ (s.jobs i).scheduled_at
    pub same_func : (i : ℕ) → (s'.jobs i).execute_func ≡ (s.jobs i).execute_func
    pub status_self : (s'.jobs id).status ≡ status_of (call (s.jobs id).execute_func)
    pub status_at : (i : ℕ) → id ≢ i → (s'.jobs i).status ≡ (s.jobs i).status
    pub listed_self : 1 ≤ count id s'.completed_jobs
    pub listed_at : (i : ℕ) → count i s.completed_jobs ≤ count i s'.completed_jobs

  finish-Executed :
      (o : Outcome) (s : JobScheduler) (id : ℕ)
      → call (s.jobs id).execute_func ≡ o
      → Executed id s (finish_job (run_job o (pop_job s id) id) id)
  unfolding finish_job run_job pop_job set_status
  finish-Executed returns_true s id e = record {
    same_running = refl;
    queue_is = refl;
    same_schedule = λ i. ground arith;
    same_func = λ i. ground arith;
    status_self = ground (arith, ap status_of e);
    status_at = λ i h. ground arith;
    listed_self = ground (arith, count-add id id s.completed_jobs);
    listed_at = λ i. ground (arith, count-add i id s.completed_jobs);
  }
  finish-Executed returns_false s id e = record {
    same_running = refl;
    queue_is = refl;
    same_schedule = λ i. ground arith;
    same_func = λ i. ground arith;
    status_self = ground (arith, ap status_of e);
    status_at = λ i h. ground arith;
    listed_self = ground (arith, count-add id id s.completed_jobs);
    listed_at = λ i. ground (arith, count-add i id s.completed_jobs);
  }
  finish-Executed throws s id e = record {
    same_running = refl;
    queue_is = refl;
    same_schedule = λ i. ground arith;
    same_func = λ i. ground arith;
    status_self = ground (arith, ap status_of e);
    status_at = λ i h. ground arith;
    listed_self = ground (arith, count-add id id s.completed_jobs);
    listed_at = λ i. ground (arith, count-add i id s.completed_jobs);
  }

  pub execute_job-Executed :
      (s : JobScheduler) (id : ℕ) → Executed id s (execute_job call (pop_job s id) id)
  unfolding execute_job pop_job set_status
  execute_job-Executed s id =
      finish-Executed (call ((pop_job s id).jobs id).execute_func) s id (ap call (ground arith))

  pub IsDone-Executed : (id : ℕ) (s s' : JobScheduler) → Executed id s s' → IsDone s' id
  IsDone-Executed id s s' x = record {
    listed = x.listed_self;
    status_is = x.status_self ∙ ap (λ f. status_of (call f)) (sym (x.same_func id));
  }

  pub IsDone-kept : (id i : ℕ) (s s' : JobScheduler) → Executed id s s' → IsDone s i → IsDone s' i
  IsDone-kept id i s s' x d = elim (ℕ_discrete id i) [
    | yes p ↦ subst (IsDone s') p (IsDone-Executed id s s' x)
    | no n ↦ record {
      listed = omega (arith, d.listed, x.listed_at i);
      status_is =
          x.status_at i n ∙ d.status_is ∙ ap (λ f. status_of (call f)) (sym (x.same_func i));
    }
  ]
