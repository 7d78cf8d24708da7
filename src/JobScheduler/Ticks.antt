-- ===== src/JobScheduler/Ticks.antt =====
-- What one round of the scheduler thread of src/job_scheduler.cpp does to the recurring jobs and to
-- the queue, and what the clean-up does to the completed jobs.
use custom_database.Base.{
  ℕ, ◌+◌, ◌<◌, ◌≡◌, refl, sym, ap, ◌∙◌, subst, String, Bool, true, false, List, [], ◌∷◌, arith, ltb,
  if◌then◌else◌, by_test, length, map, All,
}
use custom_database.Base.Count.{count}
use custom_database.JobScheduler.{Job, JobScheduler, RecurringJobInfo}
use custom_database.JobScheduler.Jobs.{
  make_job, push_job, register_job, schedule_job, drop_old, cleanup_completed_jobs,
}
use custom_database.JobScheduler.Recurring.{
  is_skipped, schedule_entry, schedule_due, schedule_recurring_jobs,
}

-- What a round at `now` makes of an entry.
abbrev pub rescheduled : ℕ → String × RecurringJobInfo → String × RecurringJobInfo
rescheduled now e =
    if is_skipped now e.1 then e else (e.0, record e.1 { next_execution = now + e.1.interval })

abbrev pub due_count : ℕ → List (String × RecurringJobInfo) → ℕ
due_count now [] = 0
due_count now (e ∷ rest) = (if is_skipped now e.1 then 0 else 1) + due_count now rest

-- The entries that either branch leaves, when both leave the same ones after the first.
entries-test :
    (b : Bool) (x y : JobScheduler) (e e' : String × RecurringJobInfo)
    {es es' rest : List (String × RecurringJobInfo)}
    → es ≡ rest
    → es' ≡ rest
    → (if◌then◌else◌ {A = JobScheduler × List (String × RecurringJobInfo)} b
        (x, e ∷ es)
        (y, e' ∷ es')).1
      ≡ (if b then e else e') ∷ rest
entries-test true x y e e' p q = ap (λ r. e ∷ r) p
entries-test false x y e e' p q = ap (λ r. e' ∷ r) q

entries-schedule_due :
    (now : ℕ) (s : JobScheduler) (rest : List (String × RecurringJobInfo))
    → (schedule_due now s rest).1 ≡ map (rescheduled now) rest
unfolding schedule_due
entries-schedule_due now s [] = refl
entries-schedule_due now s ((name, info) ∷ rest) =
    entries-test (is_skipped now info) _ _ _ _ (entries-schedule_due now s rest)
      (entries-schedule_due now (schedule_entry now s info) rest)

length-queue_due :
    (now : ℕ) (s : JobScheduler) (rest : List (String × RecurringJobInfo))
    → length (schedule_due now s rest).0.job_queue ≡ length s.job_queue + due_count now rest
unfolding schedule_due schedule_entry schedule_job register_job push_job make_job
length-queue_due now s [] = omega arith
length-queue_due now s ((name, info) ∷ rest) =
    ground
      (arith, length-queue_due now s rest, length-queue_due now (schedule_entry now s info) rest)

-- A round of the scheduler thread puts one job into the queue for every enabled entry that is due,
-- moves exactly these entries to one interval after now, and leaves the other entries as they are.
pub schedule_recurring_jobs_lem :
    (now : ℕ) (s : JobScheduler)
    → let s' = schedule_recurring_jobs now s in
      (s'.recurring_jobs ≡ map (rescheduled now) s.recurring_jobs)
      × (length s'.job_queue ≡ length s.job_queue + due_count now s.recurring_jobs)
unfolding schedule_recurring_jobs
schedule_recurring_jobs_lem now s =
    (entries-schedule_due now s s.recurring_jobs, length-queue_due now s s.recurring_jobs)

-- No entry of the list is due.
abbrev AllSkipped : ℕ → List (String × RecurringJobInfo) → Type 0
AllSkipped now rest = All (λ e. is_skipped now e.1 ≡ true) rest

schedule_due-skipped :
    (now : ℕ) (s : JobScheduler) (rest : List (String × RecurringJobInfo))
    → AllSkipped now rest
    → schedule_due now s rest ≡ (s, rest)
unfolding schedule_due
schedule_due-skipped now s [] all = refl
schedule_due-skipped now s ((name, info) ∷ rest) all =
    ap
      (λ b.
        if b then ((schedule_due now s rest).0, (name, info) ∷ (schedule_due now s rest).1) else (
          (schedule_due now (schedule_entry now s info) rest).0,
          (name, record info { next_execution = now + info.interval })
              ∷ (schedule_due now (schedule_entry now s info) rest).1,
        ))
      all.0
    ∙ ap (λ r. (r.0, (name, info) ∷ r.1)) (schedule_due-skipped now s rest all.1)

rescheduled-skipped :
    (now : ℕ) (e : String × RecurringJobInfo)
    → 0 < (e.1).interval
    → is_skipped now (rescheduled now e).1 ≡ true
unfolding is_skipped
rescheduled-skipped now e h =
    by_test (λ (f : String × RecurringJobInfo). is_skipped now f.1 ≡ true) (is_skipped now e.1)
      (λ skipped. skipped) (λ due. ground (arith, due))

AllSkipped-map :
    (now : ℕ) (rest : List (String × RecurringJobInfo))
    → All (λ e. 0 < (e.1).interval) rest
    → AllSkipped now (map (rescheduled now) rest)
AllSkipped-map now [] all = tt
AllSkipped-map now (e ∷ rest) all = (rescheduled-skipped now e all.0, AllSkipped-map now rest all.1)

-- If all intervals are positive, a second round of the scheduler thread at the same time changes
-- nothing: no recurring job is scheduled twice for the same time.
pub schedule_recurring_jobs_twice :
    (now : ℕ) (s : JobScheduler)
    → All (λ e. 0 < (e.1).interval) s.recurring_jobs
    → schedule_recurring_jobs now (schedule_recurring_jobs now s) ≡ schedule_recurring_jobs now s
unfolding schedule_recurring_jobs
schedule_recurring_jobs_twice now s all =
    let s' = schedule_recurring_jobs now s in
    ap
      (λ (r : JobScheduler × List (String × RecurringJobInfo)). record r.0 { recurring_jobs = r.1 })
      (schedule_due-skipped now s' s'.recurring_jobs (
        subst (AllSkipped now) (sym (entries-schedule_due now s s.recurring_jobs))
          (AllSkipped-map now s.recurring_jobs all)))

count-cleanup :
    (now max_age i : ℕ) (jobs : ℕ → Job) (ids : List ℕ)
    → count i (drop_old now max_age jobs ids)
      ≡ (if ltb ((jobs i).created_at + max_age) now then 0 else count i ids)
unfolding drop_old
count-cleanup now max_age i jobs [] = ground arith
count-cleanup now max_age i jobs (id ∷ ids) = ground (arith, count-cleanup now max_age i jobs ids)

-- `cleanupCompletedJobs` drops the completed jobs that were created longer than `max_age` ago, and
-- no other; the active jobs, the queue and the counter of ids stay.
pub cleanup_completed_jobs_lem :
    (now : ℕ) (s : JobScheduler) (max_age i : ℕ)
    → let s' = cleanup_completed_jobs now s max_age in
      (count i s'.completed_jobs
        ≡ (if ltb ((s.jobs i).created_at + max_age) now then 0 else count i s.completed_jobs))
      × (s'.active_jobs ≡ s.active_jobs)
      × (s'.job_queue ≡ s.job_queue)
      × (s'.next_job_id ≡ s.next_job_id)
unfolding cleanup_completed_jobs
cleanup_completed_jobs_lem now s max_age i =
    (count-cleanup now max_age i s.jobs s.completed_jobs, refl, refl, refl)
