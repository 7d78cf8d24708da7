-- ===== src/JobScheduler/Jobs.antt =====
-- src/job_scheduler.cpp: scheduleJob, the round of a worker, executeJob and the queries. What
-- scheduleJob and a worker do under different mutexes are functions of their own, of which
-- JobScheduler/Threads.antt makes the steps of the threads; `schedule_job`, `execute_job` and
-- `worker_round` are the calls of one thread while no other makes a step.
use custom_database.Base.{ℕ, ◌+◌, ◌*◌, ◌%◌, List, [], ◌∷◌, Option, none, some, ltb, if◌then◌else◌}
use custom_database.Base.Count.{remove}
use custom_database.Memory.{update}
use custom_database.JobScheduler.{
  Job, JobType, JobStatus, JobPriority, JobScheduler, Outcome, returns_true, returns_false, throws,
  checkpoint, version_prune, pending, running, completed, failed, cancelled, normal, high, has, add,
  u64_mod,
}

-- The id, and the job under it.
unfoldable pub make_job : ℕ → JobScheduler → JobType → JobPriority → ℕ → ℕ → ℕ → JobScheduler
make_job now s type priority func delay timeout = record s {
  next_job_id = (s.next_job_id + 1) % u64_mod;
  jobs = update s.jobs s.next_job_id (record {
    type = type;
    priority = priority;
    status = pending;
    created_at = now;
    scheduled_at = now + delay;
    timeout = timeout;
    execute_func = func;
  });
}

-- `job_queue.push(job)`
unfoldable pub push_job : JobScheduler → ℕ → JobScheduler
push_job s id = record s { job_queue = id ∷ s.job_queue }

-- `active_jobs[job_id] = job`
unfoldable pub register_job : JobScheduler → ℕ → JobScheduler
register_job s id = record s { active_jobs = add id s.active_jobs }

unfoldable pub schedule_job :
    ℕ → JobScheduler → JobType → JobPriority → ℕ → ℕ → ℕ → JobScheduler × ℕ
schedule_job now s type priority func delay timeout =
    let id = s.next_job_id in
    (register_job (push_job (make_job now s type priority func delay timeout) id) id, id)

abbrev pub minute : ℕ
minute = 60000

unfoldable pub schedule_checkpoint : ℕ → JobScheduler → ℕ → ℕ → JobScheduler × ℕ
schedule_checkpoint now s func delay = schedule_job now s checkpoint high func delay (10 * minute)

unfoldable pub schedule_version_prune : ℕ → JobScheduler → ℕ → ℕ → JobScheduler × ℕ
schedule_version_prune now s func delay =
    schedule_job now s version_prune normal func delay (15 * minute)

-- `job->status = status`
unfoldable pub set_status : JobScheduler → ℕ → JobStatus → JobScheduler
set_status s id status = record s {
  jobs = update s.jobs id (record (s.jobs id) { status = status });
}

-- The job of the queue `x ∷ xs` with the greatest address.
unfoldable pub top : (ℕ → ℕ) → ℕ → List ℕ → ℕ
top address x [] = x
top address x (y ∷ ys) = top address (if ltb (address x) (address y) then y else x) ys

-- `job_queue.pop()`, and the job is RUNNING.
unfoldable pub pop_job : JobScheduler → ℕ → JobScheduler
pop_job s id = set_status (record s { job_queue = remove id s.job_queue }) id running

-- What a worker takes from this queue in one round of its loop: nothing, if the queue is empty or
-- the job on top is not ready yet.
unfoldable pub take_from : (ℕ → ℕ) → ℕ → JobScheduler → List ℕ → JobScheduler × Option ℕ
take_from address now s [] = (s, none)
take_from address now s (x ∷ xs) =
    let id = top address x xs in
    if ltb now (s.jobs id).scheduled_at then (s, none) else (pop_job s id, some id)

unfoldable pub take_job : (ℕ → ℕ) → ℕ → JobScheduler → JobScheduler × Option ℕ
take_job address now s = take_from address now s s.job_queue

-- executeJob up to the counters: the status by what the function does.
unfoldable pub run_job : Outcome → JobScheduler → ℕ → JobScheduler
run_job returns_true s id =
    set_status (record s { successful_jobs = (s.successful_jobs + 1) % u64_mod }) id completed
run_job returns_false s id =
    set_status (record s { failed_jobs = (s.failed_jobs + 1) % u64_mod }) id failed
run_job throws s id =
    set_status (record s { failed_jobs = (s.failed_jobs + 1) % u64_mod }) id failed

-- The end of executeJob: the job moves from the active to the completed ones.
unfoldable pub finish_job : JobScheduler → ℕ → JobScheduler
finish_job s id = record s {
  total_jobs_executed = (s.total_jobs_executed + 1) % u64_mod;
  active_jobs = remove id s.active_jobs;
  completed_jobs = add id s.completed_jobs;
}

unfoldable pub execute_job : (ℕ → Outcome) → JobScheduler → ℕ → JobScheduler
execute_job call s id = finish_job (run_job (call (s.jobs id).execute_func) s id) id

-- The rest of a worker's round.
unfoldable pub execute_taken : (ℕ → Outcome) → JobScheduler × Option ℕ → JobScheduler
execute_taken call (s, none) = s
execute_taken call (s, some id) = execute_job call s id

-- One round of the loop of workerThread, with no step of another thread in between.
unfoldable pub worker_round : (ℕ → ℕ) → (ℕ → Outcome) → ℕ → JobScheduler → JobScheduler
worker_round address call now s = execute_taken call (take_job address now s)

-- The loop of workerThread, its rounds at these times.
unfoldable pub worker_thread : (ℕ → ℕ) → (ℕ → Outcome) → List ℕ → JobScheduler → JobScheduler
worker_thread address call [] s = s
worker_thread address call (now ∷ times) s =
    let rest = worker_thread address call times (worker_round address call now s) in
    if s.is_running then rest else s

unfoldable pub get_job : JobScheduler → ℕ → Option ℕ
get_job s id =
    if has id s.active_jobs then some id else if has id s.completed_jobs then some id else none

unfoldable pub get_job_status : JobScheduler → ℕ → JobStatus
get_job_status s id =
    if has id s.active_jobs
    then (s.jobs id).status
    else if has id s.completed_jobs
    then (s.jobs id).status
    else cancelled

-- The loop of cleanupCompletedJobs.
unfoldable pub drop_old : ℕ → ℕ → (ℕ → Job) → List ℕ → List ℕ
drop_old now max_age jobs [] = []
drop_old now max_age jobs (id ∷ ids) =
    let rest = drop_old now max_age jobs ids in
    if ltb ((jobs id).created_at + max_age) now then rest else id ∷ rest

unfoldable pub cleanup_completed_jobs : ℕ → JobScheduler → ℕ → JobScheduler
cleanup_completed_jobs now s max_age = record s {
  completed_jobs = drop_old now max_age s.jobs s.completed_jobs;
}
