-- ===== src/JobScheduler/Threads/Places.antt =====
-- Where the jobs of src/job_scheduler.cpp are, whatever the threads do.
use custom_database.Base.{
  ℕ, ◌+◌, ◌≤◌, ◌<◌, ◌≡◌, ◌≢◌, refl, sym, ap, ◌∙◌, subst, ◌⊎◌, List, [], ◌∷◌, ◌++◌, arith, ltb, leb,
  ◌&&◌, if◌then◌else◌, Option, none, some, Bool, true, false, ℕ_discrete,
}
use mathlib.Core.Option.{some-injective}
use custom_database.Base.Count.{count, remove, count-remove}
use custom_database.JobScheduler.{
  Job, JobScheduler, JobType, JobPriority, Outcome, returns_true, returns_false, throws, pending,
  running, completed, failed, u64_mod, new_scheduler, start, stop,
}
use custom_database.JobScheduler.Jobs.{
  top, make_job, push_job, register_job, set_status, pop_job, take_from, take_job, run_job,
  finish_job, drop_old, cleanup_completed_jobs,
}
use custom_database.JobScheduler.Queue.{count-add, top-mem}
use custom_database.JobScheduler.Threads.{
  SchedulerThreads, idle_threads, old_ids, SchedulerStep, makes, pushes, registers, takes, runs,
  finishes, cleans, recurs, starts, stops, SchedulerSteps, none_made, one_more,
}

count-append : (q : ℕ) (xs ys : List ℕ) → count q (xs ++ ys) ≡ count q xs + count q ys
count-append q [] ys = omega arith
count-append q (x ∷ xs) ys = omega (arith, count-append q xs ys)

-- What a clean-up keeps and what it drops.
count-drop_old :
    (q now max_age : ℕ) (jobs : ℕ → Job) (ids : List ℕ)
    → count q (drop_old now max_age jobs ids) + count q (old_ids now max_age jobs ids) ≡ count q ids
unfolding drop_old old_ids
count-drop_old q now max_age jobs [] = refl
count-drop_old q now max_age jobs (id ∷ ids) = ground (arith, count-drop_old q now max_age jobs ids)

-- The id was given out.
abbrev pub given_out : JobScheduler → ℕ → ℕ
given_out s i = if leb 1 i && ltb i s.next_job_id then 1 else 0

-- How often a job is completed or was dropped by a clean-up.
abbrev pub done_count : SchedulerThreads → ℕ → ℕ
done_count c i = count i c.scheduler.completed_jobs + count i c.cleaned

-- What holds at every moment. Each id that was given out is in one place: made, queued, taken, run,
-- or completed (and perhaps dropped since). A job that is queued or in the hands of a worker is
-- active, or scheduleJob has yet to enter it.
pub record InPlace (c : SchedulerThreads) : Type 0 where
  pub positive : 1 ≤ c.scheduler.next_job_id
  pub one_place :
      (i : ℕ)
      → count i c.made
          + count i c.scheduler.job_queue
          + count i c.taken
          + count i c.ran
          + done_count c i
        ≡ given_out c.scheduler i
  pub one_entry :
      (i : ℕ)
      → count i c.made + count i c.pushed + count i c.scheduler.active_jobs
        ≤ given_out c.scheduler i
  pub entered :
      (i : ℕ)
      → 1 ≤ count i c.scheduler.job_queue + count i c.taken + count i c.ran
      → 1 ≤ count i c.pushed + count i c.scheduler.active_jobs
  pub is_pending :
      (i : ℕ)
      → 1 ≤ count i c.made + count i c.scheduler.job_queue
      → (c.scheduler.jobs i).status ≡ pending
  pub is_running : (i : ℕ) → 1 ≤ count i c.taken → (c.scheduler.jobs i).status ≡ running
  pub is_settled :
      (i : ℕ)
      → 1 ≤ count i c.ran + done_count c i
      → ((c.scheduler.jobs i).status ≡ completed) ⊎ ((c.scheduler.jobs i).status ≡ failed)

idle_threads-InPlace : (jobs : ℕ → Job) → InPlace (idle_threads jobs)
unfolding new_scheduler
idle_threads-InPlace jobs = record {
  positive = omega arith;
  one_place = λ i. ground arith;
  one_entry = λ i. ground arith;
  entered = λ i h. absurd (omega arith);
  is_pending = λ i h. absurd (omega arith);
  is_running = λ i h. absurd (omega arith);
  is_settled = λ i h. absurd (omega arith);
}

-- What a job's function changes.
pub record Ran (id : ℕ) (s s' : JobScheduler) : Type 0 where
  pub same_next : s'.next_job_id ≡ s.next_job_id
  same_queue : s'.job_queue ≡ s.job_queue
  pub same_active : s'.active_jobs ≡ s.active_jobs
  pub same_completed : s'.completed_jobs ≡ s.completed_jobs
  status_self : ((s'.jobs id).status ≡ completed) ⊎ ((s'.jobs id).status ≡ failed)
  status_at : (i : ℕ) → id ≢ i → (s'.jobs i).status ≡ (s.jobs i).status

pub run_job-Ran : (o : Outcome) (s : JobScheduler) (id : ℕ) → Ran id s (run_job o s id)
unfolding run_job set_status
run_job-Ran returns_true s id = record {
  same_next = refl;
  same_queue = refl;
  same_active = refl;
  same_completed = refl;
  status_self = ground arith;
  status_at = λ i h. ground arith;
}
run_job-Ran returns_false s id = record {
  same_next = refl;
  same_queue = refl;
  same_active = refl;
  same_completed = refl;
  status_self = ground arith;
  status_at = λ i h. ground arith;
}
run_job-Ran throws s id = record {
  same_next = refl;
  same_queue = refl;
  same_active = refl;
  same_completed = refl;
  status_self = ground arith;
  status_at = λ i h. ground arith;
}

module _ (address : ℕ → ℕ) (now : ℕ) (s : JobScheduler) where
  -- A job that is taken was in the queue and due.
  pub record Taken (id : ℕ) (s' : JobScheduler) : Type 0 where
    pub popped : s' ≡ pop_job s id
    was_queued : 1 ≤ count id s.job_queue

  take_from-inverted :
      (q : List ℕ) (id : ℕ) (s' : JobScheduler)
      → take_from address now s q ≡ (s', some id)
      → (s' ≡ pop_job s id) × (1 ≤ count id q)
  unfolding take_from
  take_from-inverted [] id s' e = absurd (cc (ap (λ r. r.1) e))
  take_from-inverted (x ∷ xs) id s' e = by_late (ltb now (s.jobs (top address x xs)).scheduled_at) e
    where
      by_late :
          (late : Bool)
          → ◌≡◌ {A = JobScheduler × Option ℕ}
              (if late then (s, none) else (pop_job s (top address x xs), some (top address x xs)))
              (s', some id)
          → (s' ≡ pop_job s id) × (1 ≤ count id (x ∷ xs))
      by_late true e = absurd (cc (ap (λ r. r.1) e))
      by_late false e =
          let same : top address x xs ≡ id = some-injective _ _ (ap (λ r. r.1) e) in
          (
            sym (ap (λ r. r.0) e) ∙ ap (pop_job s) same,
            subst (λ t. 1 ≤ count t (x ∷ xs)) same (top-mem address x xs),
          )

  pub take_job-inverted :
      (id : ℕ) (s' : JobScheduler) → take_job address now s ≡ (s', some id) → Taken id s'
  unfolding take_job
  take_job-inverted id s' e =
      let r = take_from-inverted s.job_queue id s' e in record { popped = r.0; was_queued = r.1 }

module _ (c : SchedulerThreads) (v : InPlace c) where
  makes-InPlace :
      (now : ℕ) (type : JobType) (priority : JobPriority) (func delay timeout : ℕ)
      → c.scheduler.next_job_id + 1 < u64_mod
      → InPlace (record c {
        scheduler = make_job now c.scheduler type priority func delay timeout;
        made = c.scheduler.next_job_id ∷ c.made;
      })
  unfolding make_job
  makes-InPlace now type priority func delay timeout room =
      let id = c.scheduler.next_job_id in
      record {
        positive = omega arith;
        one_place = λ i. ground (arith, v.one_place i, v.positive);
        one_entry = λ i. ground (arith, v.one_entry i, v.positive);
        entered = λ i h. v.entered i h;
        is_pending = λ i h. ground (arith, v.is_pending i);
        is_running = λ i h. ground (arith, v.is_running i, v.one_place id);
        is_settled = λ i h. ground (arith, v.is_settled i, v.one_place id);
      }

  pushes-InPlace :
      (id : ℕ)
      → 1 ≤ count id c.made
      → InPlace (record c {
        scheduler = push_job c.scheduler id;
        made = remove id c.made;
        pushed = id ∷ c.pushed;
      })
  unfolding push_job
  pushes-InPlace id h = record {
    positive = v.positive;
    one_place = λ i. ground (arith, v.one_place i, count-remove i id c.made);
    one_entry = λ i. ground (arith, v.one_entry i, count-remove i id c.made);
    entered = λ i k. ground (arith, v.entered i);
    is_pending = λ i k. ground (arith, v.is_pending i, count-remove i id c.made);
    is_running = v.is_running;
    is_settled = v.is_settled;
  }

  registers-InPlace :
      (id : ℕ)
      → 1 ≤ count id c.pushed
      → InPlace (record c { scheduler = register_job c.scheduler id; pushed = remove id c.pushed })
  unfolding register_job
  registers-InPlace id h = record {
    positive = v.positive;
    one_place = v.one_place;
    one_entry = λ i.
        ground (
          arith,
          v.one_entry i,
          count-remove i id c.pushed,
          count-add i id c.scheduler.active_jobs,
        );
    entered = λ i k.
        ground (
          arith,
          v.entered i k,
          count-remove i id c.pushed,
          count-add i id c.scheduler.active_jobs,
        );
    is_pending = v.is_pending;
    is_running = v.is_running;
    is_settled = v.is_settled;
  }

  takes-InPlace :
      (id : ℕ)
      → 1 ≤ count id c.scheduler.job_queue
      → InPlace (record c { scheduler = pop_job c.scheduler id; taken = id ∷ c.taken })
  unfolding pop_job set_status
  takes-InPlace id h = record {
    positive = v.positive;
    one_place = λ i. ground (arith, v.one_place i, count-remove i id c.scheduler.job_queue);
    one_entry = v.one_entry;
    entered = λ i k. ground (arith, v.entered i, count-remove i id c.scheduler.job_queue);
    is_pending = λ i k.
        ground (arith, v.is_pending i, v.one_place i, count-remove i id c.scheduler.job_queue);
    is_running = λ i k. ground (arith, v.is_running i);
    is_settled = λ i k. ground (arith, v.is_settled i, v.one_place i);
  }

  runs-InPlace :
      (o : Outcome) (id : ℕ)
      → 1 ≤ count id c.taken
      → InPlace (record c {
        scheduler = run_job o c.scheduler id;
        taken = remove id c.taken;
        ran = id ∷ c.ran;
      })
  runs-InPlace o id h =
      let r = run_job-Ran o c.scheduler id in
      record {
        positive = omega (arith, v.positive, r.same_next);
        one_place = λ i.
            rw (r.same_next, r.same_queue, r.same_completed)
              (ground (arith, v.one_place i, count-remove i id c.taken));
        one_entry = λ i. rw (r.same_next, r.same_active) (v.one_entry i);
        entered = λ i.
            rw (r.same_queue, r.same_active)
              (λ k. ground (arith, v.entered i, count-remove i id c.taken));
        is_pending = λ i. rw (r.same_queue) (λ k.
            r.status_at i (λ e. absurd (ground (arith, v.one_place i, ap (λ j. count j c.taken) e)))
            ∙ v.is_pending i k);
        is_running = λ i k.
            r.status_at i (λ e. absurd (
              ground
                (arith, k, v.one_place i, count-remove i id c.taken, ap (λ j. count j c.taken) e)))
            ∙ v.is_running i (omega (arith, k, count-remove i id c.taken));
        is_settled = λ i. rw (r.same_completed) (λ k. elim (ℕ_discrete id i) [
          | yes e ↦
              subst
                (λ j.
                  ((run_job o c.scheduler id).jobs j).status ≡ completed
                  ⊎ (((run_job o c.scheduler id).jobs j).status ≡ failed))
                e r.status_self
          | no n ↦ rw (r.status_at i n) (v.is_settled i (ground arith))
        ]);
      }

  finishes-InPlace :
      (id : ℕ)
      → 1 ≤ count id c.ran
      → InPlace (record c { scheduler = finish_job c.scheduler id; ran = remove id c.ran })
  unfolding finish_job
  finishes-InPlace id h = record {
    positive = v.positive;
    one_place = λ i. ground (
      arith,
      v.one_place i,
      v.one_place id,
      count-remove i id c.ran,
      count-add i id c.scheduler.completed_jobs,
    );
    one_entry = λ i. ground (arith, v.one_entry i, count-remove i id c.scheduler.active_jobs);
    entered = λ i k. ground (
      arith,
      v.entered i,
      v.one_place i,
      count-remove i id c.ran,
      count-remove i id c.scheduler.active_jobs,
    );
    is_pending = v.is_pending;
    is_running = v.is_running;
    is_settled = λ i k.
        ground (
          arith,
          v.is_settled i,
          count-remove i id c.ran,
          count-add i id c.scheduler.completed_jobs,
        );
  }

  pub done_count-cleans :
      (now max_age i : ℕ)
      → count i (drop_old now max_age c.scheduler.jobs c.scheduler.completed_jobs)
          + count i (old_ids now max_age c.scheduler.jobs c.scheduler.completed_jobs ++ c.cleaned)
        ≡ done_count c i
  done_count-cleans now max_age i =
      let s = c.scheduler in
      omega (
        arith,
        count-append i (old_ids now max_age s.jobs s.completed_jobs) c.cleaned,
        count-drop_old i now max_age s.jobs s.completed_jobs,
      )

  cleans-InPlace :
      (now max_age : ℕ)
      → InPlace (record c {
        scheduler = cleanup_completed_jobs now c.scheduler max_age;
        cleaned = old_ids now max_age c.scheduler.jobs c.scheduler.completed_jobs ++ c.cleaned;
      })
  unfolding cleanup_completed_jobs
  cleans-InPlace now max_age =
      let same = done_count-cleans now max_age in
      record {
        positive = v.positive;
        one_place = λ i. omega (arith, v.one_place i, same i);
        one_entry = v.one_entry;
        entered = v.entered;
        is_pending = v.is_pending;
        is_running = v.is_running;
        is_settled = λ i k. v.is_settled i (omega (arith, k, same i));
      }

module _ (address : ℕ → ℕ) (call : ℕ → Outcome) where
  pub step-InPlace :
      {c c' : SchedulerThreads} → SchedulerStep address call c c' → InPlace c → InPlace c'
  unfolding start stop
  step-InPlace {c} {c'} (makes now type priority func delay timeout room) v =
      makes-InPlace c v now type priority func delay timeout room
  step-InPlace {c} {c'} (pushes id h) v = pushes-InPlace c v id h
  step-InPlace {c} {c'} (registers id h) v = registers-InPlace c v id h
  step-InPlace {c} {c'} (takes now id s e) v =
      let t = take_job-inverted address now c.scheduler id s e in
      subst (λ s'. InPlace (record c { scheduler = s'; taken = id ∷ c.taken })) (sym t.popped)
        (takes-InPlace c v id t.was_queued)
  step-InPlace {c} {c'} (runs id h) v =
      runs-InPlace c v (call (c.scheduler.jobs id).execute_func) id h
  step-InPlace {c} {c'} (finishes id h) v = finishes-InPlace c v id h
  step-InPlace {c} {c'} (cleans now max_age) v = cleans-InPlace c v now max_age
  step-InPlace {c} {c'} (recurs recurring) v = record {
    positive = v.positive;
    one_place = v.one_place;
    one_entry = v.one_entry;
    entered = v.entered;
    is_pending = v.is_pending;
    is_running = v.is_running;
    is_settled = v.is_settled;
  }
  step-InPlace {c} {c'} starts v = record {
    positive = v.positive;
    one_place = v.one_place;
    one_entry = v.one_entry;
    entered = v.entered;
    is_pending = v.is_pending;
    is_running = v.is_running;
    is_settled = v.is_settled;
  }
  step-InPlace {c} {c'} stops v = record {
    positive = v.positive;
    one_place = v.one_place;
    one_entry = v.one_entry;
    entered = v.entered;
    is_pending = v.is_pending;
    is_running = v.is_running;
    is_settled = v.is_settled;
  }

  pub steps-InPlace :
      {c c' : SchedulerThreads} → SchedulerSteps address call c c' → InPlace c → InPlace c'
  steps-InPlace {c} {c'} none_made v = v
  steps-InPlace {c} {c'} (one_more s rest) v = steps-InPlace rest (step-InPlace s v)

  -- Whatever steps the threads of a new scheduler make, as long as the 64-bit counter of ids does not
  -- wrap around: each id that was given out is in one place, that is made and not yet queued, queued,
  -- taken, run, or completed (and perhaps dropped by a clean-up since), and no other id is anywhere;
  -- a job that is queued or with a worker is active, unless scheduleJob has yet to enter it; a job is
  -- PENDING until it is taken, RUNNING until its function is done, and COMPLETED or FAILED after that.
  pub steps-idle_threads :
      (jobs : ℕ → Job) {c : SchedulerThreads}
      → SchedulerSteps address call (idle_threads jobs) c
      → InPlace c
  steps-idle_threads jobs {c} steps = steps-InPlace steps (idle_threads-InPlace jobs)
