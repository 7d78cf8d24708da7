-- ===== src/JobScheduler/Progress.antt =====
-- The loop of a worker in src/job_scheduler.cpp, on jobs that are ready and on jobs that are not, while
-- no other thread makes a step.
use custom_database.Base.{
  ℕ, ◌≤◌, ◌<◌, ◌≡◌, ◌≢◌, refl, sym, ap, ◌∙◌, subst, true, List, [], ◌∷◌, arith, List-cases, inl,
  inr, if◌then◌else◌, ◌⊎◌, ℕ_discrete, by_test, length, All,
}
use custom_database.Base.Count.{count, count-remove, length-remove}
use custom_database.JobScheduler.{JobScheduler, Outcome}
use custom_database.JobScheduler.Jobs.{top, worker_round, worker_thread}
use custom_database.JobScheduler.Queue.{top-mem, top-upper, round-empty, round-late, round-ready}
use custom_database.JobScheduler.Execution.{
  status_of, IsDone, Executed, execute_job-Executed, IsDone-Executed, IsDone-kept,
}

module _ (call : ℕ → Outcome) where
  -- What holds of `s'` when the queue of `s` has been worked off.
  record Drained (s s' : JobScheduler) : Type 0 where
    empty : s'.job_queue ≡ []
    same_func : (i : ℕ) → (s'.jobs i).execute_func ≡ (s.jobs i).execute_func
    all_done : (i : ℕ) → (1 ≤ count i s.job_queue) ⊎ IsDone call s i → IsDone call s' i

  next-Drained :
      (id : ℕ) (s s' : JobScheduler) {z : JobScheduler}
      → Executed call id s s'
      → Drained s' z
      → Drained s z
  next-Drained id s s' x d = record {
    empty = d.empty;
    same_func = λ i. d.same_func i ∙ x.same_func i;
    all_done = λ i c. elim c [
      | inl h ↦ elim (ℕ_discrete id i) [
        | yes p ↦ d.all_done i (inr (subst (IsDone call s') p (IsDone-Executed call id s s' x)))
        | no n ↦
            d.all_done i
              (inl (ground (arith, ap (count i) x.queue_is, count-remove i id s.job_queue)))
      ]
      | inr e ↦ d.all_done i (inr (IsDone-kept call id i s s' x e))
    ];
  }

  module _ (address : ℕ → ℕ) where
    goes :
        (now : ℕ) (times : List ℕ) (s : JobScheduler)
        → s.is_running ≡ true
        → worker_thread address call times (worker_round address call now s)
          ≡ worker_thread address call (now ∷ times) s
    unfolding worker_thread
    goes now times s on = sym (
        ap
          (λ b. if b then worker_thread address call times (worker_round address call now s) else s)
          on)

    -- The only job of the queue with the greatest address is on top of it.
    top-greatest :
        (id x : ℕ) (xs : List ℕ)
        → 1 ≤ count id (x ∷ xs)
        → ((i : ℕ) → 1 ≤ count i (x ∷ xs) → i ≢ id → address i < address id)
        → top address x xs ≡ id
    top-greatest id x xs here greatest = elim (ℕ_discrete (top address x xs) id) [
      | yes e ↦ e
      | no n ↦ absurd (
          omega (
            arith,
            greatest (top address x xs) (top-mem address x xs) n,
            top-upper address x xs id here,
          ))
    ]

    -- As long as the job of the queue with the greatest address is not ready, a worker does nothing:
    -- all the other jobs of the queue wait for it, ready or not, whatever their priorities.
    pub worker_thread-blocked :
        (times : List ℕ) (s : JobScheduler) (id : ℕ)
        → 1 ≤ count id s.job_queue
        → ((i : ℕ) → 1 ≤ count i s.job_queue → i ≢ id → address i < address id)
        → All (λ now. now < (s.jobs id).scheduled_at) times
        → worker_thread address call times s ≡ s
    unfolding worker_thread
    worker_thread-blocked [] s id here greatest late = refl
    worker_thread-blocked (now ∷ times) s id here greatest late = elim (List-cases s.job_queue) [
      | inl e ↦ absurd (omega (arith, here, ap (count id) e))
      | inr (x, xs, e) ↦
          let on_top : top address x xs ≡ id =
            top-greatest id x xs (subst (λ q. 1 ≤ count id q) e here)
              (subst (λ q. (i : ℕ) → 1 ≤ count i q → i ≢ id → address i < address id) e greatest) in
          by_test (λ t. t ≡ s) s.is_running
            (λ on.
              ap (worker_thread address call times)
                (round-late address call now s x xs e (rw (on_top) (ground (arith, late.0))))
              ∙ worker_thread-blocked times s id here greatest late.1)
            (λ off. refl)
    ]

  module _ (address : ℕ → ℕ) (deadline : ℕ) where
    round-Executed :
        (now : ℕ) (s : JobScheduler) (x : ℕ) (xs : List ℕ)
        → s.job_queue ≡ x ∷ xs
        → ((i : ℕ) → 1 ≤ count i s.job_queue → (s.jobs i).scheduled_at ≤ deadline)
        → deadline ≤ now
        → Executed call (top address x xs) s (worker_round address call now s)
    round-Executed now s x xs e ready h =
        subst (Executed call (top address x xs) s)
          (sym (
            round-ready address call now s x xs e (
              ground (
                arith,
                ready (top address x xs),
                ap (count (top address x xs)) e,
                top-mem address x xs,
              ))))
          (execute_job-Executed call s (top address x xs))

    worker_thread-Drained :
        (times : List ℕ) (s : JobScheduler)
        → s.is_running ≡ true
        → ((i : ℕ) → 1 ≤ count i s.job_queue → (s.jobs i).scheduled_at ≤ deadline)
        → All (λ now. deadline ≤ now) times
        → length s.job_queue ≤ length times
        → Drained s (worker_thread address call times s)
    unfolding worker_thread
    worker_thread-Drained [] s on ready late enough = elim (List-cases s.job_queue) [
      | inl e ↦ record {
        empty = e;
        same_func = λ i. refl;
        all_done = λ i c. elim c [ inl h ↦ absurd (omega (arith, ap (count i) e)) | inr d ↦ d ];
      }
      | inr (x, xs, e) ↦ absurd (omega (arith, ap length e))
    ]
    worker_thread-Drained (now ∷ times) s on ready late enough = elim (List-cases s.job_queue) [
      | inl e ↦
          subst (Drained s)
            (ap (worker_thread address call times) (sym (round-empty address call now s e))
              ∙ goes address now times s on)
            (worker_thread-Drained times s on ready late.1 (omega (arith, ap length e)))
      | inr (x, xs, e) ↦
          let ex = round-Executed now s x xs e ready late.0 in
          let s' = worker_round address call now s in
          let id = top address x xs in
          subst (Drained s) (goes address now times s on) (
            next-Drained id s s' ex (
              worker_thread-Drained times (worker_round address call now s) (ex.same_running ∙ on)
                (λ i h. ground (
                  arith,
                  ready i,
                  ex.same_schedule i,
                  ap (count i) ex.queue_is,
                  count-remove i id s.job_queue,
                ))
                late.1
                (ground (
                  arith,
                  enough,
                  ap length ex.queue_is,
                  length-remove id s.job_queue,
                  top-mem address x xs,
                  ap (count id) e,
                ))))
    ]

    -- A running worker whose rounds are at least as many as the jobs of the queue, and none earlier
    -- than any of these jobs is due, leaves the queue empty and every job of it completed, COMPLETED
    -- if its function returns true and FAILED if it returns false or throws, whatever the addresses
    -- and the priorities.
    pub worker_thread-drains :
        (times : List ℕ) (s : JobScheduler)
        → s.is_running ≡ true
        → ((i : ℕ) → 1 ≤ count i s.job_queue → (s.jobs i).scheduled_at ≤ deadline)
        → All (λ now. deadline ≤ now) times
        → length s.job_queue ≤ length times
        → let s' = worker_thread address call times s in
          (s'.job_queue ≡ [])
          × ((i : ℕ)
              → 1 ≤ count i s.job_queue
              → (1 ≤ count i s'.completed_jobs)
                × ((s'.jobs i).status ≡ status_of (call (s.jobs i).execute_func)))
    worker_thread-drains times s on ready late enough =
        let d = worker_thread-Drained times s on ready late enough in
        (
          d.empty,
          λ i h.
              let e = d.all_done i (inl h) in
              (e.listed, e.status_is ∙ ap (λ f. status_of (call f)) (d.same_func i)),
        )
