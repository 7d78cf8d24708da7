-- ===== src/JobScheduler/Queue.antt =====
-- The job on top of the priority queue of src/job_scheduler.cpp, and the sets of ids.
use custom_database.Base.{
  ℕ, ◌+◌, ◌≤◌, ◌≡◌, refl, sym, ap, ◌∙◌, subst, true, false, List, [], ◌∷◌, none, some, arith, ltb,
  Bool-cases, List-cases, inl, inr, if◌then◌else◌,
}
use custom_database.Base.Count.{count, one_if}
use custom_database.JobScheduler.{
  JobScheduler, Outcome, returns_true, returns_false, throws, has, add,
}
use custom_database.JobScheduler.Jobs.{
  top, run_job, finish_job, take_from, take_job, set_status, pop_job, execute_job, execute_taken,
  worker_round,
}

pub count-add :
    (q id : ℕ) (ids : List ℕ)
    → count q (add id ids) ≡ count q ids + (if has id ids then 0 else one_if id q)
unfolding add
count-add q id ids = ground arith

module _ (address : ℕ → ℕ) where
  top-greater :
      (x y : ℕ) (ys : List ℕ)
      → ltb (address x) (address y) ≡ true
      → top address x (y ∷ ys) ≡ top address y ys
  unfolding top
  top-greater x y ys e = ap (λ b. top address (if b then y else x) ys) e

  top-kept :
      (x y : ℕ) (ys : List ℕ)
      → ltb (address x) (address y) ≡ false
      → top address x (y ∷ ys) ≡ top address x ys
  unfolding top
  top-kept x y ys e = ap (λ b. top address (if b then y else x) ys) e

  -- The job on top is in the queue.
  pub top-mem : (x : ℕ) (xs : List ℕ) → 1 ≤ count (top address x xs) (x ∷ xs)
  unfolding top
  top-mem x [] = ground arith
  top-mem x (y ∷ ys) = elim (Bool-cases (ltb (address x) (address y))) [
    | inl e ↦
        subst (λ t. 1 ≤ count t (x ∷ y ∷ ys)) (sym (top-greater x y ys e))
          (omega (arith, top-mem y ys))
    | inr e ↦
        subst (λ t. 1 ≤ count t (x ∷ y ∷ ys)) (sym (top-kept x y ys e))
          (omega (arith, top-mem x ys))
  ]

  -- No job of the queue has a greater address than the one on top.
  pub top-upper :
      (x : ℕ) (xs : List ℕ) (i : ℕ) → 1 ≤ count i (x ∷ xs) → address i ≤ address (top address x xs)
  unfolding top
  top-upper x [] i h = ground arith
  top-upper x (y ∷ ys) i h = elim (Bool-cases (ltb (address x) (address y))) [
    | inl e ↦
        subst (λ t. address i ≤ address t) (sym (top-greater x y ys e))
          (ground (arith, top-upper y ys i, top-upper y ys y))
    | inr e ↦
        subst (λ t. address i ≤ address t) (sym (top-kept x y ys e))
          (ground (arith, top-upper x ys i, top-upper x ys x))
  ]

-- The counter and the recurring jobs, which workers do not touch.
pub record Kept (s s' : JobScheduler) : Type 0 where
  pub next : s'.next_job_id ≡ s.next_job_id
  pub recurring : s'.recurring_jobs ≡ s.recurring_jobs

finish-Kept :
    (o : Outcome) (s : JobScheduler) (id : ℕ) → Kept s (finish_job (run_job o (pop_job s id) id) id)
unfolding finish_job run_job pop_job set_status
finish-Kept returns_true s id = record { next = refl; recurring = refl }
finish-Kept returns_false s id = record { next = refl; recurring = refl }
finish-Kept throws s id = record { next = refl; recurring = refl }

module _ (address : ℕ → ℕ) (call : ℕ → Outcome) (now : ℕ) (s : JobScheduler) where
  pub round-empty : s.job_queue ≡ [] → worker_round address call now s ≡ s
  unfolding worker_round take_job take_from execute_taken
  round-empty e = ap (λ q. execute_taken call (take_from address now s q)) e

  pub round-late :
      (x : ℕ) (xs : List ℕ)
      → s.job_queue ≡ x ∷ xs
      → ltb now (s.jobs (top address x xs)).scheduled_at ≡ true
      → worker_round address call now s ≡ s
  unfolding worker_round take_job take_from execute_taken
  round-late x xs e late =
      ap (λ q. execute_taken call (take_from address now s q)) e
      ∙ ap
          (λ b.
            execute_taken call
              (if b then (s, none) else (pop_job s (top address x xs), some (top address x xs))))
          late

  pub round-ready :
      (x : ℕ) (xs : List ℕ)
      → s.job_queue ≡ x ∷ xs
      → ltb now (s.jobs (top address x xs)).scheduled_at ≡ false
      → worker_round address call now s
        ≡ execute_job call (pop_job s (top address x xs)) (top address x xs)
  unfolding worker_round take_job take_from execute_taken
  round-ready x xs e ready =
      ap (λ q. execute_taken call (take_from address now s q)) e
      ∙ ap
          (λ b.
            execute_taken call
              (if b then (s, none) else (pop_job s (top address x xs), some (top address x xs))))
          ready

  -- What holds of the scheduler, and after the job on top is executed, holds after a round.
  pub round-induction :
      (P : JobScheduler → Type 0)
      → P s
      → ((id : ℕ)
          → 1 ≤ count id s.job_queue
          → (s.jobs id).scheduled_at ≤ now
          → P (execute_job call (pop_job s id) id))
      → P (worker_round address call now s)
  round-induction P kept executed = elim (List-cases s.job_queue) [
    | inl e ↦ subst P (sym (round-empty e)) kept
    | inr (x, xs, e) ↦ elim (Bool-cases (ltb now (s.jobs (top address x xs)).scheduled_at)) [
      | inl late ↦ subst P (sym (round-late x xs e late)) kept
      | inr ready ↦ subst P (sym (round-ready x xs e ready)) (
          executed (top address x xs)
            (subst (λ q. 1 ≤ count (top address x xs) q) (sym e) (top-mem address x xs))
            (ground arith))
    ]
  ]

  pub round-Kept : Kept s (worker_round address call now s)
  unfolding execute_job
  round-Kept =
      round-induction (Kept s) (record { next = refl; recurring = refl })
        (λ id h ready. finish-Kept (call ((pop_job s id).jobs id).execute_func) s id)
