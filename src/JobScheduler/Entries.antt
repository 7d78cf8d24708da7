-- ===== src/JobScheduler/Entries.antt =====
-- The entries of the recurring jobs of src/job_scheduler.cpp, by their names.
use custom_database.Base.{
  ℕ, ◌+◌, ◌≡◌, ◌≢◌, refl, sym, ap, ◌∙◌, String, Bool, true, none, some, ite, if_pos, if_neg,
  string_dec, by_option,
}
use custom_database.Base.Assoc
use custom_database.JobScheduler.{JobScheduler, RecurringJobInfo, JobPriority}
use custom_database.JobScheduler.Recurring.{
  find_recurring, put_recurring, add_recurring_job, remove_recurring_job,
}

-- The entry that addRecurringJob makes.
abbrev pub entry : ℕ → ℕ → ℕ → JobPriority → RecurringJobInfo
entry now interval func priority = record {
  interval = interval;
  next_execution = now + interval;
  job_func = func;
  priority = priority;
  enabled = true;
}

pub find-add_new :
    (now : ℕ) (s : JobScheduler) (name : String) (interval func : ℕ) (p : JobPriority) (q : String)
    → find_recurring s name ≡ none
    → find_recurring (add_recurring_job now s name interval func p).0 q
      ≡ ite (string_dec name q) (some (entry now interval func p)) (find_recurring s q)
unfolding add_recurring_job put_recurring
find-add_new now s name interval func p q h =
    by_option
      (λ (r : JobScheduler × Bool).
        find_recurring r.0 q
        ≡ ite (string_dec name q) (some (entry now interval func p)) (find_recurring s q))
      (find_recurring s name)
      (λ e. Assoc.lookup-insert string_dec name q (entry now interval func p) s.recurring_jobs)
      (λ a e. absurd (cc))

-- Adding an entry changes no entry of another name.
pub find-add_other :
    (now : ℕ) (s : JobScheduler) (name : String) (interval func : ℕ) (p : JobPriority) (q : String)
    → name ≢ q
    → find_recurring (add_recurring_job now s name interval func p).0 q ≡ find_recurring s q
unfolding add_recurring_job put_recurring
find-add_other now s name interval func p q h =
    by_option (λ (r : JobScheduler × Bool). find_recurring r.0 q ≡ find_recurring s q)
      (find_recurring s name)
      (λ e.
        Assoc.lookup-insert string_dec name q (entry now interval func p) s.recurring_jobs
        ∙ if_neg (string_dec name q) h _ _)
      (λ a e. refl)

pub find-remove :
    (s : JobScheduler) (name q : String)
    → find_recurring (remove_recurring_job s name).0 q
      ≡ ite (string_dec name q) none (find_recurring s q)
unfolding remove_recurring_job
find-remove s name q =
    by_option
      (λ (r : JobScheduler × Bool).
        find_recurring r.0 q ≡ ite (string_dec name q) none (find_recurring s q))
      (find_recurring s name)
      (λ e. elim (string_dec name q) [
        | yes p ↦ ap (find_recurring s) (sym p) ∙ e ∙ sym (if_pos (string_dec name q) p _ _)
        | no n ↦ sym (if_neg (string_dec name q) n _ _)
      ])
      (λ a e. Assoc.lookup-erase string_dec name q s.recurring_jobs)

pub find-remove_self :
    (s : JobScheduler) (name : String) → find_recurring (remove_recurring_job s name).0 name ≡ none
find-remove_self s name = find-remove s name name ∙ if_pos (string_dec name name) refl _ _

pub find-remove_other :
    (s : JobScheduler) (name q : String)
    → name ≢ q
    → find_recurring (remove_recurring_job s name).0 q ≡ find_recurring s q
find-remove_other s name q h = find-remove s name q ∙ if_neg (string_dec name q) h _ _
