-- ===== src/HealthMonitor/Schedule.antt =====
-- src/health_monitor.cpp: start and stop, which add a job to the scheduler and take it away.
-- The pointer to the scheduler may be null; `check_func` is the handle of the recurring check.
use custom_database.Base.{
  ℕ, ◌≡◌, refl, ap, ◌∙◌, if_pos, string_dec, String, true, Option, none, some, if◌then◌else◌,
}
use custom_database.JobScheduler.{JobScheduler, high}
use custom_database.JobScheduler.Entries.{entry, find-add_new, find-remove_self}
use custom_database.JobScheduler.Recurring.{find_recurring, add_recurring_job, remove_recurring_job}

-- The members that start and stop read.
pub record Schedule : Type 0 where
  pub health_check_job_name : String
  pub check_interval : ℕ

unfoldable pub start : ℕ → ℕ → Schedule → Option JobScheduler → Option JobScheduler
start now check_func m none = none
start now check_func m (some s) =
    if s.is_running
    then some (add_recurring_job now s m.health_check_job_name m.check_interval check_func high).0
    else some s

unfoldable pub stop : Schedule → Option JobScheduler → Option JobScheduler
stop m none = none
stop m (some s) = some (remove_recurring_job s m.health_check_job_name).0

-- On a running scheduler that has no job of the monitor's name, start adds the recurring check, due
-- one interval from now, and a stop after that takes it away.
pub stop-start :
    (now check_func : ℕ) (m : Schedule) (s : JobScheduler)
    → s.is_running ≡ true
    → find_recurring s m.health_check_job_name ≡ none
    → (s₁ s₂ : JobScheduler) × (start now check_func m (some s) ≡ some s₁)
      × (stop m (some s₁) ≡ some s₂)
      × (find_recurring s₁ m.health_check_job_name
          ≡ some (entry now m.check_interval check_func high))
      × (find_recurring s₂ m.health_check_job_name ≡ none)
unfolding start stop
stop-start now check_func m s on absent =
    let name = m.health_check_job_name in
    let s₁ = (add_recurring_job now s name m.check_interval check_func high).0 in
    (
      s₁,
      (remove_recurring_job s₁ name).0,
      ap (λ b. if b then some s₁ else some s) on,
      refl,
      find-add_new now s name m.check_interval check_func high name absent
          ∙ if_pos (string_dec name name) refl _ _,
      find-remove_self s₁ name,
    )
