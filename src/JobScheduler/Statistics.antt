-- ===== src/JobScheduler/Statistics.antt =====
-- getStats and isHealthy of src/job_scheduler.cpp.
use custom_database.Base.{ℕ, ◌≡◌, ap, ◌∙◌, Bool, false, arith, length}
use custom_database.Statistics.{Double, nought, IsRounded, percentage}
use custom_database.JobScheduler.{JobScheduler}

pub record SchedulerStats (W : Type 0) : Type 0 where
  pub pending_jobs : ℕ
  pub active_jobs : ℕ
  pub total_executed : ℕ
  pub successful : ℕ
  pub failed : ℕ
  pub success_rate : W
  pub worker_threads : ℕ
  pub is_healthy : Bool

module _ {W : Type 0} ⦃d : Double W⦄ where
  unfoldable pub get_stats : ℕ → JobScheduler → SchedulerStats W
  get_stats num_workers s =
      let success_rate = percentage nought s.successful_jobs s.total_jobs_executed in
      record {
        pending_jobs = length s.job_queue;
        active_jobs = length s.active_jobs;
        total_executed = s.total_jobs_executed;
        successful = s.successful_jobs;
        failed = s.failed_jobs;
        success_rate = success_rate;
        worker_threads = num_workers;
        is_healthy = d.ge success_rate (d.hundredths 9_998);
      }

unfoldable pub is_healthy : (W : Type 0) ⦃d : Double W⦄ → ℕ → JobScheduler → Bool
is_healthy W num_workers s = (get_stats {W = W} num_workers s).is_healthy

-- isHealthy returns false for a scheduler that has executed no job.
pub is_healthy-idle :
    (W : Type 0) ⦃d : Double W⦄
    → IsRounded W
    → (num_workers : ℕ) (s : JobScheduler) → s.total_jobs_executed ≡ 0
    → is_healthy W num_workers s ≡ false
unfolding is_healthy get_stats percentage
is_healthy-idle W ⦃d⦄ l num_workers s e =
    ap (λ (t : ℕ). d.ge (percentage nought s.successful_jobs t) (d.hundredths 9_998)) e
    ∙ l.ge-hundredths 0 9_998 (omega arith) (omega arith)
