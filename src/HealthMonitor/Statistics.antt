-- ===== src/HealthMonitor/Statistics.antt =====
-- getStats of src/health_monitor.cpp, and the names of the components and statuses.
use custom_database.Base.{ℕ, ◌+◌, ◌≡◌, String, [], ◌∷◌, arith, length}
use custom_database.Statistics.{Double, nought, percentage}
use custom_database.HealthMonitor.{HealthMonitor}
use custom_database.HealthMonitor.Status.{
  ComponentType, wal_manager, page_cache, writer_queue, job_scheduler, version_manager,
  checkpoint_manager, btree_engine, HealthStatus, healthy, warning, critical, failed,
}
use custom_database.HealthMonitor.Reports.{Components}

pub record HealthStats (W : Type 0) : Type 0 where
  pub total_components : ℕ
  pub healthy_components : ℕ
  pub warning_components : ℕ
  pub critical_components : ℕ
  pub failed_components : ℕ
  pub recovery_attempts : ℕ
  pub successful_recoveries : ℕ
  pub recovery_success_rate : W
  pub overall_status : HealthStatus
  pub last_health_change : ℕ

-- The local variables of getStats that count.
pub record Tally : Type 0 where
  pub healthy_count : ℕ
  pub warning_count : ℕ
  pub critical_count : ℕ
  pub failed_count : ℕ

-- The switch.
unfoldable pub count_status : HealthStatus → Tally → Tally
count_status healthy t = record t { healthy_count = t.healthy_count + 1 }
count_status warning t = record t { warning_count = t.warning_count + 1 }
count_status critical t = record t { critical_count = t.critical_count + 1 }
count_status failed t = record t { failed_count = t.failed_count + 1 }

-- The loop.
unfoldable pub count_components : {D : Type 0} → Components D → Tally → Tally
count_components [] t = t
count_components ((type, c) ∷ rest) t = count_components rest (count_status c.status t)

unfoldable pub get_stats :
    {D : Type 0} {W : Type 0} ⦃d : Double W⦄ → HealthMonitor D → HealthStats W
get_stats m =
    let t =
      count_components m.components
        (record { healthy_count = 0; warning_count = 0; critical_count = 0; failed_count = 0 }) in
    record {
      total_components = length m.components;
      healthy_components = t.healthy_count;
      warning_components = t.warning_count;
      critical_components = t.critical_count;
      failed_components = t.failed_count;
      recovery_attempts = m.recovery_attempts;
      successful_recoveries = m.successful_recoveries;
      recovery_success_rate = percentage nought m.successful_recoveries m.recovery_attempts;
      overall_status = m.overall_health;
      last_health_change = m.last_health_change;
    }

-- Each component is counted once.
pub count_components-total :
    {D : Type 0} (cs : Components D) (t : Tally)
    → let t' = count_components cs t in
      t'.healthy_count + t'.warning_count + t'.critical_count + t'.failed_count
      ≡ t.healthy_count + t.warning_count + t.critical_count + t.failed_count + length cs
unfolding count_components count_status
count_components-total [] t = omega arith
count_components-total ((type, c) ∷ rest) t =
    ground (arith, count_components-total rest (count_status c.status t))

unfoldable pub component_type_to_string : ComponentType → String
component_type_to_string wal_manager = "WAL_MANAGER"
component_type_to_string page_cache = "PAGE_CACHE"
component_type_to_string writer_queue = "WRITER_QUEUE"
component_type_to_string job_scheduler = "JOB_SCHEDULER"
component_type_to_string version_manager = "VERSION_MANAGER"
component_type_to_string checkpoint_manager = "CHECKPOINT_MANAGER"
component_type_to_string btree_engine = "BTREE_ENGINE"

unfoldable pub health_status_to_string : HealthStatus → String
health_status_to_string healthy = "HEALTHY"
health_status_to_string warning = "WARNING"
health_status_to_string critical = "CRITICAL"
health_status_to_string failed = "FAILED"
