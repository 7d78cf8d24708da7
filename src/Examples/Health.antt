-- ===== src/Examples/Health.antt =====
-- Examples of the health monitor: a cache component with a critical metric, and one that has failed
-- twice and has a recovery action.
use custom_database.Base.{ℕ, ℕ_discrete, ◌≤◌, ◌≡◌, refl, [], ◌∷◌, some, false, arith, All}
use custom_database.Base.Assoc
use custom_database.HealthMonitor.{
  HealthMetric, ComponentHealth, HealthMonitor, succeeded, not_recovered, returns, put_component,
  find_component,
}
use custom_database.HealthMonitor.Status.{page_cache, type_dec, severity, healthy, critical}
use custom_database.HealthMonitor.Reports.{
  perform_health_check, get_component_health, note_error, report_error, count_attempt,
  attempt_recovery, should_attempt_recovery, cooled_down, alert,
}
use custom_database.HealthMonitor.Checks.{perform_health_check-worst}
use custom_database.HealthMonitor.Recovery.{report_error-cooldown}

abbrev hit_rate : HealthMetric ℕ
hit_rate = record {
  name = "hit_rate";
  value = 95;
  warning_threshold = 80;
  critical_threshold = 90;
  last_updated = 1000;
  status = critical;
}

abbrev component : ComponentHealth ℕ
component = record {
  name = "cache";
  status = critical;
  metrics = hit_rate ∷ [];
  last_check = 0;
  last_error = "lost";
  consecutive_failures = 2;
}

abbrev monitor : HealthMonitor ℕ
monitor = record {
  components = (page_cache, component) ∷ [];
  recovery_actions = (page_cache, 1) ∷ [];
  recovery_attempts = 0;
  successful_recoveries = 0;
  overall_health = healthy;
  last_health_change = 0;
  has_callback = false;
  alerts = [];
  max_consecutive_failures = 3;
  recovery_cooldown = 300000;
  last_recovery_attempt = [];
}

found : find_component monitor page_cache ≡ some component
unfolding Assoc.lookup type_dec ℕ_discrete
found = refl

perform_health_check-worst_example :
    All
      (λ x.
        severity x.status
        ≤ severity (get_component_health (perform_health_check 2000 monitor) page_cache))
      component.metrics
    × ((bound : ℕ)
        → All (λ x. severity x.status ≤ bound) component.metrics
        → severity (get_component_health (perform_health_check 2000 monitor) page_cache) ≤ bound)
perform_health_check-worst_example =
    perform_health_check-worst 2000 monitor page_cache {c = component} found (omega arith, tt)

abbrev old : HealthMetric ℕ
old = record hit_rate { last_updated = 0; status = healthy }

abbrev attempted : HealthMonitor ℕ
attempted = count_attempt 2000 (note_error monitor page_cache component "lost again") page_cache

report_error-cooldown_example :
    (m'' : HealthMonitor ℕ) × (report_error (λ a. succeeded) 301999 attempted page_cache "lost"
      ≡ returns m'')
    × (m''.recovery_attempts ≡ attempted.recovery_attempts)
    × (m''.last_recovery_attempt ≡ attempted.last_recovery_attempt)
unfolding report_error attempt_recovery should_attempt_recovery cooled_down note_error alert
    put_component count_attempt Assoc.lookup Assoc.insert type_dec ℕ_discrete
report_error-cooldown_example =
    report_error-cooldown (λ a. not_recovered) (λ a. succeeded) 2000 301999 monitor attempted
      page_cache "lost again" "lost" refl (λ e. absurd (omega (arith, e))) (omega arith)
