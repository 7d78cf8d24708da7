-- ===== src/HealthMonitor/Calls.antt =====
-- Sequences of calls on the monitor of src/health_monitor.cpp, each with its time.
use custom_database.Base.{ℕ, String, Bool, List, [], ◌∷◌}
use custom_database.Statistics.{Double, nought}
use custom_database.HealthMonitor.{
  Attempt, HealthMonitor, Outcome, returns, locks_again, set_alert_callback,
  set_max_consecutive_failures, set_recovery_cooldown, register_component, add_metric,
  register_recovery_action, update_metric,
}
use custom_database.HealthMonitor.Status.{ComponentType}
use custom_database.HealthMonitor.Reports.{perform_health_check, report_recovery, report_error}

pub data Call (W : Type 0) : Type 0 where
  registers : ComponentType → String → Call W
  adds_metric : ComponentType → String → W → W → Call W
  registers_action : ComponentType → ℕ → Call W
  updates : ComponentType → String → W → Call W
  errs : ComponentType → String → Call W
  recovers : ComponentType → Call W
  checks : Call W
  sets_callback : Bool → Call W
  sets_max_failures sets_cooldown : ℕ → Call W

module _ {W : Type 0} ⦃d : Double W⦄ (call : ℕ → Attempt) where
  unfoldable pub perform : HealthMonitor W → ℕ × Call W → Outcome (HealthMonitor W)
  perform m (now, Call.registers type name) = returns (register_component now m type name)
  perform m (now, Call.adds_metric type name warn crit) =
      returns (add_metric now nought m type name warn crit)
  perform m (now, Call.registers_action type action) =
      returns (register_recovery_action m type action)
  perform m (now, Call.updates type name value) = returns (update_metric d.ge now m type name value)
  perform m (now, Call.errs type message) = report_error call now m type message
  perform m (now, Call.recovers type) = returns (report_recovery m type)
  perform m (now, Call.checks) = returns (perform_health_check now m)
  perform m (now, Call.sets_callback set) = returns (set_alert_callback m set)
  perform m (now, Call.sets_max_failures n) = returns (set_max_consecutive_failures m n)
  perform m (now, Call.sets_cooldown cooldown) = returns (set_recovery_cooldown m cooldown)

  -- The calls up to the first that does not return.
  unfoldable pub run : HealthMonitor W → List (ℕ × Call W) → Outcome (HealthMonitor W)
  run m [] = returns m
  run m (c ∷ cs) = elim (perform m c) [ returns m' ↦ run m' cs | locks_again m' ↦ locks_again m' ]
