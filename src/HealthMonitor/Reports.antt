-- ===== src/HealthMonitor/Reports.antt =====
-- src/health_monitor.cpp: the check of all components, the reports of errors and recoveries, and
-- the queries.
use custom_database.Base.{
  ℕ, ◌+◌, ◌-◌, ◌%◌, String, Bool, true, false, List, [], ◌∷◌, ◌++◌, Option, none, some, ltb, leb,
  ◌==◌, not, ◌&&◌, if◌then◌else◌,
}
use custom_database.Base.Assoc
use custom_database.HealthMonitor.{
  Attempt, ComponentHealth, HealthMonitor, Outcome, succeeded, not_recovered, threw, returns,
  locks_again, check_component, find_component, put_component, size_mod,
}
use custom_database.HealthMonitor.Status.{
  ComponentType, type_dec, HealthStatus, healthy, critical, failed, severity, is_healthy, worse,
}

-- `if (alert_callback) alert_callback(type, status, message)`
unfoldable pub alert :
    {D : Type 0} → HealthMonitor D → ComponentType → HealthStatus → String → HealthMonitor D
alert m type status message =
    if m.has_callback
    then record m {
      alerts = m.alerts ++ record { type = type; status = status; message = message } ∷ [];
    }
    else m

abbrev pub Components : Type 0 → Type 0
Components D = List (ComponentType × ComponentHealth D)

module _ {D : Type 0} where
  -- The end of checkComponent: a change of status is reported.
  unfoldable pub alert_change :
      HealthMonitor D → ComponentType → HealthStatus → HealthStatus → HealthMonitor D
  alert_change m type old new =
      if severity old == severity new then m else alert m type new "Status change detected"

  -- The loop of performHealthCheck: the components checked, and the monitor with the alerts.
  unfoldable pub check_all : ℕ → HealthMonitor D → Components D → HealthMonitor D × Components D
  check_all now m [] = (m, [])
  check_all now m ((type, c) ∷ rest) =
      let c' = check_component now c in
      let r = check_all now (alert_change m type c.status c'.status) rest in (r.0, (type, c') ∷ r.1)

  -- The loop of updateOverallHealth, from a worst status so far.
  unfoldable pub worst_component : HealthStatus → Components D → HealthStatus
  worst_component worst [] = worst
  worst_component worst ((type, c) ∷ rest) = worst_component (worse worst c.status) rest

  unfoldable pub update_overall_health : ℕ → HealthMonitor D → HealthMonitor D
  update_overall_health now m =
      let worst = worst_component healthy m.components in
      record m {
        overall_health = worst;
        last_health_change =
            if severity m.overall_health == severity worst then m.last_health_change else now;
      }

  unfoldable pub perform_health_check : ℕ → HealthMonitor D → HealthMonitor D
  perform_health_check now m =
      let r = check_all now m m.components in
      update_overall_health now (record r.0 { components = r.1 })

  unfoldable pub cooled_down : ℕ → HealthMonitor D → ComponentType → Bool
  cooled_down now m type = elim (Assoc.lookup type_dec type m.last_recovery_attempt) [
    | none ↦ true
    | some last ↦ not (ltb (now - last) m.recovery_cooldown)
  ]

  -- The component has been found and has these failures.
  enough_failures : ℕ → HealthMonitor D → ComponentType → Option (ComponentHealth D) → Bool
  unfolding cooled_down
  enough_failures now m type none = false
  enough_failures now m type (some c) =
      leb m.max_consecutive_failures c.consecutive_failures && cooled_down now m type

  unfoldable pub should_attempt_recovery : ℕ → HealthMonitor D → ComponentType → Bool
  unfolding enough_failures
  should_attempt_recovery now m type = elim (Assoc.lookup type_dec type m.recovery_actions) [
    | none ↦ false
    | some action ↦ enough_failures now m type (find_component m type)
  ]

  -- reportRecovery, called without the mutex.
  unfoldable pub report_recovery : HealthMonitor D → ComponentType → HealthMonitor D
  report_recovery m type = elim (find_component m type) [
    | none ↦ m
    | some c ↦
        put_component m type
          (record c { consecutive_failures = 0; status = healthy; last_error = "" })
  ]

  unfoldable pub count_attempt : ℕ → HealthMonitor D → ComponentType → HealthMonitor D
  count_attempt now m type = record m {
    recovery_attempts = (m.recovery_attempts + 1) % size_mod;
    last_recovery_attempt = Assoc.insert type_dec type now m.last_recovery_attempt;
  }

  unfoldable pub count_success : HealthMonitor D → HealthMonitor D
  count_success m = record m { successful_recoveries = (m.successful_recoveries + 1) % size_mod }

  -- attemptRecovery, called with the mutex held: after a success it calls reportRecovery, which
  -- locks the mutex again.
  unfoldable pub attempt_recovery :
      (ℕ → Attempt) → ℕ → HealthMonitor D → ComponentType → Outcome (HealthMonitor D)
  attempt_recovery call now m type = elim (Assoc.lookup type_dec type m.recovery_actions) [
    | none ↦ returns m
    | some action ↦ elim (call action) [
      | succeeded ↦ locks_again (count_success (count_attempt now m type))
      | not_recovered ↦ returns (count_attempt now m type)
      | threw ↦ returns (count_attempt now m type)
    ]
  ]

  -- The monitor once the error is noted and the alert is out.
  unfoldable pub note_error :
      HealthMonitor D → ComponentType → ComponentHealth D → String → HealthMonitor D
  note_error m type c message =
      alert
        (put_component m type (record c {
          last_error = message;
          consecutive_failures = (c.consecutive_failures + 1) % size_mod;
          status = critical;
        }))
        type critical message

  unfoldable pub report_error :
      (ℕ → Attempt) → ℕ → HealthMonitor D → ComponentType → String → Outcome (HealthMonitor D)
  report_error call now m type message = elim (find_component m type) [
    | none ↦ returns m
    | some c ↦
        let m' = note_error m type c message in
        if should_attempt_recovery now m' type
        then attempt_recovery call now m' type
        else returns m'
  ]

  unfoldable pub get_component_health : HealthMonitor D → ComponentType → HealthStatus
  get_component_health m type = elim (find_component m type) [ none ↦ failed | some c ↦ c.status ]

  unfoldable pub is_system_healthy : HealthMonitor D → Bool
  is_system_healthy m = is_healthy m.overall_health

  -- The loop of getUnhealthyComponents.
  unfoldable pub unhealthy_of : Components D → List ComponentType
  unhealthy_of [] = []
  unhealthy_of ((type, c) ∷ rest) =
      let r = unhealthy_of rest in if is_healthy c.status then r else type ∷ r

  unfoldable pub get_unhealthy_components : HealthMonitor D → List ComponentType
  get_unhealthy_components m = unhealthy_of m.components
