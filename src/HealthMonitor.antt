-- ===== src/HealthMonitor.antt =====
-- include/health_monitor.h and src/health_monitor.cpp: the health of the components. A `double` is
-- an element of D, and `ge` its `>=`. A recovery action is a handle that `call` runs: the function
-- behind it is registered by the program around the monitor. `now` is the time of the steady clock
-- in milliseconds. Strings that are only printed, and the printed report, are left out;
-- start and stop are in HealthMonitor/Schedule, the statistics in HealthMonitor/Statistics.
pub mod Status
pub mod Checks
pub mod Recovery
pub mod Reports
pub mod Schedule
pub mod Statistics
pub mod Calls
pub mod Soundness
pub mod History
use custom_database.Base.{
  ℕ, zero, suc, ◌+◌, ◌-◌, ◌*◌, ◌%◌, ◌≡◌, refl, sym, ap, ◌∙◌, String, Bool, true, false, List, [],
  ◌∷◌, ◌++◌, Option, none, some, ltb, leb, ◌==◌, if◌then◌else◌, ℕ_discrete, string_dec, ite,
}
use custom_database.Base.Assoc
use custom_database.HealthMonitor.Status.{
  ComponentType, type_dec, HealthStatus, healthy, warning, critical, failed, is_healthy, worse,
}

abbrev pub size_mod : ℕ
size_mod = 18446744073709551616

pub record HealthMetric (D : Type 0) : Type 0 where
  pub name : String
  pub value : D
  pub warning_threshold : D
  pub critical_threshold : D
  pub last_updated : ℕ
  pub status : HealthStatus

pub record ComponentHealth (D : Type 0) : Type 0 where
  pub name : String
  pub status : HealthStatus
  pub metrics : List (HealthMetric D)
  pub last_check : ℕ
  pub last_error : String
  pub consecutive_failures : ℕ

-- A call of `alert_callback`: the component, the status and the message.
pub record Alert : Type 0 where
  pub type : ComponentType
  pub status : HealthStatus
  pub message : String

-- `alerts` are the calls of the callback so far.
pub record HealthMonitor (D : Type 0) : Type 0 where
  pub components : List (ComponentType × ComponentHealth D)
  pub recovery_actions : List (ComponentType × ℕ)
  pub recovery_attempts : ℕ
  pub successful_recoveries : ℕ
  pub overall_health : HealthStatus
  pub last_health_change : ℕ
  pub has_callback : Bool
  pub alerts : List Alert
  pub max_consecutive_failures : ℕ
  pub recovery_cooldown : ℕ
  pub last_recovery_attempt : List (ComponentType × ℕ)

-- What a recovery action does.
pub data Attempt : Type 0 where
  succeeded not_recovered threw : Attempt

-- A call returns, or it locks `health_mutex` while it holds it. The standard leaves that undefined; as
-- with the usual mutex, the call never returns then and the monitor stays as it is.
pub data Outcome (A : Type 0) : Type 0 where
  returns : A → Outcome A
  locks_again : A → Outcome A

-- Five minutes.
abbrev pub minute : ℕ
minute = 60000

module _ {D : Type 0} where
  abbrev pub find_component : HealthMonitor D → ComponentType → Option (ComponentHealth D)
  find_component m type = Assoc.lookup type_dec type m.components

  -- The constructor; the callback is empty.
  unfoldable pub new_monitor : ℕ → HealthMonitor D
  new_monitor now = record {
    components = [];
    recovery_actions = [];
    recovery_attempts = 0;
    successful_recoveries = 0;
    overall_health = healthy;
    last_health_change = now;
    has_callback = false;
    alerts = [];
    max_consecutive_failures = 3;
    recovery_cooldown = 5 * minute;
    last_recovery_attempt = [];
  }

  -- setAlertCallback, setMaxConsecutiveFailures and setRecoveryCooldown; `set` tells whether the
  -- callback is one that can be called.
  unfoldable pub set_alert_callback : HealthMonitor D → Bool → HealthMonitor D
  set_alert_callback m set = record m { has_callback = set }

  unfoldable pub set_max_consecutive_failures : HealthMonitor D → ℕ → HealthMonitor D
  set_max_consecutive_failures m max_failures = record m { max_consecutive_failures = max_failures }

  unfoldable pub set_recovery_cooldown : HealthMonitor D → ℕ → HealthMonitor D
  set_recovery_cooldown m cooldown = record m { recovery_cooldown = cooldown }

  unfoldable pub put_component :
      HealthMonitor D → ComponentType → ComponentHealth D → HealthMonitor D
  put_component m type c = record m { components = Assoc.insert type_dec type c m.components }

  unfoldable pub register_component : ℕ → HealthMonitor D → ComponentType → String → HealthMonitor D
  unfolding put_component
  register_component now m type name = put_component m type (record {
    name = name;
    status = healthy;
    metrics = [];
    last_check = now;
    last_error = "";
    consecutive_failures = 0;
  })

  -- `zero_value` is 0.0.
  new_metric : ℕ → D → String → D → D → HealthMetric D
  new_metric now zero_value name warn crit = record {
    name = name;
    value = zero_value;
    warning_threshold = warn;
    critical_threshold = crit;
    last_updated = now;
    status = healthy;
  }

  unfoldable pub add_metric :
      ℕ → D → HealthMonitor D → ComponentType → String → D → D → HealthMonitor D
  unfolding put_component new_metric
  add_metric now zero_value m type name warn crit = elim (find_component m type) [
    | none ↦ m
    | some c ↦
        put_component m type
          (record c { metrics = c.metrics ++ new_metric now zero_value name warn crit ∷ [] })
  ]

  unfoldable pub register_recovery_action : HealthMonitor D → ComponentType → ℕ → HealthMonitor D
  register_recovery_action m type action = record m {
    recovery_actions = Assoc.insert type_dec type action m.recovery_actions;
  }

  -- The status that updateMetric gives to a value.
  unfoldable pub metric_status : (D → D → Bool) → HealthMetric D → D → HealthStatus
  metric_status ge metric value =
      if ge value metric.critical_threshold
      then critical
      else if ge value metric.warning_threshold
      then warning
      else healthy

  -- The loop of updateMetric: the first metric of that name.
  unfoldable pub update_metrics :
      (D → D → Bool) → ℕ → String → D → List (HealthMetric D) → List (HealthMetric D)
  update_metrics ge now name value [] = []
  update_metrics ge now name value (metric ∷ rest) =
      let others = update_metrics ge now name value rest in
      ite (string_dec metric.name name)
        (record metric { value = value; last_updated = now; status = metric_status ge metric value }
          ∷ rest)
        (metric ∷ others)

  unfoldable pub update_metric :
      (D → D → Bool) → ℕ → HealthMonitor D → ComponentType → String → D → HealthMonitor D
  unfolding put_component
  update_metric ge now m type name value = elim (find_component m type) [
    | none ↦ m
    | some c ↦
        put_component m type (record c { metrics = update_metrics ge now name value c.metrics })
  ]

  -- The loop of checkComponent, from a worst status so far.
  unfoldable pub worst_metric : ℕ → HealthStatus → List (HealthMetric D) → HealthStatus
  worst_metric now worst [] = worst
  worst_metric now worst (metric ∷ rest) =
      worst_metric now
        (if ltb (5 * minute) (now - metric.last_updated)
          then warning
          else worse worst metric.status)
        rest

  unfoldable pub check_component : ℕ → ComponentHealth D → ComponentHealth D
  check_component now c = record c { last_check = now; status = worst_metric now healthy c.metrics }
