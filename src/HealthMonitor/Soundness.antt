-- ===== src/HealthMonitor/Soundness.antt =====
-- The statuses that the calls of src/health_monitor.cpp give, and the count of its recoveries.
use custom_database.Base.{
  ℕ, ◌≤◌, ◌≡◌, refl, ◌∙◌, String, Bool, List, [], ◌∷◌, arith, All, by_test, by_dec, some,
  string_dec,
}
use custom_database.Base.Assoc
use custom_database.HealthMonitor.{
  HealthMetric, ComponentHealth, HealthMonitor, find_component, put_component, update_metrics,
  metric_status, worst_metric, check_component,
}
use custom_database.HealthMonitor.Status.{
  ComponentType, type_dec, HealthStatus, healthy, critical, severity, worse,
}
use custom_database.HealthMonitor.Reports.{
  Components, alert, alert_change, check_all, update_overall_health, perform_health_check,
  note_error,
}

-- Nothing is FAILED: HEALTHY, WARNING and CRITICAL have the values 0, 1 and 2.
abbrev pub IsLive : HealthStatus → Type 0
IsLive s = severity s ≤ 2

pub worse-IsLive : (s t : HealthStatus) → IsLive s → IsLive t → IsLive (worse s t)
unfolding worse
worse-IsLive s t h k = ground arith

module _ {W : Type 0} where
  pub record Sound (c : ComponentHealth W) : Type 0 where
    pub status_live : IsLive c.status
    pub metrics_live : All (λ (k : HealthMetric W). IsLive k.status) c.metrics

  pub update_metrics-IsLive :
      (ge : W → W → Bool) (now : ℕ) (name : String) (value : W) (ks : List (HealthMetric W))
      → All (λ (k : HealthMetric W). IsLive k.status) ks
      → All (λ (k : HealthMetric W). IsLive k.status) (update_metrics ge now name value ks)
  unfolding update_metrics metric_status
  update_metrics-IsLive ge now name value [] h = tt
  update_metrics-IsLive ge now name value (k ∷ ks) h =
      let rest = update_metrics-IsLive ge now name value ks h.1 in
      by_dec (All (λ (k : HealthMetric W). IsLive k.status)) (string_dec k.name name)
        (λ e. (ground arith, h.1)) (λ n. (h.0, rest))

  pub worst_metric-IsLive :
      (now : ℕ) (ks : List (HealthMetric W)) (worst : HealthStatus)
      → IsLive worst
      → All (λ (k : HealthMetric W). IsLive k.status) ks
      → IsLive (worst_metric now worst ks)
  unfolding worst_metric
  worst_metric-IsLive now [] worst w h = w
  worst_metric-IsLive now (k ∷ ks) worst w h =
      worst_metric-IsLive now ks _ (ground (arith, worse-IsLive worst k.status w h.0)) h.1

  -- Every component is sound, and no recovery has succeeded.
  pub record Live (m : HealthMonitor W) : Type 0 where
    pub components_sound : Assoc.AllValues type_dec Sound m.components
    pub none_succeeded : m.successful_recoveries ≡ 0

  pub put_component-Live :
      (m : HealthMonitor W) (type : ComponentType) (c : ComponentHealth W)
      → Sound c
      → Live m
      → Live (put_component m type c)
  unfolding put_component
  put_component-Live m type c s v = record {
    components_sound =
        Assoc.insert-AllValues type_dec Sound type c m.components s v.components_sound;
    none_succeeded = v.none_succeeded;
  }

  pub find_component-Sound :
      (m : HealthMonitor W) (type : ComponentType) (c : ComponentHealth W)
      → Live m
      → find_component m type ≡ some c
      → Sound c
  find_component-Sound m type c v e =
      Assoc.lookup-AllValues type_dec Sound type m.components v.components_sound e

  pub alert-Live :
      (m : HealthMonitor W) (type : ComponentType) (s : HealthStatus) (message : String)
      → Live m
      → Live (alert m type s message)
  unfolding alert
  alert-Live m type s message v =
      by_test Live m.has_callback
        (λ e. record { components_sound = v.components_sound; none_succeeded = v.none_succeeded })
        (λ e. v)

  pub alert_change-succeeded :
      (m : HealthMonitor W) (type : ComponentType) (old new : HealthStatus)
      → (alert_change m type old new).successful_recoveries ≡ m.successful_recoveries
  unfolding alert_change alert
  alert_change-succeeded m type old new = ground arith

  pub check_all-live :
      (now : ℕ) (cs : Components W) (m : HealthMonitor W)
      → Assoc.AllValues type_dec Sound cs
      → ((check_all now m cs).0.successful_recoveries ≡ m.successful_recoveries)
        × Assoc.AllValues type_dec Sound (check_all now m cs).1
  unfolding check_all check_component
  check_all-live now [] m h = (refl, tt)
  check_all-live now ((type, c) ∷ cs) m h =
      let new = worst_metric now healthy c.metrics in
      let r = check_all-live now cs (alert_change m type c.status new) h.1 in
      (
        r.0 ∙ alert_change-succeeded m type c.status new,
        (
          record {
            status_live = worst_metric-IsLive now c.metrics healthy (omega arith) h.0.metrics_live;
            metrics_live = h.0.metrics_live;
          },
          r.1,
        ),
      )

  pub perform_health_check-Live :
      (now : ℕ) (m : HealthMonitor W) → Live m → Live (perform_health_check now m)
  unfolding perform_health_check update_overall_health
  perform_health_check-Live now m v =
      let r = check_all-live now m.components m v.components_sound in
      record { components_sound = r.1; none_succeeded = r.0 ∙ v.none_succeeded }

  pub note_error-Live :
      (m : HealthMonitor W) (type : ComponentType) (c : ComponentHealth W) (message : String)
      → Sound c
      → Live m
      → Live (note_error m type c message)
  unfolding note_error
  note_error-Live m type c message s v = alert-Live _ type critical message (
      put_component-Live m type _
        (record { status_live = omega arith; metrics_live = s.metrics_live }) v)
