-- ===== src/HealthMonitor/Checks.antt =====
-- What performHealthCheck of src/health_monitor.cpp establishes.
use mathlib.Core.Option
use custom_database.Base.{
  ℕ, ◌-◌, ◌*◌, ◌≤◌, ◌<◌, ◌≡◌, refl, sym, subst, ◌↔◌, true, false, List, [], ◌∷◌, ◌++◌, arith, All,
  ltb, if◌then◌else◌, ◌&&◌, some,
}
use custom_database.Base.Assoc
use custom_database.HealthMonitor.{
  HealthMetric, ComponentHealth, HealthMonitor, worst_metric, check_component, minute,
  find_component,
}
use custom_database.HealthMonitor.Status.{
  ComponentType, type_dec, HealthStatus, healthy, warning, critical, failed, severity, is_healthy,
  worse, worse_upper, worse_lub,
}
use custom_database.HealthMonitor.Reports.{
  Components, alert_change, check_all, worst_component, update_overall_health, perform_health_check,
  get_component_health, is_system_healthy, unhealthy_of, get_unhealthy_components,
}

is_healthy-worse : (s t : HealthStatus) → is_healthy (worse s t) ≡ (is_healthy s && is_healthy t)
unfolding worse is_healthy
is_healthy-worse healthy healthy = refl
is_healthy-worse healthy warning = refl
is_healthy-worse healthy critical = refl
is_healthy-worse healthy failed = refl
is_healthy-worse warning t = ground arith
is_healthy-worse critical t = ground arith
is_healthy-worse failed t = ground arith

module _ {D : Type 0} where
  worst_component-healthy :
      (worst : HealthStatus) (cs : Components D)
      → is_healthy (worst_component worst cs) ≡ true
        ↔ (is_healthy worst ≡ true) × (unhealthy_of cs ≡ [])
  unfolding worst_component unhealthy_of
  worst_component-healthy worst [] = (λ h. (h, refl), λ h. h.0)
  worst_component-healthy worst ((type, c) ∷ rest) =
      let ih = worst_component-healthy (worse worst c.status) rest in
      let w = is_healthy-worse worst c.status in
      (λ h. ground (arith, ih.0 h), λ h. ground (arith, ih.1))

  -- After updateOverallHealth the system is healthy exactly if getUnhealthyComponents returns an
  -- empty list.
  pub update_overall_health_iff :
      (now : ℕ) (m : HealthMonitor D)
      → is_system_healthy (update_overall_health now m) ≡ true
        ↔ get_unhealthy_components (update_overall_health now m) ≡ []
  unfolding update_overall_health is_system_healthy get_unhealthy_components is_healthy
  update_overall_health_iff now m =
      let h = worst_component-healthy healthy m.components in (λ e. (h.0 e).1, λ e. h.1 (refl, e))

  lookup-check_all :
      (now : ℕ) (m : HealthMonitor D) (cs : Components D) (type : ComponentType)
      → Assoc.lookup type_dec type (check_all now m cs).1
        ≡ Option.map (check_component now) (Assoc.lookup type_dec type cs)
  unfolding check_all Assoc.lookup
  lookup-check_all now m [] type = refl
  lookup-check_all now m ((t, c) ∷ rest) type =
      let m' = alert_change m t c.status (check_component now c).status in
      let ih = lookup-check_all now m' rest type in
      elim (type_dec t type) [ yes e ↦ ground arith | no h ↦ ground (arith, ih) ]

  -- No metric of the list is older than five minutes.
  abbrev pub Fresh : ℕ → List (HealthMetric D) → Type 0
  Fresh now ms = All (λ x. now - x.last_updated ≤ 5 * minute) ms

  -- Metrics that are all fresh never lower the status: it is at least as severe as what it started
  -- from and as each of them.
  pub worst_metric-upper :
      (now : ℕ) (worst : HealthStatus) (ms : List (HealthMetric D))
      → Fresh now ms
      → (severity worst ≤ severity (worst_metric now worst ms))
        × All (λ x. severity x.status ≤ severity (worst_metric now worst ms)) ms
  unfolding worst_metric
  worst_metric-upper now worst [] fresh = (omega arith, tt)
  worst_metric-upper now worst (x ∷ rest) (f, fresh) =
      let e : ltb (5 * minute) (now - x.last_updated) ≡ false = ground arith in
      let ih = worst_metric-upper now (worse worst x.status) rest fresh in
      let u = worse_upper worst x.status in
      let eq : worst_metric now worst (x ∷ rest) ≡ worst_metric now (worse worst x.status) rest =
        rw (worst_metric, e) in
      subst
        (λ w.
          (severity worst ≤ severity w)
          × ((severity x.status ≤ severity w) × All (λ y. severity y.status ≤ severity w) rest))
        (sym eq) (omega (arith, ih.0, u.0), (omega (arith, ih.0, u.1), ih.1))

  -- Metrics that are all fresh raise the status no higher than what it started from and each of them.
  worst_metric_lub :
      (now : ℕ) (worst : HealthStatus) (ms : List (HealthMetric D)) (bound : ℕ)
      → Fresh now ms
      → severity worst ≤ bound
      → All (λ x. severity x.status ≤ bound) ms
      → severity (worst_metric now worst ms) ≤ bound
  unfolding worst_metric
  worst_metric_lub now worst [] bound fresh h all = h
  worst_metric_lub now worst (x ∷ rest) bound (f, fresh) h (k, all) =
      let e : ltb (5 * minute) (now - x.last_updated) ≡ false = ground arith in
      rw (e) (
        worst_metric_lub now (worse worst x.status) rest bound fresh
          (worse_lub worst x.status bound h k) all)

  -- After a health check the status of a registered component whose metrics are all fresh, none
  -- older than five minutes, is the worst of its metrics' statuses, and HEALTHY if it has no metric:
  -- it is at least as severe as each of them, and no more severe than anything that all of them are
  -- at most. What reportError or reportRecovery made of it is forgotten.
  pub perform_health_check-worst :
      (now : ℕ) (m : HealthMonitor D) (type : ComponentType) {c : ComponentHealth D}
      → find_component m type ≡ some c
      → Fresh now c.metrics
      → let status = get_component_health (perform_health_check now m) type in
        All (λ x. severity x.status ≤ severity status) c.metrics
        × ((bound : ℕ) → All (λ x. severity x.status ≤ bound) c.metrics → severity status ≤ bound)
  unfolding perform_health_check update_overall_health get_component_health check_component
  perform_health_check-worst now m type {c} e fresh =
      let h = lookup-check_all now m m.components type in
      let status : get_component_health (perform_health_check now m) type
          ≡ worst_metric now healthy c.metrics =
        rw (get_component_health, h, e) in
      rw (status) (
        (worst_metric-upper now healthy c.metrics fresh).1,
        λ bound all. worst_metric_lub now healthy c.metrics bound fresh (omega arith) all,
      )

  worst_metric-append :
      (now : ℕ) (worst : HealthStatus) (ms ms' : List (HealthMetric D))
      → worst_metric now worst (ms ++ ms') ≡ worst_metric now (worst_metric now worst ms) ms'
  unfolding worst_metric
  worst_metric-append now worst [] ms' = refl
  worst_metric-append now worst (x ∷ ms) ms' =
      worst_metric-append now
        (if ltb (5 * minute) (now - x.last_updated) then warning else worse worst x.status) ms ms'

  -- If the last metric of a component is older than five minutes, checkComponent makes the
  -- component WARNING, even if other metrics are CRITICAL.
  pub check_component-stale :
      (now : ℕ) (c : ComponentHealth D) (ms : List (HealthMetric D)) (x : HealthMetric D)
      → c.metrics ≡ ms ++ x ∷ []
      → 5 * minute < now - x.last_updated
      → (check_component now c).status ≡ warning
  unfolding check_component worst_metric
  check_component-stale now c ms x e stale =
      let s : ltb (5 * minute) (now - x.last_updated) ≡ true = ground arith in
      rw (e, worst_metric-append now healthy ms (x ∷ []), worst_metric, s)
