-- ===== src/HealthMonitor/History.antt =====
-- The statistics of src/health_monitor.cpp after any sequence of calls.
use custom_database.Base.{
  ℕ, ◌+◌, ◌≡◌, refl, ap, ◌∙◌, subst, String, List, [], ◌∷◌, arith, All-append, by_test, by_option,
  inl, inr, none, Option-cases,
}
use custom_database.Base.Assoc
use custom_database.Statistics.{Double, nought, IsRounded, percentage, percentage-nought}
use custom_database.HealthMonitor.{
  Attempt, succeeded, not_recovered, threw, HealthMetric, HealthMonitor, Outcome, returns,
  locks_again, new_monitor, set_alert_callback, set_max_consecutive_failures, set_recovery_cooldown,
  find_component, register_component, add_metric, register_recovery_action, update_metric,
}
use custom_database.HealthMonitor.Status.{
  ComponentType, type_dec, HealthStatus, healthy, warning, critical, failed,
}
use custom_database.HealthMonitor.Reports.{
  Components, should_attempt_recovery, attempt_recovery, report_recovery, count_attempt,
  count_success, note_error, report_error, get_component_health,
}
use custom_database.HealthMonitor.Statistics.{
  get_stats, count_components-total, Tally, count_components, count_status,
}
use custom_database.HealthMonitor.Calls.{Call, perform, run}
use custom_database.HealthMonitor.Soundness.{
  IsLive, Sound, Live, update_metrics-IsLive, put_component-Live, find_component-Sound,
  perform_health_check-Live, note_error-Live,
}

module _ {W : Type 0} where
  -- What holds of the monitor if the call returns.
  abbrev pub OnReturn : (HealthMonitor W → Type 0) → Outcome (HealthMonitor W) → Type 0
  OnReturn P (returns m) = P m
  OnReturn P (locks_again m) = Unit

  count_attempt-Live :
      (now : ℕ) (m : HealthMonitor W) (type : ComponentType)
      → Live m
      → Live (count_attempt now m type)
  unfolding count_attempt
  count_attempt-Live now m type v = record {
    components_sound = v.components_sound;
    none_succeeded = v.none_succeeded;
  }

  attempt_recovery-Live :
      (call : ℕ → Attempt) (now : ℕ) (m : HealthMonitor W) (type : ComponentType)
      → Live m
      → OnReturn Live (attempt_recovery call now m type)
  unfolding attempt_recovery
  attempt_recovery-Live call now m type v =
      by_option (OnReturn Live) (Assoc.lookup type_dec type m.recovery_actions) (λ e. v)
        (λ action e. on_attempt (call action))
    where
      on_attempt :
          (a : Attempt)
          → OnReturn Live (elim a [
            | succeeded ↦ locks_again (count_success (count_attempt now m type))
            | not_recovered ↦ returns (count_attempt now m type)
            | threw ↦ returns (count_attempt now m type)
          ])
      on_attempt succeeded = tt
      on_attempt not_recovered = count_attempt-Live now m type v
      on_attempt threw = count_attempt-Live now m type v

  report_error-Live :
      (call : ℕ → Attempt) (now : ℕ) (m : HealthMonitor W) (type : ComponentType)
      → (message : String) → Live m
      → OnReturn Live (report_error call now m type message)
  unfolding report_error
  report_error-Live call now m type message v =
      by_option (OnReturn Live) (find_component m type) (λ e. v)
        (λ c e.
          let v' = note_error-Live m type c message (find_component-Sound m type c v e) v in
          by_test (OnReturn Live) (should_attempt_recovery now (note_error m type c message) type)
            (λ _. attempt_recovery-Live call now (note_error m type c message) type v') (λ _. v'))

module _ {W : Type 0} ⦃d : Double W⦄ (call : ℕ → Attempt) where
  perform-Live : (m : HealthMonitor W) (c : ℕ × Call W) → Live m → OnReturn Live (perform call m c)
  unfolding perform register_component add_metric register_recovery_action update_metric
      report_recovery set_alert_callback set_max_consecutive_failures set_recovery_cooldown
  perform-Live m (now, Call.registers type name) v =
      put_component-Live m type _ (record { status_live = omega arith; metrics_live = tt }) v
  perform-Live m (now, Call.adds_metric type name warn crit) v =
      by_option Live (find_component m type) (λ e. v)
        (λ c e.
          let s = find_component-Sound m type c v e in
          put_component-Live m type _
            (record {
              status_live = s.status_live;
              metrics_live =
                  All-append (λ (k : HealthMetric W). IsLive k.status) c.metrics _ s.metrics_live
                    (omega arith, tt);
            })
            v)
  perform-Live m (now, Call.registers_action type action) v = record {
    components_sound = v.components_sound;
    none_succeeded = v.none_succeeded;
  }
  perform-Live m (now, Call.updates type name value) v =
      by_option Live (find_component m type) (λ e. v)
        (λ c e.
          let s = find_component-Sound m type c v e in
          put_component-Live m type _
            (record {
              status_live = s.status_live;
              metrics_live = update_metrics-IsLive d.ge now name value c.metrics s.metrics_live;
            })
            v)
  perform-Live m (now, Call.errs type message) v = report_error-Live call now m type message v
  perform-Live m (now, Call.recovers type) v =
      by_option Live (find_component m type) (λ e. v)
        (λ c e.
          put_component-Live m type _
            (record {
              status_live = omega arith;
              metrics_live = (find_component-Sound m type c v e).metrics_live;
            })
            v)
  perform-Live m (now, Call.checks) v = perform_health_check-Live now m v
  perform-Live m (now, Call.sets_callback set) v = record {
    components_sound = v.components_sound;
    none_succeeded = v.none_succeeded;
  }
  perform-Live m (now, Call.sets_max_failures n) v = record {
    components_sound = v.components_sound;
    none_succeeded = v.none_succeeded;
  }
  perform-Live m (now, Call.sets_cooldown cooldown) v = record {
    components_sound = v.components_sound;
    none_succeeded = v.none_succeeded;
  }

  continue-Live :
      (f : HealthMonitor W → Outcome (HealthMonitor W))
      → ((m : HealthMonitor W) → Live m → OnReturn Live (f m))
      → (o : Outcome (HealthMonitor W)) → OnReturn Live o
      → OnReturn Live (elim o [ returns m' ↦ f m' | locks_again m' ↦ locks_again m' ])
  continue-Live f keeps (returns m) h = keeps m h
  continue-Live f keeps (locks_again m) h = tt

  run-Live : (m : HealthMonitor W) (cs : List (ℕ × Call W)) → Live m → OnReturn Live (run call m cs)
  unfolding run
  run-Live m [] v = v
  run-Live m (c ∷ cs) v =
      continue-Live (λ m'. run call m' cs) (λ m' h. run-Live m' cs h) (perform call m c)
        (perform-Live m c v)

no_failed :
    {W : Type 0} (cs : Components W) (t : Tally)
    → Assoc.AllValues type_dec Sound cs
    → (count_components cs t).failed_count ≡ t.failed_count
unfolding count_components count_status
no_failed [] t h = refl
no_failed ((type, c) ∷ cs) t h =
    no_failed cs (count_status c.status t) h.1 ∙ at_status c.status h.0.status_live
  where
    at_status : (s : HealthStatus) → IsLive s → (count_status s t).failed_count ≡ t.failed_count
    at_status healthy k = refl
    at_status warning k = refl
    at_status critical k = refl
    at_status failed k = absurd (omega arith)

module _ {W : Type 0} ⦃d : Double W⦄ where
  -- If every call of a sequence of calls on a new monitor returns, whatever its recovery actions do,
  -- then in the statistics the HEALTHY, WARNING and CRITICAL components are all there are, none is
  -- FAILED, and both the number of successful recoveries and the success rate are 0;
  -- getComponentHealth answers FAILED only for a component that is not registered.
  pub recovery_success_rate-run :
      IsRounded W
      → (call : ℕ → Attempt) (now : ℕ) (cs : List (ℕ × Call W)) (m : HealthMonitor W)
      → (type : ComponentType) → run call (new_monitor now) cs ≡ returns m
      → let stats = get_stats {W = W} m in
        (stats.healthy_components + stats.warning_components + stats.critical_components
          ≡ stats.total_components)
        × (stats.failed_components ≡ 0)
        × (stats.successful_recoveries ≡ 0)
        × (stats.recovery_success_rate ≡ nought)
        × (get_component_health m type ≡ failed → find_component m type ≡ none)
  unfolding get_stats new_monitor get_component_health
  recovery_success_rate-run l call now cs m type e =
      let v : Live m = subst (OnReturn Live) e (
        run-Live call (new_monitor now) cs
          (record { components_sound = tt; none_succeeded = refl })) in
      let t₀ : Tally = record {
        healthy_count = 0;
        warning_count = 0;
        critical_count = 0;
        failed_count = 0;
      } in
      let none_failed = no_failed m.components t₀ v.components_sound in
      (
        omega (arith, count_components-total m.components t₀, none_failed),
        none_failed,
        v.none_succeeded,
        ap (λ (n : ℕ). percentage nought n m.recovery_attempts) v.none_succeeded
            ∙ percentage-nought l m.recovery_attempts,
        λ h. elim (Option-cases (find_component m type)) [
          | inl missing ↦ missing
          | inr (c, found) ↦
              absurd (ground (arith, found, (find_component-Sound m type c v found).status_live))
        ],
      )
