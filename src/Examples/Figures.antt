-- ===== src/Examples/Figures.antt =====
-- Examples of the statistics: numbers in hundredths, rounded down, in place of doubles.
use native.Mathlib.Nat.{le-div_iff_mul-le, div-mul-le_self, mul-div_cancel_left, zero-div}
use custom_database.Base.{
  ℕ, ◌+◌, ◌*◌, ◌/◌, ◌≤◌, ◌<◌, ◌≡◌, refl, [], ◌∷◌, List, arith, leb, none, ℕ_discrete,
}
use custom_database.VersionManager.{VersionManager, new_manager}
use custom_database.VersionManager.History as VersionCalls
use custom_database.VersionManager.Statistics as Versions
use custom_database.VersionManager.Accounting.{stored}
use custom_database.VersionManager.Statistics.{cleanup_efficiency-run}
use custom_database.HealthMonitor.{
  HealthMonitor, Attempt, Outcome, not_recovered, returns, locks_again, new_monitor, find_component,
  register_component, register_recovery_action, set_max_consecutive_failures,
}
use custom_database.Base.Assoc
use custom_database.HealthMonitor.Calls as HealthCalls
use custom_database.HealthMonitor.Status.{page_cache, wal_manager, failed, type_dec}
use custom_database.HealthMonitor.Reports.{
  get_component_health, report_error, should_attempt_recovery, note_error, alert, attempt_recovery,
}
use custom_database.HealthMonitor.Statistics as Health
use custom_database.HealthMonitor.History.{recovery_success_rate-run}
use custom_database.Statistics.{Double, IsRounded, IsPercentage, nought}

instance abbrev pub hundredths : Double ℕ
hundredths = record {
  hundredths = λ n. n;
  of_size = λ n. n * 100;
  divide = λ x y. x * 100 / y;
  times = λ x y. x * y / 100;
  ge = λ x y. leb y x;
}

div_mono : (k x y : ℕ) → 0 < k → x ≤ y → x / k ≤ y / k
div_mono k x y pos h = (le-div_iff_mul-le pos).1 (omega (arith, div-mul-le_self x k))

pub hundredths-IsRounded : IsRounded ℕ
hundredths-IsRounded = record {
  ge-hundredths = λ m n h k. refl;
  divide_mono = λ a b c h pos.
      ground
        (arith, div_mono (c * 100) (a * 100 * 100) (b * 100 * 100) (omega arith) (omega arith));
  times_mono = λ x y h. ground arith;
  divide_self = λ c pos. mul-div_cancel_left 100 (omega arith);
  divide_nought = λ c pos. zero-div (c * 100);
  times_one = refl;
  times_nought = refl;
}

abbrev version_calls : List (ℕ × VersionCalls.Call ℕ)
version_calls =
    (1, VersionCalls.begins)
    ∷ (2, VersionCalls.inserts 1 4 (8 ∷ []))
    ∷ (3, VersionCalls.updates 1 4 (9 ∷ []))
    ∷ (4, VersionCalls.commits 1)
    ∷ (90, VersionCalls.cleans_old)
    ∷ []

abbrev versions : VersionManager ℕ
versions = VersionCalls.run ℕ_discrete (new_manager 0 10 5) version_calls

cleanup_efficiency-run_example :
    let stats = Versions.get_stats {W = ℕ} versions in
    (stats.total_versions ≡ stored versions.versions + stats.cleaned_versions)
    × IsPercentage stats.cleanup_efficiency
cleanup_efficiency-run_example =
    cleanup_efficiency-run ℕ_discrete hundredths-IsRounded 0 10 5 version_calls (omega arith)

-- A component whose recovery fails.
abbrev health_calls : List (ℕ × HealthCalls.Call ℕ)
health_calls =
    (1, HealthCalls.sets_max_failures 1)
    ∷ (1, HealthCalls.registers page_cache "cache")
    ∷ (1, HealthCalls.registers_action page_cache 7)
    ∷ (2, HealthCalls.errs page_cache "lost")
    ∷ []

abbrev fails : ℕ → Attempt
fails action = not_recovered

abbrev monitor_of : Outcome (HealthMonitor ℕ) → HealthMonitor ℕ
monitor_of (returns m) = m
monitor_of (locks_again m) = m

abbrev monitor : HealthMonitor ℕ
monitor = monitor_of (HealthCalls.run fails (new_monitor 0) health_calls)

all_return : HealthCalls.run fails (new_monitor 0) health_calls ≡ returns monitor
unfolding HealthCalls.run HealthCalls.perform report_error Assoc.lookup register_recovery_action
    register_component Assoc.insert set_max_consecutive_failures new_monitor type_dec ℕ_discrete
    should_attempt_recovery note_error alert attempt_recovery
all_return = refl

recovery_success_rate-run_example :
    let stats = Health.get_stats {W = ℕ} monitor in
    (stats.healthy_components + stats.warning_components + stats.critical_components
      ≡ stats.total_components)
    × (stats.failed_components ≡ 0)
    × (stats.successful_recoveries ≡ 0)
    × (stats.recovery_success_rate ≡ nought)
    × (get_component_health monitor wal_manager ≡ failed
        → find_component monitor wal_manager ≡ none)
recovery_success_rate-run_example =
    recovery_success_rate-run hundredths-IsRounded fails 0 health_calls monitor wal_manager
      all_return
