-- ===== src/VersionManager/Statistics.antt =====
-- getStats of src/version_manager.cpp: how many versions were made, and how many removed.
use custom_database.Base.{ℕ, ◌+◌, ◌/◌, ◌<◌, ◌≡◌, refl, sym, List, arith, length, leb, if◌then◌else◌}
use custom_database.Statistics.{
  Double, nought, IsRounded, percentage, IsPercentage, percentage-IsPercentage,
}
use custom_database.VersionManager.{VersionManager, u64_mod, new_manager}
use custom_database.VersionManager.Transactions.{new_manager-IsValid}
use custom_database.VersionManager.Accounting.{stored, run-Accounted}
use custom_database.VersionManager.History.{Call, run}

pub record VersionStats (W : Type 0) : Type 0 where
  pub total_versions : ℕ
  pub active_transactions : ℕ
  pub committed_transactions : ℕ
  pub versions_per_key_avg : ℕ
  pub cleaned_versions : ℕ
  pub cleanup_efficiency : W
  pub last_cleanup : ℕ

unfoldable pub get_stats : {K W : Type 0} ⦃d : Double W⦄ → VersionManager K → VersionStats W
get_stats m =
    let total_keys = length m.versions in
    record {
      total_versions = m.total_versions;
      active_transactions = length m.active_transactions;
      committed_transactions = length m.committed_transactions;
      versions_per_key_avg = if leb 1 total_keys then m.total_versions / total_keys else 0;
      cleaned_versions = m.cleaned_versions;
      cleanup_efficiency = percentage nought m.cleaned_versions m.total_versions;
      last_cleanup = m.last_cleanup;
    }

module _ {K : Type 0} (dec : Discrete K) where
  -- After any history of calls on a new manager, as long as the 64-bit counters last, the versions
  -- that were ever made are those that the keys have and those that were cleaned up, and the
  -- efficiency of the clean-up in the statistics is from 0 to 100.
  pub cleanup_efficiency-run :
      {W : Type 0} ⦃d : Double W⦄
      → IsRounded W
      → (now retention max_versions : ℕ) (cs : List (ℕ × Call K)) → 1 + length cs < u64_mod
      → let m = run dec (new_manager now retention max_versions) cs in
        let stats = get_stats {W = W} m in
        (stats.total_versions ≡ stored m.versions + stats.cleaned_versions)
        × IsPercentage stats.cleanup_efficiency
  unfolding get_stats new_manager
  cleanup_efficiency-run l now retention max_versions cs room =
      let m₀ = new_manager now retention max_versions in
      let a =
        run-Accounted dec 0 m₀ cs (new_manager-IsValid now retention max_versions) (omega arith)
          (omega arith) (record { total_is = refl; total_upper = omega arith }) in
      (sym a.total_is, percentage-IsPercentage l 0 _ _ (omega arith) (omega (arith, a.total_is)))
