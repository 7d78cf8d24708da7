-- ===== src/CheckpointManager/Statistics.antt =====
-- getStats of src/checkpoint_manager.cpp.
use custom_database.Base.{ℕ, ◌+◌, ◌%◌, ◌<◌, ◌≡◌, ap, ◌∙◌, Bool, true, arith}
use custom_database.Statistics.{
  Double, hundred, IsRounded, percentage, IsPercentage, percentage-IsPercentage, percentage-whole,
}
use custom_database.Wal.{WalManager, u64_mod}
use custom_database.CheckpointManager.{CheckpointManager, get_wal_size}

pub record CheckpointStats (W : Type 0) : Type 0 where
  pub total_checkpoints : ℕ
  pub failed_checkpoints : ℕ
  pub success_rate : W
  pub last_checkpoint_lsn : ℕ
  pub last_checkpoint_time : ℕ
  pub current_wal_size : ℕ
  pub is_healthy : Bool

module _ {W : Type 0} ⦃d : Double W⦄ where
  unfoldable pub get_stats : CheckpointManager → WalManager → CheckpointStats W
  get_stats m w =
      let total = (m.checkpoints_completed + m.checkpoints_failed) % u64_mod in
      let success_rate = percentage hundred m.checkpoints_completed total in
      record {
        total_checkpoints = m.checkpoints_completed;
        failed_checkpoints = m.checkpoints_failed;
        success_rate = success_rate;
        last_checkpoint_lsn = m.last_checkpoint_lsn;
        last_checkpoint_time = m.last_checkpoint_time;
        current_wal_size = get_wal_size w;
        is_healthy = d.ge success_rate (d.hundredths 9_900);
      }

  -- The success rate is from 0 to 100 as long as the sum of the two counters fits 64 bits.
  pub get_stats-IsPercentage :
      IsRounded W
      → (m : CheckpointManager) (w : WalManager)
      → m.checkpoints_completed + m.checkpoints_failed < u64_mod
      → IsPercentage (get_stats m w).success_rate
  unfolding get_stats
  get_stats-IsPercentage l m w fits =
      percentage-IsPercentage l 10_000 _ _ (omega arith) (omega arith)

  -- With no failed checkpoint the manager is healthy, also before the first one.
  pub get_stats-is_healthy :
      IsRounded W
      → (m : CheckpointManager) (w : WalManager) → m.checkpoints_failed ≡ 0
      → m.checkpoints_completed < u64_mod
      → (get_stats m w).is_healthy ≡ true
  unfolding get_stats
  get_stats-is_healthy l m w e fits =
      let c = m.checkpoints_completed in
      let total_is : (c + m.checkpoints_failed) % u64_mod ≡ c = omega (arith, e) in
      ap (λ (t : ℕ). d.ge (percentage hundred c t) (d.hundredths 9_900)) total_is
      ∙ ap (λ r. d.ge r (d.hundredths 9_900)) (percentage-whole l c)
      ∙ l.ge-hundredths 10_000 9_900 (omega arith) (omega arith)
