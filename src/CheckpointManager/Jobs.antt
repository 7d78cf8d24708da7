-- ===== src/CheckpointManager/Jobs.antt =====
-- What src/checkpoint_manager.cpp makes of the recurring jobs of the scheduler.
use custom_database.Base.{
  ℕ, ◌*◌, ◌≡◌, ◌≢◌, refl, sym, ap, ◌∙◌, String, true, none, some, if_pos, string_dec, if◌then◌else◌,
}
use custom_database.JobScheduler.{JobScheduler, high, normal}
use custom_database.JobScheduler.Recurring.{find_recurring, add_recurring_job, remove_recurring_job}
use custom_database.CheckpointManager.{
  CheckpointManager, add_jobs, start, stop, set_checkpoint_interval,
}
use custom_database.JobScheduler.Entries.{
  entry, find-add_new, find-add_other, find-remove_self, find-remove_other,
}

module _ (checkpoint_func cleanup_func perform_func : ℕ) (now : ℕ) (m : CheckpointManager)
    (s : JobScheduler) where
  -- setCheckpointInterval leaves an enabled checkpoint job of the new interval, which runs first one
  -- interval from now, whether there was one before or not and whether it was enabled or not; the
  -- other recurring jobs stay.
  pub set_checkpoint_interval_lem :
      (interval : ℕ) (q : String)
      → m.checkpoint_job_name ≢ q
      → let r =
          set_checkpoint_interval checkpoint_func cleanup_func perform_func now m
            (some s)
            interval in
        (r.0.checkpoint_interval ≡ interval)
        × ((s' : JobScheduler) × (r.1 ≡ some s')
            × (find_recurring s' m.checkpoint_job_name
                ≡ some (entry now interval checkpoint_func high))
            × (find_recurring s' q ≡ find_recurring s q))
  unfolding set_checkpoint_interval
  set_checkpoint_interval_lem interval q h =
      let name = m.checkpoint_job_name in
      let s₁ = (remove_recurring_job s name).0 in
      let s' = (add_recurring_job now s₁ name interval checkpoint_func high).0 in
      (
        refl,
        (
          s',
          refl,
          find-add_new now s₁ name interval checkpoint_func high name (find-remove_self s name)
              ∙ if_pos (string_dec name name) refl _ _,
          find-add_other now s₁ name interval checkpoint_func high q h
              ∙ find-remove_other s name q h,
        ),
      )

  -- On a running scheduler that has no recurring job of the two names, start adds a checkpoint job
  -- and a cleanup job with four times its interval; a stop after that takes both away, and start and
  -- stop leave every recurring job of another name as it is.
  pub start-stop :
      (q : String)
      → s.is_running ≡ true
      → m.checkpoint_job_name ≢ m.cleanup_job_name
      → find_recurring s m.checkpoint_job_name ≡ none
      → find_recurring s m.cleanup_job_name ≡ none
      → m.checkpoint_job_name ≢ q
      → m.cleanup_job_name ≢ q
      → (s₁ s₂ : JobScheduler) × (start checkpoint_func cleanup_func perform_func now m (some s)
          ≡ some s₁)
        × (stop checkpoint_func cleanup_func perform_func m (some s₁) ≡ some s₂)
        × (find_recurring s₁ m.checkpoint_job_name
            ≡ some (entry now m.checkpoint_interval checkpoint_func high))
        × (find_recurring s₁ m.cleanup_job_name
            ≡ some (entry now (m.checkpoint_interval * 4) cleanup_func normal))
        × (find_recurring s₂ m.checkpoint_job_name ≡ none)
        × (find_recurring s₂ m.cleanup_job_name ≡ none)
        × (find_recurring s₂ q ≡ find_recurring s q)
  unfolding start stop add_jobs
  start-stop q on distinct no_a no_b h k =
      let a = m.checkpoint_job_name in
      let b = m.cleanup_job_name in
      let d = m.checkpoint_interval in
      let s₀ = (add_recurring_job now s a d checkpoint_func high).0 in
      let s₁ = (add_recurring_job now s₀ b (d * 4) cleanup_func normal).0 in
      let t = (remove_recurring_job s₁ a).0 in
      let s₂ = (remove_recurring_job t b).0 in
      (
        s₁,
        s₂,
        ap (λ on'. if on' then some s₁ else some s) on,
        refl,
        find-add_other now s₀ b (d * 4) cleanup_func normal a (λ p. distinct (sym p))
            ∙ find-add_new now s a d checkpoint_func high a no_a
            ∙ if_pos (string_dec a a) refl _ _,
        find-add_new now s₀ b (d * 4) cleanup_func normal b
              (find-add_other now s a d checkpoint_func high b distinct ∙ no_b)
            ∙ if_pos (string_dec b b) refl _ _,
        find-remove_other t b a (λ p. distinct (sym p)) ∙ find-remove_self s₁ a,
        find-remove_self t b,
        find-remove_other t b q k
            ∙ find-remove_other s₁ a q h
            ∙ find-add_other now s₀ b (d * 4) cleanup_func normal q k
            ∙ find-add_other now s a d checkpoint_func high q h,
      )
