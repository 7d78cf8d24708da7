-- ===== src/HealthMonitor/Recovery.antt =====
-- The cool-down of the recoveries that reportError of src/health_monitor.cpp starts.
use custom_database.Base.{
  ℕ, ◌-◌, ◌<◌, ◌≡◌, ◌≢◌, refl, ap, ◌∙◌, subst, String, true, false, arith, some, ltb, Option-cases,
  Bool-cases, inl, inr, ◌⊎◌, by_test, by_option,
}
use custom_database.Base.Assoc
use custom_database.HealthMonitor.{
  Attempt, succeeded, not_recovered, threw, ComponentHealth, HealthMonitor, returns, locks_again,
  find_component, put_component,
}
use custom_database.HealthMonitor.Status.{ComponentType, type_dec}
use custom_database.HealthMonitor.Reports.{
  alert, cooled_down, should_attempt_recovery, attempt_recovery, note_error, report_error,
  count_attempt, count_success,
}
use custom_database.HealthMonitor.History.{OnReturn}

module _ {D : Type 0} where
  -- What a report leaves alone when it makes no attempt.
  record Quiet (m m' : HealthMonitor D) : Type 0 where
    attempts : m'.recovery_attempts ≡ m.recovery_attempts
    last : m'.last_recovery_attempt ≡ m.last_recovery_attempt
    cooldown : m'.recovery_cooldown ≡ m.recovery_cooldown

  note_error-Quiet :
      (m : HealthMonitor D) (type : ComponentType) (c : ComponentHealth D) (message : String)
      → Quiet m (note_error m type c message)
  unfolding note_error alert put_component
  note_error-Quiet m type c message = elim (Bool-cases m.has_callback) [
    | inl e ↦ record { attempts = rw (e); last = rw (e); cooldown = rw (e) }
    | inr e ↦ record { attempts = rw (e); last = rw (e); cooldown = rw (e) }
  ]

  -- What an attempt at `now` leaves.
  record Stamped (now : ℕ) (type : ComponentType) (m m' : HealthMonitor D) : Type 0 where
    stamp : Assoc.lookup type_dec type m'.last_recovery_attempt ≡ some now
    same_cooldown : m'.recovery_cooldown ≡ m.recovery_cooldown

  count_attempt-Stamped :
      (now : ℕ) (m m' : HealthMonitor D) (type : ComponentType)
      → Quiet m m'
      → Stamped now type m (count_attempt now m' type)
  unfolding count_attempt
  count_attempt-Stamped now m m' type q = record {
    stamp = Assoc.lookup-insert_self type_dec type now m'.last_recovery_attempt;
    same_cooldown = q.cooldown;
  }

  abbrev Reported : ℕ → ComponentType → HealthMonitor D → HealthMonitor D → Type 0
  Reported now type m m' = (m'.recovery_attempts ≡ m.recovery_attempts) ⊎ Stamped now type m m'

  attempt_recovery-Reported :
      (call : ℕ → Attempt) (now : ℕ) (m m' : HealthMonitor D) (type : ComponentType)
      → Quiet m m'
      → OnReturn (Reported now type m) (attempt_recovery call now m' type)
  unfolding attempt_recovery
  attempt_recovery-Reported call now m m' type q =
      by_option (OnReturn (Reported now type m)) (Assoc.lookup type_dec type m'.recovery_actions)
        (λ e. inl q.attempts) (λ action e. on_attempt (call action))
    where
      on_attempt :
          (a : Attempt)
          → OnReturn (Reported now type m) (elim a [
            | succeeded ↦ locks_again (count_success (count_attempt now m' type))
            | not_recovered ↦ returns (count_attempt now m' type)
            | threw ↦ returns (count_attempt now m' type)
          ])
      on_attempt succeeded = tt
      on_attempt not_recovered = inr (count_attempt-Stamped now m m' type q)
      on_attempt threw = inr (count_attempt-Stamped now m m' type q)

  report_error-Reported :
      (call : ℕ → Attempt) (now : ℕ) (m : HealthMonitor D) (type : ComponentType)
      → (message : String) → OnReturn (Reported now type m) (report_error call now m type message)
  unfolding report_error
  report_error-Reported call now m type message =
      by_option (OnReturn (Reported now type m)) (find_component m type) (λ e. inl refl)
        (λ c e.
          let q = note_error-Quiet m type c message in
          by_test (OnReturn (Reported now type m))
            (should_attempt_recovery now (note_error m type c message) type)
            (λ _. attempt_recovery-Reported call now m (note_error m type c message) type q)
            (λ _. inl q.attempts))

  should_attempt-cooling :
      (now later : ℕ) (m : HealthMonitor D) (type : ComponentType)
      → Assoc.lookup type_dec type m.last_recovery_attempt ≡ some now
      → later - now < m.recovery_cooldown
      → should_attempt_recovery later m type ≡ false
  unfolding should_attempt_recovery cooled_down
  should_attempt-cooling now later m type stamp soon =
      let early : ltb (later - now) m.recovery_cooldown ≡ true = ground arith in
      elim (Option-cases (Assoc.lookup type_dec type m.recovery_actions)) [
        | inl e ↦ rw (should_attempt_recovery, e)
        | inr (action, e) ↦ elim (Option-cases (find_component m type)) [
          | inl none_found ↦ rw (should_attempt_recovery, e, none_found)
          | inr (c, found) ↦
              rw (should_attempt_recovery, e, found, cooled_down, stamp, early) (ground arith)
        ]
      ]

  report_error-cooling :
      (call : ℕ → Attempt) (now later : ℕ) (m : HealthMonitor D) (type : ComponentType)
      → (message : String) → Assoc.lookup type_dec type m.last_recovery_attempt ≡ some now
      → later - now < m.recovery_cooldown
      → (m' : HealthMonitor D) × (report_error call later m type message ≡ returns m') × Quiet m m'
  unfolding report_error
  report_error-cooling call now later m type message stamp soon =
      elim (Option-cases (find_component m type)) [
        | inl e ↦
            (m, rw (report_error, e), record { attempts = refl; last = refl; cooldown = refl })
        | inr (c, e) ↦
            let q = note_error-Quiet m type c message in
            let s =
              should_attempt-cooling now later (note_error m type c message) type
                (ap (Assoc.lookup type_dec type) q.last ∙ stamp)
                (omega (arith, soon, q.cooldown)) in
            (note_error m type c message, rw (report_error, e, s), q)
      ]

  -- When reportError has returned and counted a recovery attempt, then the next reportError for the
  -- component within the cool-down returns, whatever its recovery action would do, and neither
  -- counts an attempt nor moves the time of the last one.
  pub report_error-cooldown :
      (call call' : ℕ → Attempt) (now later : ℕ) (m m' : HealthMonitor D) (type : ComponentType)
      → (message message' : String) → report_error call now m type message ≡ returns m'
      → m'.recovery_attempts ≢ m.recovery_attempts
      → later - now < m.recovery_cooldown
      → (m'' : HealthMonitor D) × (report_error call' later m' type message' ≡ returns m'')
        × (m''.recovery_attempts ≡ m'.recovery_attempts)
        × (m''.last_recovery_attempt ≡ m'.last_recovery_attempt)
  report_error-cooldown call call' now later m m' type message message' e attempted soon =
      elim (subst (OnReturn (Reported now type m)) e
        (report_error-Reported call now m type message)) [
          | inl same ↦ absurd (attempted same)
          | inr s ↦
              let (m'', returned, q) =
                report_error-cooling call' now later m' type message' s.stamp
                  (omega (arith, soon, s.same_cooldown)) in
              (m'', returned, q.attempts, q.last)
        ]
