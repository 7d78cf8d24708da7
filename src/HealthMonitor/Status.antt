-- ===== src/HealthMonitor/Status.antt =====
-- The enumerations of include/health_monitor.h. An enumerator is compared by its value, which is
-- its place in the list.
use custom_database.Base.{
  ℕ, zero, suc, ◌≤◌, ◌≡◌, refl, sym, ap, ◌∙◌, Bool, true, false, ltb, if◌then◌else◌, ℕ_discrete,
  arith,
}

pub data ComponentType : Type 0 where
  wal_manager page_cache writer_queue job_scheduler version_manager : ComponentType
  checkpoint_manager btree_engine : ComponentType

pub data HealthStatus : Type 0 where
  healthy warning critical failed : HealthStatus

code : ComponentType → ℕ
code wal_manager = 0
code page_cache = 1
code writer_queue = 2
code job_scheduler = 3
code version_manager = 4
code checkpoint_manager = 5
code btree_engine = 6

of_code : ℕ → ComponentType
of_code zero = wal_manager
of_code (suc zero) = page_cache
of_code (suc (suc zero)) = writer_queue
of_code (suc (suc (suc zero))) = job_scheduler
of_code (suc (suc (suc (suc zero)))) = version_manager
of_code (suc (suc (suc (suc (suc zero))))) = checkpoint_manager
of_code n = btree_engine

of_code-code : (t : ComponentType) → of_code (code t) ≡ t
unfolding of_code code
of_code-code wal_manager = refl
of_code-code page_cache = refl
of_code-code writer_queue = refl
of_code-code job_scheduler = refl
of_code-code version_manager = refl
of_code-code checkpoint_manager = refl
of_code-code btree_engine = refl

unfoldable pub type_dec : Discrete ComponentType
unfolding code of_code of_code-code
type_dec s t = elim (ℕ_discrete (code s) (code t)) [
  | yes e ↦ yes (sym (of_code-code s) ∙ ap of_code e ∙ of_code-code t)
  | no h ↦ no (λ e. h (ap code e))
]

-- The value of the enumerator.
abbrev pub severity : HealthStatus → ℕ
severity healthy = 0
severity warning = 1
severity critical = 2
severity failed = 3

-- `if (status > worst_status) worst_status = status`
unfoldable pub worse : HealthStatus → HealthStatus → HealthStatus
worse worst status = if ltb (severity worst) (severity status) then status else worst

unfoldable pub is_healthy : HealthStatus → Bool
is_healthy healthy = true
is_healthy s = false

-- The worse of two statuses is at least as severe as both, and is one of them.
pub worse_upper :
    (s t : HealthStatus) → (severity s ≤ severity (worse s t)) × (severity t ≤ severity (worse s t))
unfolding worse
worse_upper s t = (ground arith, ground arith)

pub worse_lub :
    (s t : HealthStatus) (bound : ℕ)
    → severity s ≤ bound
    → severity t ≤ bound
    → severity (worse s t) ≤ bound
unfolding worse
worse_lub s t bound h k = ground arith
