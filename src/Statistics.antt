-- ===== src/Statistics.antt =====
-- What the getStats functions of src/job_scheduler.cpp, src/checkpoint_manager.cpp,
-- src/health_monitor.cpp and src/version_manager.cpp do with a `double`: two counts are converted
-- and divided, and the quotient is scaled by 100.0 and compared.
use custom_database.Base.{
  ℕ, ◌≤◌, ◌<◌, ◌≡◌, refl, ap, ◌∙◌, subst, Bool, true, arith, leb, if◌then◌else◌, by_test,
}

-- `hundredths n` is the literal n / 100, and `ge` is `>=`.
pub record Double (W : Type 0) : Type 0 where
  pub hundredths : ℕ → W
  pub of_size : ℕ → W
  pub divide : W → W → W
  pub times : W → W → W
  pub ge : W → W → Bool

abbrev pub nought : {W : Type 0} ⦃d : Double W⦄ → W
nought ⦃d⦄ = d.hundredths 0

abbrev pub hundred : {W : Type 0} ⦃d : Double W⦄ → W
hundred ⦃d⦄ = d.hundredths 10_000

infix 4 ◌≽◌
abbrev pub ◌≽◌ : {W : Type 0} ⦃d : Double W⦄ → W → W → Type 0
◌≽◌ ⦃d⦄ x y = d.ge x y ≡ true

-- IEEE 754: the literals compare as what they denote; conversion, division and multiplication round
-- monotonically, and those of the last four laws are exact.
pub record IsRounded (W : Type 0) ⦃d : Double W⦄ : Type 0 where
  pub ge-hundredths :
      (m n : ℕ) → m ≤ 10_000 → n ≤ 10_000 → d.ge (d.hundredths m) (d.hundredths n) ≡ leb n m
  pub divide_mono :
      (a b c : ℕ)
      → a ≤ b
      → 0 < c
      → d.divide (d.of_size b) (d.of_size c) ≽ d.divide (d.of_size a) (d.of_size c)
  pub times_mono : (x y : W) → x ≽ y → d.times x hundred ≽ d.times y hundred
  pub divide_self : (c : ℕ) → 0 < c → d.divide (d.of_size c) (d.of_size c) ≡ d.hundredths 100
  pub divide_nought : (c : ℕ) → 0 < c → d.divide (d.of_size 0) (d.of_size c) ≡ nought
  pub times_one : d.times (d.hundredths 100) hundred ≡ hundred
  pub times_nought : d.times nought hundred ≡ nought

module _ {W : Type 0} ⦃d : Double W⦄ where
  -- `total > 0 ? (double)part / total * 100.0 : otherwise`
  unfoldable pub percentage : W → ℕ → ℕ → W
  percentage otherwise part total =
      if leb 1 total
      then d.times (d.divide (d.of_size part) (d.of_size total)) hundred
      else otherwise

  pub percentage-nought : IsRounded W → (total : ℕ) → percentage nought 0 total ≡ nought
  unfolding percentage
  percentage-nought l total =
      by_test (λ r. r ≡ nought) (leb 1 total)
        (λ e. ap (λ q. d.times q hundred) (l.divide_nought total (ground arith)) ∙ l.times_nought)
        (λ e. refl)

  pub percentage-whole : IsRounded W → (total : ℕ) → percentage hundred total total ≡ hundred
  unfolding percentage
  percentage-whole l total =
      by_test (λ r. r ≡ hundred) (leb 1 total)
        (λ e. ap (λ q. d.times q hundred) (l.divide_self total (ground arith)) ∙ l.times_one)
        (λ e. refl)

  abbrev pub IsPercentage : W → Type 0
  IsPercentage r = (r ≽ nought) × (hundred ≽ r)

  pub percentage-IsPercentage :
      IsRounded W
      → (n part total : ℕ) → n ≤ 10_000
      → part ≤ total
      → IsPercentage (percentage (d.hundredths n) part total)
  unfolding percentage
  percentage-IsPercentage l n part total small le =
      by_test IsPercentage (leb 1 total)
        (λ e.
          let pos : 0 < total = ground arith in
          (
            subst (λ z. d.times (d.divide (d.of_size part) (d.of_size total)) hundred ≽ z)
                (ap (λ q. d.times q hundred) (l.divide_nought total pos) ∙ l.times_nought)
                (l.times_mono _ _ (l.divide_mono 0 part total (omega arith) pos)),
            subst (λ z. z ≽ d.times (d.divide (d.of_size part) (d.of_size total)) hundred)
                (ap (λ q. d.times q hundred) (l.divide_self total pos) ∙ l.times_one)
                (l.times_mono _ _ (l.divide_mono part total total le pos)),
          ))
        (λ e. (
          l.ge-hundredths n 0 small (omega arith) ∙ ground arith,
          l.ge-hundredths 10_000 n (omega arith) small ∙ ground arith,
        ))
