-- ===== src/Memory.antt =====
-- The pages that `std::make_shared<Page<KeyType>>` has made. A `shared_ptr` is an address here, a
-- null one is `none`; what has been made stays, since a pointer keeps its page alive.
use custom_database.Base.{ℕ, suc, ◌≤◌, ◌<◌, ◌≡◌, refl, ite, if_pos, ℕ_discrete, arith}
use custom_database.Page.{Page}

pub record Memory (K : Type 0) : Type 0 where
  pub pages : ℕ → Page K
  pub next : ℕ

abbrev pub update {ℓ} : {A : Type ℓ} → (ℕ → A) → ℕ → A → ℕ → A
update f p v q = ite (ℕ_discrete p q) v (f q)

module _ {K : Type 0} where
  unfoldable pub make_shared : Memory K → Page K → Memory K
  make_shared m p = record { pages = update m.pages m.next p; next = suc m.next }

  pub pages-make_shared : (m : Memory K) (p : Page K) → (make_shared m p).pages m.next ≡ p
  unfolding make_shared
  pages-make_shared m p = if_pos (ℕ_discrete m.next m.next) refl _ _

  -- What is there in `m` is there in `m'`, unchanged.
  pub record Extends (m m' : Memory K) : Type 0 where
    pub grows : m.next ≤ m'.next
    pub keeps : (a : ℕ) → a < m.next → m'.pages a ≡ m.pages a

  pub make_shared-Extends : (m : Memory K) (p : Page K) → Extends m (make_shared m p)
  unfolding make_shared
  make_shared-Extends m p = record { grows = omega arith; keeps = λ a h. ground arith }

  pub Extends-refl : (m : Memory K) → Extends m m
  Extends-refl m = record { grows = omega arith; keeps = λ a h. refl }

  pub Extends-trans : {m m' m'' : Memory K} → Extends m m' → Extends m' m'' → Extends m m''
  Extends-trans {m} {m'} {m''} e e' = record {
    grows = omega arith;
    keeps = λ a h. ground (arith, e.keeps a h, e'.keeps a (omega arith));
  }
