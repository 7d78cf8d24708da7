-- ===== src/VersionManager/Accounting.antt =====
-- How many versions the calls of src/version_manager.cpp make, and how many they remove.
use custom_database.Base.{
  ℕ, suc, ◌+◌, ◌≤◌, ◌<◌, ◌≡◌, refl, ap, List, [], ◌∷◌, none, some, arith, length, by_test,
  by_option, Option-cases, inl, inr, Bool,
}
use custom_database.Base.Assoc
use custom_database.VersionManager.{
  VersionManager, VersionedRecord, u64_mod, begin_transaction, commit_transaction,
  abort_transaction, insert, update, remove, read, note_write, note_read, push_version, new_record,
  replace_versions, mark_deleted, versions_of, is_transaction_active,
}
use custom_database.VersionManager.Collection.{
  clean_versions, clean_keys, cleanup_old_versions, cleanup_aborted,
}
use custom_database.VersionManager.Transactions.{IsValid, cleanup_aborted-idle}
use custom_database.VersionManager.History.{Call, step, run, step-IsValid, next-step}

module _ {K : Type 0} where
  -- How many versions the keys have.
  abbrev pub stored : List (K × List (VersionedRecord K)) → ℕ
  stored [] = 0
  stored ((key, vs) ∷ rest) = length vs + stored rest

  stored-clean_versions :
      (m : VersionManager K) (now kept : ℕ) (vs : List (VersionedRecord K))
      → length (clean_versions m now kept vs).0 + (clean_versions m now kept vs).1 ≡ length vs
  unfolding clean_versions
  stored-clean_versions m now kept [] = refl
  stored-clean_versions m now kept (v ∷ vs) =
      ground (arith, stored-clean_versions m now (kept + 1) vs, stored-clean_versions m now kept vs)

  stored-clean_keys :
      (m : VersionManager K) (now : ℕ) (rest : List (K × List (VersionedRecord K)))
      → stored (clean_keys m now rest).0 + (clean_keys m now rest).1 ≡ stored rest
  unfolding clean_keys
  stored-clean_keys m now [] = refl
  stored-clean_keys m now ((key, vs) ∷ rest) =
      omega (arith, stored-clean_versions m now 0 vs, stored-clean_keys m now rest)

  -- The versions made are those that are stored and those that were removed, and no more than `n`.
  pub record Accounted (n : ℕ) (m : VersionManager K) : Type 0 where
    pub total_is : stored m.versions + m.cleaned_versions ≡ m.total_versions
    pub total_upper : m.total_versions ≤ n

  same_versions :
      (n : ℕ) (m m' : VersionManager K)
      → m'.versions ≡ m.versions
      → m'.total_versions ≡ m.total_versions
      → m'.cleaned_versions ≡ m.cleaned_versions
      → Accounted n m
      → Accounted (suc n) m'
  same_versions n m m' e f g a = record {
    total_is = omega (arith, ap stored e, f, g, a.total_is);
    total_upper = omega (arith, f, a.total_upper);
  }

  pub cleanup_old_versions-Accounted :
      (n now : ℕ) (m : VersionManager K)
      → n < u64_mod
      → Accounted n m
      → Accounted (suc n) (cleanup_old_versions now m).0
  unfolding cleanup_old_versions
  cleanup_old_versions-Accounted n now m room a = record {
    total_is = omega (arith, stored-clean_keys m now m.versions, a.total_is, a.total_upper);
    total_upper = omega (arith, a.total_upper);
  }

module _ {K : Type 0} (dec : Discrete K) where
  length_at : List (K × List (VersionedRecord K)) → K → ℕ
  length_at m key = elim (Assoc.lookup dec key m) [ none ↦ 0 | some vs ↦ length vs ]

  stored-insert :
      (key : K) (vs : List (VersionedRecord K)) (m : List (K × List (VersionedRecord K)))
      → stored (Assoc.insert dec key vs m) + length_at m key ≡ stored m + length vs
  unfolding Assoc.insert Assoc.lookup length_at
  stored-insert key vs [] = omega arith
  stored-insert key vs ((k, ws) ∷ m) = ground (arith, stored-insert key vs m)

  length-versions_of :
      (m : VersionManager K) (key : K) → length (versions_of dec m key) ≡ length_at m.versions key
  unfolding versions_of length_at
  length-versions_of m key = ground arith

  length-mark_deleted :
      (m : VersionManager K) (now j : ℕ) (vs vs' : List (VersionedRecord K))
      → mark_deleted m now j vs ≡ some vs'
      → length vs' ≡ length vs
  unfolding mark_deleted
  length-mark_deleted m now j [] vs' e = absurd (cc)
  length-mark_deleted m now j (v ∷ vs) vs' e = elim (Option-cases (mark_deleted m now j vs)) [
    | inl missing ↦ ground (arith, missing)
    | inr (ws, found) ↦ ground (arith, found, length-mark_deleted m now j vs ws found)
  ]

  note_write-Accounted :
      (n : ℕ) (m : VersionManager K) (j : ℕ) (key : K)
      → Accounted n m
      → Accounted n (note_write m j key)
  unfolding note_write
  note_write-Accounted n m j key a = record {
    total_is = ground (arith, a.total_is);
    total_upper = ground (arith, a.total_upper);
  }

  push_version-Accounted :
      (n : ℕ) (m : VersionManager K) (key : K) (v : VersionedRecord K)
      → suc n < u64_mod
      → Accounted n m
      → Accounted (suc n) (push_version dec m key v)
  unfolding push_version
  push_version-Accounted n m key v room a = record {
    total_is = omega (
      arith,
      stored-insert key (v ∷ versions_of dec m key) m.versions,
      length-versions_of m key,
      a.total_is,
      a.total_upper,
    );
    total_upper = omega (arith, a.total_upper);
  }

  replace_versions-Accounted :
      (n : ℕ) (m : VersionManager K) (now j : ℕ) (key : K)
      → Accounted n m
      → Accounted
          (suc n)
          (replace_versions dec m key (mark_deleted m now j (versions_of dec m key))).0
  unfolding replace_versions
  replace_versions-Accounted n m now j key a =
      by_option (λ (r : VersionManager K × Bool). Accounted (suc n) r.0)
        (mark_deleted m now j (versions_of dec m key)) (λ e. same_versions n m m refl refl refl a)
        (λ vs e. record {
          total_is = omega (
            arith,
            stored-insert key vs m.versions,
            length-versions_of m key,
            length-mark_deleted m now j (versions_of dec m key) vs e,
            a.total_is,
          );
          total_upper = omega (arith, a.total_upper);
        })

  written-Accounted :
      (n now : ℕ) (m : VersionManager K) (j : ℕ) (key : K) (bytes : List ℕ)
      → suc n < u64_mod
      → Accounted n m
      → Accounted (suc n) (insert dec now m j key bytes).0
  unfolding insert
  written-Accounted n now m j key bytes room a =
      by_test (λ (r : VersionManager K × Bool). Accounted (suc n) r.0) (is_transaction_active m j)
        (λ e.
          note_write-Accounted (suc n) _ j key
            (push_version-Accounted n m key (new_record now key bytes j) room a))
        (λ e. same_versions n m m refl refl refl a)

  step-Accounted :
      (n : ℕ) (m : VersionManager K) (c : ℕ × Call K)
      → IsValid m
      → suc n < u64_mod
      → Accounted n m
      → Accounted (suc n) (step dec m c)
  unfolding step begin_transaction commit_transaction abort_transaction update insert remove read
      note_read cleanup_aborted
  step-Accounted n m (now, Call.begins) v room a = same_versions n m _ refl refl refl a
  step-Accounted n m (now, Call.commits j) v room a =
      same_versions n m _ (ground arith) (ground arith) (ground arith) a
  step-Accounted n m (now, Call.aborts j) v room a =
      same_versions n m _ (ground arith) (ground arith) (ground arith) a
  step-Accounted n m (now, Call.inserts j key bytes) v room a =
      written-Accounted n now m j key bytes room a
  step-Accounted n m (now, Call.updates j key bytes) v room a =
      written-Accounted n now m j key bytes room a
  step-Accounted n m (now, Call.removes j key) v room a =
      by_test (λ (r : VersionManager K × Bool). Accounted (suc n) r.0) (is_transaction_active m j)
        (λ e. replace_versions-Accounted n m now j key a)
        (λ e. same_versions n m m refl refl refl a)
  step-Accounted n m (now, Call.reads j key) v room a =
      same_versions n m _ (ground arith) (ground arith) (ground arith) a
  step-Accounted n m (now, Call.cleans_old) v room a =
      cleanup_old_versions-Accounted n now m (omega arith) a
  step-Accounted n m (now, Call.cleans_aborted) v room a =
      same_versions n m _ (ap (λ r. (r.0).versions) (cleanup_aborted-idle m v)) refl refl a

  pub run-Accounted :
      (n : ℕ) (m : VersionManager K) (cs : List (ℕ × Call K))
      → IsValid m
      → m.next_transaction_id + length cs < u64_mod
      → n + length cs < u64_mod
      → Accounted n m
      → Accounted (n + length cs) (run dec m cs)
  unfolding run
  run-Accounted n m [] v ids room a = same_total a
    where
      same_total : Accounted n m → Accounted (n + 0) m
      same_total a = record { total_is = a.total_is; total_upper = omega (arith, a.total_upper) }
  run-Accounted n m (c ∷ cs) v ids room a =
      let r =
        run-Accounted (suc n) (step dec m c) cs (step-IsValid dec m c v (omega arith))
          (omega (arith, next-step dec m c (omega arith))) (omega arith)
          (step-Accounted n m c v (omega arith) a) in
      record { total_is = r.total_is; total_upper = omega (arith, r.total_upper) }
