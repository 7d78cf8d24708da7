-- ===== src/VersionManager/Collection.antt =====
-- src/version_manager.cpp: the clean-up of old versions and of aborted transactions.
use custom_database.Base.{
  ℕ, ◌+◌, ◌%◌, Bool, true, false, ◌&&◌, List, [], ◌∷◌, none, some, ltb, leb, ◌==◌, if◌then◌else◌,
  ℕ_discrete,
}
use custom_database.Base.Assoc
use custom_database.VersionManager.{
  VersionedRecord, Transaction, VersionManager, u64_mod, contains, find_committed,
}

module _ {K : Type 0} where
  -- canCleanupVersion
  unfoldable pub can_cleanup : VersionManager K → VersionedRecord K → Bool
  can_cleanup m v = elim (find_committed m v.created_by) [ none ↦ false | some _ ↦ true ]

  -- The loop of cleanupOldVersions over the versions of a key, `kept` being how many it has kept:
  -- what stays, and how many go.
  unfoldable pub clean_versions :
      VersionManager K → ℕ → ℕ → List (VersionedRecord K) → List (VersionedRecord K) × ℕ
  clean_versions m now kept [] = ([], 0)
  clean_versions m now kept (v ∷ vs) =
      let stay = clean_versions m now (kept + 1) vs in
      let go = clean_versions m now kept vs in
      if kept == 0
      then (v ∷ stay.0, stay.1)
      else if ltb (v.created_at + m.version_retention_period) now && can_cleanup m v
      then (go.0, go.1 + 1)
      else if leb m.max_versions_per_key kept && can_cleanup m v
      then (go.0, go.1 + 1)
      else (v ∷ stay.0, stay.1)

  unfoldable pub clean_keys :
      VersionManager K
      → ℕ
      → List (K × List (VersionedRecord K))
      → List (K × List (VersionedRecord K)) × ℕ
  clean_keys m now [] = ([], 0)
  clean_keys m now ((key, vs) ∷ rest) =
      let here = clean_versions m now 0 vs in
      let r = clean_keys m now rest in ((key, here.0) ∷ r.0, here.1 + r.1)

  unfoldable pub cleanup_old_versions : ℕ → VersionManager K → VersionManager K × ℕ
  cleanup_old_versions now m =
      let r = clean_keys m now m.versions in
      (
        record m {
          versions = r.0;
          cleaned_versions = (m.cleaned_versions + r.1) % u64_mod;
          last_cleanup = now;
        },
        r.1,
      )

  -- The ids of the active transactions that are marked aborted.
  unfoldable pub aborted_ids : List (ℕ × Transaction K) → List ℕ
  aborted_ids [] = []
  aborted_ids ((txn_id, txn) ∷ rest) =
      let r = aborted_ids rest in if txn.is_aborted then txn_id ∷ r else r

  unfoldable pub drop_created_by : List ℕ → List (VersionedRecord K) → List (VersionedRecord K) × ℕ
  drop_created_by ids [] = ([], 0)
  drop_created_by ids (v ∷ vs) =
      let r = drop_created_by ids vs in
      if contains ids v.created_by then (r.0, r.1 + 1) else (v ∷ r.0, r.1)

  unfoldable pub drop_aborted :
      List ℕ → List (K × List (VersionedRecord K)) → List (K × List (VersionedRecord K)) × ℕ
  drop_aborted ids [] = ([], 0)
  drop_aborted ids ((key, vs) ∷ rest) =
      let here = drop_created_by ids vs in
      let r = drop_aborted ids rest in ((key, here.0) ∷ r.0, here.1 + r.1)

  unfoldable pub erase_all : List ℕ → List (ℕ × Transaction K) → List (ℕ × Transaction K)
  erase_all [] txns = txns
  erase_all (txn_id ∷ ids) txns = erase_all ids (Assoc.erase ℕ_discrete txn_id txns)

  unfoldable pub cleanup_aborted : VersionManager K → VersionManager K × ℕ
  cleanup_aborted m =
      let ids = aborted_ids m.active_transactions in
      let r = drop_aborted ids m.versions in
      (record m { versions = r.0; active_transactions = erase_all ids m.active_transactions }, r.1)
