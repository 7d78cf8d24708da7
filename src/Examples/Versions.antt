-- ===== src/Examples/Versions.antt =====
-- Examples of the version manager: transaction 1 is active in a manager without versions, and a
-- manager has two versions of the key 4.
use custom_database.Base.{
  ℕ, ◌≡◌, ◌≢◌, refl, List, [], ◌∷◌, Bool, true, false, none, some, arith, ℕ_discrete,
}
use custom_database.Base.Assoc
use custom_database.VersionManager.{
  VersionedRecord, Transaction, VersionManager, new_manager, find_committed, find_versions,
  is_transaction_active, insert, update, remove, replace_versions, mark_deleted, versions_of,
  is_visible, find_visible,
}
use custom_database.VersionManager.Collection.{can_cleanup, cleanup_old_versions}
use custom_database.VersionManager.Transactions.{IsValid, new_manager-IsValid}
use custom_database.VersionManager.History.{Call, run, run-IsValid}
use custom_database.VersionManager.Visibility.{find_visible-isolated}
use custom_database.VersionManager.Cleanup.{
  Cleaned, cleanup_old_versions-Cleaned, cleanup_old_versions-hidden,
}

abbrev version : ℕ → ℕ → VersionedRecord ℕ
version at txn = record {
  key = 4;
  bytes = 8 ∷ [];
  created_by = txn;
  deleted_by = 0;
  created_at = at;
  deleted_at = 0;
  is_deleted = false;
}

abbrev transaction : ℕ → Bool → Transaction ℕ
transaction i committed = record {
  id = i;
  start_time = 1;
  commit_time = 2;
  is_committed = committed;
  is_aborted = false;
  read_set = [];
  write_set = [];
}

-- Transaction 1 has committed its version, and transaction 2 has written a newer one.
abbrev manager : VersionManager ℕ
manager = record {
  versions = (4, version 3 2 ∷ version 2 1 ∷ []) ∷ [];
  active_transactions = (2, transaction 2 false) ∷ [];
  committed_transactions = (1, transaction 1 true) ∷ [];
  next_transaction_id = 3;
  total_versions = 2;
  cleaned_versions = 0;
  last_cleanup = 0;
  version_retention_period = 10;
  max_versions_per_key = 5;
}

active : is_transaction_active manager 2 ≡ true
unfolding is_transaction_active Assoc.lookup
active = ground arith

uncommitted : find_committed manager 2 ≡ none
unfolding Assoc.lookup
uncommitted = ground arith

two_versions : find_versions ℕ_discrete manager 4 ≡ some (version 3 2 ∷ version 2 1 ∷ [])
unfolding Assoc.lookup
two_versions = ground arith

other : ◌≢◌ {A = ℕ} 1 2
other = λ e. omega arith

find_visible-isolated_example :
    (find_visible ℕ_discrete (insert ℕ_discrete 9 manager 2 4 (6 ∷ [])).0 4 1
      ≡ find_visible ℕ_discrete manager 4 1)
    × (find_visible ℕ_discrete (update ℕ_discrete 9 manager 2 4 (6 ∷ [])).0 4 1
        ≡ find_visible ℕ_discrete manager 4 1)
find_visible-isolated_example =
    find_visible-isolated ℕ_discrete 9 manager 2 4 (6 ∷ []) 4 1 uncommitted other

removed : (remove ℕ_discrete 9 manager 2 4).1 ≡ true
unfolding remove is_transaction_active replace_versions mark_deleted versions_of is_visible
    Assoc.lookup ℕ_discrete
removed = refl

abbrev calls : List (ℕ × Call ℕ)
calls =
    (1, Call.begins)
    ∷ (2, Call.inserts 1 4 (6 ∷ []))
    ∷ (3, Call.aborts 1)
    ∷ (4, Call.cleans_aborted)
    ∷ []

run-IsValid_example : IsValid (run ℕ_discrete (new_manager 0 10 5) calls)
run-IsValid_example =
    run-IsValid ℕ_discrete (new_manager 0 10 5) calls (new_manager-IsValid 0 10 5)
      (unfold new_manager in omega arith)

cleanup_old_versions-Cleaned_example :
    (vs' : List (VersionedRecord ℕ)) × (find_versions ℕ_discrete
        (cleanup_old_versions 100 manager).0
        4
      ≡ some vs')
    × Cleaned manager 100 (version 3 2 ∷ version 2 1 ∷ []) vs'
cleanup_old_versions-Cleaned_example =
    cleanup_old_versions-Cleaned manager 100 ℕ_discrete 4 (version 3 2 ∷ version 2 1 ∷ [])
      two_versions

newer_stays : can_cleanup manager (version 3 2) ≡ false
unfolding can_cleanup Assoc.lookup
newer_stays = ground arith

older_goes : can_cleanup manager (version 2 1) ≡ true
unfolding can_cleanup Assoc.lookup
older_goes = ground arith

cleanup_old_versions-hidden_example :
    (find_visible ℕ_discrete manager 4 1 ≡ some (version 2 1))
    × (find_visible ℕ_discrete (cleanup_old_versions 100 manager).0 4 1 ≡ none)
cleanup_old_versions-hidden_example =
    cleanup_old_versions-hidden manager 100 ℕ_discrete 4 (version 2 1) (version 3 2) 1 two_versions
      newer_stays older_goes refl (omega arith) other
