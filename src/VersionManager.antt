-- ===== src/VersionManager.antt =====
-- include/version_manager.h and src/version_manager.cpp: the versions of each key and the
-- transactions that make them. A call takes the time of its clock readings, `now`. The records are
-- shared with nobody but the caller of `read`, and the model keeps them by value.
pub mod Collection
pub mod Transactions
pub mod History
pub mod Visibility
pub mod Outcomes
pub mod Cleanup
pub mod Accounting
pub mod Statistics
use custom_database.Base.{
  ℕ, ◌+◌, ◌%◌, Bool, true, false, not, ◌&&◌, ◌||◌, List, [], ◌∷◌, ◌++◌, map, Option, none, some,
  ltb, leb, ◌==◌, if◌then◌else◌, ℕ_discrete,
}
use custom_database.Base.Assoc

pub record VersionedRecord (K : Type 0) : Type 0 where
  pub key : K
  pub bytes : List ℕ
  pub created_by : ℕ
  pub deleted_by : ℕ
  pub created_at : ℕ
  pub deleted_at : ℕ
  pub is_deleted : Bool

pub record Transaction (K : Type 0) : Type 0 where
  pub id : ℕ
  pub start_time : ℕ
  pub commit_time : ℕ
  pub is_committed : Bool
  pub is_aborted : Bool
  pub read_set : List K
  pub write_set : List K

pub record VersionManager (K : Type 0) : Type 0 where
  pub versions : List (K × List (VersionedRecord K))
  pub active_transactions : List (ℕ × Transaction K)
  pub committed_transactions : List (ℕ × Transaction K)
  pub next_transaction_id : ℕ
  pub total_versions : ℕ
  pub cleaned_versions : ℕ
  pub last_cleanup : ℕ
  pub version_retention_period : ℕ
  pub max_versions_per_key : ℕ

abbrev pub u64_mod : ℕ
u64_mod = 18446744073709551616

unfoldable pub new_record : {K : Type 0} → ℕ → K → List ℕ → ℕ → VersionedRecord K
new_record now key bytes txn_id = record {
  key = key;
  bytes = bytes;
  created_by = txn_id;
  deleted_by = 0;
  created_at = now;
  deleted_at = 0;
  is_deleted = false;
}

unfoldable pub contains : List ℕ → ℕ → Bool
contains [] a = false
contains (x ∷ xs) a = x == a || contains xs a

module _ {K : Type 0} where
  unfoldable pub new_manager : ℕ → ℕ → ℕ → VersionManager K
  new_manager now retention max_versions = record {
    versions = [];
    active_transactions = [];
    committed_transactions = [];
    next_transaction_id = 1;
    total_versions = 0;
    cleaned_versions = 0;
    last_cleanup = now;
    version_retention_period = retention;
    max_versions_per_key = max_versions;
  }

  unfoldable pub new_transaction : ℕ → ℕ → Transaction K
  new_transaction now txn_id = record {
    id = txn_id;
    start_time = now;
    commit_time = 0;
    is_committed = false;
    is_aborted = false;
    read_set = [];
    write_set = [];
  }

  abbrev pub find_active : VersionManager K → ℕ → Option (Transaction K)
  find_active m txn_id = Assoc.lookup ℕ_discrete txn_id m.active_transactions

  abbrev pub find_committed : VersionManager K → ℕ → Option (Transaction K)
  find_committed m txn_id = Assoc.lookup ℕ_discrete txn_id m.committed_transactions

  -- beginTransaction: the id is that of the counter, a 64-bit atomic.
  unfoldable pub begin_transaction : ℕ → VersionManager K → VersionManager K × ℕ
  begin_transaction now m =
      let txn_id = m.next_transaction_id in
      (
        record m {
          next_transaction_id = (txn_id + 1) % u64_mod;
          active_transactions =
              Assoc.insert ℕ_discrete txn_id (new_transaction now txn_id) m.active_transactions;
        },
        txn_id,
      )

  unfoldable pub commit_transaction : ℕ → VersionManager K → ℕ → VersionManager K × Bool
  commit_transaction now m txn_id = elim (find_active m txn_id) [
    | none ↦ (m, false)
    | some txn ↦ (
      record m {
        committed_transactions =
            Assoc.insert ℕ_discrete txn_id (record txn { is_committed = true; commit_time = now })
              m.committed_transactions;
        active_transactions = Assoc.erase ℕ_discrete txn_id m.active_transactions;
      },
      true,
    )
  ]

  -- abortTransaction: `is_aborted` is set on an object that leaves the map at once.
  unfoldable pub abort_transaction : VersionManager K → ℕ → VersionManager K × Bool
  abort_transaction m txn_id = elim (find_active m txn_id) [
    | none ↦ (m, false)
    | some txn ↦ (
      record m { active_transactions = Assoc.erase ℕ_discrete txn_id m.active_transactions },
      true,
    )
  ]

  unfoldable pub is_transaction_active : VersionManager K → ℕ → Bool
  is_transaction_active m txn_id = elim (find_active m txn_id) [ none ↦ false | some _ ↦ true ]

  -- `it->second->write_set.push_back(key)`, if the transaction is active.
  unfoldable pub note_write : VersionManager K → ℕ → K → VersionManager K
  note_write m txn_id key = elim (find_active m txn_id) [
    | none ↦ m
    | some txn ↦ record m {
      active_transactions =
          Assoc.insert ℕ_discrete txn_id (record txn { write_set = txn.write_set ++ key ∷ [] })
            m.active_transactions;
    }
  ]

  unfoldable pub note_read : VersionManager K → ℕ → K → VersionManager K
  note_read m txn_id key = elim (find_active m txn_id) [
    | none ↦ m
    | some txn ↦ record m {
      active_transactions =
          Assoc.insert ℕ_discrete txn_id (record txn { read_set = txn.read_set ++ key ∷ [] })
            m.active_transactions;
    }
  ]

  unfoldable pub is_visible : VersionManager K → VersionedRecord K → ℕ → Bool
  is_visible m version reader =
      if version.created_by == reader
      then not version.is_deleted || version.deleted_by == reader
      else elim (find_committed m version.created_by) [
        | none ↦ false
        | some _ ↦
            if version.is_deleted && not (version.deleted_by == reader)
            then elim (find_committed m version.deleted_by) [ none ↦ true | some _ ↦ false ]
            else true
      ]

  -- The newest visible version of a list, newest first.
  unfoldable pub first_visible :
      VersionManager K → ℕ → List (VersionedRecord K) → Option (VersionedRecord K)
  first_visible m reader [] = none
  first_visible m reader (v ∷ vs) =
      if is_visible m v reader then some v else first_visible m reader vs

  -- The loop of `remove` over the versions: the first that is visible and not deleted is marked;
  -- `none` if there is none.
  unfoldable pub mark_deleted :
      VersionManager K → ℕ → ℕ → List (VersionedRecord K) → Option (List (VersionedRecord K))
  mark_deleted m now txn_id [] = none
  mark_deleted m now txn_id (v ∷ vs) =
      let rest = mark_deleted m now txn_id vs in
      if is_visible m v txn_id && not v.is_deleted
      then some (record v { is_deleted = true; deleted_by = txn_id; deleted_at = now } ∷ vs)
      else elim rest [ none ↦ none | some vs' ↦ some (v ∷ vs') ]

  unfoldable pub set_retention_period : ℕ → VersionManager K → VersionManager K
  set_retention_period period m = record m { version_retention_period = period }

  unfoldable pub set_max_versions : ℕ → VersionManager K → VersionManager K
  set_max_versions n m = record m { max_versions_per_key = n }

module _ {K : Type 0} (dec : Discrete K) where
  abbrev pub find_versions : VersionManager K → K → Option (List (VersionedRecord K))
  find_versions m key = Assoc.lookup dec key m.versions

  -- `versions[key]`, which makes an empty list for a new key.
  unfoldable pub versions_of : VersionManager K → K → List (VersionedRecord K)
  versions_of m key = elim (find_versions m key) [ none ↦ [] | some vs ↦ vs ]

  unfoldable pub push_version : VersionManager K → K → VersionedRecord K → VersionManager K
  push_version m key v = record m {
    versions = Assoc.insert dec key (v ∷ versions_of m key) m.versions;
    total_versions = (m.total_versions + 1) % u64_mod;
  }

  unfoldable pub insert : ℕ → VersionManager K → ℕ → K → List ℕ → VersionManager K × Bool
  insert now m txn_id key bytes =
      if is_transaction_active m txn_id
      then (note_write (push_version m key (new_record now key bytes txn_id)) txn_id key, true)
      else (m, false)

  unfoldable pub update : ℕ → VersionManager K → ℕ → K → List ℕ → VersionManager K × Bool
  update now m txn_id key bytes =
      if is_transaction_active m txn_id
      then (note_write (push_version m key (new_record now key bytes txn_id)) txn_id key, true)
      else (m, false)

  unfoldable pub replace_versions :
      VersionManager K → K → Option (List (VersionedRecord K)) → VersionManager K × Bool
  replace_versions m key none = (m, false)
  replace_versions m key (some vs) =
      (record m { versions = Assoc.insert dec key vs m.versions }, true)

  unfoldable pub remove : ℕ → VersionManager K → ℕ → K → VersionManager K × Bool
  unfolding replace_versions
  remove now m txn_id key =
      if is_transaction_active m txn_id
      then replace_versions m key (mark_deleted m now txn_id (versions_of m key))
      else (m, false)

  unfoldable pub find_visible : VersionManager K → K → ℕ → Option (VersionedRecord K)
  find_visible m key reader = elim (find_versions m key) [
    | none ↦ none
    | some vs ↦ first_visible m reader vs
  ]

  unfoldable pub read : VersionManager K → ℕ → K → VersionManager K × Option (VersionedRecord K)
  read m txn_id key = let m' = note_read m txn_id key in (m', find_visible m' key txn_id)
