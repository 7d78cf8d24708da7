-- ===== src/VersionManager/History.antt =====
-- Histories of calls: what holds after any of them.
use custom_database.Base.{
  ℕ, ◌+◌, ◌<◌, ◌≤◌, ◌≡◌, refl, sym, subst, List, [], ◌∷◌, Option, none, some, arith, length,
}
use custom_database.VersionManager.{
  VersionManager, VersionedRecord, u64_mod, begin_transaction, commit_transaction,
  abort_transaction, insert, update, remove, read, new_manager, note_write, note_read, push_version,
  new_record, replace_versions, mark_deleted, versions_of,
}
use custom_database.VersionManager.Collection.{cleanup_old_versions, cleanup_aborted}
use custom_database.VersionManager.Transactions.{
  IsValid, new_manager-IsValid, begin_transaction-IsValid, commit_transaction-IsValid,
  abort_transaction-IsValid, insert-IsValid, update-IsValid, remove-IsValid, read-IsValid,
  cleanup_old_versions-IsValid, cleanup_aborted-idle,
}

pub data Call (K : Type 0) : Type 0 where
  begins : Call K
  commits : ℕ → Call K
  aborts : ℕ → Call K
  inserts : ℕ → K → List ℕ → Call K
  updates : ℕ → K → List ℕ → Call K
  removes : ℕ → K → Call K
  reads : ℕ → K → Call K
  cleans_old : Call K
  cleans_aborted : Call K

module _ {K : Type 0} (dec : Discrete K) where
  -- The manager after a call at a time.
  unfoldable pub step : VersionManager K → ℕ × Call K → VersionManager K
  step m (now, begins) = (begin_transaction now m).0
  step m (now, commits j) = (commit_transaction now m j).0
  step m (now, aborts j) = (abort_transaction m j).0
  step m (now, inserts j key bytes) = (insert dec now m j key bytes).0
  step m (now, updates j key bytes) = (update dec now m j key bytes).0
  step m (now, removes j key) = (remove dec now m j key).0
  step m (now, reads j key) = (read dec m j key).0
  step m (now, cleans_old) = (cleanup_old_versions now m).0
  step m (now, cleans_aborted) = (cleanup_aborted m).0

  unfoldable pub run : VersionManager K → List (ℕ × Call K) → VersionManager K
  run m [] = m
  run m (c ∷ cs) = run (step m c) cs

  pub step-IsValid :
      (m : VersionManager K) (c : ℕ × Call K)
      → IsValid m
      → m.next_transaction_id + 1 < u64_mod
      → IsValid (step m c)
  unfolding step
  step-IsValid m (now, begins) v room = begin_transaction-IsValid now m v room
  step-IsValid m (now, commits j) v room = commit_transaction-IsValid now m j v
  step-IsValid m (now, aborts j) v room = abort_transaction-IsValid m j v
  step-IsValid m (now, inserts j key bytes) v room = insert-IsValid dec now m j key bytes v
  step-IsValid m (now, updates j key bytes) v room = update-IsValid dec now m j key bytes v
  step-IsValid m (now, removes j key) v room = remove-IsValid dec now m j key v
  step-IsValid m (now, reads j key) v room = read-IsValid dec now m j key v
  step-IsValid m (now, cleans_old) v room = cleanup_old_versions-IsValid now m v
  step-IsValid m (now, cleans_aborted) v room =
      subst (λ r. IsValid r.0) (sym (cleanup_aborted-idle m v)) v

  next-note_write :
      (m : VersionManager K) (j : ℕ) (key : K)
      → (note_write m j key).next_transaction_id ≡ m.next_transaction_id
  unfolding note_write
  next-note_write m j key = ground arith

  next-replace :
      (m : VersionManager K) (key : K) (o : Option (List (VersionedRecord K)))
      → (replace_versions dec m key o).0.next_transaction_id ≡ m.next_transaction_id
  unfolding replace_versions
  next-replace m key none = refl
  next-replace m key (some vs) = refl

  -- A call uses one transaction id at most.
  pub next-step :
      (m : VersionManager K) (c : ℕ × Call K)
      → m.next_transaction_id + 1 < u64_mod
      → (step m c).next_transaction_id ≤ m.next_transaction_id + 1
  unfolding step begin_transaction commit_transaction abort_transaction insert update remove read
      note_read push_version cleanup_old_versions cleanup_aborted
  next-step m (now, begins) room = omega arith
  next-step m (now, commits j) room = ground arith
  next-step m (now, aborts j) room = ground arith
  next-step m (now, inserts j key bytes) room =
      ground (arith, next-note_write (push_version dec m key (new_record now key bytes j)) j key)
  next-step m (now, updates j key bytes) room =
      ground (arith, next-note_write (push_version dec m key (new_record now key bytes j)) j key)
  next-step m (now, removes j key) room =
      ground (arith, next-replace m key (mark_deleted m now j (versions_of dec m key)))
  next-step m (now, reads j key) room = ground arith
  next-step m (now, cleans_old) room = omega arith
  next-step m (now, cleans_aborted) room = omega arith

  -- A history of calls, from a valid manager with enough transaction ids left, ends in a valid
  -- manager.
  pub run-IsValid :
      (m : VersionManager K) (cs : List (ℕ × Call K))
      → IsValid m
      → m.next_transaction_id + length cs < u64_mod
      → IsValid (run m cs)
  unfolding run
  run-IsValid m [] v room = v
  run-IsValid m (c ∷ cs) v room =
      run-IsValid (step m c) cs (step-IsValid m c v (omega arith))
        (omega (arith, next-step m c (omega arith)))

  -- After any history of calls on a new manager, as long as transaction ids last,
  -- cleanupAbortedTransactions changes nothing and returns 0: no version of an aborted transaction
  -- is ever removed by it.
  pub run-cleanup_aborted :
      (now retention max_versions : ℕ) (cs : List (ℕ × Call K))
      → length cs + 1 < u64_mod
      → let m = run (new_manager now retention max_versions) cs in cleanup_aborted m ≡ (m, 0)
  run-cleanup_aborted now r n cs room = cleanup_aborted-idle _ (
      run-IsValid (new_manager now r n) cs (new_manager-IsValid now r n)
        (unfold new_manager in omega arith))
