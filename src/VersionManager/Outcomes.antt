-- ===== src/VersionManager/Outcomes.antt =====
-- What others read after a commit or an abort, and what a transaction reads after its own removal.
use custom_database.Base.{
  ℕ, ◌≡◌, refl, ap, ◌∙◌, ◌≢◌, true, false, not, ◌&&◌, List, [], ◌∷◌, none, some, arith, inl, inr,
  Bool-cases, Option-cases, ℕ_discrete,
}
use custom_database.Base.Assoc
use custom_database.VersionManager.{
  VersionManager, VersionedRecord, Transaction, find_active, find_committed, find_versions,
  versions_of, commit_transaction, abort_transaction, insert, remove, find_visible, first_visible,
  is_visible, mark_deleted, new_record, note_write, push_version, is_transaction_active,
  replace_versions,
}
use custom_database.VersionManager.Visibility.{
  first_visible-same, find_visible-found, find_visible-same, versions_of-push,
  find_visible-isolated, written, note_write-fields,
}

module _ {K : Type 0} (dec : Discrete K) where
  -- After insert and abort by an uncommitted transaction, every other transaction reads every key
  -- as before the insert.
  pub find_visible-aborted :
      (now : ℕ) (m : VersionManager K) (t : ℕ) (key : K) (bytes : List ℕ) (q : K) (r : ℕ)
      → find_committed m t ≡ none
      → r ≢ t
      → find_visible dec (abort_transaction (insert dec now m t key bytes).0 t).0 q r
        ≡ find_visible dec m q r
  unfolding abort_transaction
  find_visible-aborted now m t key bytes q r open' other =
      let m' = (insert dec now m t key bytes).0 in
      abort_keeps m' ∙ (find_visible-isolated dec now m t key bytes q r open' other).0
    where
      abort_keeps :
          (m' : VersionManager K)
          → find_visible dec (abort_transaction m' t).0 q r ≡ find_visible dec m' q r
      abort_keeps m' = elim (Option-cases (find_active m' t)) [
        | inl e ↦ rw (abort_transaction, e)
        | inr (txn, e) ↦ rw (abort_transaction, e) (find_visible-same dec m' _ q r refl refl)
      ]

  active_after_write :
      (m : VersionManager K) (t : ℕ) (key : K) (v : VersionedRecord K)
      → is_transaction_active m t ≡ true
      → (txn : Transaction K) × (find_active (note_write (push_version dec m key v) t key) t
          ≡ some txn)
  unfolding is_transaction_active note_write push_version
  active_after_write m t key v on = elim (Option-cases (find_active m t)) [
    | inl off ↦ absurd (ground arith)
    | inr (txn, e) ↦
        rw (note_write, e) (_, Assoc.lookup-insert_self ℕ_discrete t _ m.active_transactions)
  ]

  -- The newest version is seen by all, if its maker has committed and it is not deleted.
  newest_seen :
      (m : VersionManager K) (key : K) (v : VersionedRecord K) (vs : List (VersionedRecord K))
      (r : ℕ) {txn : Transaction K}
      → find_versions dec m key ≡ some (v ∷ vs)
      → find_committed m v.created_by ≡ some txn
      → v.is_deleted ≡ false
      → find_visible dec m key r ≡ some v
  unfolding first_visible is_visible
  newest_seen m key v vs r found committed live =
      find_visible-found dec m key r found ∙ ground arith

  -- Once a transaction has inserted a key and committed, every transaction reads that version of
  -- the key, whenever it began.
  pub find_visible-committed :
      (now later : ℕ) (m : VersionManager K) (t : ℕ) (key : K) (bytes : List ℕ) (r : ℕ)
      → is_transaction_active m t ≡ true
      → find_visible dec (commit_transaction later (insert dec now m t key bytes).0 t).0 key r
        ≡ some (new_record now key bytes t)
  unfolding insert commit_transaction new_record
  find_visible-committed now later m t key bytes r on =
      let v = written dec now m t key bytes in
      let m₁ = push_version dec m key v in
      let m₂ = note_write m₁ t key in
      let (txn, active) = active_after_write m t key v on in
      let pushed : find_versions dec m₁ key ≡ some (v ∷ versions_of dec m key) =
        ground (arith, versions_of-push dec m key key v) in
      let inserted : (insert dec now m t key bytes).0 ≡ m₂ = rw (insert, on) refl in
      ap (λ x. find_visible dec (commit_transaction later x t).0 key r) inserted
      ∙ rw (commit_transaction, active)
          (newest_seen _ key v (versions_of dec m key) r
            (ap (Assoc.lookup dec key) (note_write-fields m₁ t key).0 ∙ pushed)
            (Assoc.lookup-insert_self ℕ_discrete t _ m₂.committed_transactions) refl)

  module _ (m : VersionManager K) (now t : ℕ) where
    -- Marking a visible version deleted leaves it visible to the transaction that marks it.
    marked_visible :
        (v : VersionedRecord K)
        → is_visible m v t ≡ true
        → is_visible m (record v { is_deleted = true; deleted_by = t; deleted_at = now }) t ≡ true
    unfolding is_visible
    marked_visible v h = ground arith

    skip :
        (v : VersionedRecord K) (ws : List (VersionedRecord K))
        → (is_visible m v t && not v.is_deleted) ≡ false
        → (w : VersionedRecord K) × (first_visible m t ws ≡ some w) × (w.is_deleted ≡ true)
        → (w : VersionedRecord K) × (first_visible m t (v ∷ ws) ≡ some w) × (w.is_deleted ≡ true)
    unfolding first_visible
    skip v ws miss (w, e, d) = elim (Bool-cases (is_visible m v t)) [
      | inl seen ↦ (v, ground arith, ground arith)
      | inr unseen ↦ (w, ground arith, d)
    ]

    mark_deleted-first :
        (vs vs' : List (VersionedRecord K))
        → mark_deleted m now t vs ≡ some vs'
        → (v : VersionedRecord K) × (first_visible m t vs' ≡ some v) × (v.is_deleted ≡ true)
    unfolding mark_deleted first_visible
    mark_deleted-first [] vs' h = absurd (cc)
    mark_deleted-first (v ∷ vs) vs' h = elim (Bool-cases (is_visible m v t && not v.is_deleted)) [
      | inl hit ↦
          let marked : VersionedRecord K = record v {
            is_deleted = true;
            deleted_by = t;
            deleted_at = now;
          } in
          let same : vs' ≡ marked ∷ vs = ground arith in
          rw same (marked, ground (arith, marked_visible v), refl)
      | inr miss ↦ elim (Option-cases (mark_deleted m now t vs)) [
        | inl nothing ↦ absurd (ground arith)
        | inr (ws, e) ↦
            let same : vs' ≡ v ∷ ws = ground arith in
            let later = mark_deleted-first vs ws e in rw same (skip v ws miss later)
      ]
    ]

  -- After a removal that succeeds, the transaction that made it still reads a version of the key,
  -- one that is marked deleted.
  pub find_visible-own_removal :
      (now : ℕ) (m : VersionManager K) (t : ℕ) (key : K)
      → (remove dec now m t key).1 ≡ true
      → (v : VersionedRecord K) × (find_visible dec (remove dec now m t key).0 key t ≡ some v)
        × (v.is_deleted ≡ true)
  unfolding remove replace_versions
  find_visible-own_removal now m t key h = elim (Bool-cases (is_transaction_active m t)) [
    | inr off ↦ absurd (ground arith)
    | inl on ↦ elim (Option-cases (mark_deleted m now t (versions_of dec m key))) [
      | inl nothing ↦ absurd (ground arith)
      | inr (vs, e) ↦
          let (v, first, d) = mark_deleted-first m now t (versions_of dec m key) vs e in
          rw (on, e)
            (
              v,
              find_visible-found dec _ key t (Assoc.lookup-insert_self dec key vs m.versions)
                  ∙ first_visible-same m _ t vs refl
                  ∙ first,
              d,
            )
    ]
  ]
