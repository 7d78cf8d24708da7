-- ===== src/VersionManager/Visibility.antt =====
-- Which version a transaction reads: its own writes, the committed ones, and no others.
use custom_database.Base.{
  ℕ, ◌≡◌, refl, ap, ◌∙◌, ◌≢◌, true, false, List, [], ◌∷◌, none, some, arith, inl, inr, Bool-cases,
  Option-cases, ite,
}
use custom_database.Base.Assoc
use custom_database.VersionManager.{
  VersionManager, VersionedRecord, find_committed, find_versions, versions_of, insert, update,
  find_visible, first_visible, is_visible, new_record, note_write, push_version,
  is_transaction_active,
}

module _ {K : Type 0} where
  -- Visibility depends on the committed transactions alone.
  pub is_visible-same :
      (m m' : VersionManager K) (r : ℕ) (v : VersionedRecord K)
      → m'.committed_transactions ≡ m.committed_transactions
      → is_visible m' v r ≡ is_visible m v r
  unfolding is_visible
  is_visible-same m m' r v e = ground arith

  pub first_visible-same :
      (m m' : VersionManager K) (r : ℕ) (vs : List (VersionedRecord K))
      → m'.committed_transactions ≡ m.committed_transactions
      → first_visible m' r vs ≡ first_visible m r vs
  unfolding first_visible
  first_visible-same m m' r [] e = refl
  first_visible-same m m' r (v ∷ vs) e =
      ground (arith, is_visible-same m m' r v e, first_visible-same m m' r vs e)

  -- A version by an uncommitted transaction is seen by that transaction alone.
  invisible_uncommitted :
      (m : VersionManager K) (v : VersionedRecord K) (r : ℕ)
      → find_committed m v.created_by ≡ none
      → r ≢ v.created_by
      → is_visible m v r ≡ false
  unfolding is_visible
  invisible_uncommitted m v r e ne = ground (arith, e)

  pub note_write-fields :
      (m : VersionManager K) (j : ℕ) (key : K)
      → ((note_write m j key).versions ≡ m.versions)
        × ((note_write m j key).committed_transactions ≡ m.committed_transactions)
  unfolding note_write
  note_write-fields m j key = ground arith

  module _ (dec : Discrete K) where
    pub versions_of-push :
        (m : VersionManager K) (key q : K) (v : VersionedRecord K)
        → find_versions dec (push_version dec m key v) q
          ≡ ite (dec key q) (some (v ∷ versions_of dec m key)) (find_versions dec m q)
    unfolding push_version
    versions_of-push m key q v =
        Assoc.lookup-insert dec key q (v ∷ versions_of dec m key) m.versions

    same_committed :
        (m : VersionManager K) (key : K) (v : VersionedRecord K)
        → (push_version dec m key v).committed_transactions ≡ m.committed_transactions
    unfolding push_version
    same_committed m key v = refl

    pub find_visible-found :
        (m : VersionManager K) (q : K) (r : ℕ) {vs : List (VersionedRecord K)}
        → find_versions dec m q ≡ some vs
        → find_visible dec m q r ≡ first_visible m r vs
    unfolding find_visible
    find_visible-found m q r e = rw (find_visible, e)

    pub find_visible-same :
        (m m' : VersionManager K) (q : K) (r : ℕ)
        → find_versions dec m' q ≡ find_versions dec m q
        → m'.committed_transactions ≡ m.committed_transactions
        → find_visible dec m' q r ≡ find_visible dec m q r
    unfolding find_visible
    find_visible-same m m' q r e c = elim (Option-cases (find_versions dec m q)) [
      | inl none' ↦ rw (find_visible, e, none')
      | inr (vs, f) ↦ rw (find_visible, e, f) (first_visible-same m m' r vs c)
    ]

    -- A pushed version is seen first by those who see it, and by others not at all.
    pub push-seen :
        (m : VersionManager K) (key : K) (v : VersionedRecord K) (r : ℕ)
        → is_visible m v r ≡ true
        → find_visible dec (push_version dec m key v) key r ≡ some v
    unfolding find_visible first_visible
    push-seen m key v r seen =
        let m' = push_version dec m key v in
        ground
          (arith, versions_of-push m key key v, is_visible-same m m' r v (same_committed m key v))

    push-unseen :
        (m : VersionManager K) (key q : K) (v : VersionedRecord K) (r : ℕ)
        → is_visible m v r ≡ false
        → find_visible dec (push_version dec m key v) q r ≡ find_visible dec m q r
    unfolding find_visible first_visible versions_of
    push-unseen m key q v r unseen =
        let m' = push_version dec m key v in
        let c = same_committed m key v in
        elim (dec key q) [
          | no other ↦
              let e : find_versions dec m' q ≡ find_versions dec m q =
                ground (arith, versions_of-push m key q v) in
              find_visible-same m m' q r e c
          | yes same ↦ ground (
            arith,
            versions_of-push m key q v,
            is_visible-same m m' r v c,
            first_visible-same m m' r (versions_of dec m key) c,
          )
        ]

    module _ (now : ℕ) (m : VersionManager K) (t : ℕ) (key : K) (bytes : List ℕ) where
      abbrev pub written : VersionedRecord K
      written = new_record now key bytes t

      own_write : is_visible m written t ≡ true
      unfolding is_visible new_record
      own_write = ground arith

      pub after_write-visible :
          (q : K) (r : ℕ)
          → find_visible dec (note_write (push_version dec m key written) t key) q r
            ≡ find_visible dec (push_version dec m key written) q r
      after_write-visible q r =
          let m' = push_version dec m key written in
          let (vs, cs) = note_write-fields m' t key in
          find_visible-same m' (note_write m' t key) q r (ap (Assoc.lookup dec q) vs) cs

      -- A transaction reads what it has just inserted or updated.
      pub find_visible-own_write :
          is_transaction_active m t ≡ true
          → (find_visible dec (insert dec now m t key bytes).0 key t ≡ some written)
            × (find_visible dec (update dec now m t key bytes).0 key t ≡ some written)
      unfolding insert update
      find_visible-own_write on =
          let seen = after_write-visible key t ∙ push-seen m key written t own_write in
          rw on (seen, seen)

      -- No other transaction reads any key differently after an insert or an update by one that is
      -- not committed.
      pub find_visible-isolated :
          (q : K) (r : ℕ)
          → find_committed m t ≡ none
          → r ≢ t
          → (find_visible dec (insert dec now m t key bytes).0 q r ≡ find_visible dec m q r)
            × (find_visible dec (update dec now m t key bytes).0 q r ≡ find_visible dec m q r)
      unfolding insert update
      find_visible-isolated q r open' other = elim (Bool-cases (is_transaction_active m t)) [
        | inl on ↦
            let unseen =
              invisible_uncommitted m written r (unfold new_record in open')
                (unfold new_record in other) in
            let kept = after_write-visible q r ∙ push-unseen m key q written r unseen in
            rw on (kept, kept)
        | inr off ↦ rw off (refl, refl)
      ]
