-- ===== src/VersionManager/Transactions.antt =====
-- The life of a transaction: active, then committed or gone.
use custom_database.Base.{
  ℕ, ◌+◌, ◌<◌, ◌≡◌, refl, ap, sym, ◌∙◌, true, false, List, [], ◌∷◌, ◌++◌, Option, none, some, arith,
  ℕ_discrete, inl, inr, Option-cases, Bool-cases,
}
use custom_database.Base.Assoc
use custom_database.VersionManager.{
  VersionManager, Transaction, VersionedRecord, u64_mod, find_active, find_committed,
  begin_transaction, commit_transaction, abort_transaction, is_transaction_active, note_write,
  note_read, new_manager, new_transaction, push_version, insert, update, remove, read, contains,
  replace_versions, mark_deleted, versions_of,
}
use custom_database.VersionManager.Collection.{
  cleanup_old_versions, cleanup_aborted, aborted_ids, drop_aborted, drop_created_by, erase_all,
}

-- An active transaction has an id below the counter, is marked neither committed nor aborted, and
-- is not among the committed ones.
pub record IsActive {K : Type 0} (m : VersionManager K) (i : ℕ) (t : Transaction K) : Type 0 where
  pub named : t.id ≡ i
  pub below : i < m.next_transaction_id
  pub not_committed : t.is_committed ≡ false
  pub not_aborted : t.is_aborted ≡ false
  pub apart : find_committed m i ≡ none

pub record IsCommitted {K : Type 0} (m : VersionManager K) (i : ℕ) (t : Transaction K)
    : Type 0 where
  pub named : t.id ≡ i
  pub below : i < m.next_transaction_id
  pub marked : t.is_committed ≡ true
  pub not_aborted : t.is_aborted ≡ false

pub record IsValid {K : Type 0} (m : VersionManager K) : Type 0 where
  pub active : (i : ℕ) (t : Transaction K) → find_active m i ≡ some t → IsActive m i t
  pub committed : (i : ℕ) (t : Transaction K) → find_committed m i ≡ some t → IsCommitted m i t
  pub unaborted : aborted_ids m.active_transactions ≡ []

module _ {K : Type 0} where
  aborted_ids-insert :
      (i : ℕ) (t : Transaction K) (l : List (ℕ × Transaction K))
      → aborted_ids l ≡ []
      → t.is_aborted ≡ false
      → aborted_ids (Assoc.insert ℕ_discrete i t l) ≡ []
  unfolding aborted_ids Assoc.insert
  aborted_ids-insert i t [] h a = ground arith
  aborted_ids-insert i t ((j, u) ∷ l) h a = ground (arith, aborted_ids-insert i t l)

  aborted_ids-erase :
      (i : ℕ) (l : List (ℕ × Transaction K))
      → aborted_ids l ≡ []
      → aborted_ids (Assoc.erase ℕ_discrete i l) ≡ []
  unfolding aborted_ids Assoc.erase
  aborted_ids-erase i [] h = refl
  aborted_ids-erase i ((j, u) ∷ l) h = ground (arith, aborted_ids-erase i l)

module _ {K : Type 0} where
  pub new_manager-IsValid : (now r n : ℕ) → IsValid {K = K} (new_manager now r n)
  unfolding new_manager Assoc.lookup
  new_manager-IsValid now r n = record {
    active = λ i t e. absurd (cc);
    committed = λ i t e. absurd (cc);
    unaborted = unfold aborted_ids in refl;
  }

  fresh : (m : VersionManager K) → IsValid m → find_committed m m.next_transaction_id ≡ none
  fresh m v = elim (Option-cases (find_committed m m.next_transaction_id)) [
    | inl e ↦ e
    | inr (t, e) ↦ absurd (omega (arith, (v.committed _ t e).below))
  ]

  pub begin_transaction-IsValid :
      (now : ℕ) (m : VersionManager K)
      → IsValid m
      → m.next_transaction_id + 1 < u64_mod
      → IsValid (begin_transaction now m).0
  unfolding begin_transaction new_transaction
  begin_transaction-IsValid now m v room =
      let next = m.next_transaction_id in
      record {
        active = λ i t e. ground (
          arith,
          Assoc.lookup-insert ℕ_discrete next i (new_transaction now next) m.active_transactions,
          v.active i t,
          fresh m v,
        );
        committed = λ i t e. ground (arith, v.committed i t e);
        unaborted = aborted_ids-insert _ _ _ v.unaborted refl;
      }

  pub commit_transaction-IsValid :
      (now : ℕ) (m : VersionManager K) (j : ℕ) → IsValid m → IsValid (commit_transaction now m j).0
  unfolding commit_transaction
  commit_transaction-IsValid now m j v = elim (Option-cases (find_active m j)) [
    | inl e ↦ rw (e, commit_transaction) v
    | inr (t, e) ↦
        rw (e, commit_transaction)
          (record {
            active = λ i t' e'. ground (
              arith,
              Assoc.lookup-insert ℕ_discrete j i
                  (record t { is_committed = true; commit_time = now }) m.committed_transactions,
              Assoc.lookup-erase ℕ_discrete j i m.active_transactions,
              v.active i t',
            );
            committed = λ i t' e'. ground (
              arith,
              Assoc.lookup-insert ℕ_discrete j i
                  (record t { is_committed = true; commit_time = now }) m.committed_transactions,
              v.active j t e,
              v.committed i t',
            );
            unaborted = aborted_ids-erase j _ v.unaborted;
          })
  ]

  pub abort_transaction-IsValid :
      (m : VersionManager K) (j : ℕ) → IsValid m → IsValid (abort_transaction m j).0
  unfolding abort_transaction
  abort_transaction-IsValid m j v = elim (Option-cases (find_active m j)) [
    | inl e ↦ rw (e, abort_transaction) v
    | inr (t, e) ↦
        rw (e, abort_transaction)
          (record {
            active = λ i t' e'.
                ground
                  (arith, Assoc.lookup-erase ℕ_discrete j i m.active_transactions, v.active i t');
            committed = λ i t' e'. ground (arith, v.committed i t' e');
            unaborted = aborted_ids-erase j _ v.unaborted;
          })
  ]

  note_write-IsValid :
      (m : VersionManager K) (j : ℕ) (key : K) → IsValid m → IsValid (note_write m j key)
  unfolding note_write
  note_write-IsValid m j key v = elim (Option-cases (find_active m j)) [
    | inl e ↦ rw (e, note_write) v
    | inr (t, e) ↦
        rw (e, note_write)
          (record {
            active = λ i t' e'. ground (
              arith,
              Assoc.lookup-insert ℕ_discrete j i (record t { write_set = t.write_set ++ key ∷ [] })
                  m.active_transactions,
              v.active i t',
              v.active j t e,
            );
            committed = λ i t' e'. ground (arith, v.committed i t' e');
            unaborted = aborted_ids-insert j _ _ v.unaborted (v.active j t e).not_aborted;
          })
  ]

  note_read-IsValid :
      (m : VersionManager K) (j : ℕ) (key : K) → IsValid m → IsValid (note_read m j key)
  unfolding note_read
  note_read-IsValid m j key v = elim (Option-cases (find_active m j)) [
    | inl e ↦ rw (e, note_read) v
    | inr (t, e) ↦
        rw (e, note_read)
          (record {
            active = λ i t' e'. ground (
              arith,
              Assoc.lookup-insert ℕ_discrete j i (record t { read_set = t.read_set ++ key ∷ [] })
                  m.active_transactions,
              v.active i t',
              v.active j t e,
            );
            committed = λ i t' e'. ground (arith, v.committed i t' e');
            unaborted = aborted_ids-insert j _ _ v.unaborted (v.active j t e).not_aborted;
          })
  ]

  -- A call that touches the versions alone.
  same_transactions :
      (m m' : VersionManager K)
      → m'.active_transactions ≡ m.active_transactions
      → m'.committed_transactions ≡ m.committed_transactions
      → m'.next_transaction_id ≡ m.next_transaction_id
      → IsValid m
      → IsValid m'
  same_transactions m m' a c n v = record {
    active = λ i t e. ground (
      arith,
      v.active i t (ap (Assoc.lookup ℕ_discrete i) (sym a) ∙ e),
      ap (Assoc.lookup ℕ_discrete i) c,
    );
    committed =
        λ i t e. ground (arith, v.committed i t (ap (Assoc.lookup ℕ_discrete i) (sym c) ∙ e));
    unaborted = ap aborted_ids a ∙ v.unaborted;
  }

  pub cleanup_old_versions-IsValid :
      (now : ℕ) (m : VersionManager K) → IsValid m → IsValid (cleanup_old_versions now m).0
  unfolding cleanup_old_versions
  cleanup_old_versions-IsValid now m v = same_transactions m _ refl refl refl v

  drop_created_by-none : (vs : List (VersionedRecord K)) → drop_created_by [] vs ≡ (vs, 0)
  unfolding drop_created_by contains
  drop_created_by-none [] = refl
  drop_created_by-none (v ∷ vs) = ap (λ r. (v ∷ r.0, r.1)) (drop_created_by-none vs)

  drop_aborted-none : (l : List (K × List (VersionedRecord K))) → drop_aborted [] l ≡ (l, 0)
  unfolding drop_aborted
  drop_aborted-none [] = refl
  drop_aborted-none ((key, vs) ∷ l) = rw (drop_created_by-none vs, drop_aborted-none l)

  -- cleanupAbortedTransactions finds nothing to do in any valid manager: it changes nothing and
  -- returns 0, whatever versions aborted transactions have left.
  pub cleanup_aborted-idle : (m : VersionManager K) → IsValid m → cleanup_aborted m ≡ (m, 0)
  unfolding cleanup_aborted erase_all
  cleanup_aborted-idle m v = rw (v.unaborted, drop_aborted-none)

  module _ (dec : Discrete K) (now : ℕ) (m : VersionManager K) (j : ℕ) (key : K) where
    pub insert-IsValid : (bytes : List ℕ) → IsValid m → IsValid (insert dec now m j key bytes).0
    unfolding insert push_version
    insert-IsValid bytes v = elim (Bool-cases (is_transaction_active m j)) [
      | inl on ↦
          rw (on, insert) (note_write-IsValid _ j key (same_transactions m _ refl refl refl v))
      | inr off ↦ rw (off, insert) v
    ]

    pub update-IsValid : (bytes : List ℕ) → IsValid m → IsValid (update dec now m j key bytes).0
    unfolding update push_version
    update-IsValid bytes v = elim (Bool-cases (is_transaction_active m j)) [
      | inl on ↦
          rw (on, update) (note_write-IsValid _ j key (same_transactions m _ refl refl refl v))
      | inr off ↦ rw (off, update) v
    ]

    replaced :
        (o : Option (List (VersionedRecord K)))
        → IsValid m
        → IsValid (replace_versions dec m key o).0
    unfolding replace_versions
    replaced none v = v
    replaced (some vs) v = same_transactions m _ refl refl refl v

    pub remove-IsValid : IsValid m → IsValid (remove dec now m j key).0
    unfolding remove
    remove-IsValid v = elim (Bool-cases (is_transaction_active m j)) [
      | inl on ↦ rw (on, remove) (replaced (mark_deleted m now j (versions_of dec m key)) v)
      | inr off ↦ rw (off, remove) v
    ]

    pub read-IsValid : IsValid m → IsValid (read dec m j key).0
    unfolding read
    read-IsValid v = note_read-IsValid m j key v
