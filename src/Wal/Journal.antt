-- ===== src/Wal/Journal.antt =====
-- The log that a history of calls leaves, in the file and the buffer together.
use mathlib.Core.Path.{ap₂}
use mathlib.Core.List.{append-nil, append_assoc}
use custom_database.Base.{
  ℕ, ◌+◌, ◌%◌, ◌≤◌, ◌<◌, ◌≡◌, sym, ap, ◌∙◌, List, [], ◌∷◌, ◌++◌, arith, length,
}
use custom_database.Wal.Buffer.{
  log, counters, log-flush_buffer, buffer-flush_buffer, log-flush_if_full, log-append_bytes,
  log-take_lsn, counters-flush, counters-flush_if_full,
}
use custom_database.Wal.{
  Layout, RecordType, WalManager, u64_mod, flush_buffer, sync, take_lsn, append_bytes,
  flush_if_full, begin_transaction, plain_record, commit_transaction, abort_transaction,
  data_record, log_data, log_insert, log_delete, log_update, write_checkpoint,
}

pub data Call (K : Type 0) : Type 0 where
  begins : Call K
  commits aborts : ℕ → Call K
  inserts deletes : ℕ → ℕ → K → List ℕ → Call K
  updates : ℕ → ℕ → K → List ℕ → List ℕ → Call K
  checkpoints : Call K
  syncs : Call K

-- How many log sequence numbers and transaction ids a call takes.
unfoldable pub lsns : {K : Type 0} → ℕ × Call K → ℕ
lsns (now, Call.begins) = 0
lsns (now, Call.syncs) = 0
lsns (now, c) = 1

unfoldable pub ids : {K : Type 0} → ℕ × Call K → ℕ
ids (now, Call.begins) = 1
ids (now, Call.checkpoints) = 1
ids (now, c) = 0

module _ {K : Type 0} (ℒ : Layout K) where
  unfoldable pub step : WalManager → ℕ × Call K → WalManager
  step w (now, Call.begins) = (begin_transaction w).0
  step w (now, Call.commits t) = commit_transaction ℒ now w t
  step w (now, Call.aborts t) = abort_transaction ℒ now w t
  step w (now, Call.inserts t p k bytes) = (log_insert ℒ now w t p k bytes).0
  step w (now, Call.deletes t p k old) = (log_delete ℒ now w t p k old).0
  step w (now, Call.updates t p k old bytes) = (log_update ℒ now w t p k old bytes).0
  step w (now, Call.checkpoints) = (write_checkpoint ℒ now w).0
  step w (now, Call.syncs) = sync w

  unfoldable pub run : WalManager → List (ℕ × Call K) → WalManager
  run w [] = w
  run w (c ∷ cs) = run (step w c) cs

  -- The record of a call, which carries the given number.
  unfoldable pub entry : ℕ → ℕ → ℕ × Call K → List ℕ
  entry lsn txn (now, Call.begins) = []
  entry lsn txn (now, Call.commits t) = plain_record ℒ now RecordType.commit t lsn
  entry lsn txn (now, Call.aborts t) = plain_record ℒ now RecordType.abort t lsn
  entry lsn txn (now, Call.inserts t p k bytes) =
      data_record ℒ now RecordType.insert t lsn p k [] bytes
  entry lsn txn (now, Call.deletes t p k old) = data_record ℒ now RecordType.delete t lsn p k old []
  entry lsn txn (now, Call.updates t p k old bytes) =
      data_record ℒ now RecordType.update t lsn p k old bytes
  entry lsn txn (now, Call.checkpoints) = plain_record ℒ now RecordType.checkpoint txn lsn
  entry lsn txn (now, Call.syncs) = []

  -- The records of a history, numbered one after another.
  unfoldable pub journal : ℕ → ℕ → List (ℕ × Call K) → List ℕ
  journal lsn txn [] = []
  journal lsn txn (c ∷ cs) = entry lsn txn c ++ journal (lsn + lsns c) (txn + ids c) cs

pub lsns-le : {K : Type 0} (c : ℕ × Call K) → lsns c ≤ 1
unfolding lsns
lsns-le (now, Call.begins) = omega arith
lsns-le (now, c) = omega arith

pub ids-le : {K : Type 0} (c : ℕ × Call K) → ids c ≤ 1
unfolding ids
ids-le (now, Call.begins) = omega arith
ids-le (now, c) = omega arith

module _ {K : Type 0} (ℒ : Layout K) where
  logged :
      (w : WalManager) (b : List ℕ) → log (flush_if_full (append_bytes (take_lsn w) b)) ≡ log w ++ b
  logged w b =
      log-flush_if_full (append_bytes (take_lsn w) b)
      ∙ log-append_bytes (take_lsn w) b
      ∙ ap (λ l. l ++ b) (log-take_lsn w)

  pub log-write_checkpoint :
      (now : ℕ) (w : WalManager)
      → log (write_checkpoint ℒ now w).0
        ≡ log w ++ plain_record ℒ now RecordType.checkpoint w.next_transaction_id w.next_lsn
  unfolding write_checkpoint
  log-write_checkpoint now w =
      let w' = flush_buffer w in
      let bytes = λ (c : ℕ × ℕ). plain_record ℒ now RecordType.checkpoint c.1 c.0 in
      let drained = buffer-flush_buffer w in
      let all : w'.wal_file ≡ log w =
        sym (append-nil w'.wal_file)
        ∙ ap (λ b. w'.wal_file ++ b) (sym drained)
        ∙ log-flush_buffer w in
      ap (λ b. (w'.wal_file ++ bytes (counters w')) ++ b) drained
      ∙ append-nil (w'.wal_file ++ bytes (counters w'))
      ∙ ap₂ (λ f c. f ++ bytes c) all (counters-flush w)

  counters-logged :
      (w : WalManager) (b : List ℕ)
      → counters (flush_if_full (append_bytes (take_lsn w) b))
        ≡ ((w.next_lsn + 1) % u64_mod, w.next_transaction_id)
  unfolding take_lsn append_bytes
  counters-logged w b = counters-flush_if_full (append_bytes (take_lsn w) b)

  -- Each call adds the record that carries the next number behind what was logged before.
  pub log-step :
      (w : WalManager) (c : ℕ × Call K)
      → log (step ℒ w c) ≡ log w ++ entry ℒ w.next_lsn w.next_transaction_id c
  unfolding step entry begin_transaction commit_transaction abort_transaction log_insert log_delete
      log_update log_data sync take_lsn
  log-step w (now, Call.begins) = sym (append-nil (log w))
  log-step w (now, Call.commits t) = log-flush_buffer _ ∙ logged w _
  log-step w (now, Call.aborts t) = log-append_bytes (take_lsn w) _
  log-step w (now, Call.inserts t p k bytes) = logged w _
  log-step w (now, Call.deletes t p k old) = logged w _
  log-step w (now, Call.updates t p k old bytes) = logged w _
  log-step w (now, Call.checkpoints) = log-write_checkpoint now w
  log-step w (now, Call.syncs) = log-flush_buffer w ∙ sym (append-nil (log w))

  pub counters-step :
      (w : WalManager) (c : ℕ × Call K)
      → w.next_lsn + 1 < u64_mod
      → w.next_transaction_id + 1 < u64_mod
      → ((step ℒ w c).next_lsn ≡ w.next_lsn + lsns c)
        × ((step ℒ w c).next_transaction_id ≡ w.next_transaction_id + ids c)
  unfolding step lsns ids begin_transaction commit_transaction abort_transaction log_insert
      log_delete log_update log_data sync write_checkpoint take_lsn append_bytes
  counters-step w (now, Call.begins) h k = omega arith
  counters-step w (now, Call.commits t) h k =
      let b = plain_record ℒ now RecordType.commit t w.next_lsn in
      let done = flush_if_full (append_bytes (take_lsn w) b) in
      ground (arith, counters-flush done, counters-logged w b)
  counters-step w (now, Call.aborts t) h k = omega arith
  counters-step w (now, Call.inserts t p key bytes) h k =
      ground
        (arith, counters-logged w (data_record ℒ now RecordType.insert t w.next_lsn p key [] bytes))
  counters-step w (now, Call.deletes t p key old) h k =
      ground
        (arith, counters-logged w (data_record ℒ now RecordType.delete t w.next_lsn p key old []))
  counters-step w (now, Call.updates t p key old bytes) h k =
      ground (
        arith,
        counters-logged w (data_record ℒ now RecordType.update t w.next_lsn p key old bytes),
      )
  counters-step w (now, Call.checkpoints) h k = ground (arith, counters-flush w)
  counters-step w (now, Call.syncs) h k = ground (arith, counters-flush w)

  -- A history of calls leaves in the file and the buffer together what was there, then one record
  -- for each call that writes one, in the order of the calls, numbered one after another from the
  -- next number; for as long as the 64-bit counters do not wrap.
  pub log-run :
      (w : WalManager) (cs : List (ℕ × Call K))
      → w.next_lsn + length cs < u64_mod
      → w.next_transaction_id + length cs < u64_mod
      → log (run ℒ w cs) ≡ log w ++ journal ℒ w.next_lsn w.next_transaction_id cs
  unfolding run journal
  log-run w [] h k = sym (append-nil (log w))
  log-run w (c ∷ cs) h k =
      let w' = step ℒ w c in
      let (l, i) = counters-step w c (omega arith) (omega arith) in
      log-run w' cs (omega (arith, lsns-le c)) (omega (arith, ids-le c))
      ∙ ap₂ (λ f j. f ++ j) (log-step w c) (ap₂ (λ a b. journal ℒ a b cs) l i)
      ∙ append_assoc (log w) _ _

  -- A commit is durable when it returns: the buffer is empty, and the file is all that was logged
  -- before, then the commit record.
  pub commit_transaction-durable :
      (now : ℕ) (w : WalManager) (t : ℕ)
      → let w' = commit_transaction ℒ now w t in
        (w'.write_buffer ≡ [])
        × (w'.wal_file ≡ log w ++ plain_record ℒ now RecordType.commit t w.next_lsn)
  unfolding commit_transaction
  commit_transaction-durable now w t =
      let b = plain_record ℒ now RecordType.commit t w.next_lsn in
      let done = flush_if_full (append_bytes (take_lsn w) b) in
      let drained = buffer-flush_buffer done in
      (
        drained,
        sym (append-nil (flush_buffer done).wal_file)
            ∙ ap (λ x. (flush_buffer done).wal_file ++ x) (sym drained)
            ∙ log-flush_buffer done
            ∙ logged w b,
      )
