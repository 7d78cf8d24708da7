-- ===== src/Examples/Log.antt =====
-- Examples of the log: one insert and its commit; a corrupt file; bytes that the checksum ignores.
use custom_database.Base.{ℕ, zero, suc, ◌≡◌, List, [], ◌∷◌, ◌++◌, some, arith, All}
use custom_database.Wal.{
  RecordType, WalManager, open_wal, sync, commit_transaction, plain_record, calculate_checksum,
}
use custom_database.Wal.Buffer.{log}
use custom_database.Wal.Journal.{Call, run, journal, log-run, commit_transaction-durable}
use custom_database.Wal.Checksum.{IsByte, calculate_checksum-suffix}
use custom_database.Wal.Replay.{replay}
use custom_database.Wal.Restore.{replay-run}
use custom_database.Examples.{fields}

abbrev pub opened : WalManager
opened = record {
  wal_file = 1 ∷ 2 ∷ 3 ∷ [];
  next_lsn = 1;
  next_transaction_id = 1;
  last_checkpoint_lsn = 0;
  write_buffer = 4 ∷ [];
  buffer_size_limit = 100;
}

abbrev calls : List (ℕ × Call ℕ)
calls = (7, Call.begins) ∷ (8, Call.inserts 1 2 30 (5 ∷ [])) ∷ (9, Call.commits 1) ∷ []

log-run_example : log (run fields opened calls) ≡ log opened ++ journal fields 1 1 calls
log-run_example = log-run fields opened calls (omega arith) (omega arith)

commit_transaction-durable_example :
    let w' = commit_transaction fields 9 opened 1 in
    (w'.write_buffer ≡ [])
    × (w'.wal_file ≡ log opened ++ plain_record fields 9 RecordType.commit 1 1)
commit_transaction-durable_example = commit_transaction-durable fields 9 opened 1

replay-run_example :
    let w = sync (run fields (open_wal [] 100) calls) in
    (w' : WalManager) × (replay fields 0 (open_wal w.wal_file 50) ≡ some w')
    × (w'.next_lsn ≡ w.next_lsn)
    × (w'.last_checkpoint_lsn ≡ w.last_checkpoint_lsn)
    × (w'.wal_file ≡ w.wal_file)
unfolding fields
replay-run_example = replay-run fields calls 100 50 (tt, (omega arith, (tt, tt))) (omega arith)

abbrev zeros : ℕ → List ℕ
zeros zero = []
zeros (suc n) = 0 ∷ zeros n

zeros-IsByte : (n : ℕ) → All IsByte (zeros n)
zeros-IsByte zero = tt
zeros-IsByte (suc n) = (omega arith, zeros-IsByte n)

calculate_checksum-suffix_example :
    calculate_checksum ((1 ∷ 2 ∷ []) ++ zeros 32) ≡ calculate_checksum ((3 ∷ []) ++ zeros 32)
calculate_checksum-suffix_example =
    calculate_checksum-suffix (1 ∷ 2 ∷ []) (3 ∷ []) (zeros 32) (omega arith, (omega arith, tt))
      (omega arith, tt) (zeros-IsByte 32) (omega arith)
