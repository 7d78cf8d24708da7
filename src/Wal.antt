-- ===== src/Wal.antt =====
-- include/wal.h and src/wal.cpp: the write-ahead log. The file is its bytes; opening it in append
-- mode keeps what it has. The log lines on the console are left out, and so is the mutex: a call
-- runs alone.
pub mod Buffer
pub mod Journal
pub mod Replay
pub mod Recovery
pub mod Records
pub mod Restore
pub mod Checksum
pub mod Redo
pub mod Handlers
pub mod RedoRecords
pub mod Redone
use Prim.Native.Nat.{bit_xor}
use custom_database.Base.{
  ℕ, zero, suc, ◌+◌, ◌-◌, ◌*◌, ◌%◌, ◌≤◌, ◌<◌, ◌≡◌, Bool, true, false, List, [], ◌∷◌, ◌++◌, Option,
  none, some, ltb, leb, if◌then◌else◌, length, take, drop, max,
}

-- `unknown` is any other value of the underlying uint8_t, as a corrupt file may hold.
pub data RecordType : Type 0 where
  insert delete update checkpoint commit abort : RecordType
  unknown : ℕ → RecordType

pub record RecordHeader : Type 0 where
  pub type : RecordType
  pub record_size : ℕ
  pub transaction_id : ℕ
  pub lsn : ℕ
  pub checksum : ℕ
  pub timestamp : ℕ

pub record DataRecord (K : Type 0) : Type 0 where
  pub header : RecordHeader
  pub page_id : ℕ
  pub key : K
  pub old_data : List ℕ
  pub new_data : List ℕ

abbrev pub u32_mod : ℕ
u32_mod = 4294967296

abbrev pub u64_mod : ℕ
u64_mod = 18446744073709551616

-- sizeof(checksum)
abbrev pub checksum_size : ℕ
checksum_size = 4

-- The memory layout that the compiler chooses: sizes, the bytes of an object, and an object read
-- back from bytes. A read of the bytes of a header gives that header, and a data record begins with
-- its header, before the page id and the key.
pub record Layout (K : Type 0) : Type 0 where
  pub header_size : ℕ
  pub data_size : ℕ
  pub key_size : ℕ
  pub header_bytes : RecordHeader → List ℕ
  pub data_bytes : DataRecord K → List ℕ
  pub read_header : List ℕ → RecordHeader
  pub header_size_pos : 0 < header_size
  pub data_size_le : header_size + (2 + key_size) ≤ data_size
  pub length-header_bytes : (h : RecordHeader) → length (header_bytes h) ≡ header_size
  pub length-data_bytes : (r : DataRecord K) → length (data_bytes r) ≡ data_size
  pub read-header_bytes : (h : RecordHeader) → read_header (header_bytes h) ≡ h
  pub header_first : (r : DataRecord K) → take header_size (data_bytes r) ≡ header_bytes r.header

pub record WalManager : Type 0 where
  pub wal_file : List ℕ
  pub next_lsn : ℕ
  pub next_transaction_id : ℕ
  pub last_checkpoint_lsn : ℕ
  pub write_buffer : List ℕ
  pub buffer_size_limit : ℕ

-- The constructor, for a file that could be opened.
unfoldable pub open_wal : List ℕ → ℕ → WalManager
open_wal file limit = record {
  wal_file = file;
  next_lsn = 1;
  next_transaction_id = 1;
  last_checkpoint_lsn = 0;
  write_buffer = [];
  buffer_size_limit = limit;
}

-- The loop of calculateChecksum, from a checksum so far.
unfoldable pub checksum_from : ℕ → List ℕ → ℕ
checksum_from c [] = c
checksum_from c (b ∷ bs) = checksum_from (bit_xor (c * 2 % u32_mod) b) bs

unfoldable pub calculate_checksum : List ℕ → ℕ
calculate_checksum bytes = checksum_from 0 bytes

unfoldable pub is_empty : List ℕ → Bool
is_empty [] = true
is_empty (b ∷ bs) = false

unfoldable pub flush_buffer : WalManager → WalManager
unfolding is_empty
flush_buffer w =
    if is_empty w.write_buffer
    then w
    else record w { wal_file = w.wal_file ++ w.write_buffer; write_buffer = [] }

-- sync
unfoldable pub sync : WalManager → WalManager
sync w = flush_buffer w

-- The destructor, of an open file.
unfoldable pub close_wal : WalManager → WalManager
close_wal w = flush_buffer w

-- `fetch_add(1)` on `next_lsn`.
unfoldable pub take_lsn : WalManager → WalManager
take_lsn w = record w { next_lsn = (w.next_lsn + 1) % u64_mod }

unfoldable pub begin_transaction : WalManager → WalManager × ℕ
begin_transaction w = (
  record w { next_transaction_id = (w.next_transaction_id + 1) % u64_mod },
  w.next_transaction_id,
)

unfoldable pub append_bytes : WalManager → List ℕ → WalManager
append_bytes w bytes = record w { write_buffer = w.write_buffer ++ bytes }

unfoldable pub flush_if_full : WalManager → WalManager
flush_if_full w = if leb w.buffer_size_limit (length w.write_buffer) then flush_buffer w else w

module _ {K : Type 0} (ℒ : Layout K) where
  blank_header : ℕ → RecordType → ℕ → ℕ → RecordHeader
  blank_header now type txn_id lsn = record {
    type = type;
    record_size = ℒ.header_size;
    transaction_id = txn_id;
    lsn = lsn;
    checksum = 0;
    timestamp = now;
  }

  -- A header record with its checksum, as commit, abort and checkpoint write it.
  unfoldable pub plain_header : ℕ → RecordType → ℕ → ℕ → RecordHeader
  unfolding blank_header
  plain_header now type txn_id lsn =
      let h = blank_header now type txn_id lsn in
      record h {
        checksum = calculate_checksum (take (ℒ.header_size - checksum_size) (ℒ.header_bytes h));
      }

  unfoldable pub plain_record : ℕ → RecordType → ℕ → ℕ → List ℕ
  plain_record now type txn_id lsn = ℒ.header_bytes (plain_header now type txn_id lsn)

  unfoldable pub commit_transaction : ℕ → WalManager → ℕ → WalManager
  commit_transaction now w txn_id =
      flush_buffer
        (flush_if_full (append_bytes (take_lsn w) (plain_record now commit txn_id w.next_lsn)))

  unfoldable pub abort_transaction : ℕ → WalManager → ℕ → WalManager
  abort_transaction now w txn_id =
      append_bytes (take_lsn w) (plain_record now abort txn_id w.next_lsn)

  blank_data : ℕ → RecordType → ℕ → ℕ → ℕ → K → List ℕ → List ℕ → DataRecord K
  unfolding blank_header
  blank_data now type txn_id lsn page_id key old_data new_data = record {
    header = record (blank_header now type txn_id lsn) {
      record_size = (ℒ.data_size + length old_data + length new_data) % u32_mod;
    };
    page_id = page_id;
    key = key;
    old_data = old_data;
    new_data = new_data;
  }

  -- The record that logInsert, logDelete and logUpdate fill in.
  unfoldable pub full_data : ℕ → RecordType → ℕ → ℕ → ℕ → K → List ℕ → List ℕ → DataRecord K
  unfolding blank_data
  full_data now type txn_id lsn page_id key old_data new_data =
      let r = blank_data now type txn_id lsn page_id key old_data new_data in
      record r {
        header = record r.header {
          checksum = calculate_checksum (take (ℒ.data_size - checksum_size) (ℒ.data_bytes r));
        };
      }

  -- Its bytes and the payload behind them.
  unfoldable pub data_record : ℕ → RecordType → ℕ → ℕ → ℕ → K → List ℕ → List ℕ → List ℕ
  data_record now type txn_id lsn page_id key old_data new_data =
      ℒ.data_bytes (full_data now type txn_id lsn page_id key old_data new_data)
      ++ (old_data ++ new_data)

  unfoldable pub log_data :
      ℕ → WalManager → RecordType → ℕ → ℕ → K → List ℕ → List ℕ → WalManager × ℕ
  log_data now w type txn_id page_id key old_data new_data = (
    flush_if_full (
        append_bytes (take_lsn w)
          (data_record now type txn_id w.next_lsn page_id key old_data new_data)),
    w.next_lsn,
  )

  unfoldable pub log_insert : ℕ → WalManager → ℕ → ℕ → K → List ℕ → WalManager × ℕ
  log_insert now w txn_id page_id key bytes = log_data now w insert txn_id page_id key [] bytes

  unfoldable pub log_delete : ℕ → WalManager → ℕ → ℕ → K → List ℕ → WalManager × ℕ
  log_delete now w txn_id page_id key old_data =
      log_data now w delete txn_id page_id key old_data []

  unfoldable pub log_update : ℕ → WalManager → ℕ → ℕ → K → List ℕ → List ℕ → WalManager × ℕ
  log_update now w txn_id page_id key old_data new_data =
      log_data now w update txn_id page_id key old_data new_data

  -- writeCheckpoint: the record goes to the file directly, behind the flushed buffer.
  unfoldable pub write_checkpoint : ℕ → WalManager → WalManager × ℕ
  write_checkpoint now w =
      let w' = flush_buffer w in
      let lsn = w'.next_lsn in
      let txn_id = w'.next_transaction_id in
      (
        record w' {
          wal_file = w'.wal_file ++ plain_record now checkpoint txn_id lsn;
          next_lsn = (lsn + 1) % u64_mod;
          next_transaction_id = (txn_id + 1) % u64_mod;
          last_checkpoint_lsn = lsn;
        },
        lsn,
      )
