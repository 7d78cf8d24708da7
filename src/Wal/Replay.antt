-- ===== src/Wal/Replay.antt =====
-- src/wal.cpp, replay(from_lsn): the log file is read record by record, and the counters are set
-- from what it holds. A read position is the rest of the file behind it. What the function prints,
-- and with it the page ids and keys that it reads, is left out.
use custom_database.Base.{
  ℕ, zero, suc, ◌+◌, ◌-◌, ◌%◌, List, Option, none, some, ltb, leb, ◌&&◌, if◌then◌else◌, length,
  take, drop,
}
use custom_database.Wal.{
  Layout, RecordHeader, RecordType, insert, delete, update, checkpoint, commit, abort, unknown,
  WalManager, u64_mod,
}

-- The local variables `max_seen_lsn`, `max_seen_txn` and `last_ckpt`.
pub record Seen : Type 0 where
  pub max_lsn : ℕ
  pub max_txn : ℕ
  pub last_ckpt : ℕ

unfoldable pub track : RecordHeader → Seen → Seen
track h s = record s {
  max_lsn = if ltb s.max_lsn h.lsn then h.lsn else s.max_lsn;
  max_txn = if ltb s.max_txn h.transaction_id then h.transaction_id else s.max_txn;
}

unfoldable pub track_checkpoint : RecordType → ℕ → Seen → Seen
track_checkpoint checkpoint lsn s = record s { last_ckpt = lsn }
track_checkpoint type lsn s = s

module _ {K : Type 0} (ℒ : Layout K) where
  -- Behind the header of a data record: the page id and the key are read, and the rest of the
  -- record is skipped; if they cannot be read, the record is skipped from the end of its header.
  unfoldable pub skip_data : ℕ → List ℕ → List ℕ
  skip_data remaining rest =
      if leb (2 + ℒ.key_size) (length rest)
      then drop (remaining - (2 + ℒ.key_size)) (drop (2 + ℒ.key_size) rest)
      else drop remaining rest

  -- The switch: where the next record is looked for.
  unfoldable pub skip_record : RecordType → ℕ → List ℕ → List ℕ
  skip_record checkpoint remaining rest = rest
  skip_record commit remaining rest = rest
  skip_record abort remaining rest = rest
  skip_record insert remaining rest = skip_data remaining rest
  skip_record delete remaining rest = skip_data remaining rest
  skip_record update remaining rest = skip_data remaining rest
  skip_record (unknown code) remaining rest = drop remaining rest

  -- The loop, with a bound on its rounds; `none` if it has not ended by then.
  unfoldable pub replay_loop : ℕ → List ℕ → Seen → Option Seen
  replay_loop zero file seen = none
  replay_loop (suc rounds) file seen =
      let h = ℒ.read_header (take ℒ.header_size file) in
      let seen' = track h seen in
      let next =
        replay_loop rounds
          (skip_record h.type (h.record_size - ℒ.header_size) (drop ℒ.header_size file))
          (track_checkpoint h.type h.lsn seen') in
      if ltb (length file) ℒ.header_size
      then some seen
      else if ltb h.record_size ℒ.header_size
      then some seen'
      else next

  unfoldable pub set_counters : ℕ → WalManager → Seen → WalManager
  set_counters from_lsn w s = record w {
    next_lsn =
        if leb from_lsn s.max_lsn && leb w.next_lsn s.max_lsn
        then (s.max_lsn + 1) % u64_mod
        else w.next_lsn;
    next_transaction_id =
        if leb w.next_transaction_id s.max_txn
        then (s.max_txn + 1) % u64_mod
        else w.next_transaction_id;
    last_checkpoint_lsn = s.last_ckpt;
  }

  -- replay, of a file that can be opened. Each round reads a header, so that there are no more
  -- rounds than bytes.
  unfoldable pub replay : ℕ → WalManager → Option WalManager
  replay from_lsn w =
      elim (replay_loop (suc (length w.wal_file)) w.wal_file
        (record { max_lsn = 0; max_txn = 0; last_ckpt = w.last_checkpoint_lsn })) [
          | none ↦ none
          | some s ↦ some (set_counters from_lsn w s)
        ]
