-- ===== src/Wal/Redo.antt =====
-- src/wal.cpp, replay(from_lsn, handlers), whose declaration include/wal.h lacks: the log is read as
-- by replay(from_lsn), and the data records from `from_lsn` on go to handlers. A handler changes the
-- state of the database, a value of S, and leaves the log alone; it
-- returns, as one that throws ends the replay with the handler's exception. Memory for a record is
-- there.
use custom_database.Base.{
  ℕ, zero, suc, ◌+◌, ◌-◌, List, [], Option, none, some, ltb, leb, ◌&&◌, if◌then◌else◌, length, take,
  drop,
}
use custom_database.Wal.{
  Layout, RecordHeader, RecordType, insert, delete, update, checkpoint, commit, abort, unknown,
  WalManager,
}
use custom_database.Wal.Replay.{Seen, track, track_checkpoint, set_counters}

-- The handlers that are set: of a page id, a key, and the bytes that they are given.
pub record RedoHandlers (K S : Type 0) : Type 0 where
  pub on_insert : Option (ℕ → K → List ℕ → S → S)
  pub on_delete : Option (ℕ → K → List ℕ → S → S)
  pub on_update : Option (ℕ → K → List ℕ → List ℕ → S → S)

-- Bytes read into a page id and into a key, which the code copies over the object. For a key of plain
-- bytes, as int, every key is read so; over a std::string this is undefined and not modelled.
pub record Reader (K : Type 0) : Type 0 where
  pub read_page_id : List ℕ → ℕ
  pub read_key : List ℕ → K

module _ {K S : Type 0} where
  -- The calls of the handlers, by the type of the record.
  unfoldable pub redo : RedoHandlers K S → RecordType → ℕ → K → List ℕ → S → S
  redo hs insert page_id key payload s = elim hs.on_insert [
    | none ↦ s
    | some f ↦ f page_id key payload s
  ]
  redo hs delete page_id key payload s = elim hs.on_delete [
    | none ↦ s
    | some f ↦ f page_id key payload s
  ]
  redo hs update page_id key payload s = elim hs.on_update [
    | none ↦ s
    | some f ↦ f page_id key [] payload s
  ]
  redo hs type page_id key payload s = s

module _ {K S : Type 0} (ℒ : Layout K) (ρ : Reader K) (from_lsn : ℕ) (hs : RedoHandlers K S) where
  -- Behind the header of a data record: the page id, the key and the payload are read and handled; if
  -- they cannot be read, the record is skipped from the end of its header. The bytes that follow it,
  -- and the state.
  unfoldable pub redo_data : RecordHeader → ℕ → List ℕ → S → List ℕ × S
  redo_data h remaining rest s =
      let after = drop (2 + ℒ.key_size) rest in
      let variable_bytes = remaining - (2 + ℒ.key_size) in
      if leb (2 + ℒ.key_size) (length rest) && leb variable_bytes (length after)
      then (
        drop variable_bytes after,
        if leb from_lsn h.lsn
            then redo hs h.type (ρ.read_page_id (take 2 rest))
                (ρ.read_key (take ℒ.key_size (drop 2 rest))) (take variable_bytes after) s
            else s,
      )
      else (drop remaining rest, s)

  -- The switch.
  unfoldable pub redo_record : RecordType → RecordHeader → ℕ → List ℕ → S → List ℕ × S
  redo_record checkpoint h remaining rest s = (rest, s)
  redo_record commit h remaining rest s = (rest, s)
  redo_record abort h remaining rest s = (rest, s)
  redo_record insert h remaining rest s = redo_data h remaining rest s
  redo_record delete h remaining rest s = redo_data h remaining rest s
  redo_record update h remaining rest s = redo_data h remaining rest s
  redo_record (unknown code) h remaining rest s = (drop remaining rest, s)

  -- The loop, with a bound on its rounds; `none` if it has not ended by then.
  unfoldable pub redo_loop : ℕ → List ℕ → Seen → S → Option (Seen × S)
  redo_loop zero file seen s = none
  redo_loop (suc rounds) file seen s =
      let h = ℒ.read_header (take ℒ.header_size file) in
      let seen' = track h seen in
      let r = redo_record h.type h (h.record_size - ℒ.header_size) (drop ℒ.header_size file) s in
      let next = redo_loop rounds r.0 (track_checkpoint h.type h.lsn seen') r.1 in
      if ltb (length file) ℒ.header_size
      then some (seen, s)
      else if ltb h.record_size ℒ.header_size
      then some (seen', s)
      else next

  unfoldable pub replay_redo : WalManager → S → Option (WalManager × S)
  replay_redo w s =
      elim (redo_loop (suc (length w.wal_file)) w.wal_file
        (record { max_lsn = 0; max_txn = 0; last_ckpt = w.last_checkpoint_lsn }) s) [
          | none ↦ none
          | some r ↦ some (set_counters ℒ from_lsn w r.0, r.1)
        ]
