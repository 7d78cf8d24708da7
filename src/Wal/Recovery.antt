-- ===== src/Wal/Recovery.antt =====
-- replay of src/wal.cpp on any file.
use custom_database.Base.{
  ℕ, zero, suc, ◌+◌, ◌-◌, ◌≤◌, ◌<◌, ◌≡◌, refl, List, some, arith, ltb, length, take, drop,
  length-drop, inl, inr, Bool-cases,
}
use custom_database.Wal.{Layout, RecordType, WalManager}
use custom_database.Wal.Replay.{
  Seen, track, track_checkpoint, skip_data, skip_record, replay_loop, set_counters, replay,
}

module _ {K : Type 0} (ℒ : Layout K) where
  length-skip_data : (n : ℕ) (rest : List ℕ) → length (skip_data ℒ n rest) ≤ length rest
  unfolding skip_data
  length-skip_data n rest = ground (
    arith,
    length-drop n rest,
    length-drop (n - (2 + ℒ.key_size)) (drop (2 + ℒ.key_size) rest),
    length-drop (2 + ℒ.key_size) rest,
  )

  length-skip_record :
      (t : RecordType) (n : ℕ) (rest : List ℕ) → length (skip_record ℒ t n rest) ≤ length rest
  unfolding skip_record
  length-skip_record RecordType.checkpoint n rest = omega arith
  length-skip_record RecordType.commit n rest = omega arith
  length-skip_record RecordType.abort n rest = omega arith
  length-skip_record (RecordType.unknown c) n rest = omega (arith, length-drop n rest)
  length-skip_record RecordType.insert n rest = length-skip_data n rest
  length-skip_record RecordType.delete n rest = length-skip_data n rest
  length-skip_record RecordType.update n rest = length-skip_data n rest

  -- The loop ends on any file, however corrupt.
  replay_loop-total :
      (rounds : ℕ) (file : List ℕ) (s : Seen)
      → length file < rounds
      → (s' : Seen) × (replay_loop ℒ rounds file s ≡ some s')
  unfolding replay_loop
  replay_loop-total zero file s h = absurd (omega arith)
  replay_loop-total (suc rounds) file s h =
      let hd = ℒ.read_header (take ℒ.header_size file) in
      let rest = skip_record ℒ hd.type (hd.record_size - ℒ.header_size) (drop ℒ.header_size file) in
      elim (Bool-cases (ltb (length file) ℒ.header_size)) [
        | inl e ↦ (s, rw (e))
        | inr e ↦ elim (Bool-cases (ltb hd.record_size ℒ.header_size)) [
          | inl e' ↦ (track hd s, rw (e, e'))
          | inr e' ↦
              let (s', eq) =
                replay_loop-total rounds rest (track_checkpoint hd.type hd.lsn (track hd s)) (
                  ground (
                    arith,
                    ℒ.header_size_pos,
                    length-drop ℒ.header_size file,
                    length-skip_record hd.type (hd.record_size - ℒ.header_size)
                        (drop ℒ.header_size file),
                  )) in
              (s', rw (e, e', eq))
        ]
      ]

  -- replay ends on any log file, however corrupt, and returns a manager with the same file and the
  -- same buffer.
  pub replay-total :
      (from_lsn : ℕ) (w : WalManager)
      → (w' : WalManager) × (replay ℒ from_lsn w ≡ some w')
        × (w'.wal_file ≡ w.wal_file)
        × (w'.write_buffer ≡ w.write_buffer)
  unfolding replay set_counters
  replay-total from_lsn w =
      let s₀ : Seen = record { max_lsn = 0; max_txn = 0; last_ckpt = w.last_checkpoint_lsn } in
      let (s, e) = replay_loop-total (suc (length w.wal_file)) w.wal_file s₀ (omega arith) in
      (set_counters ℒ from_lsn w s, rw (replay, e), refl, refl)
