-- ===== src/Wal/Handlers.antt =====
-- The two replay functions of src/wal.cpp, with and without handlers.
use mathlib.Core.Option.{some-injective}
use custom_database.Base.{
  ℕ, zero, suc, ◌+◌, ◌-◌, ◌≡◌, refl, sym, ap, ◌∙◌, List, Option, none, some, arith, ltb, leb,
  length, take, drop, drop-drop, Bool-cases, inl, inr,
}
use custom_database.Wal.{Layout, RecordHeader, RecordType, WalManager}
use custom_database.Wal.Replay.{
  Seen, track, track_checkpoint, skip_data, skip_record, replay_loop, set_counters, replay,
}
use custom_database.Wal.Recovery.{replay-total}
use custom_database.Wal.Redo.{RedoHandlers, Reader, redo_data, redo_record, redo_loop, replay_redo}

-- What the loop without handlers returns, of what the loop with handlers does.
abbrev seen_of : {S : Type 0} → Option (Seen × S) → Option Seen
seen_of none = none
seen_of (some r) = some r.0

-- The manager that the replay with handlers leaves.
abbrev pub manager_of : {S : Type 0} → Option (WalManager × S) → Option WalManager
manager_of none = none
manager_of (some r) = some r.0

of_manager :
    {S : Type 0} (o : Option (WalManager × S)) (w : WalManager)
    → manager_of o ≡ some w
    → (s : S) × (o ≡ some (w, s))
of_manager none w e = absurd (cc)
of_manager (some r) w e = (r.1, ap (λ m. some (m, r.1)) (some-injective _ _ e))

module _ {K S : Type 0} (ℒ : Layout K) (ρ : Reader K) (from_lsn : ℕ) (hs : RedoHandlers K S) where
  redo_data-skip_data :
      (h : RecordHeader) (n : ℕ) (rest : List ℕ) (s : S)
      → (redo_data ℒ ρ from_lsn hs h n rest s).0 ≡ skip_data ℒ n rest
  unfolding redo_data skip_data
  redo_data-skip_data h n rest s =
      let k = 2 + ℒ.key_size in
      let after = drop k rest in
      elim (Bool-cases (leb k (length rest))) [
        | inr e ↦ rw (e)
        | inl e ↦ elim (Bool-cases (leb (n - k) (length after))) [
          | inl e' ↦ rw (e, e')
          | inr e' ↦ rw (e, e', sym (drop-drop (n - k) k n rest (ground arith)))
        ]
      ]

  redo_record-skip_record :
      (t : RecordType) (h : RecordHeader) (n : ℕ) (rest : List ℕ) (s : S)
      → (redo_record ℒ ρ from_lsn hs t h n rest s).0 ≡ skip_record ℒ t n rest
  unfolding redo_record skip_record
  redo_record-skip_record RecordType.checkpoint h n rest s = refl
  redo_record-skip_record RecordType.commit h n rest s = refl
  redo_record-skip_record RecordType.abort h n rest s = refl
  redo_record-skip_record RecordType.insert h n rest s = redo_data-skip_data h n rest s
  redo_record-skip_record RecordType.delete h n rest s = redo_data-skip_data h n rest s
  redo_record-skip_record RecordType.update h n rest s = redo_data-skip_data h n rest s
  redo_record-skip_record (RecordType.unknown c) h n rest s = refl

  redo_loop-replay_loop :
      (rounds : ℕ) (file : List ℕ) (seen : Seen) (s : S)
      → seen_of (redo_loop ℒ ρ from_lsn hs rounds file seen s) ≡ replay_loop ℒ rounds file seen
  unfolding redo_loop replay_loop
  redo_loop-replay_loop zero file seen s = refl
  redo_loop-replay_loop (suc rounds) file seen s =
      let n = ℒ.header_size in
      let h = ℒ.read_header (take n file) in
      let seen' = track_checkpoint h.type h.lsn (track h seen) in
      let r = redo_record ℒ ρ from_lsn hs h.type h (h.record_size - n) (drop n file) s in
      let skipped = redo_record-skip_record h.type h (h.record_size - n) (drop n file) s in
      elim (Bool-cases (ltb (length file) n)) [
        | inl e ↦ rw (e)
        | inr e ↦ elim (Bool-cases (ltb h.record_size n)) [
          | inl e' ↦ rw (e, e')
          | inr e' ↦ rw (
            e,
            e',
            redo_loop-replay_loop rounds (r.0) seen' (r.1)
                ∙ ap (λ f. replay_loop ℒ rounds f seen') skipped,
          )
        ]
      ]

  -- Whatever the handlers do, replay with handlers reads the log as replay without them: it ends
  -- exactly if that does, and leaves the same counters, file and buffer.
  pub replay_redo-replay :
      (w : WalManager) (s : S) → manager_of (replay_redo ℒ ρ from_lsn hs w s) ≡ replay ℒ from_lsn w
  unfolding replay_redo replay
  replay_redo-replay w s =
      let s₀ : Seen = record { max_lsn = 0; max_txn = 0; last_ckpt = w.last_checkpoint_lsn } in
      settled (redo_loop ℒ ρ from_lsn hs (suc (length w.wal_file)) w.wal_file s₀ s)
      ∙ ap
          (λ (o : Option Seen). elim o [
            | none ↦ none
            | some seen ↦ some (set_counters ℒ from_lsn w seen)
          ])
          (redo_loop-replay_loop (suc (length w.wal_file)) w.wal_file s₀ s)
    where
      settled :
          (o : Option (Seen × S))
          → manager_of (elim o [ none ↦ none | some r ↦ some (set_counters ℒ from_lsn w r.0, r.1) ])
            ≡ elim (seen_of o) [ none ↦ none | some seen ↦ some (set_counters ℒ from_lsn w seen) ]
      settled none = refl
      settled (some r) = refl

  -- On any log file, however corrupt, and with any handlers that return and do not throw, replay with
  -- handlers ends, and leaves the counters, the file and the buffer that replay without handlers
  -- leaves.
  pub replay_redo-total :
      (w : WalManager) (s : S)
      → (w' : WalManager) × (s' : S) × (replay_redo ℒ ρ from_lsn hs w s ≡ some (w', s'))
        × (replay ℒ from_lsn w ≡ some w')
  replay_redo-total w s =
      let (w', e, _, _) = replay-total ℒ from_lsn w in
      let (s', e') = of_manager (replay_redo ℒ ρ from_lsn hs w s) w' (replay_redo-replay w s ∙ e) in
      (w', s', e', e)
