-- ===== src/Wal/Buffer.antt =====
-- The buffer of the log of src/wal.cpp and its flushes: what is logged stays, and so do the counters.
use mathlib.Core.List.{append-nil, append_assoc}
use custom_database.Base.{
  ℕ, ◌≡◌, refl, sym, ap, ◌∙◌, List, [], ◌++◌, arith, leb, length, inl, inr, Bool-cases, List-cases,
}
use custom_database.Wal.{
  WalManager, is_empty, flush_buffer, sync, take_lsn, append_bytes, flush_if_full,
}

-- What has been logged: the file, then what waits in the buffer.
abbrev pub log : WalManager → List ℕ
log w = w.wal_file ++ w.write_buffer

pub log-flush_buffer : (w : WalManager) → log (flush_buffer w) ≡ log w
unfolding flush_buffer
log-flush_buffer w = elim (Bool-cases (is_empty w.write_buffer)) [
  | inl e ↦ rw (flush_buffer, e)
  | inr e ↦ rw (flush_buffer, e) (append-nil (w.wal_file ++ w.write_buffer))
]

pub buffer-flush_buffer : (w : WalManager) → (flush_buffer w).write_buffer ≡ []
unfolding flush_buffer is_empty
buffer-flush_buffer w = elim (List-cases w.write_buffer) [
  | inl e ↦ ground arith
  | inr (b, bs, e) ↦ ground arith
]

pub log-flush_if_full : (w : WalManager) → log (flush_if_full w) ≡ log w
unfolding flush_if_full
log-flush_if_full w = elim (Bool-cases (leb w.buffer_size_limit (length w.write_buffer))) [
  | inl e ↦ rw (flush_if_full, e) (log-flush_buffer w)
  | inr e ↦ rw (flush_if_full, e)
]

pub log-append_bytes : (w : WalManager) (b : List ℕ) → log (append_bytes w b) ≡ log w ++ b
unfolding append_bytes
log-append_bytes w b = sym (append_assoc w.wal_file w.write_buffer b)

pub log-take_lsn : (w : WalManager) → log (take_lsn w) ≡ log w
unfolding take_lsn
log-take_lsn w = refl

-- The counters, which no flush touches.
abbrev pub counters : WalManager → ℕ × ℕ
counters w = (w.next_lsn, w.next_transaction_id)

pub counters-flush : (w : WalManager) → counters (flush_buffer w) ≡ counters w
unfolding flush_buffer
counters-flush w = ground arith

pub counters-flush_if_full : (w : WalManager) → counters (flush_if_full w) ≡ counters w
unfolding flush_if_full
counters-flush_if_full w = ground (arith, counters-flush w)

pub lsn-flush_buffer : (w : WalManager) → (flush_buffer w).next_lsn ≡ w.next_lsn
lsn-flush_buffer w = ap (λ c. c.0) (counters-flush w)

pub last-flush_buffer :
    (w : WalManager) → (flush_buffer w).last_checkpoint_lsn ≡ w.last_checkpoint_lsn
unfolding flush_buffer
last-flush_buffer w = ground arith

pub last-flush_if_full :
    (w : WalManager) → (flush_if_full w).last_checkpoint_lsn ≡ w.last_checkpoint_lsn
unfolding flush_if_full
last-flush_if_full w = ground (arith, last-flush_buffer w)

-- After sync the buffer is empty, and all that was logged is in the file.
pub buffer-sync : (w : WalManager) → (sync w).write_buffer ≡ []
unfolding sync
buffer-sync w = buffer-flush_buffer w

pub file-sync : (w : WalManager) → (sync w).wal_file ≡ log w
unfolding sync
file-sync w =
    sym (append-nil (flush_buffer w).wal_file)
    ∙ ap (λ b. (flush_buffer w).wal_file ++ b) (sym (buffer-flush_buffer w))
    ∙ log-flush_buffer w
