-- ===== src/BTree/Closing.antt =====
-- The destructor of src/Btree.cpp: the transaction is committed, the writer queue stopped, the cache
-- flushed and the log synced. `workers` is where the threads of the queue stand when it begins.
use mathlib.Core.List.{append-nil}
use custom_database.Base.{
  ℕ, ◌+◌, ◌≤◌, ◌≡◌, ◌≢◌, refl, ap, ◌∙◌, true, List, [], ◌∷◌, ◌++◌, arith, length, All, ◌==◌,
  by_test,
}
use custom_database.Page.{KeyType, PageHeader}
use custom_database.PageCache.{flush_all, get_dirty_pages}
use custom_database.PageCache.Flush.{flush_all-clean}
use custom_database.Wal
use custom_database.Wal.{Layout, RecordType, plain_record}
use custom_database.Wal.Buffer.{log, buffer-sync, file-sync}
use custom_database.Wal.Journal.{commit_transaction-durable}
use custom_database.WriterQueue.{WriteRequest, WriterQueue}
use custom_database.WriterQueue.Crew.{
  Worker, Crew, waits, fetches, holds, finished, stop, IsFinished,
}
use custom_database.WriterQueue.Conservation.{weight, held, weight-append, Conserved}
use custom_database.WriterQueue.Stopping.{Stopped, Steps, finished_count, stop-drains, steps_left}
use custom_database.WriterQueue.Finishing.{finishes, Steps-accepted}
use custom_database.BTree.{BTree, commit_current}

-- The requests that the threads hold.
abbrev pub held_requests : List Worker → List WriteRequest
held_requests [] = []
held_requests (waits ∷ ws) = held_requests ws
held_requests (fetches ∷ ws) = held_requests ws
held_requests (holds batch ∷ ws) = batch ++ held_requests ws
held_requests (finished ∷ ws) = held_requests ws

module _ {K : Type 0} (κ : KeyType K) (ℒ : Layout K) (raw : ℕ → PageHeader) (value_size : ℕ) where
  -- The tree's queue with its threads, counting from here on.
  abbrev pub crew_of : BTree K → List Worker → Crew K
  crew_of t workers = record {
    engine = t.engine;
    queue = t.writer_queue;
    running = true;
    writer_threads = workers;
    num_writer_threads = 2;
    accepted = held_requests workers ++ t.writer_queue.write_queue;
    processed = [];
  }

  -- The tree once the threads have left this engine and this queue.
  unfoldable pub close : BTree K → Crew K → BTree K
  close t c = record t {
    engine = flush_all κ c.engine;
    writer_queue = c.queue;
    wal_manager = Wal.sync t.wal_manager;
  }

  -- What the destructor of `t` leaves, after the steps that the threads make to their end.
  pub data Destroys (now : ℕ) (t : BTree K) (workers : List Worker)
      : Crew K → BTree K → Type 0 where
    destroys :
        {n : ℕ} {c : Crew K}
        → Steps κ n (stop (crew_of (commit_current κ ℒ raw value_size now t) workers)) c
        → All IsFinished c.writer_threads
        → Destroys now t workers c (close (commit_current κ ℒ raw value_size now t) c)

  weight-held_requests :
      (f : WriteRequest → ℕ) (ws : List Worker) → weight f (held_requests ws) ≡ held f ws
  weight-held_requests f [] = refl
  weight-held_requests f (waits ∷ ws) = weight-held_requests f ws
  weight-held_requests f (fetches ∷ ws) = weight-held_requests f ws
  weight-held_requests f (holds batch ∷ ws) =
      omega (arith, weight-append f batch (held_requests ws), weight-held_requests f ws)
  weight-held_requests f (finished ∷ ws) = weight-held_requests f ws

  crew_of-Stopped :
      (t : BTree K) (ws : List Worker) → finished_count ws ≡ 0 → Stopped (stop (crew_of t ws))
  unfolding stop
  crew_of-Stopped t ws h = record {
    not_running = refl;
    left_empty = λ k. absurd (omega (arith, h, k));
  }

  crew_of-Conserved :
      (f : WriteRequest → ℕ) (t : BTree K) (ws : List Worker) → Conserved f (stop (crew_of t ws))
  unfolding stop
  crew_of-Conserved f t ws = record {
    total = omega (
      arith,
      weight-append f (held_requests ws) t.writer_queue.write_queue,
      weight-held_requests f ws,
    );
  }

  file-close :
      (now : ℕ) (t : BTree K) (c : Crew K)
      → t.current_transaction ≢ 0
      → (close (commit_current κ ℒ raw value_size now t) c).wal_manager.wal_file
        ≡ log t.wal_manager
          ++ plain_record ℒ now RecordType.commit t.current_transaction t.wal_manager.next_lsn
  unfolding close commit_current
  file-close now t c h =
      by_test
        (λ (s : BTree K).
          (Wal.sync s.wal_manager).wal_file
          ≡ log t.wal_manager
            ++ plain_record ℒ now RecordType.commit t.current_transaction t.wal_manager.next_lsn)
        (t.current_transaction == 0) (λ e. absurd (h (ground arith)))
        (λ e.
          let w' = Wal.commit_transaction ℒ now t.wal_manager t.current_transaction in
          let (empty, file) =
            commit_transaction-durable ℒ now t.wal_manager t.current_transaction in
          file-sync w' ∙ ap (λ b. w'.wal_file ++ b) empty ∙ append-nil w'.wal_file ∙ file)

  queue-commit_current :
      (now : ℕ) (t : BTree K)
      → (commit_current κ ℒ raw value_size now t).writer_queue ≡ t.writer_queue
  unfolding commit_current
  queue-commit_current now t = ground arith

  -- The destructor can return, wherever the threads of the queue stand in their loops.
  pub Destroys-returns :
      (now : ℕ) (t : BTree K) (workers : List Worker)
      → finished_count workers ≡ 0
      → (c : Crew K) × (t' : BTree K) × Destroys now t workers c t'
  Destroys-returns now t workers none_finished =
      let c = stop (crew_of (commit_current κ ℒ raw value_size now t) workers) in
      let end =
        finishes κ (steps_left c) c
          (crew_of-Stopped (commit_current κ ℒ raw value_size now t) workers none_finished)
          (omega arith) in
      (end.last, _, destroys end.steps end.all_done)

  -- A tree with a transaction is destroyed while the threads of its queue, one at least, are in
  -- their loops. However the threads take their last steps, when the destructor is done the queue is
  -- empty and every request that waited or was held by a thread has been processed, no page of the
  -- cache is dirty, the buffer of the log is empty, and its file is all that was logged, then the
  -- commit record of the transaction. The requests are counted by the sum of any number of each.
  pub Destroys-durable :
      (now : ℕ) (t : BTree K) (workers : List Worker) {c : Crew K} {t' : BTree K}
      → (f : WriteRequest → ℕ) → t.current_transaction ≢ 0
      → 1 ≤ length workers
      → finished_count workers ≡ 0
      → Destroys now t workers c t'
      → (length t'.writer_queue.write_queue ≡ 0)
        × (weight f c.processed
            ≡ weight f (held_requests workers) + weight f t.writer_queue.write_queue)
        × (get_dirty_pages t'.engine.cache ≡ [])
        × (t'.wal_manager.write_buffer ≡ [])
        × (t'.wal_manager.wal_file
            ≡ log t.wal_manager
              ++ plain_record ℒ now RecordType.commit t.current_transaction t.wal_manager.next_lsn)
  unfolding close stop
  Destroys-durable now t workers {c} {t'} f h some_thread none_finished (destroys steps done) =
      let t₁ = commit_current κ ℒ raw value_size now t in
      let (empty, all) =
        stop-drains κ f (crew_of-Stopped t₁ workers none_finished) (crew_of-Conserved f t₁ workers)
          some_thread steps done in
      (
        empty,
        all
            ∙ ap (weight f) (Steps-accepted κ steps)
            ∙ weight-append f (held_requests workers) _
            ∙ ap (λ (q : WriterQueue). weight f (held_requests workers) + weight f q.write_queue)
                (queue-commit_current now t),
        flush_all-clean κ c.engine,
        buffer-sync t₁.wal_manager,
        file-close now t c h,
      )
