-- ===== src/WriterQueue/Crew.antt =====
-- start, stop and the worker threads of src/writer_queue.cpp, side by side. A thread stands at the
-- head of the loop of writerWorker, or is inside getBatch, or holds a batch that it has collected, or
-- has left the loop. The loop's test and getBatch are separate steps. getBatch may return an empty
-- batch: its wait ends by a time out or by the end of `running`, and other threads may have emptied
-- the queue since the test. A batch is processed in one step, although the storage has no lock of its
-- own.
use custom_database.Base.{
  ℕ, zero, suc, ◌≡◌, Bool, true, false, ◌||◌, List, [], ◌∷◌, ◌++◌, leb, length, All, if◌then◌else◌,
}
use custom_database.Page.{KeyType}
use custom_database.PageCache.{Engine}
use custom_database.WriterQueue.{
  WriteRequest, WriterQueue, enqueue_write, get_batch, process_batch, max_batch_size,
}

pub data Worker : Type 0 where
  waits fetches : Worker
  holds : List WriteRequest → Worker
  finished : Worker

-- The members and what the pointers lead to; `accepted` and `processed` list the requests that
-- enqueueWrite has let in and those that processBatch has gone through.
pub record Crew (K : Type 0) : Type 0 where
  pub engine : Engine K
  pub queue : WriterQueue
  pub running : Bool
  pub writer_threads : List Worker
  pub num_writer_threads : ℕ
  pub accepted : List WriteRequest
  pub processed : List WriteRequest

abbrev pub new_threads : ℕ → List Worker
new_threads zero = []
new_threads (suc n) = waits ∷ new_threads n

-- `running.load() || !write_queue.empty()`
unfoldable pub goes_on : {K : Type 0} → Crew K → Bool
goes_on c = c.running || leb 1 (length c.queue.write_queue)

abbrev pub IsFinished : Worker → Type 0
IsFinished w = w ≡ finished

module _ {K : Type 0} where
  -- start; a second call does nothing.
  unfoldable pub start : Crew K → Crew K
  start c = if c.running then c else record c {
    running = true;
    writer_threads = c.writer_threads ++ new_threads c.num_writer_threads;
  }

  -- stop up to its joins, and behind them.
  unfoldable pub stop : Crew K → Crew K
  stop c = record c { running = false }

  unfoldable pub clear_threads : Crew K → Crew K
  clear_threads c = record c { writer_threads = [] }

  -- enqueueWrite
  unfoldable pub enqueue : Crew K → ℕ → ℕ → Crew K
  enqueue c id page =
      let r = enqueue_write c.queue id page in
      record c {
        queue = r.0;
        accepted =
            if r.1 then c.accepted ++ record { page_id = id; page = page } ∷ [] else c.accepted;
      }

  -- The test of the loop holds for a thread, which calls getBatch.
  unfoldable pub enter : Crew K → List Worker → List Worker → Crew K
  enter c before after = record c { writer_threads = before ++ fetches ∷ after }

  -- A thread has collected a batch; the threads before and after it stay where they are.
  unfoldable pub collect_batch : Crew K → List Worker → List Worker → Crew K
  collect_batch c before after =
      let r = get_batch max_batch_size c.queue in
      record c { queue = r.0; writer_threads = before ++ holds r.1 ∷ after }

  -- A thread leaves the loop.
  unfoldable pub leave : Crew K → List Worker → List Worker → Crew K
  leave c before after = record c { writer_threads = before ++ finished ∷ after }

module _ {K : Type 0} (κ : KeyType K) where
  -- A thread has processed its batch.
  unfoldable pub process_held : Crew K → List Worker → List WriteRequest → List Worker → Crew K
  process_held c before batch after = record c {
    engine = process_batch κ c.engine batch;
    writer_threads = before ++ waits ∷ after;
    processed = c.processed ++ batch;
  }

  infix 40 ◌⇝◌
  -- A step of a worker thread.
  pub data ◌⇝◌ : Crew K → Crew K → Type 0 where
    enters :
        {c : Crew K} (before after : List Worker)
        → c.writer_threads ≡ before ++ waits ∷ after
        → goes_on c ≡ true
        → c ⇝ enter c before after
    collects :
        {c : Crew K} (before after : List Worker)
        → c.writer_threads ≡ before ++ fetches ∷ after
        → c ⇝ collect_batch c before after
    processes :
        {c : Crew K} (before : List Worker) (batch : List WriteRequest) (after : List Worker)
        → c.writer_threads ≡ before ++ holds batch ∷ after
        → c ⇝ process_held c before batch after
    leaves :
        {c : Crew K} (before after : List Worker)
        → c.writer_threads ≡ before ++ waits ∷ after
        → goes_on c ≡ false
        → c ⇝ leave c before after

  infix 40 ◌⟶◌ ◌⟶*◌
  -- A step of a worker thread or of a thread that calls the queue. `joined` is the end of stop, when
  -- each thread has been joined.
  pub data ◌⟶◌ : Crew K → Crew K → Type 0 where
    works : {c c' : Crew K} → c ⇝ c' → c ⟶ c'
    enqueues : {c : Crew K} (id page : ℕ) → c ⟶ enqueue c id page
    starts : {c : Crew K} → c ⟶ start c
    stops : {c : Crew K} → c ⟶ stop c
    joined :
        {c : Crew K} → c.running ≡ false → All IsFinished c.writer_threads → c ⟶ clear_threads c

  pub data ◌⟶*◌ : Crew K → Crew K → Type 0 where
    here : {c : Crew K} → c ⟶* c
    further : {c c' c'' : Crew K} → c ⟶ c' → c' ⟶* c'' → c ⟶* c''
