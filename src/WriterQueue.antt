-- ===== src/WriterQueue.antt =====
-- include/writer_queue.h and src/writer_queue.cpp: the queue of page writes and what its worker
-- threads do. The queue is guarded by one mutex, so that enqueueWrite and the collecting loop of
-- getBatch are each one step; the waiting, the time outs and the log lines are left out. start, stop
-- and the threads side by side are in WriterQueue/Crew.
pub mod Order
pub mod Worker
pub mod Crew
pub mod Conservation
pub mod Stopping
pub mod Late
pub mod Finishing
use custom_database.Base.{
  ℕ, zero, suc, Bool, true, false, List, [], ◌∷◌, ◌++◌, Option, none, some, leb, length,
  if◌then◌else◌,
}
use custom_database.Page.{KeyType}
use custom_database.PageCache.{Engine, store_at, clear_dirty_flag, with_cache}

pub record WriteRequest : Type 0 where
  pub page_id : ℕ
  pub page : ℕ

pub record WriterQueue : Type 0 where
  pub write_queue : List WriteRequest
  pub max_queue_size : ℕ

-- enqueueWrite
unfoldable pub enqueue_write : WriterQueue → ℕ → ℕ → WriterQueue × Bool
enqueue_write q page_id page = if leb q.max_queue_size (length q.write_queue) then (q, false) else (
  record q { write_queue = q.write_queue ++ record { page_id = page_id; page = page } ∷ [] },
  true,
)

-- The collecting loop of getBatch, with room for `n` more requests: the queue and the batch.
unfoldable pub collect : ℕ → List WriteRequest → List WriteRequest × List WriteRequest
collect zero queue = (queue, [])
collect (suc n) [] = ([], [])
collect (suc n) (r ∷ rs) = let rest = collect n rs in (rest.0, r ∷ rest.1)

unfoldable pub get_batch : ℕ → WriterQueue → WriterQueue × List WriteRequest
get_batch max_batch_size q =
    let r = collect max_batch_size q.write_queue in (record q { write_queue = r.0 }, r.1)

module _ {K : Type 0} (κ : KeyType K) where
  -- One round of the loop of processBatch.
  unfoldable pub process_request : Engine K → WriteRequest → Engine K
  process_request e r =
      let e' = store_at κ e r.page in with_cache e' (clear_dirty_flag e'.cache r.page_id)

  unfoldable pub process_batch : Engine K → List WriteRequest → Engine K
  process_batch e [] = e
  process_batch e (r ∷ rs) = process_batch (process_request e r) rs

  -- The loop of writerWorker once `running` is false, with a bound on its rounds; `none` if it has
  -- not ended by then.
  unfoldable pub writer_worker : ℕ → ℕ → Engine K → WriterQueue → Option (Engine K × WriterQueue)
  writer_worker zero max_batch_size e q = none
  writer_worker (suc rounds) max_batch_size e q =
      let r = get_batch max_batch_size q in
      let rest = writer_worker rounds max_batch_size (process_batch e (r.1)) (r.0) in
      if leb 1 (length q.write_queue) then rest else some (e, q)

-- const size_t max_batch_size = 10
abbrev pub max_batch_size : ℕ
max_batch_size = 10
