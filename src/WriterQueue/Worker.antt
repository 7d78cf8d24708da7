-- ===== src/WriterQueue/Worker.antt =====
-- A worker thread of src/writer_queue.cpp that is told to stop.
use custom_database.Base.{
  ℕ, zero, suc, ◌<◌, ◌≡◌, refl, sym, ap, true, List, [], ◌∷◌, ◌++◌, arith, leb, length, some,
  List-cases, inl, inr,
}
use custom_database.Page.{KeyType}
use custom_database.PageCache.{Engine}
use custom_database.WriterQueue.{
  WriteRequest, WriterQueue, collect, get_batch, process_request, process_batch, writer_worker,
}
use custom_database.WriterQueue.Order.{collect-append, length-collect}

module _ {K : Type 0} (κ : KeyType K) where
  process_batch-append :
      (e : Engine K) (rs rs' : List WriteRequest)
      → process_batch κ e (rs ++ rs') ≡ process_batch κ (process_batch κ e rs) rs'
  unfolding process_batch
  process_batch-append e [] rs' = refl
  process_batch-append e (r ∷ rs) rs' = process_batch-append (process_request κ e r) rs rs'

  -- With batches of at least one request, the worker empties the queue in no more rounds than it
  -- has requests, and what it leaves behind is what processing all of them one by one, in the order
  -- of the queue, would leave: the batches make no difference.
  pub writer_worker-drains :
      (rounds n : ℕ) (e : Engine K) (q : WriterQueue)
      → length q.write_queue < rounds
      → 0 < n
      → writer_worker κ rounds n e q
        ≡ some (process_batch κ e q.write_queue, record q { write_queue = [] })
  unfolding writer_worker get_batch process_batch
  writer_worker-drains zero n e q h pos = absurd (omega arith)
  writer_worker-drains (suc rounds) n e q h pos =
      let b = collect n q.write_queue in
      elim (List-cases q.write_queue) [
        | inl eq ↦ rw (eq)
        | inr (r, rs, eq) ↦
            let len : length q.write_queue ≡ suc (length rs) = ap length eq in
            let some_left : leb 1 (length q.write_queue) ≡ true = ground (arith, len) in
            let ih =
              writer_worker-drains rounds n (process_batch κ e (b.1))
                (record q { write_queue = b.0 })
                (omega (arith, len, (length-collect n q.write_queue).1)) pos in
            rw (
              some_left,
              ih,
              sym (process_batch-append e (b.1) (b.0)),
              collect-append n q.write_queue,
            )
      ]
