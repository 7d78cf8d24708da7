-- ===== src/Examples/Queue.antt =====
-- Examples of the writer queue: a queue for two requests, and a worker with batches of one.
use custom_database.Base.{List, [], ◌∷◌}
use custom_database.WriterQueue.{WriterQueue}
use custom_database.WriterQueue.Order.{Call, enqueue, batch, InOrder, start, run, run-start}

abbrev calls : List Call
calls = enqueue 1 10 ∷ enqueue 2 20 ∷ enqueue 3 30 ∷ batch 1 ∷ enqueue 4 40 ∷ []

run-start_example : InOrder (run (start 2) calls)
run-start_example = run-start 2 calls

abbrev queue : WriterQueue
queue = record {
  write_queue = record { page_id = 1; page = 0 } ∷ record { page_id = 2; page = 1 } ∷ [];
  max_queue_size = 2;
}
