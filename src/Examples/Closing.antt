-- ===== src/Examples/Closing.antt =====
-- An example of the end of a tree: one request waits for one thread.
use custom_database.Base.{ℕ, ◌+◌, ◌≡◌, refl, [], ◌∷◌, ◌++◌, none, arith, length}
use custom_database.PageCache.{get_dirty_pages}
use custom_database.Wal.{RecordType, plain_record}
use custom_database.Wal.Buffer.{log}
use custom_database.WriterQueue.{get_batch, collect}
use custom_database.WriterQueue.Crew.{
  Crew, waits, stop, goes_on, enter, enters, collect_batch, process_held, leave, collects,
  processes, leaves,
}
use custom_database.WriterQueue.Conservation.{weight}
use custom_database.WriterQueue.Stopping.{none_made, one_more}
use custom_database.BTree.{BTree, commit_current}
use custom_database.BTree.Closing.{crew_of, close, Destroys, destroys, Destroys-durable}
use custom_database.Examples.{keys, fields, raw_header}
use custom_database.Examples.Cache.{empty_engine}
use custom_database.Examples.Log.{opened}
use custom_database.Examples.Threads.{request, once}

abbrev tree : BTree ℕ
tree = record {
  root = none;
  max_keys_per_node = 3;
  engine = empty_engine 2;
  writer_queue = record { write_queue = request ∷ []; max_queue_size = 2 };
  wal_manager = opened;
  current_transaction = 1;
}

abbrev committed : BTree ℕ
committed = commit_current keys fields (λ a. raw_header) 4 9 tree

abbrev begun : Crew ℕ
begun = stop (crew_of keys fields (λ a. raw_header) 4 committed (waits ∷ []))

abbrev last : Crew ℕ
last =
    leave (process_held keys (collect_batch (enter begun [] []) [] []) [] (request ∷ []) []) [] []

destroyed :
    Destroys keys fields
      (λ a. raw_header)
      4
      9
      tree
      (waits ∷ [])
      last
      (close keys fields (λ a. raw_header) 4 committed last)
unfolding stop goes_on enter collect_batch process_held leave get_batch collect commit_current
destroyed =
    destroys
      (one_more (enters [] [] refl refl) (
        one_more (collects [] [] refl) (
          one_more (processes [] (request ∷ []) [] refl)
            (one_more (leaves [] [] refl refl) none_made))))
      (refl, tt)

Destroys-durable_example :
    let t' = close keys fields (λ a. raw_header) 4 committed last in
    (length t'.writer_queue.write_queue ≡ 0)
    × (weight once last.processed ≡ weight once [] + weight once (request ∷ []))
    × (get_dirty_pages t'.engine.cache ≡ [])
    × (t'.wal_manager.write_buffer ≡ [])
    × (t'.wal_manager.wal_file ≡ log opened ++ plain_record fields 9 RecordType.commit 1 1)
Destroys-durable_example =
    Destroys-durable keys fields (λ a. raw_header) 4 9 tree (waits ∷ []) once (λ e. omega arith)
      (omega arith) (omega arith) destroyed
