-- ===== src/Examples/Threads.antt =====
-- Examples of the worker threads: two threads that are told to stop, with one request waiting.
use custom_database.Base.{ℕ, ◌≡◌, refl, true, false, [], ◌∷◌, ◌++◌, arith, length, All}
use custom_database.WriterQueue.{WriteRequest, enqueue_write, get_batch, collect}
use custom_database.WriterQueue.Crew.{
  Crew, waits, fetches, finished, goes_on, enqueue, enter, enters, collect_batch, process_held,
  leave, ◌⇝◌, collects, processes, leaves, works, enqueues, here, further, IsFinished,
}
use custom_database.WriterQueue.Conservation.{weight, Conserved, steps-Conserved}
use custom_database.WriterQueue.Stopping.{Stopped, Steps, none_made, one_more, stop-drains}
use custom_database.WriterQueue.Late.{enqueue-finished}
use custom_database.Examples.{keys}
use custom_database.Examples.Cache.{empty_engine}

abbrev pub request : WriteRequest
request = record { page_id = 1; page = 0 }

abbrev crew : Crew ℕ
crew = record {
  engine = empty_engine 2;
  queue = record { write_queue = request ∷ []; max_queue_size = 2 };
  running = false;
  writer_threads = waits ∷ waits ∷ [];
  num_writer_threads = 2;
  accepted = request ∷ [];
  processed = [];
}

-- Both threads have seen the request.
abbrev both_inside : Crew ℕ
both_inside = enter (enter crew [] (waits ∷ [])) (fetches ∷ []) []

abbrev collected : Crew ℕ
collected = collect_batch both_inside [] (fetches ∷ [])

abbrev written : Crew ℕ
written = process_held keys collected [] (request ∷ []) (fetches ∷ [])

abbrev one_left : Crew ℕ
one_left = leave written [] (fetches ∷ [])

abbrev all_left : Crew ℕ
all_left =
    leave (process_held keys (collect_batch one_left (finished ∷ []) []) (finished ∷ []) [] [])
      (finished ∷ []) []

crew-Conserved : (f : WriteRequest → ℕ) → Conserved f crew
crew-Conserved f = record { total = omega arith }

crew-Stopped : Stopped crew
crew-Stopped = record { not_running = refl; left_empty = λ h. absurd (omega arith) }

-- The second thread comes too late and collects an empty batch.
eight-Steps : Steps keys 8 crew all_left
unfolding goes_on enter collect_batch process_held leave get_batch collect
eight-Steps = one_more (enters [] (waits ∷ []) refl refl) (
    one_more (enters (fetches ∷ []) [] refl refl) (
      one_more (collects [] (fetches ∷ []) refl) (
        one_more (processes [] (request ∷ []) (fetches ∷ []) refl) (
          one_more (leaves [] (fetches ∷ []) refl refl) (
            one_more (collects (finished ∷ []) [] refl) (
              one_more (processes (finished ∷ []) [] [] refl)
                (one_more (leaves (finished ∷ []) [] refl refl) none_made)))))))

all-IsFinished : All IsFinished all_left.writer_threads
unfolding leave
all-IsFinished = (refl, (refl, tt))

-- A number of each request.
abbrev pub once : WriteRequest → ℕ
once r = 1

steps-Conserved_example : Conserved once (enqueue collected 2 5)
unfolding goes_on enter
steps-Conserved_example =
    steps-Conserved once keys
      (further (works (enters [] (waits ∷ []) refl refl)) (
        further (works (enters (fetches ∷ []) [] refl refl))
          (further (works (collects [] (fetches ∷ []) refl)) (further (enqueues 2 5) here))))
      (crew-Conserved once)

stop-drains_example :
    (length all_left.queue.write_queue ≡ 0)
    × (weight once all_left.processed ≡ weight once all_left.accepted)
stop-drains_example =
    stop-drains keys once crew-Stopped (crew-Conserved once) (omega arith) eight-Steps
      all-IsFinished

enqueue-finished_example :
    ((enqueue_write all_left.queue 2 5).1 ≡ true)
    × ((enqueue all_left 2 5).queue.write_queue
        ≡ all_left.queue.write_queue ++ record { page_id = 2; page = 5 } ∷ [])
    × ((c'' : Crew ℕ) → ¬ ◌⇝◌ keys (enqueue all_left 2 5) c'')
unfolding leave process_held enter collect_batch get_batch collect
enqueue-finished_example = enqueue-finished keys all_left 2 5 all-IsFinished (omega arith)
