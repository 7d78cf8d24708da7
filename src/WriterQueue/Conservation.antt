-- ===== src/WriterQueue/Conservation.antt =====
-- Where the accepted requests of src/writer_queue.cpp are, whatever the threads do.
use custom_database.Base.{
  ℕ, zero, suc, ◌+◌, ◌≡◌, refl, sym, ap, ◌∙◌, List, [], ◌∷◌, ◌++◌, arith, leb, length, All,
  Bool-cases, inl, inr, by_test,
}
use custom_database.Page.{KeyType}
use custom_database.WriterQueue.{WriteRequest, enqueue_write, collect, get_batch, max_batch_size}
use custom_database.WriterQueue.Order.{collect-append}
use custom_database.WriterQueue.Crew.{
  Worker, waits, fetches, holds, finished, Crew, new_threads, start, stop, clear_threads, enqueue,
  enter, enters, collect_batch, leave, process_held, ◌⇝◌, collects, processes, leaves, ◌⟶◌, works,
  enqueues, starts, stops, joined, ◌⟶*◌, here, further, IsFinished,
}

module _ (f : WriteRequest → ℕ) where
  -- The sum of a number of each request; how often a request occurs is such a sum.
  abbrev pub weight : List WriteRequest → ℕ
  weight [] = 0
  weight (r ∷ rs) = f r + weight rs

  -- The requests that the threads hold.
  abbrev pub held : List Worker → ℕ
  held [] = 0
  held (waits ∷ ws) = held ws
  held (fetches ∷ ws) = held ws
  held (holds b ∷ ws) = weight b + held ws
  held (finished ∷ ws) = held ws

  pub weight-append : (xs ys : List WriteRequest) → weight (xs ++ ys) ≡ weight xs + weight ys
  weight-append [] ys = omega arith
  weight-append (x ∷ xs) ys = omega (arith, weight-append xs ys)

  pub held-append : (ws ws' : List Worker) → held (ws ++ ws') ≡ held ws + held ws'
  held-append [] ws' = omega arith
  held-append (waits ∷ ws) ws' = held-append ws ws'
  held-append (fetches ∷ ws) ws' = held-append ws ws'
  held-append (holds b ∷ ws) ws' = omega (arith, held-append ws ws')
  held-append (finished ∷ ws) ws' = held-append ws ws'

  held-new_threads : (n : ℕ) → held (new_threads n) ≡ 0
  held-new_threads zero = refl
  held-new_threads (suc n) = held-new_threads n

  weight-collect :
      (n : ℕ) (q : List WriteRequest) → weight (collect n q).1 + weight (collect n q).0 ≡ weight q
  weight-collect n q =
      sym (weight-append (collect n q).1 (collect n q).0) ∙ ap weight (collect-append n q)

  -- What was accepted is processed, held or queued.
  pub record Conserved {K : Type 0} (c : Crew K) : Type 0 where
    pub total :
        weight c.accepted ≡ weight c.processed + held c.writer_threads + weight c.queue.write_queue

  module _ {K : Type 0} (κ : KeyType K) where
    pub worker-Conserved : {c c' : Crew K} → ◌⇝◌ κ c c' → Conserved c → Conserved c'
    unfolding enter collect_batch process_held leave get_batch
    worker-Conserved {c} {c'} (enters before after e h) v = record {
      total = omega (
        arith,
        v.total,
        ap held e,
        held-append before (waits ∷ after),
        held-append before (fetches ∷ after),
      );
    }
    worker-Conserved {c} {c'} (collects before after e) v = record {
      total = omega (
        arith,
        v.total,
        ap held e,
        held-append before (fetches ∷ after),
        held-append before (holds (collect max_batch_size c.queue.write_queue).1 ∷ after),
        weight-collect max_batch_size c.queue.write_queue,
      );
    }
    worker-Conserved {c} {c'} (processes before batch after e) v = record {
      total = omega (
        arith,
        v.total,
        ap held e,
        held-append before (holds batch ∷ after),
        held-append before (waits ∷ after),
        weight-append c.processed batch,
      );
    }
    worker-Conserved {c} {c'} (leaves before after e h) v = record {
      total = omega (
        arith,
        v.total,
        ap held e,
        held-append before (waits ∷ after),
        held-append before (finished ∷ after),
      );
    }

    pub held-finished : (ws : List Worker) → All IsFinished ws → held ws ≡ 0
    held-finished [] h = refl
    held-finished (waits ∷ ws) h = let e = h.0 in absurd (cc)
    held-finished (fetches ∷ ws) h = let e = h.0 in absurd (cc)
    held-finished (holds b ∷ ws) h = let e = h.0 in absurd (cc)
    held-finished (finished ∷ ws) h = held-finished ws h.1

    step-Conserved : {c c' : Crew K} → ◌⟶◌ κ c c' → Conserved c → Conserved c'
    unfolding enqueue enqueue_write start stop clear_threads
    step-Conserved {c} {c'} (works s) v = worker-Conserved s v
    step-Conserved {c} {c'} (enqueues id page) v =
        let r : WriteRequest = record { page_id = id; page = page } in
        elim (Bool-cases (leb c.queue.max_queue_size (length c.queue.write_queue))) [
          | inl full ↦ record { total = rw (full, v.total) }
          | inr room ↦ record {
            total = rw (room) (
                omega (
                  arith,
                  v.total,
                  weight-append c.accepted (r ∷ []),
                  weight-append c.queue.write_queue (r ∷ []),
                ));
          }
        ]
    step-Conserved {c} {c'} starts v =
        by_test Conserved c.running (λ e. v)
          (λ e. record {
            total = omega (
              arith,
              v.total,
              held-append c.writer_threads (new_threads c.num_writer_threads),
              held-new_threads c.num_writer_threads,
            );
          })
    step-Conserved {c} {c'} stops v = record { total = v.total }
    step-Conserved {c} {c'} (joined e h) v = record {
      total = omega (arith, v.total, held-finished c.writer_threads h);
    }

    -- Whatever steps the threads make, from a crew in which the accepted requests are those that
    -- were processed, those that a worker holds and those that wait, this stays so: no request is
    -- lost and none is processed twice. It is stated of the sum of any number of each request.
    pub steps-Conserved : {c c' : Crew K} → ◌⟶*◌ κ c c' → Conserved c → Conserved c'
    steps-Conserved {c} {c'} here v = v
    steps-Conserved {c} {c'} (further s rest) v = steps-Conserved rest (step-Conserved s v)
