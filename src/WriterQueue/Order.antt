-- ===== src/WriterQueue/Order.antt =====
-- The order and the number of the requests in src/writer_queue.cpp, whatever the threads do.
use mathlib.Core.List.{append_assoc}
use custom_database.Base.{
  ℕ, zero, suc, ◌-◌, ◌≤◌, ◌≡◌, refl, sym, ap, ◌∙◌, List, [], ◌∷◌, ◌++◌, arith, leb, min, length,
  length-append, if◌then◌else◌, Bool-cases, inl, inr,
}
use custom_database.WriterQueue.{WriteRequest, WriterQueue, enqueue_write, collect, get_batch}

pub collect-append :
    (n : ℕ) (queue : List WriteRequest) → (collect n queue).1 ++ (collect n queue).0 ≡ queue
unfolding collect
collect-append zero queue = refl
collect-append (suc n) [] = refl
collect-append (suc n) (r ∷ rs) = ap (◌∷◌ r) (collect-append n rs)

pub length-collect :
    (n : ℕ) (queue : List WriteRequest)
    → (length (collect n queue).1 ≡ min n (length queue))
      × (length (collect n queue).0 ≡ length queue - n)
unfolding collect
length-collect zero queue = (omega arith, omega arith)
length-collect (suc n) [] = (omega arith, omega arith)
length-collect (suc n) (r ∷ rs) =
    let h = length-collect n rs in (omega (arith, h.0), omega (arith, h.1))

-- What a thread does to the queue.
pub data Call : Type 0 where
  enqueue : ℕ → ℕ → Call
  batch : ℕ → Call

-- The queue after a call, the requests that it accepted, and those that it handed out.
pub record Trace : Type 0 where
  pub queue : WriterQueue
  pub accepted : List WriteRequest
  pub written : List WriteRequest

unfoldable pub step : Trace → Call → Trace
step t (enqueue id page) =
    let r = enqueue_write t.queue id page in
    record t {
      queue = r.0;
      accepted =
          if r.1 then t.accepted ++ record { page_id = id; page = page } ∷ [] else t.accepted;
    }
step t (batch n) =
    let r = get_batch n t.queue in record t { queue = r.0; written = t.written ++ r.1 }

unfoldable pub run : Trace → List Call → Trace
run t [] = t
run t (c ∷ cs) = run (step t c) cs

unfoldable pub start : ℕ → Trace
start max = record {
  queue = record { write_queue = []; max_queue_size = max };
  accepted = [];
  written = [];
}

-- What has been handed out and what waits is what was accepted, in its order, and the queue is
-- within its bound.
pub record InOrder (t : Trace) : Type 0 where
  pub order : t.written ++ t.queue.write_queue ≡ t.accepted
  pub bound : length t.queue.write_queue ≤ t.queue.max_queue_size

pub step-InOrder : (t : Trace) (c : Call) → InOrder t → InOrder (step t c)
unfolding step enqueue_write get_batch
step-InOrder t (enqueue id page) v =
    let q = t.queue.write_queue in
    let r : WriteRequest = record { page_id = id; page = page } in
    elim (Bool-cases (leb t.queue.max_queue_size (length q))) [
      | inl e ↦ record { order = rw (e, v.order); bound = ground (arith, v.bound) }
      | inr e ↦ record {
        order = rw (e, sym (append_assoc t.written q (r ∷ [])), v.order);
        bound = ground (arith, length-append q (r ∷ []));
      }
    ]
step-InOrder t (batch n) v =
    let q = t.queue.write_queue in
    record {
      order =
          append_assoc t.written ((collect n q).1) ((collect n q).0)
          ∙ ap (◌++◌ t.written) (collect-append n q)
          ∙ v.order;
      bound = omega (arith, (length-collect n q).1, v.bound);
    }

pub run-InOrder : (t : Trace) (cs : List Call) → InOrder t → InOrder (run t cs)
unfolding run
run-InOrder t [] v = v
run-InOrder t (c ∷ cs) v = run-InOrder (step t c) cs (step-InOrder t c v)

-- Whatever sequence of enqueueWrite and getBatch calls the threads make on an empty queue, the
-- requests handed out so far, followed by those that wait, are the requests for which enqueueWrite
-- returned true, in the order of the calls, and no more than max_queue_size of them wait.
pub run-start : (max : ℕ) (cs : List Call) → InOrder (run (start max) cs)
unfolding start
run-start max cs = run-InOrder (start max) cs (record { order = refl; bound = omega arith })
