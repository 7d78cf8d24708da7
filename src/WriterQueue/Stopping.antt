-- ===== src/WriterQueue/Stopping.antt =====
-- The threads of src/writer_queue.cpp once stop has cleared `running`.
use custom_database.Base.{
  ℕ, zero, suc, ◌+◌, ◌-◌, ◌*◌, ◌≤◌, ◌<◌, ◌≡◌, refl, sym, ap, ◌∙◌, inl, inr, Bool, true, false, ◌||◌,
  List, [], ◌∷◌, ◌++◌, arith, leb, length, length-append, All, List-cases, Bool-cases,
}
use custom_database.Page.{KeyType}
use custom_database.WriterQueue.{WriteRequest, collect, get_batch, max_batch_size}
use custom_database.WriterQueue.Order.{length-collect}
use custom_database.WriterQueue.Crew.{
  Worker, waits, fetches, holds, finished, Crew, goes_on, enter, enters, collect_batch, leave,
  process_held, ◌⇝◌, collects, processes, leaves, IsFinished,
}
use custom_database.WriterQueue.Conservation.{weight, held-finished, Conserved, worker-Conserved}

-- How far a thread is from its end, when requests wait and when none does.
abbrev pub stage : Bool → Worker → ℕ
stage true waits = 4
stage true fetches = 3
stage true (holds b) = 5
stage true finished = 0
stage false waits = 1
stage false fetches = 3
stage false (holds b) = 2
stage false finished = 0

abbrev pub stages : Bool → List Worker → ℕ
stages busy [] = 0
stages busy (w ∷ ws) = stage busy w + stages busy ws

abbrev one_if_finished : Worker → ℕ
one_if_finished finished = 1
one_if_finished w = 0

abbrev pub finished_count : List Worker → ℕ
finished_count [] = 0
finished_count (w ∷ ws) = one_if_finished w + finished_count ws

pub stages-append :
    (busy : Bool) (ws ws' : List Worker)
    → stages busy (ws ++ ws') ≡ stages busy ws + stages busy ws'
stages-append busy [] ws' = omega arith
stages-append busy (w ∷ ws) ws' = omega (arith, stages-append busy ws ws')

stages_mono : (ws : List Worker) → stages false ws ≤ stages true ws
stages_mono [] = omega arith
stages_mono (waits ∷ ws) = omega (arith, stages_mono ws)
stages_mono (fetches ∷ ws) = omega (arith, stages_mono ws)
stages_mono (holds b ∷ ws) = omega (arith, stages_mono ws)
stages_mono (finished ∷ ws) = omega (arith, stages_mono ws)

-- A thread moves on by itself.
stages_less :
    (busy : Bool) (before : List Worker) (w w' : Worker) (after : List Worker)
    → stage busy w' < stage busy w
    → stages busy (before ++ w' ∷ after) < stages busy (before ++ w ∷ after)
stages_less busy before w w' after h =
    omega (arith, h, stages-append busy before (w ∷ after), stages-append busy before (w' ∷ after))

finished_count-append :
    (ws ws' : List Worker) → finished_count (ws ++ ws') ≡ finished_count ws + finished_count ws'
finished_count-append [] ws' = omega arith
finished_count-append (w ∷ ws) ws' = omega (arith, finished_count-append ws ws')

finished_count-finished : (ws : List Worker) → All IsFinished ws → finished_count ws ≡ length ws
finished_count-finished [] h = refl
finished_count-finished (waits ∷ ws) h = let e = h.0 in absurd (cc)
finished_count-finished (fetches ∷ ws) h = let e = h.0 in absurd (cc)
finished_count-finished (holds b ∷ ws) h = let e = h.0 in absurd (cc)
finished_count-finished (finished ∷ ws) h = omega (arith, finished_count-finished ws h.1)

-- At most this many steps are left.
abbrev pub steps_left : {K : Type 0} → Crew K → ℕ
steps_left c =
    3 * length c.queue.write_queue + stages (leb 1 (length c.queue.write_queue)) c.writer_threads

-- The threads are stopped, and one that has finished has left the queue empty.
pub record Stopped {K : Type 0} (c : Crew K) : Type 0 where
  pub not_running : c.running ≡ false
  pub left_empty : 1 ≤ finished_count c.writer_threads → length c.queue.write_queue ≡ 0

-- What a step of a worker keeps and changes in a stopped crew.
pub record Moved {K : Type 0} (c c' : Crew K) : Type 0 where
  pub stopped : Stopped c'
  pub fewer_left : steps_left c' < steps_left c
  pub same_threads : length c'.writer_threads ≡ length c.writer_threads

goes_on-stopped :
    {K : Type 0} (c : Crew K) → c.running ≡ false → goes_on c ≡ leb 1 (length c.queue.write_queue)
unfolding goes_on
goes_on-stopped c e = ap (λ r. r || leb 1 (length c.queue.write_queue)) e

-- A batch is collected from `q` requests, of which `q'` stay.
collect_less :
    (q q' : ℕ) (before : List Worker) (batch : List WriteRequest) (after : List Worker)
    → q' ≡ q - max_batch_size
    → 3 * q' + stages (leb 1 q') (before ++ holds batch ∷ after)
      < 3 * q + stages (leb 1 q) (before ++ fetches ∷ after)
collect_less q q' before batch after h =
    let moved = stages_less false before fetches (holds batch) after (omega arith) in
    elim (Bool-cases (leb 1 q)) [
      | inl e ↦ elim (Bool-cases (leb 1 q')) [
        | inl e' ↦
            rw (e, e')
              (ground (
                arith,
                stages-append true before (holds batch ∷ after),
                stages-append true before (fetches ∷ after),
              ))
        | inr e' ↦ rw (e, e') (ground (arith, moved, stages_mono (before ++ fetches ∷ after)))
      ]
      | inr e ↦ elim (Bool-cases (leb 1 q')) [
        | inl e' ↦ absurd (ground arith)
        | inr e' ↦ rw (e, e') (ground (arith, moved))
      ]
    ]

process_less :
    (busy : Bool) (batch : List WriteRequest) → stage busy waits < stage busy (holds batch)
process_less true batch = omega arith
process_less false batch = omega arith

-- In a stopped crew a thread goes from `w` to `w'` and none finishes, and what is left gets less.
thread-Moved :
    {K : Type 0} (c c' : Crew K) (before : List Worker) (w w' : Worker) (after : List Worker)
    → Stopped c
    → c'.running ≡ c.running
    → c.writer_threads ≡ before ++ w ∷ after
    → c'.writer_threads ≡ before ++ w' ∷ after
    → length c'.queue.write_queue ≤ length c.queue.write_queue
    → one_if_finished w' ≡ 0
    → steps_left c' < steps_left c
    → Moved c c'
thread-Moved c c' before w w' after v same e e' q not_finished less = record {
  stopped = record {
    not_running = same ∙ v.not_running;
    left_empty = λ k. omega (
      arith,
      q,
      not_finished,
      v.left_empty (
          omega (
            arith,
            k,
            not_finished,
            ap finished_count e ∙ finished_count-append before (w ∷ after),
            ap finished_count e' ∙ finished_count-append before (w' ∷ after),
          )),
    );
  };
  fewer_left = less;
  same_threads = omega (
    arith,
    ap length e ∙ length-append before (w ∷ after),
    ap length e' ∙ length-append before (w' ∷ after),
  );
}

module _ {K : Type 0} (κ : KeyType K) where
  pub step-Moved : {c c' : Crew K} → ◌⇝◌ κ c c' → Stopped c → Moved c c'
  unfolding enter collect_batch process_held leave get_batch
  step-Moved {c} {c'} (enters before after e h) v =
      let some_left : leb 1 (length c.queue.write_queue) ≡ true =
        sym (goes_on-stopped c v.not_running) ∙ h in
      thread-Moved c (enter c before after) before waits fetches after v refl e refl (omega arith)
        refl
        (rw (some_left, e)
          (omega (arith, stages_less true before waits fetches after (omega arith))))
  step-Moved {c} {c'} (collects before after e) v =
      let q = c.queue.write_queue in
      let lengths = length-collect max_batch_size q in
      let batch = (collect max_batch_size q).1 in
      thread-Moved c (collect_batch c before after) before fetches (holds batch) after v refl e refl
        (omega (arith, lengths.1)) refl
        (rw (e) (
          collect_less (length q) (length (collect max_batch_size q).0) before batch after
            lengths.1))
  step-Moved {c} {c'} (processes before batch after e) v =
      thread-Moved c (process_held κ c before batch after) before (holds batch) waits after v refl e
        refl (omega arith) refl
        (rw (e) (
          omega (
            arith,
            stages_less (leb 1 (length c.queue.write_queue)) before (holds batch) waits after
                (process_less (leb 1 (length c.queue.write_queue)) batch),
          )))
  step-Moved {c} {c'} (leaves before after e h) v =
      let none_left : leb 1 (length c.queue.write_queue) ≡ false =
        sym (goes_on-stopped c v.not_running) ∙ h in
      record {
        stopped = record {
          not_running = v.not_running;
          left_empty = λ k. ground (arith, none_left);
        };
        fewer_left =
            rw (none_left, e)
              (omega (arith, stages_less false before waits finished after (omega arith)));
        same_threads = omega (
          arith,
          ap length e ∙ length-append before (waits ∷ after),
          length-append before (finished ∷ after),
        );
      }

  -- So many steps of the worker threads, one after another.
  pub data Steps : ℕ → Crew K → Crew K → Type 0 where
    none_made : {c : Crew K} → Steps zero c c
    one_more : {n : ℕ} {c c' c'' : Crew K} → ◌⇝◌ κ c c' → Steps n c' c'' → Steps (suc n) c c''

  pub Steps-Stopped :
      {n : ℕ} {c c' : Crew K}
      → Steps n c c'
      → Stopped c
      → Stopped c' × (length c'.writer_threads ≡ length c.writer_threads)
  Steps-Stopped {n} {c} {c'} none_made v = (v, refl)
  Steps-Stopped {n} {c} {c'} (one_more s rest) v =
      let m = step-Moved s v in let r = Steps-Stopped rest m.stopped in (r.0, r.1 ∙ m.same_threads)

  pub made-Conserved :
      (f : WriteRequest → ℕ) {n : ℕ} {c c' : Crew K} → Steps n c c' → Conserved f c → Conserved f c'
  made-Conserved f {n} {c} {c'} none_made v = v
  made-Conserved f {n} {c} {c'} (one_more s rest) v =
      made-Conserved f rest (worker-Conserved f κ s v)

  -- When all the threads of a stopped crew of one thread or more have finished, and since the stop
  -- only worker threads have made steps, so that neither enqueueWrite nor start was called, the queue
  -- is empty and what has been processed is all that was accepted, each request as often as it was
  -- accepted.
  pub stop-drains :
      (f : WriteRequest → ℕ) {n : ℕ} {c c' : Crew K}
      → Stopped c
      → Conserved f c
      → 1 ≤ length c.writer_threads
      → Steps n c c'
      → All IsFinished c'.writer_threads
      → (length c'.queue.write_queue ≡ 0) × (weight f c'.processed ≡ weight f c'.accepted)
  stop-drains f {n} {c} {c'} v k some_thread s all =
      let (v', same) = Steps-Stopped s v in
      let empty : length c'.queue.write_queue ≡ 0 =
        v'.left_empty (omega (arith, finished_count-finished c'.writer_threads all, same)) in
      let nothing : weight f c'.queue.write_queue ≡ 0 = elim (List-cases c'.queue.write_queue) [
        | inl e ↦ ap (weight f) e
        | inr (r, rs, e) ↦ absurd (omega (arith, ap length e, empty))
      ] in
      (
        empty,
        omega
            (arith, (made-Conserved f s k).total, held-finished f κ c'.writer_threads all, nothing),
      )
