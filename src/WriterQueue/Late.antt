-- ===== src/WriterQueue/Late.antt =====
-- enqueueWrite of src/writer_queue.cpp after stop.
use custom_database.Base.{
  ℕ, ◌<◌, ◌≡◌, refl, ap, ◌∙◌, true, false, List, [], ◌∷◌, ◌++◌, arith, leb, length, All,
}
use custom_database.Page.{KeyType}
use custom_database.WriterQueue.{enqueue_write}
use custom_database.WriterQueue.Crew.{
  Worker, waits, fetches, holds, finished, Crew, enqueue, ◌⇝◌, enters, collects, processes, leaves,
  IsFinished,
}
use custom_database.WriterQueue.Stopping.{stages, stages-append}

stages-finished : (ws : List Worker) → All IsFinished ws → stages true ws ≡ 0
stages-finished [] h = refl
stages-finished (waits ∷ ws) h = let e = h.0 in absurd (cc)
stages-finished (fetches ∷ ws) h = let e = h.0 in absurd (cc)
stages-finished (holds b ∷ ws) h = let e = h.0 in absurd (cc)
stages-finished (finished ∷ ws) h = omega (arith, stages-finished ws h.1)

module _ {K : Type 0} (κ : KeyType K) where
  no_step : {c c' : Crew K} → All IsFinished c.writer_threads → ¬ ◌⇝◌ κ c c'
  no_step {c} {c'} all (enters before after e h) = absurd (
      omega (
        arith,
        stages-finished c.writer_threads all,
        ap (stages true) e ∙ stages-append true before (waits ∷ after),
      ))
  no_step {c} {c'} all (collects before after e) = absurd (
      omega (
        arith,
        stages-finished c.writer_threads all,
        ap (stages true) e ∙ stages-append true before (fetches ∷ after),
      ))
  no_step {c} {c'} all (processes before batch after e) = absurd (
      omega (
        arith,
        stages-finished c.writer_threads all,
        ap (stages true) e ∙ stages-append true before (holds batch ∷ after),
      ))
  no_step {c} {c'} all (leaves before after e h) = absurd (
      omega (
        arith,
        stages-finished c.writer_threads all,
        ap (stages true) e ∙ stages-append true before (waits ∷ after),
      ))

  -- When all threads have finished, or none were made, enqueueWrite on a queue with room still
  -- returns true and adds the request, and no worker thread has a step to make after that.
  pub enqueue-finished :
      (c : Crew K) (id page : ℕ)
      → All IsFinished c.writer_threads
      → length c.queue.write_queue < c.queue.max_queue_size
      → let c' = enqueue c id page in
        ((enqueue_write c.queue id page).1 ≡ true)
        × (c'.queue.write_queue ≡ c.queue.write_queue ++ record { page_id = id; page = page } ∷ [])
        × ((c'' : Crew K) → ¬ ◌⇝◌ κ c' c'')
  unfolding enqueue enqueue_write
  enqueue-finished c id page all room =
      let open_queue : leb c.queue.max_queue_size (length c.queue.write_queue) ≡ false =
        ground arith in
      (rw (open_queue), rw (open_queue), λ c'' s. no_step {c = enqueue c id page} {c' = c''} all s)
