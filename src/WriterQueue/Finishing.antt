-- ===== src/WriterQueue/Finishing.antt =====
-- That the stopped threads of src/writer_queue.cpp finish.
use custom_database.Base.{
  ℕ, zero, suc, ◌≤◌, ◌≡◌, refl, ap, ◌∙◌, ◌⊎◌, inl, inr, List, [], ◌∷◌, ◌++◌, arith, All, Bool-cases,
}
use custom_database.Page.{KeyType}
use custom_database.WriterQueue.{WriteRequest}
use custom_database.WriterQueue.Crew.{
  Worker, waits, fetches, holds, finished, Crew, goes_on, enter, enters, collect_batch, leave,
  process_held, ◌⇝◌, collects, processes, leaves, IsFinished,
}
use custom_database.WriterQueue.Stopping.{
  Stopped, Steps, none_made, one_more, steps_left, step-Moved,
}

module _ {K : Type 0} (κ : KeyType K) where
  -- A thread that has not finished.
  data Unfinished (ws : List Worker) : Type 0 where
    waiting : (before after : List Worker) → ws ≡ before ++ waits ∷ after → Unfinished ws
    fetching : (before after : List Worker) → ws ≡ before ++ fetches ∷ after → Unfinished ws
    holding :
        (before : List Worker) (batch : List WriteRequest) (after : List Worker)
        → ws ≡ before ++ holds batch ∷ after
        → Unfinished ws

  later : (w : Worker) (ws : List Worker) → Unfinished ws → Unfinished (w ∷ ws)
  later w ws (waiting before after e) = waiting (w ∷ before) after (ap (◌∷◌ w) e)
  later w ws (fetching before after e) = fetching (w ∷ before) after (ap (◌∷◌ w) e)
  later w ws (holding before batch after e) = holding (w ∷ before) batch after (ap (◌∷◌ w) e)

  IsFinished-cases : (ws : List Worker) → All IsFinished ws ⊎ Unfinished ws
  IsFinished-cases [] = inl tt
  IsFinished-cases (waits ∷ ws) = inr (waiting [] ws refl)
  IsFinished-cases (fetches ∷ ws) = inr (fetching [] ws refl)
  IsFinished-cases (holds b ∷ ws) = inr (holding [] b ws refl)
  IsFinished-cases (finished ∷ ws) = elim (IsFinished-cases ws) [
    | inl all ↦ inl (refl, all)
    | inr u ↦ inr (later finished ws u)
  ]

  next_step : (c : Crew K) → Unfinished c.writer_threads → (c' : Crew K) × ◌⇝◌ κ c c'
  next_step c (holding before batch after e) = (_, processes before batch after e)
  next_step c (fetching before after e) = (_, collects before after e)
  next_step c (waiting before after e) = elim (Bool-cases (goes_on c)) [
    | inl h ↦ (_, enters before after e h)
    | inr h ↦ (_, leaves before after e h)
  ]

  -- The threads have finished after some steps.
  pub record Finish (c : Crew K) : Type 0 where
    pub count : ℕ
    pub last : Crew K
    pub steps : Steps κ count c last
    pub all_done : All IsFinished last.writer_threads

  pub finishes : (fuel : ℕ) (c : Crew K) → Stopped c → steps_left c ≤ fuel → Finish c
  finishes zero c v enough = elim (IsFinished-cases c.writer_threads) [
    | inl all ↦ record { count = 0; last = c; steps = none_made; all_done = all }
    | inr u ↦
        let (c', s) = next_step c u in absurd (omega (arith, enough, (step-Moved κ s v).fewer_left))
  ]
  finishes (suc fuel) c v enough = elim (IsFinished-cases c.writer_threads) [
    | inl all ↦ record { count = 0; last = c; steps = none_made; all_done = all }
    | inr u ↦
        let (c', s) = next_step c u in
        let m = step-Moved κ s v in
        let rest = finishes fuel c' m.stopped (omega (arith, enough, m.fewer_left)) in
        record {
          count = suc rest.count;
          last = rest.last;
          steps = one_more s rest.steps;
          all_done = rest.all_done;
        }
  ]

  step-accepted : {c c' : Crew K} → ◌⇝◌ κ c c' → c'.accepted ≡ c.accepted
  unfolding enter collect_batch process_held leave
  step-accepted {c} {c'} (enters before after e h) = refl
  step-accepted {c} {c'} (collects before after e) = refl
  step-accepted {c} {c'} (processes before batch after e) = refl
  step-accepted {c} {c'} (leaves before after e h) = refl

  -- The worker threads accept nothing.
  pub Steps-accepted : {n : ℕ} {c c' : Crew K} → Steps κ n c c' → c'.accepted ≡ c.accepted
  Steps-accepted {n} {c} {c'} none_made = refl
  Steps-accepted {n} {c} {c'} (one_more s rest) = Steps-accepted rest ∙ step-accepted s
