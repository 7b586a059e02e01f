-- ===== src/ThreadPool/Runs.antt =====
-- What a pool can come to, and what has become of its tasks then.
use live_trading_engine.Common.{
  ℕ, zero, suc, ◌+◌, ◌==◌, ◌≡◌, refl, sym, ap, ◌∙◌, Bool, true, false, ◌||◌, some, List, [], ◌∷◌,
  ◌++◌, arith, ◌⊎◌, inl, inr, if◌then◌else◌,
}
use mathlib.Core.List.{append_assoc}
use live_trading_engine.ThreadPool.{
  Worker, waiting, executing, returned, ThreadPool, Progress, start_workers, new_pool, enqueue,
  work, stop_pool,
}

module _ {ℓ} {T : Type ℓ} where
  -- A worker among the others.
  abbrev pub pool_with : List (Worker T) → Worker T → List (Worker T) → List T → Bool → ThreadPool T
  pool_with before w after queue stop = record {
    workers = before ++ (w ∷ after);
    tasks = queue;
    stop = stop;
  }

  -- The tasks that were enqueued, that workers took, and that they completed, each in that order.
  pub data Reaches : List T → List T → List T → ThreadPool T → Type ℓ where
    created : (hardware threads : ℕ) → Reaches [] [] [] (new_pool hardware threads)
    enqueued :
        (es taken completed : List T) (p p' : ThreadPool T) (task : T)
        → Reaches es taken completed p
        → enqueue p task ≡ some p'
        → Reaches (es ++ (task ∷ [])) taken completed p'
    worked :
        (es taken completed : List T) (before after : List (Worker T)) (w : Worker T)
        (queue : List T) (stop : Bool) (d : Progress T)
        → Reaches es taken completed (pool_with before w after queue stop)
        → work stop queue w ≡ some d
        → Reaches es
            (taken ++ d.taken)
            (completed ++ d.completed)
            (pool_with before d.worker after d.tasks stop)
    stopped :
        (es taken completed : List T) (p : ThreadPool T)
        → Reaches es taken completed p
        → Reaches es taken completed (stop_pool p)

  -- How many of a list pass a test.
  abbrev pub count : (T → Bool) → List T → ℕ
  count test [] = 0
  count test (x ∷ xs) = (if test x then 1 else 0) + count test xs

  pub count-append :
      (test : T → Bool) (xs ys : List T) → count test (xs ++ ys) ≡ count test xs + count test ys
  count-append test [] ys = omega arith
  count-append test (x ∷ xs) ys = omega (arith, count-append test xs ys)

  -- The tasks that are being executed.
  abbrev pub task_of : Worker T → List T
  task_of waiting = []
  task_of (executing task) = task ∷ []
  task_of returned = []

  unfoldable pub current : List (Worker T) → List T
  current [] = []
  current (w ∷ ws) = task_of w ++ current ws

  current-append : (ws vs : List (Worker T)) → current (ws ++ vs) ≡ current ws ++ current vs
  unfolding current
  current-append [] vs = refl
  current-append (w ∷ ws) vs =
      ap (λ x. task_of w ++ x) (current-append ws vs)
      ∙ sym (append_assoc (task_of w) (current ws) (current vs))

  abbrev pub is_returned : Worker T → Bool
  is_returned returned = true
  is_returned w = false

  unfoldable pub has_returned : List (Worker T) → Bool
  has_returned [] = false
  has_returned (w ∷ ws) = is_returned w || has_returned ws

  pub record IsSound (es taken completed : List T) (p : ThreadPool T) : Type ℓ where
    -- Workers take the tasks in the order in which they were enqueued.
    pub in_order : es ≡ taken ++ p.tasks
    -- What was taken is completed or being executed, each task as often.
    pub accounted :
        (test : T → Bool) → count test taken ≡ count test completed + count test (current p.workers)
    pub returned_late : has_returned p.workers ≡ true → (p.stop ≡ true) × (p.tasks ≡ [])

  current_middle :
      (test : T → Bool) (before after : List (Worker T)) (w : Worker T)
      → count test (current (before ++ (w ∷ after)))
        ≡ count test (current before) + (count test (task_of w) + count test (current after))
  unfolding current
  current_middle test before after w =
      ap (count test) (current-append before (w ∷ after))
      ∙ count-append test (current before) (task_of w ++ current after)
      ∙ ap (λ n. count test (current before) + n) (count-append test (task_of w) (current after))

  has_returned-append :
      (ws vs : List (Worker T)) → has_returned (ws ++ vs) ≡ (has_returned ws || has_returned vs)
  unfolding has_returned
  has_returned-append [] vs = refl
  has_returned-append (w ∷ ws) vs = ground (arith, has_returned-append ws vs)

  -- What a step does to the worker that takes it and to the queue.
  record IsStep (stop : Bool) (queue : List T) (w : Worker T) (d : Progress T) : Type ℓ where
    from_queue : queue ≡ d.taken ++ d.tasks
    balanced :
        (test : T → Bool)
        → count test (task_of w) + count test d.taken
          ≡ count test d.completed + count test (task_of d.worker)
    leaves_late : is_returned d.worker ≡ true → (stop ≡ true) × (d.tasks ≡ [])

  work-IsStep :
      (stop : Bool) (queue : List T) (w : Worker T) (d : Progress T)
      → work stop queue w ≡ some d
      → IsStep stop queue w d
  unfolding work
  work-IsStep true [] waiting d e = record {
    from_queue = ground arith;
    balanced = λ test. ground arith;
    leaves_late = λ h. ground arith;
  }
  work-IsStep false [] waiting d e = cc
  work-IsStep stop (task ∷ rest) waiting d e = record {
    from_queue = ground arith;
    balanced = λ test. ground arith;
    leaves_late = λ h. ground arith;
  }
  work-IsStep stop queue (executing task) d e = record {
    from_queue = ground arith;
    balanced = λ test. ground arith;
    leaves_late = λ h. ground arith;
  }
  work-IsStep stop queue returned d e = cc

  current-start_workers : (test : T → Bool) (n : ℕ) → count test (current (start_workers n)) ≡ 0
  unfolding current start_workers
  current-start_workers test zero = refl
  current-start_workers test (suc n) = current-start_workers test n

  has_returned-start_workers :
      (test : T → Bool) (n : ℕ) → has_returned (start_workers {T = T} n) ≡ false
  unfolding has_returned start_workers
  has_returned-start_workers test zero = refl
  has_returned-start_workers test (suc n) = has_returned-start_workers test n

  created-IsSound : (hardware threads : ℕ) → IsSound [] [] [] (new_pool hardware threads)
  unfolding new_pool
  created-IsSound hardware threads =
      let n = if threads == 0 then hardware else threads in
      record {
        in_order = refl;
        accounted = λ test. omega (arith, current-start_workers test n);
        returned_late = λ h. absurd (cc (h, has_returned-start_workers (λ t. true) n));
      }

  tasks-enqueue :
      (p p' : ThreadPool T) (task : T)
      → enqueue p task ≡ some p'
      → p'.tasks ≡ p.tasks ++ (task ∷ [])
  unfolding enqueue
  tasks-enqueue p p' task e = ground arith

  enqueued-IsSound :
      (es taken completed : List T) (p p' : ThreadPool T) (task : T)
      → IsSound es taken completed p
      → enqueue p task ≡ some p'
      → IsSound (es ++ (task ∷ [])) taken completed p'
  unfolding enqueue
  enqueued-IsSound es taken completed p p' task s e = record {
    in_order =
        ap (λ q. q ++ (task ∷ [])) s.in_order
        ∙ append_assoc taken p.tasks (task ∷ [])
        ∙ ap (λ q. taken ++ q) (sym (tasks-enqueue p p' task e));
    accounted = λ test. ground (arith, s.accounted test);
    returned_late = λ h. ground (arith, s.returned_late);
  }

  worked_late :
      (before after : List (Worker T)) (w v : Worker T)
      → has_returned (before ++ (v ∷ after)) ≡ true
      → (is_returned v ≡ true) ⊎ (has_returned (before ++ (w ∷ after)) ≡ true)
  unfolding has_returned
  worked_late before after w v h =
      ground (arith, has_returned-append before (v ∷ after), has_returned-append before (w ∷ after))

  append_empty : (xs ys : List T) → xs ++ ys ≡ [] → ys ≡ []
  append_empty [] ys e = e
  append_empty (x ∷ xs) ys e = cc

  worked-IsSound :
      (es taken completed : List T) (before after : List (Worker T)) (w : Worker T) (queue : List T)
      (stop : Bool) (d : Progress T)
      → IsSound es taken completed (pool_with before w after queue stop)
      → IsStep stop queue w d
      → IsSound es
          (taken ++ d.taken)
          (completed ++ d.completed)
          (pool_with before d.worker after d.tasks stop)
  worked-IsSound es taken completed before after w queue stop d s t = record {
    in_order =
        s.in_order ∙ ap (λ q. taken ++ q) t.from_queue ∙ sym (append_assoc taken d.taken d.tasks);
    accounted = λ test. omega (
      arith,
      s.accounted test,
      t.balanced test,
      count-append test taken d.taken,
      count-append test completed d.completed,
      current_middle test before after w,
      current_middle test before after d.worker,
    );
    returned_late = λ h. elim (worked_late before after w d.worker h) [
      | inl r ↦ t.leaves_late r
      | inr r ↦ (
        (s.returned_late r).0,
        append_empty d.taken d.tasks (sym t.from_queue ∙ (s.returned_late r).1),
      )
    ];
  }

  stopped-IsSound :
      (es ts cs : List T) (p : ThreadPool T) → IsSound es ts cs p → IsSound es ts cs (stop_pool p)
  unfolding stop_pool
  stopped-IsSound es ts cs p s = record {
    in_order = s.in_order;
    accounted = s.accounted;
    returned_late = λ h. (refl, (s.returned_late h).1);
  }

  pub Reaches-IsSound :
      {es taken completed : List T} {p : ThreadPool T}
      → Reaches es taken completed p
      → IsSound es taken completed p
  Reaches-IsSound (created hardware threads) = created-IsSound hardware threads
  Reaches-IsSound (enqueued es ts cs p p' task r e) =
      enqueued-IsSound es ts cs p p' task (Reaches-IsSound r) e
  Reaches-IsSound (worked es ts cs before after w queue stop d r e) =
      worked-IsSound es ts cs before after w queue stop d (Reaches-IsSound r)
        (work-IsStep stop queue w d e)
  Reaches-IsSound (stopped es ts cs p r) = stopped-IsSound es ts cs p (Reaches-IsSound r)
