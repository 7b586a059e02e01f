-- ===== src/Examples/Pool.antt =====
-- A pool of one worker, from its first task to its joins.
use live_trading_engine.Common.{
  ℕ, ◌<◌, ◌≡◌, refl, Bool, true, false, some, List, [], ◌∷◌, arith, ◌⊎◌,
}
use live_trading_engine.ThreadPool.{
  Worker, waiting, executing, returned, ThreadPool, Progress, start_workers, new_pool, enqueue,
  work, stop_pool, joined,
}
use live_trading_engine.ThreadPool.Runs.{pool_with, Reaches, created, enqueued}
use live_trading_engine.ThreadPool.Joined.{Works, rests, steps, remaining, IsOver, Works-IsOver}

abbrev pool_of : Worker ℕ → List ℕ → Bool → ThreadPool ℕ
pool_of w tasks stop = pool_with [] w [] tasks stop

abbrev progress : Worker ℕ → (tasks taken completed : List ℕ) → Progress ℕ
progress w tasks taken completed = record {
  worker = w;
  tasks = tasks;
  taken = taken;
  completed = completed;
}

pool_of_one : new_pool 4 1 ≡ pool_of waiting [] false
unfolding new_pool start_workers
pool_of_one = refl

enqueue_7 : enqueue (new_pool 4 1) 7 ≡ some (pool_of waiting (7 ∷ []) false)
unfolding new_pool start_workers enqueue
enqueue_7 = refl

enqueued_7 : Reaches (7 ∷ []) [] [] (pool_of waiting (7 ∷ []) false)
enqueued_7 =
    enqueued [] [] [] (new_pool 4 1) (pool_of waiting (7 ∷ []) false) 7 (created 4 1) enqueue_7

-- The worker takes the task, executes it, and returns.
three_steps : Works 3 (stop_pool (pool_of waiting (7 ∷ []) false)) (pool_of returned [] true)
unfolding stop_pool work
three_steps =
    steps 2 [] [] waiting (7 ∷ []) true (progress (executing 7) [] (7 ∷ []) [])
      (pool_of returned [] true) refl
      (steps 1 [] [] (executing 7) [] true (progress waiting [] [] (7 ∷ []))
        (pool_of returned [] true) refl
        (steps 0 [] [] waiting [] true (progress returned [] [] []) (pool_of returned [] true) refl
          (rests (pool_of returned [] true))))

Works-IsOver_example :
    ((joined (pool_of returned [] true).workers ≡ false)
      × ((next : ThreadPool ℕ) × Works 1 (pool_of returned [] true) next)
      × (3 < remaining (pool_of waiting (7 ∷ []) false)))
    ⊎ ((joined (pool_of returned [] true).workers ≡ true)
        × (3 ≡ remaining (pool_of waiting (7 ∷ []) false))
        × IsOver (7 ∷ []) (pool_of returned [] true))
Works-IsOver_example = Works-IsOver enqueued_7 (omega arith) three_steps
