-- ===== src/ThreadPool.antt =====
-- include/trading/utils/thread_pool.hpp and src/utils/thread_pool.cpp: the pool, each section under its
-- lock being one step.
pub mod Runs
pub mod Joined
use live_trading_engine.Common.{
  ℕ, zero, suc, ◌==◌, Bool, true, false, Option, none, some, List, [], ◌∷◌, ◌++◌, if◌then◌else◌,
}

-- A worker waits for the lock or for a task, executes a task, or has left its loop.
pub data Worker {ℓ} (T : Type ℓ) : Type ℓ where
  waiting : Worker T
  executing : T → Worker T
  returned : Worker T

pub record ThreadPool {ℓ} (T : Type ℓ) : Type ℓ where
  pub workers : List (Worker T)
  pub tasks : List T
  pub stop : Bool

-- What a step of a worker comes to: the worker and the queue behind it, the task that it took from the
-- queue, and the task that it completed.
pub record Progress {ℓ} (T : Type ℓ) : Type ℓ where
  pub worker : Worker T
  pub tasks : List T
  pub taken : List T
  pub completed : List T

module _ {ℓ} {T : Type ℓ} where
  unfoldable pub start_workers : ℕ → List (Worker T)
  start_workers zero = []
  start_workers (suc n) = waiting ∷ start_workers n

  unfoldable pub new_pool : (hardware_concurrency threads : ℕ) → ThreadPool T
  unfolding start_workers
  new_pool hardware_concurrency threads = record {
    workers = start_workers (if threads == 0 then hardware_concurrency else threads);
    tasks = [];
    stop = false;
  }

  -- `none` is the exception of a stopped pool.
  unfoldable pub enqueue : ThreadPool T → T → Option (ThreadPool T)
  enqueue pool task =
      if pool.stop then none else some (record pool { tasks = pool.tasks ++ (task ∷ []) })

  -- A step of a worker; `none` while it has to wait, and when it has returned.
  unfoldable pub work : Bool → List T → Worker T → Option (Progress T)
  work stop [] waiting =
      if stop
      then some (record { worker = returned; tasks = []; taken = []; completed = [] })
      else none
  work stop (task ∷ rest) waiting =
      some (record { worker = executing task; tasks = rest; taken = task ∷ []; completed = [] })
  work stop queue (executing task) =
      some (record { worker = waiting; tasks = queue; taken = []; completed = task ∷ [] })
  work stop queue returned = none

  -- The destructor, up to the joins.
  unfoldable pub stop_pool : ThreadPool T → ThreadPool T
  stop_pool pool = record pool { stop = true }

  -- Whether every join has come back.
  unfoldable pub joined : List (Worker T) → Bool
  joined [] = true
  joined (returned ∷ ws) = joined ws
  joined (w ∷ ws) = false
