-- ===== src/Logging.antt =====
-- include/trading/logging/async_logger.hpp over include/trading/utils/thread_safe_queue.hpp: the threads
-- that log, and the worker that writes. The queue's lock makes each of its operations one step.
pub mod Written
pub mod Lines
pub mod Trades
pub mod Drain
use live_trading_engine.Common.{
  ℕ, Bool, true, false, not, Option, none, some, List, [], ◌∷◌, ◌++◌, if◌then◌else◌, Text, text_eq,
  codes, length,
}

-- std::queue behind the lock of ThreadSafeQueue.
module _ {ℓ} {T : Type ℓ} where
  unfoldable pub push : List T → T → List T
  push queue value = queue ++ (value ∷ [])

  -- `none` for std::nullopt; wait_and_pop waits instead.
  unfoldable pub try_pop : List T → Option T × List T
  try_pop [] = (none, [])
  try_pop (value ∷ rest) = (some value, rest)

  unfoldable pub queue_is_empty : List T → Bool
  queue_is_empty [] = true
  queue_is_empty (value ∷ rest) = false

abbrev pub sentinel : Text
sentinel = codes "e0a6f5a9-4c4c-4d9b-8e7a-3f1b7f2b1a0e-STOP"

-- Where the worker is in `run`.
pub data Phase : Type 0 where
  working draining ended : Phase

pub record AsyncLogger : Type 0 where
  pub log_queue : List Text
  -- the lines written so far
  pub log_file : List Text
  pub is_open : Bool
  pub done : Bool
  pub phase : Phase

-- The file is open, and the worker runs.
unfoldable pub start_logger : AsyncLogger
start_logger = record {
  log_queue = [];
  log_file = [];
  is_open = true;
  done = false;
  phase = working;
}

-- addLog, once `done_` was found to be false.
unfoldable pub push_log : AsyncLogger → Text → AsyncLogger
unfolding push
push_log l message = record l { log_queue = push l.log_queue message }

unfoldable pub write_log : AsyncLogger → Text → AsyncLogger
write_log l message = if l.is_open then record l { log_file = l.log_file ++ (message ∷ []) } else l

-- One round of the worker: it waits in vain while the queue is empty.
unfoldable pub run_once : AsyncLogger → AsyncLogger
unfolding try_pop
run_once l = elim l.phase [
  | working ↦ elim l.log_queue [
    | [] ↦ l
    | message ∷ rest ↦
        if text_eq message sentinel
        then record l { log_queue = rest; phase = draining }
        else write_log (record l { log_queue = rest }) message
  ]
  | draining ↦ elim l.log_queue [
    | [] ↦ record l { phase = ended }
    | message ∷ rest ↦
        if text_eq message sentinel
        then record l { log_queue = rest }
        else write_log (record l { log_queue = rest }) message
  ]
  | ended ↦ l
]

-- stop, up to the join.
unfoldable pub request_stop : AsyncLogger → AsyncLogger
unfolding push
request_stop l =
    if l.done then l else record l { done = true; log_queue = push l.log_queue sentinel }

-- stop, after the join.
unfoldable pub close : AsyncLogger → AsyncLogger
close l = record l { is_open = false }
