-- ===== src/Executor.antt =====
-- include/trading/execution/executor.hpp and src/execution/executor.cpp.
pub mod Executions
use live_trading_engine.Common.{
  ℕ, ◌+◌, ◌%◌, ◌^◌, Bool, true, Option, none, some, [], ◌++◌, Text, codes, decimal,
}
use live_trading_engine.Common.Double.{Double, nought}
use live_trading_engine.Matching.Loop.{Trade}

pub data ExecutionStatus : Type 0 where
  success failed partial pending : ExecutionStatus

pub record ExecutionResult {ℓ} (W : Type ℓ) : Type ℓ where
  pub status : ExecutionStatus
  pub execution_id : Text
  pub executed_quantity : W
  pub executed_price : W
  pub error_message : Text

-- `S` is what the execution callback acts on.
pub record Executor {ℓ κ} (W : Type ℓ) (S : Type κ) : Type (ℓ ⊔ κ) where
  pub execution_callback : Option (ExecutionResult W → S → S)
  pub total_executions : ℕ
  pub total_executed_volume : W
  pub next_execution_id : ℕ
  pub timeout_ms : ℕ
  pub max_retries : ℕ

module _ {ℓ κ} {W : Type ℓ} {S : Type κ} where
  unfoldable pub set_execution_callback : Executor W S → (ExecutionResult W → S → S) → Executor W S
  set_execution_callback x f = record x { execution_callback = some f }

  unfoldable pub set_timeout : Executor W S → ℕ → Executor W S
  set_timeout x milliseconds = record x { timeout_ms = milliseconds }

  unfoldable pub set_max_retries : Executor W S → ℕ → Executor W S
  set_max_retries x max_retries = record x { max_retries = max_retries }

  -- `next_execution_id_` is a uint64_t.
  unfoldable pub generate_execution_id : Executor W S → Text × Executor W S
  generate_execution_id x = (
    codes "EXE_" ++ decimal x.next_execution_id,
    record x { next_execution_id = (x.next_execution_id + 1) % 2 ^ 64 },
  )

  unfoldable pub validate_execution : Executor W S → Trade W → Bool
  validate_execution x t = true

  unfoldable pub perform_execution : Executor W S → Trade W → ExecutionResult W × Executor W S
  unfolding generate_execution_id
  perform_execution x t =
      let (id, x') = generate_execution_id x in
      (
        record {
          status = success;
          execution_id = id;
          executed_quantity = t.quantity;
          executed_price = t.price;
          error_message = [];
        },
        x',
      )

module _ {ℓ κ} {W : Type ℓ} {S : Type κ} ⦃d : Double W⦄ where
  unfoldable pub new_executor : Executor W S
  new_executor = record {
    execution_callback = none;
    total_executions = 0;
    total_executed_volume = nought;
    next_execution_id = 1;
    timeout_ms = 5000;
    max_retries = 3;
  }

  -- Execution is not implemented yet: the result is pending, and only the counter advances.
  unfoldable pub execute : Executor W S → Trade W → ExecutionResult W × Executor W S
  unfolding generate_execution_id
  execute x t =
      let (id, x') = generate_execution_id x in
      (
        record {
          status = pending;
          execution_id = id;
          executed_quantity = nought;
          executed_price = nought;
          error_message = [];
        },
        x',
      )

  unfoldable pub execute_trade : Executor W S → Text → W → W → ExecutionResult W × Executor W S
  unfolding generate_execution_id
  execute_trade x symbol quantity price =
      let (id, x') = generate_execution_id x in
      (
        record {
          status = pending;
          execution_id = id;
          executed_quantity = nought;
          executed_price = nought;
          error_message = [];
        },
        x',
      )
