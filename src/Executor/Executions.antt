-- ===== src/Executor/Executions.antt =====
-- The results of a run of executions.
use live_trading_engine.Common.{
  ℕ, ◌+◌, ◌^◌, ◌≤◌, ◌≡◌, ◌≢◌, refl, ◌∙◌, List, [], ◌∷◌, ◌++◌, All, All-map, length, arith, codes,
  decimal, decimal-injective,
}
use live_trading_engine.Common.Double.{Double}
use live_trading_engine.Matching.Loop.{Trade}
use live_trading_engine.Executor.{Executor, ExecutionResult, execute, generate_execution_id}

module _ {ℓ κ} {W : Type ℓ} {S : Type κ} ⦃d : Double W⦄ where
  -- The executor after the trades, and the results in their order.
  unfoldable execute_all : Executor W S → List (Trade W) → List (ExecutionResult W) × Executor W S
  execute_all x [] = ([], x)
  execute_all x (t ∷ ts) =
      let (r, x1) = execute x t in let (rs, x2) = execute_all x1 ts in (r ∷ rs, x2)

module _ {ℓ} {W : Type ℓ} where
  -- No two results have the same id.
  abbrev HasUniqueIds : List (ExecutionResult W) → Type 0
  HasUniqueIds [] = Unit
  HasUniqueIds (r ∷ rs) = All (λ q. r.execution_id ≢ q.execution_id) rs × HasUniqueIds rs

  abbrev FromId : ℕ → ExecutionResult W → Type 0
  FromId n r = (m : ℕ) × (r.execution_id ≡ codes "EXE_" ++ decimal m) × (n ≤ m)

execution_id-injective : (m n : ℕ) → codes "EXE_" ++ decimal m ≡ codes "EXE_" ++ decimal n → m ≡ n
execution_id-injective m n e = decimal-injective m n (cc e)

module _ {ℓ κ} {W : Type ℓ} {S : Type κ} ⦃d : Double W⦄ where
  execute_all-FromId :
      (k : ℕ) (x : Executor W S) (ts : List (Trade W))
      → k ≤ x.next_execution_id
      → x.next_execution_id + length ts ≤ 2 ^ 64
      → All (FromId k) (execute_all x ts).0
  unfolding execute_all execute generate_execution_id
  execute_all-FromId k x [] h b = tt
  execute_all-FromId k x (t ∷ []) h b = ((x.next_execution_id, refl, h), tt)
  execute_all-FromId k x (t ∷ u ∷ ts) h b = (
    (x.next_execution_id, refl, h),
    execute_all-FromId k (execute x t).1 (u ∷ ts) (omega arith) (omega arith),
  )

  -- The executions of a run of trades have distinct ids while the counter does not wrap around.
  execute_all-HasUniqueIds :
      (x : Executor W S) (ts : List (Trade W))
      → x.next_execution_id + length ts ≤ 2 ^ 64
      → HasUniqueIds (execute_all x ts).0
  unfolding execute_all execute generate_execution_id
  execute_all-HasUniqueIds x [] b = tt
  execute_all-HasUniqueIds x (t ∷ []) b = (tt, tt)
  execute_all-HasUniqueIds x (t ∷ u ∷ ts) b = (
    All-map
        (λ r id same. omega (arith, execution_id-injective x.next_execution_id id.0 (same ∙ id.1)))
        (execute_all (execute x t).1 (u ∷ ts)).0
        (execute_all-FromId (x.next_execution_id + 1) (execute x t).1 (u ∷ ts) (omega arith)
          (omega arith)),
    execute_all-HasUniqueIds (execute x t).1 (u ∷ ts) (omega arith),
  )
