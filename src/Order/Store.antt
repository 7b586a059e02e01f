-- ===== src/Order/Store.antt =====
-- The heap of the orders: what `std::make_shared<Order>` allocates and the `shared_ptr`s point to.
use live_trading_engine.Common.{ℕ, ◌+◌, ◌≡◌, ◌≢◌, arith, ◌==◌, if◌then◌else◌}
use live_trading_engine.Order.{Order}

-- A pointer is a number below `next`.
pub record Store {ℓ} (W : Type ℓ) : Type ℓ where
  pub cell : ℕ → Order W
  pub next : ℕ

module _ {ℓ} {W : Type ℓ} where
  unfoldable pub write : Store W → ℕ → Order W → Store W
  write st r o = record st { cell = λ q. if r == q then o else st.cell q }

  unfoldable pub alloc : Store W → Order W → Store W
  unfolding write
  alloc st o = record (write st st.next o) { next = st.next + 1 }

  pub cell-write_self : (st : Store W) (r : ℕ) (o : Order W) → (write st r o).cell r ≡ o
  unfolding write
  cell-write_self st r o = ground arith

  pub cell-write_ne :
      (st : Store W) (r q : ℕ) (o : Order W) → r ≢ q → (write st r o).cell q ≡ st.cell q
  unfolding write
  cell-write_ne st r q o h = ground arith
