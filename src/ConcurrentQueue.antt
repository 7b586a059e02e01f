-- ===== src/ConcurrentQueue.antt =====
-- include/trading/utils/concurrent_queue.hpp: the ring of slots that producers and one consumer
-- share. Each definition is what happens between two atomic accesses of a slot's sequence number.
pub mod Window
pub mod Ring
pub mod Producers
pub mod Consumer
pub mod Delivery
use live_trading_engine.Common.{
  ℕ, zero, suc, ◌+◌, ◌-◌, ◌*◌, ◌/◌, ◌%◌, ◌^◌, ◌==◌, leb, Bool, true, false, not, Option, none, some,
  if◌then◌else◌, ◌≡◌, refl,
}

pub record ConcurrentQueue {ℓ} (A : Type ℓ) : Type ℓ where
  pub capacity : ℕ
  pub sequence : ℕ → ℕ
  -- `none` is storage that holds no object
  pub storage : ℕ → Option A
  pub enqueue_pos : ℕ
  pub dequeue_pos : ℕ

-- The bitwise or of numbers below 2 ^ f.
unfoldable pub bit_or : ℕ → ℕ → ℕ → ℕ
bit_or zero a b = 0
bit_or (suc f) a b = let low = if a % 2 == 0 then b % 2 else 1 in low + 2 * bit_or f (a / 2) (b / 2)

abbrev smear : ℕ → ℕ → ℕ
smear k v = bit_or 64 v (v / 2 ^ k)

-- Every bit below the highest is set, and one added. `v` is at least 1.
unfoldable pub round_up_to_power_of_two : ℕ → ℕ
unfolding bit_or
round_up_to_power_of_two v =
    (smear 32 (smear 16 (smear 8 (smear 4 (smear 2 (smear 1 (v - 1)))))) + 1) % 2 ^ 64

module _ {ℓ} {A : Type ℓ} where
  -- `none` is the exception for a capacity of zero.
  unfoldable pub new_queue : ℕ → Option (ConcurrentQueue A)
  new_queue capacity =
      if capacity == 0
      then none
      else some (record {
        capacity = round_up_to_power_of_two capacity;
        sequence = λ i. i;
        storage = λ _. none;
        enqueue_pos = 0;
        dequeue_pos = 0;
      })

  -- `pos & capacity_mask_`, for a capacity that is a power of two.
  abbrev pub slot : ConcurrentQueue A → ℕ → ℕ
  slot q pos = pos % q.capacity

  -- enqueue, first part: `fetch_add` gives the position.
  unfoldable pub claim : ConcurrentQueue A → ℕ × ConcurrentQueue A
  claim q = (q.enqueue_pos, record q { enqueue_pos = (q.enqueue_pos + 1) % 2 ^ 64 })

  -- What the waiting loop of enqueue waits for.
  unfoldable pub is_free : ConcurrentQueue A → ℕ → Bool
  is_free q pos = q.sequence (slot q pos) == pos

  -- enqueue, last part: the object is built, and the slot published.
  unfoldable pub publish : ConcurrentQueue A → ℕ → A → ConcurrentQueue A
  publish q pos value = record q {
    storage = λ i. if i == slot q pos then some value else q.storage i;
    sequence = λ i. if i == slot q pos then (pos + 1) % 2 ^ 64 else q.sequence i;
  }

  -- Has a producer finished writing the slot of the consumer's position?
  unfoldable pub has_item : ConcurrentQueue A → Bool
  has_item q = q.sequence (slot q q.dequeue_pos) == ((q.dequeue_pos + 1) % 2 ^ 64)

  -- The object is destroyed, its slot free for the next round.
  unfoldable pub release : ConcurrentQueue A → ConcurrentQueue A
  release q = record q {
    sequence = λ i.
        if i == slot q q.dequeue_pos then (q.dequeue_pos + q.capacity) % 2 ^ 64 else q.sequence i;
    storage = λ i. if i == slot q q.dequeue_pos then none else q.storage i;
    dequeue_pos = (q.dequeue_pos + 1) % 2 ^ 64;
  }

  unfoldable pub try_dequeue : ConcurrentQueue A → Option A × ConcurrentQueue A
  try_dequeue q =
      if not (has_item q) then (none, q) else (q.storage (slot q q.dequeue_pos), release q)

  -- The positions are loaded one after the other: the queue may have moved on in between.
  unfoldable pub size : ConcurrentQueue A → ConcurrentQueue A → ℕ
  size first second =
      if leb second.dequeue_pos first.enqueue_pos then first.enqueue_pos - second.dequeue_pos else 0

rounds_up : round_up_to_power_of_two 10_000 ≡ 16_384
unfolding round_up_to_power_of_two bit_or
rounds_up = refl
