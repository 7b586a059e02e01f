-- ===== src/Examples/Queues.antt =====
-- Runs of the concurrent queue.
use live_trading_engine.Common.{
  ℕ, ltb, ◌≡◌, refl, true, Option, none, some, List, [], ◌∷◌, ◌++◌, arith, length,
}
use live_trading_engine.ConcurrentQueue.{
  ConcurrentQueue, new_queue, round_up_to_power_of_two, bit_or, claim, is_free, publish, has_item,
  release, try_dequeue, size,
}
use live_trading_engine.ConcurrentQueue.Ring.{Runs, initially, claimed, published, dequeued, update}
use live_trading_engine.ConcurrentQueue.Delivery.{offered, Runs-fifo}

abbrev ring : ℕ → ConcurrentQueue ℕ
ring capacity = record {
  capacity = capacity;
  sequence = λ i. i;
  storage = λ _. none;
  enqueue_pos = 0;
  dequeue_pos = 0;
}

ring_of_two : new_queue 2 ≡ some (ring 2)
unfolding new_queue round_up_to_power_of_two bit_or
ring_of_two = refl

ring_of_one : new_queue 1 ≡ some (ring 1)
unfolding new_queue round_up_to_power_of_two bit_or
ring_of_one = refl

-- What the runs compute with.
steps : ℕ
unfolding claim publish is_free has_item release try_dequeue
steps = 0

abbrev nobody : ℕ → Option ℕ
nobody _ = none

abbrev claiming : ConcurrentQueue ℕ → ConcurrentQueue ℕ
claiming q = (claim q).1

-- Two producers claim, the second publishes first.
abbrev both_claimed : ConcurrentQueue ℕ
both_claimed = claiming (claiming (ring 2))

abbrev two_wait : ℕ → Option ℕ
two_wait = update (update nobody (claim (ring 2)).0 (some 7)) (claim (claiming (ring 2))).0 (some 8)

both_run : Runs (7 ∷ 8 ∷ []) [] two_wait both_claimed
unfolding claim
both_run =
    claimed (7 ∷ []) [] _ (claiming (ring 2)) 8
      (claimed [] [] nobody (ring 2) 7 (initially 2 (ring 2) ring_of_two) (omega arith))
      (omega arith)

second_first : Runs (7 ∷ 8 ∷ []) [] (update two_wait 1 none) (publish both_claimed 1 8)
unfolding claim is_free
second_first = published (7 ∷ 8 ∷ []) [] two_wait both_claimed 1 8 both_run refl refl

abbrev full : ConcurrentQueue ℕ
full = publish (publish both_claimed 1 8) 0 7

full_run : Runs (7 ∷ 8 ∷ []) [] (update (update two_wait 1 none) 0 none) full
unfolding claim publish is_free
full_run =
    published (7 ∷ 8 ∷ []) [] (update two_wait 1 none) (publish both_claimed 1 8) 0 7 second_first
      refl refl

first_taken :
    Runs (7 ∷ 8 ∷ []) (7 ∷ []) (update (update two_wait 1 none) 0 none) (try_dequeue full).1
unfolding steps
first_taken = dequeued (7 ∷ 8 ∷ []) [] (update (update two_wait 1 none) 0 none) full 7 full_run refl

-- The sizes are those of the queue before and after the consumer took its value.
Runs-fifo_example :
    (rest : List ℕ) × ((7 ∷ 8 ∷ []) ≡ (7 ∷ []) ++ rest)
    × ((try_dequeue (try_dequeue full).1).0 ≡ offered none rest)
    × ((p v : ℕ)
        → update (update two_wait 1 none) 0 none p ≡ some v
        → is_free (try_dequeue full).1 p ≡ ltb p 3)
    × (size (try_dequeue full).1 (try_dequeue full).1 ≡ 1)
    × (size (try_dequeue full).1 (try_dequeue full).1 ≡ length rest)
unfolding steps
Runs-fifo_example =
    Runs-fifo (7 ∷ 8 ∷ []) (7 ∷ []) (7 ∷ 8 ∷ []) (7 ∷ []) (update (update two_wait 1 none) 0 none)
      (update (update two_wait 1 none) 0 none) (try_dequeue full).1 (try_dequeue full).1 first_taken
      first_taken (omega arith) (omega arith)

-- A ring of one slot: the slot that the first producer wrote looks free to the second, which writes
-- over it before the consumer came.
abbrev one_claimed : ConcurrentQueue ℕ
one_claimed = publish (claiming (ring 1)) 0 7

one_slot_overwritten : is_free (claiming one_claimed) 1 ≡ true
unfolding steps
one_slot_overwritten = refl
