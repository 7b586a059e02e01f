-- ===== src/Examples/Statistics.antt =====
-- The statistics collector at concrete inputs.
use live_trading_engine.Common.{
  ℕ, true, Option, none, some, arith, ◌≡◌, refl, [], ◌∷◌, codes, text_eq, has_text, IsDistinct,
}
use live_trading_engine.Common.Int.{ℤ, pos}
use live_trading_engine.Common.Double.{int_double}
use live_trading_engine.Statistics.{OhlcvBucket}
use live_trading_engine.ConcurrentQueue.{
  ConcurrentQueue, new_queue, round_up_to_power_of_two, bit_or, claim, is_free, publish,
  try_dequeue,
}
use live_trading_engine.ConcurrentQueue.Ring.{update}
use live_trading_engine.ConcurrentQueue.Delivery.{offered}
use live_trading_engine.Statistics.Collector.{
  TradeEvent, StatisticsCollector, Config, new_collector, start, enqueue_event, signal_stop,
  drain_ring, stop,
}
use live_trading_engine.Statistics.Faithful.{
  Reaches, initially, started, tested, claimed, published, stopping, IsFaithful, Reaches-IsFaithful,
}
use live_trading_engine.Statistics.Stopped.{stop-processes_all}

abbrev timeframes : Config
timeframes = record {
  timeframes = codes "1m" ∷ codes "1h" ∷ [];
  queue_capacity = 8;
  cleanup_interval = 60;
  enabled = true;
}

timeframes-IsDistinct : IsDistinct timeframes.timeframes
unfolding text_eq has_text
timeframes-IsDistinct = (refl, (refl, tt))

abbrev event : TradeEvent ℤ
event = record { symbol = codes "AAPL"; price = pos 100; quantity = pos 5; timestamp = 0 }

abbrev running : StatisticsCollector ℤ
running = (start (new_collector timeframes)).1

-- The ring for a queue capacity of 8.
abbrev empty_ring : ConcurrentQueue (TradeEvent ℤ)
empty_ring = record {
  capacity = 8;
  sequence = λ i. i;
  storage = λ _. none;
  enqueue_pos = 0;
  dequeue_pos = 0;
}

ring_of_eight : new_queue 8 ≡ some empty_ring
unfolding new_queue round_up_to_power_of_two bit_or
ring_of_eight = refl

abbrev nobody : ℕ → Option (TradeEvent ℤ)
nobody _ = none

-- One producer passes its test, gets its position and writes.
abbrev loaded : StatisticsCollector ℤ
loaded = enqueue_event running event

abbrev writing : ℕ → Option (TradeEvent ℤ)
writing = update nobody 0 (some event)

abbrev ring : ConcurrentQueue (TradeEvent ℤ)
ring = publish (claim empty_ring).1 0 event

claimed_run : Reaches timeframes 0 (event ∷ []) [] writing (claim empty_ring).1 loaded
unfolding claim start new_collector
claimed_run =
    claimed 0 [] [] nobody empty_ring running event
      (tested 0 [] [] nobody empty_ring running
        (started 0 [] [] nobody empty_ring (new_collector timeframes)
          (initially empty_ring refl ring_of_eight))
        refl)
      (omega arith)

loaded-Reaches : Reaches timeframes 0 (event ∷ []) [] (update writing 0 none) ring loaded
unfolding claim is_free
loaded-Reaches =
    published 0 (event ∷ []) [] writing (claim empty_ring).1 loaded 0 event claimed_run refl refl

all_written : (p : ℕ) → update writing 0 none p ≡ none
all_written p = ground arith

Reaches-IsFaithful_example :
    IsFaithful timeframes (event ∷ []) [] loaded
    × ((try_dequeue ring).0 ≡ offered none (event ∷ []))
unfolding claim publish start new_collector
Reaches-IsFaithful_example =
    Reaches-IsFaithful timeframes timeframes-IsDistinct 0 (event ∷ []) [] (update writing 0 none)
      ring loaded loaded-Reaches (omega arith)

stop-processes_all_example : drain_ring 2 ring (signal_stop loaded) ≡ some (stop loaded)
unfolding claim publish start new_collector
stop-processes_all_example =
    (stop-processes_all timeframes timeframes-IsDistinct 0 (event ∷ []) [] (update writing 0 none)
      ring loaded loaded-Reaches (omega arith) all_written refl).0

-- A producer that passed its test before the stop gets its position after it: its event stays in the
-- queue.
late_run :
    Reaches timeframes 0
      (event ∷ [])
      []
      writing
      (claim empty_ring).1
      (enqueue_event (signal_stop running) event)
unfolding claim start new_collector
late_run =
    claimed 0 [] [] nobody empty_ring (signal_stop running) event
      (stopping 1 [] [] nobody empty_ring running (
        tested 0 [] [] nobody empty_ring running
          (started 0 [] [] nobody empty_ring (new_collector timeframes)
            (initially empty_ring refl ring_of_eight))
          refl))
      (omega arith)

abbrev traded : OhlcvBucket ℤ
traded = record {
  open_price = pos 100;
  high = pos 100;
  low = pos 100;
  close = pos 100;
  volume = pos 5;
  dollar_volume = pos 500;
  simple_return = pos 0;
  volatility = pos 0;
  trade_count = 1;
}
