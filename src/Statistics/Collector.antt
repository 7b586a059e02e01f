-- ===== src/Statistics/Collector.antt =====
-- include/trading/statistics/statistics_collector.hpp and src/statistics/statistics_collector.cpp:
-- the collector between the threads that submit trades and the one that counts them.
use live_trading_engine.Common.{
  ℕ, zero, suc, ◌+◌, ◌%◌, ◌^◌, Bool, true, false, not, ◌||◌, Option, none, some, List, [], ◌∷◌,
  ◌++◌, length, if◌then◌else◌, Text, codes,
}
use live_trading_engine.Common.Dict.{Dict, lookup}
use live_trading_engine.Common.Double.{Double}
use live_trading_engine.ConcurrentQueue.{ConcurrentQueue, try_dequeue}
use live_trading_engine.Matching.Loop.{Trade}
use live_trading_engine.Statistics.{InstrumentStats, update_statistics}

-- A time is a number of seconds since the epoch.
pub record TradeEvent {ℓ} (W : Type ℓ) : Type ℓ where
  pub symbol : Text
  pub price : W
  pub quantity : W
  pub timestamp : ℕ

pub record Config : Type 0 where
  pub timeframes : List Text
  pub queue_capacity : ℕ
  pub cleanup_interval : ℕ
  pub enabled : Bool

unfoldable pub default_config : Config
default_config = record {
  timeframes = codes "1m" ∷ codes "1h" ∷ codes "1d" ∷ [];
  queue_capacity = 10_000;
  cleanup_interval = 3600;
  enabled = true;
}

-- `trade_queue` has the events whose producers have a position in the ring and which are not taken
-- from it yet, in the order of the positions. The ring itself, its slots and the waiting of a producer
-- whose slot is not free stand beside the collector in `Faithful.Reaches`.
pub record StatisticsCollector {ℓ} (W : Type ℓ) : Type ℓ where
  pub config : Config
  pub trade_queue : List (TradeEvent W)
  pub instrument_stats : Dict (InstrumentStats W)
  pub running : Bool
  pub stop_requested : Bool
  pub total_trades_processed : ℕ
  pub total_trades_dropped : ℕ

-- What is left without the first.
unfoldable pub tail {ℓ} : {A : Type ℓ} → List A → List A
tail [] = []
tail (x ∷ xs) = xs

module _ {ℓ} {W : Type ℓ} where
  -- The ring is `new_queue` of the capacity, whose exception for a capacity of 0 leaves the constructor.
  unfoldable pub new_collector : Config → StatisticsCollector W
  new_collector config = record {
    config = config;
    trade_queue = [];
    instrument_stats = [];
    running = false;
    stop_requested = false;
    total_trades_processed = 0;
    total_trades_dropped = 0;
  }

  unfoldable pub start : StatisticsCollector W → Bool × StatisticsCollector W
  start c =
      if not c.config.enabled
      then (false, c)
      else if c.running
      then (true, c)
      else (true, record c { stop_requested = false; running = true })

  -- What both submitting functions test first.
  abbrev pub is_refusing : StatisticsCollector W → Bool
  is_refusing c = not c.config.enabled || not c.running

  -- The event gets its position.
  abbrev pub enqueue_event : StatisticsCollector W → TradeEvent W → StatisticsCollector W
  enqueue_event c event = record c { trade_queue = c.trade_queue ++ (event ∷ []) }

  -- The test and what follows it, as one thread runs them; in `Faithful.Reaches` the other threads come
  -- in between, a stop included. The queue throws nothing, so that no event is dropped.
  unfoldable pub submit_trade_event :
      StatisticsCollector W → TradeEvent W → Bool × StatisticsCollector W
  submit_trade_event c event = if is_refusing c then (false, c) else (true, enqueue_event c event)

  -- The timestamp of a trade, which the engine gives in milliseconds, is taken for seconds.
  unfoldable pub trade_to_event : Trade W → TradeEvent W
  trade_to_event t = record {
    symbol = t.symbol;
    price = t.price;
    quantity = t.quantity;
    timestamp = t.timestamp;
  }

  unfoldable pub submit_trade : StatisticsCollector W → Trade W → Bool × StatisticsCollector W
  submit_trade c t = if is_refusing c then (false, c) else submit_trade_event c (trade_to_event t)

  unfoldable pub get_stats_for_symbol : StatisticsCollector W → Text → Option (InstrumentStats W)
  get_stats_for_symbol c symbol = lookup symbol c.instrument_stats

  -- Both positions are loaded from the same state; the ring that a disabled collector lacks counts 0.
  unfoldable pub get_queue_size : StatisticsCollector W → ℕ
  get_queue_size c = length c.trade_queue

  -- It removes nothing.
  unfoldable pub cleanup_old_stats : StatisticsCollector W → StatisticsCollector W
  cleanup_old_stats c = c

module _ {ℓ} {W : Type ℓ} ⦃d : Double W⦄ where
  unfoldable pub process_trade_event : StatisticsCollector W → TradeEvent W → StatisticsCollector W
  process_trade_event c event = record c {
    instrument_stats =
        update_statistics c.config.timeframes c.instrument_stats event.symbol event.price
          event.quantity;
    total_trades_processed = (c.total_trades_processed + 1) % 2 ^ 64;
  }

  -- An event that the collecting thread took from the ring, the first of the queue.
  abbrev pub take_event : StatisticsCollector W → TradeEvent W → StatisticsCollector W
  take_event c event = process_trade_event (record c { trade_queue = tail c.trade_queue }) event

  -- One round of the loop, `elapsed` seconds after the last cleanup, with what try_dequeue gave.
  unfoldable pub collect : ℕ → StatisticsCollector W → Option (TradeEvent W) → StatisticsCollector W
  unfolding cleanup_old_stats
  collect elapsed c none = cleanup_old_stats c
  collect elapsed c (some event) = cleanup_old_stats (take_event c event)

  -- stop, up to the join.
  unfoldable pub signal_stop : StatisticsCollector W → StatisticsCollector W
  signal_stop c = if not c.running then c else record c { stop_requested = true; running = false }

  -- The loop after a stop is requested, on the ring; `none` if it goes on after so many rounds.
  unfoldable pub drain_ring :
      ℕ → ConcurrentQueue (TradeEvent W) → StatisticsCollector W → Option (StatisticsCollector W)
  drain_ring zero q c = none
  drain_ring (suc n) q c = elim (try_dequeue q).0 [
    | none ↦ some c
    | some event ↦ drain_ring n (try_dequeue q).1 (take_event c event)
  ]

  -- The same loop over what is in the queue, if every event in it is written.
  unfoldable pub drain : StatisticsCollector W → List (TradeEvent W) → StatisticsCollector W
  drain c [] = c
  drain c (event ∷ rest) = drain (process_trade_event (record c { trade_queue = rest }) event) rest

  -- The collecting thread is joined. No producer is between its test and the end of its enqueue.
  unfoldable pub stop : StatisticsCollector W → StatisticsCollector W
  stop c =
      if not c.running
      then c
      else drain (record c { stop_requested = true; running = false }) c.trade_queue
