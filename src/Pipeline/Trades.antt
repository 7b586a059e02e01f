-- ===== src/Pipeline/Trades.antt =====
-- apps/trading_engine/main.cpp: handleTrade and handleExecution, and what a run of trades leaves in the
-- log and in the queue of the statistics.
use live_trading_engine.Common.{
  ℕ, suc, ◌^◌, ◌<◌, ◌≡◌, ◌&&◌, Option, none, some, List, [], ◌∷◌, ◌++◌, if◌then◌else◌, Text, codes,
  decimal,
}
use live_trading_engine.Common.Double.{Double}
use live_trading_engine.Matching.Loop.{Trade}
use live_trading_engine.Executor.{ExecutionResult, Executor, execute}
use live_trading_engine.Logging.Lines.{info, Moment, format_log_entry}
use live_trading_engine.Logging.Trades.{
  TradeLogger, trade_text, log_trade, log_execution, create_confirmation, send_confirmation,
}
use live_trading_engine.Statistics.Collector.{
  StatisticsCollector, TradeEvent, submit_trade, trade_to_event,
}

-- The parts of the program that a trade reaches.
pub record TradeHandler {ℓ κ} (W : Type ℓ) (S : Type κ) : Type (ℓ ⊔ κ) where
  pub trade_logger : TradeLogger
  pub stats_collector : Option (StatisticsCollector W)
  pub executor : Executor W S

-- A trade, and the clock when it is logged and when its confirmation is sent.
pub record Timed {ℓ} (W : Type ℓ) : Type ℓ where
  pub trade : Trade W
  pub logged : Moment
  pub sent : Moment

module _ {ℓ} {W : Type ℓ} where
  unfoldable pub submit_if_running :
      Option (StatisticsCollector W) → Trade W → Option (StatisticsCollector W)
  submit_if_running none t = none
  submit_if_running (some c) t = if c.running then some (submit_trade c t).1 else some c

module _ {ℓ κ} {W : Type ℓ} {S : Type κ} ⦃d : Double W⦄ where
  unfoldable pub handle_trade : TradeHandler W S → Timed W → TradeHandler W S
  unfolding submit_if_running
  handle_trade s t =
      let logged = log_trade s.trade_logger t.logged t.trade in
      let stats_collector = submit_if_running s.stats_collector t.trade in
      let (result, executor) = execute s.executor t.trade in
      let (confirmation, confirmed) = create_confirmation logged t.trade in
      let (is_sent, trade_logger) = send_confirmation confirmed t.sent confirmation in
      record { trade_logger = trade_logger; stats_collector = stats_collector; executor = executor }

  unfoldable pub handle_execution : TradeHandler W S → Moment → ExecutionResult W → TradeHandler W S
  handle_execution s now result = record s {
    trade_logger = log_execution s.trade_logger now result;
  }

  unfoldable pub handle_trades : TradeHandler W S → List (Timed W) → TradeHandler W S
  unfolding handle_trade
  handle_trades s [] = s
  handle_trades s (t ∷ ts) = handle_trades (handle_trade s t) ts

module _ {ℓ} {W : Type ℓ} ⦃d : Double W⦄ where
  abbrev pub trade_line : Timed W → Text
  trade_line t = format_log_entry t.logged info (trade_text t.trade)

  abbrev pub confirmation_line : ℕ → Timed W → Text
  confirmation_line n t = format_log_entry t.sent info (
      codes "CONFIRMATION: "
      ++ (codes "CONF_"
          ++ (decimal n ++ (codes " Trade: " ++ (t.trade.trade_id ++ codes " Status: CONFIRMED")))))

  -- The lines of the log for trades whose confirmations are numbered from n on.
  abbrev pub log_of : ℕ → List (Timed W) → List Text
  log_of n [] = []
  log_of n (t ∷ ts) = trade_line t ∷ confirmation_line n t ∷ log_of (suc n) ts

module _ {ℓ} {W : Type ℓ} where
  abbrev pub events_of : List (Timed W) → List (TradeEvent W)
  events_of [] = []
  events_of (t ∷ ts) = trade_to_event t.trade ∷ events_of ts

  -- The collector with the events of the trades behind its queue, if it takes any.
  abbrev pub collected :
      Option (StatisticsCollector W) → List (TradeEvent W) → Option (StatisticsCollector W)
  collected none events = none
  collected (some c) events = some (
      if c.running && c.config.enabled
      then record c { trade_queue = c.trade_queue ++ events }
      else c)

module _ {ℓ κ} {W : Type ℓ} {S : Type κ} ⦃d : Double W⦄ where
  record Step (s s' : TradeHandler W S) (t : Timed W) : Type ℓ where
    queue : s'.trade_logger.async.log_queue ≡ (
        if s.trade_logger.async.done
        then s.trade_logger.async.log_queue
        else s.trade_logger.async.log_queue
          ++ (trade_line t ∷ confirmation_line s.trade_logger.next_confirmation_id t ∷ []))
    done : s'.trade_logger.async.done ≡ s.trade_logger.async.done
    next :
        suc s.trade_logger.next_confirmation_id < 2 ^ 64
        → s'.trade_logger.next_confirmation_id ≡ suc s.trade_logger.next_confirmation_id
    stats : s'.stats_collector ≡ collected s.stats_collector (trade_to_event t.trade ∷ [])
