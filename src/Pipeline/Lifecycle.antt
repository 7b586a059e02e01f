-- ===== src/Pipeline/Lifecycle.antt =====
-- apps/trading_engine/main.cpp: start and stop of the engine, over the parts that they start and stop.
pub mod Running
use live_trading_engine.Common.{
  Bool, true, false, not, ◌&&◌, ◌||◌, List, [], ◌++◌, if◌then◌else◌, Text, codes,
}
use live_trading_engine.Common.Double.{Double}
use live_trading_engine.Logging.{AsyncLogger, working}
use live_trading_engine.Logging.Drain.{stop_logger}
use live_trading_engine.Logging.Lines.{AppLogger, log_line, error, info, Moment}
use live_trading_engine.Logging.Trades.{TradeLogger, log_message}
use live_trading_engine.Http.Server.{HttpServer, start_server, stop_server}
use live_trading_engine.Statistics.Collector.{StatisticsCollector}
use live_trading_engine.Statistics.Collector
use live_trading_engine.Messaging.{Message, Kafka, QueueClient, connect, disconnect, subscribe}

-- The parts; a thread of a logger is joinable from its start to the end of its stop.
pub record Program {ℓ κ ι} (W : Type ℓ) (K : Type κ) (S : Type ι) : Type (ℓ ⊔ κ ⊔ ι) where
  pub app_logger : AppLogger
  pub app_thread : Bool
  pub trade_logger : TradeLogger
  pub trade_thread : Bool
  pub http_server : HttpServer S
  pub stats_collector : StatisticsCollector W
  pub queue_client : QueueClient K S
  pub running : Bool

-- What AsyncLogger::start comes to: std::terminate, since a joinable thread is assigned to, an
-- exception, or a running worker.
pub data Opened : Type 0 where
  terminates throws : Opened
  opened : AsyncLogger → Opened

-- `opens` tells whether the file can be opened. One that is open stays open.
unfoldable pub open_logger : Bool → (joinable : Bool) → AsyncLogger → Opened
open_logger opens joinable l =
    if not (l.is_open || opens)
    then throws
    else if joinable
    then terminates
    else opened (record l { is_open = true; phase = working })

-- std::terminate, or an answer.
pub data Outcome {ℓ} (A : Type ℓ) : Type ℓ where
  terminated : Outcome A
  answers : Bool → A → Outcome A

module _ {ℓ κ ι} {W : Type ℓ} {K : Type κ} {S : Type ι} where
  abbrev pub fails : Moment → Text → Program W K S → Program W K S
  fails now what p = record p { trade_logger = log_message p.trade_logger now error what }

  -- The next step, unless this one failed.
  abbrev pub and_then :
      Moment
      → Text
      → Bool × Program W K S
      → (Program W K S → Bool × Program W K S)
      → Bool × Program W K S
  and_then now what (true, p) next = next p
  and_then now what (false, p) next = (false, fails now what p)

  unfoldable pub start_http : Bool → Program W K S → Bool × Program W K S
  start_http socket p =
      let (ok, http_server) = start_server p.http_server socket in
      (ok, record p { http_server = http_server })

  unfoldable pub start_stats : Program W K S → Bool × Program W K S
  start_stats p =
      let (ok, stats_collector) = Collector.start p.stats_collector in
      (ok, record p { stats_collector = stats_collector })

  module _ (lib : Kafka K) where
    unfoldable pub connect_queue : Program W K S → Bool × Program W K S
    connect_queue p =
        let (ok, queue_client) = connect lib p.queue_client in
        (ok, record p { queue_client = queue_client })

    unfoldable pub subscribe_orders : (Message → S → S) → Program W K S → Bool × Program W K S
    subscribe_orders handler p =
        let (ok, queue_client) = subscribe lib p.queue_client (codes "order-requests") handler in
        (ok, record p { queue_client = queue_client })

    unfoldable pub now_running : Moment → Program W K S → Bool × Program W K S
    now_running now p = (
      true,
      record p {
        running = true;
        trade_logger = log_message p.trade_logger now info (codes "Trading engine started");
      },
    )

    -- start, once the loggers run.
    unfoldable pub start_parts :
        Moment → Bool → (Message → S → S) → Program W K S → Bool × Program W K S
    unfolding start_http start_stats connect_queue subscribe_orders now_running
    start_parts now socket handler p =
        and_then now (codes "Failed to start HTTP server") (start_http socket p) λ p1.
          and_then now (codes "Failed to start statistics collector") (start_stats p1) λ p2.
            and_then now (codes "Failed to connect to message queue") (connect_queue p2) λ p3.
              and_then now (codes "Failed to subscribe to order-requests topic")
                (subscribe_orders handler p3) λ p4. now_running now p4

    abbrev pub answered : Bool × Program W K S → Outcome (Program W K S)
    answered (ok, p) = answers ok p

    -- A thread that could not be started; `what` is what the exception says.
    abbrev pub no_logging : Moment → Text → Program W K S → Outcome (Program W K S)
    no_logging now what p = answers false (record p {
      app_logger =
          log_line p.app_logger now error (codes "Failed to start logging threads: " ++ what);
    })

    abbrev pub with_trade_logger :
        Moment → Bool → (Message → S → S) → Text → Program W K S → Opened → Outcome (Program W K S)
    with_trade_logger now socket handler what p terminates = terminated
    with_trade_logger now socket handler what p throws = no_logging now what p
    with_trade_logger now socket handler what p (opened l) = answered (
        start_parts now socket handler
          (record p { trade_logger = record p.trade_logger { async = l }; trade_thread = true }))

    abbrev pub with_app_logger :
        Moment
        → Bool
        → Bool
        → (Message → S → S)
        → Text
        → Program W K S
        → Opened
        → Outcome (Program W K S)
    with_app_logger now opens_trade socket handler what p terminates = terminated
    with_app_logger now opens_trade socket handler what p throws = no_logging now what p
    with_app_logger now opens_trade socket handler what p (opened l) =
        with_trade_logger now socket handler what
          (record p { app_logger = record p.app_logger { async = l }; app_thread = true })
          (open_logger opens_trade p.trade_thread p.trade_logger.async)

    unfoldable pub start_program :
        Moment
        → (opens_app opens_trade socket : Bool) → (Message → S → S)
        → (what : Text) → Program W K S
        → Outcome (Program W K S)
    unfolding start_parts open_logger
    start_program now opens_app opens_trade socket handler what p =
        if p.running
        then answers false p
        else with_app_logger now opens_trade socket handler what p
            (open_logger opens_app p.app_thread p.app_logger.async)

  module _ ⦃d : Double W⦄ (lib : Kafka K) where
    -- AsyncLogger::stop returns without a join if the logger was stopped before.
    unfoldable pub stop_program : Moment → Program W K S → Program W K S
    stop_program now p =
        let logged = log_message p.trade_logger now info (codes "Trading engine stopped") in
        if not p.running then p else record {
          running = false;
          http_server = stop_server p.http_server;
          stats_collector = Collector.stop p.stats_collector;
          queue_client = disconnect lib p.queue_client;
          trade_logger = record logged { async = stop_logger logged.async };
          trade_thread = if logged.async.done then p.trade_thread else false;
          app_logger = record p.app_logger { async = stop_logger p.app_logger.async };
          app_thread = if p.app_logger.async.done then p.app_thread else false;
        }
