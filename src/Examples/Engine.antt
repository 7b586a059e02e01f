-- ===== src/Examples/Engine.antt =====
-- The engine from its start to its stop, with a broker that takes everything.
use live_trading_engine.Common.{ℕ, ◌+◌, ◌≡◌, refl, true, false, none, [], ◌∷◌, text_eq, codes}
use live_trading_engine.Common.Int.{ℤ}
use live_trading_engine.Common.Double.{int_double}
use live_trading_engine.Logging.{AsyncLogger, ended}
use live_trading_engine.Logging.Lines.{new_app_logger}
use live_trading_engine.Logging.Trades.{new_trade_logger, log_message}
use live_trading_engine.Http.Server.{new_server, start_server}
use live_trading_engine.Statistics.Collector.{new_collector, start}
use live_trading_engine.Messaging.{
  Message, Kafka, new_client, connect, with_producer, with_consumer, subscribe, resubscribe,
}
use live_trading_engine.Messaging.Address.{
  validate_broker_address, check_broker, trim_back, trim_front, check_host_port,
}
use live_trading_engine.Common.Streams.{getlines, split_at, skip_spaces, is_space, is_digit}
use live_trading_engine.Common.Numbers.{stoi, read_number, read_digits}
use live_trading_engine.Pipeline.Lifecycle.{
  Program, Outcome, terminated, answers, start_program, stop_program,
}
use live_trading_engine.Pipeline.Lifecycle.Running.{IsRunning, IsStopped, start_program_lem}
use live_trading_engine.Examples.Trades.{noon}

abbrev broker : Kafka ℕ
broker = record {
  produce = λ _ _ _ k. (none, k + 1);
  poll = λ k. k;
  create_producer = λ _ k. (none, k);
  create_consumer = λ _ k. (none, k);
  subscribe_topics = λ _ k. (none, k);
  unsubscribe_all = λ k. (none, k);
  close_consumer = λ k. k;
}

abbrev unopened : AsyncLogger
unopened = record { log_queue = []; log_file = []; is_open = false; done = false; phase = ended }

abbrev initialized : Program ℤ ℕ ℕ
initialized = record {
  app_logger = new_app_logger unopened;
  app_thread = false;
  trade_logger = new_trade_logger unopened;
  trade_thread = false;
  http_server = new_server (codes "0.0.0.0") 8080;
  stats_collector = new_collector (record {
    timeframes = codes "1m" ∷ [];
    queue_capacity = 8;
    cleanup_interval = 60;
    enabled = true;
  });
  queue_client = new_client (codes "localhost:9092") 0;
  running = false;
}

-- A handler that counts the orders.
abbrev counts : Message → ℕ → ℕ
counts message n = n + 1

abbrev outcome : Outcome (Program ℤ ℕ ℕ)
outcome = start_program broker noon true true true counts [] initialized

abbrev program_of : Outcome (Program ℤ ℕ ℕ) → Program ℤ ℕ ℕ
program_of terminated = initialized
program_of (answers ok p) = p

initialized_starts : outcome ≡ answers true (program_of outcome)
unfolding start_program new_app_logger new_trade_logger new_server start_server new_collector start
    new_client connect with_producer with_consumer validate_broker_address subscribe resubscribe
    log_message getlines check_broker split_at trim_back trim_front check_host_port stoi skip_spaces
    is_space read_number is_digit read_digits text_eq
initialized_starts = refl

start_program_lem_example :
    IsRunning counts (program_of outcome)
    × (initialized.stats_collector.config.enabled ≡ true)
    × IsStopped (program_of outcome) (stop_program broker noon (program_of outcome))
start_program_lem_example =
    start_program_lem broker noon noon true true true counts [] initialized (program_of outcome)
      initialized_starts
