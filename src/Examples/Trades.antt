-- ===== src/Examples/Trades.antt =====
-- Two trades through handleTrade, and requests for the statistics.
use live_trading_engine.Common.{All, text_eq, ℕ, ◌≡◌, refl, true, false, some, List, [], ◌∷◌, codes}
use live_trading_engine.Common.Dict.{insert, lookup}
use live_trading_engine.Common.Int.{ℤ, pos}
use live_trading_engine.Common.Double.{int_double, Int-IsIeee, nought, ◌≼◌}
use live_trading_engine.Logging.{working}
use live_trading_engine.Logging.Lines.{Moment, info}
use live_trading_engine.Statistics.Collector.{StatisticsCollector}
use live_trading_engine.Pipeline.Trades.{TradeHandler, Timed}
use live_trading_engine.Http.Server.{new_server, route_request}
use live_trading_engine.Api.Routes.{setup_callbacks}
use live_trading_engine.Api.Shadowed.{stats_request_of, stats_route_lem}
use live_trading_engine.Statistics.{OhlcvBucket}
use live_trading_engine.Api.Stats.{
  MarketSummary, minute_bucket, summary_response, handle_stats_summary_request,
}
use live_trading_engine.Api.Stats.Summary.{
  IsCovered, AllNumbers, all_trades, handle_stats_summary_request_lem,
}
use live_trading_engine.Examples.Users.{sale}
use live_trading_engine.Examples.Orders.{executor, json}
use live_trading_engine.Examples.Http.{handlers, asked}

abbrev pub noon : Moment
noon = record { date_time = codes "2025-01-01 12:00:00"; milliseconds = 1_735_732_800_007 }

abbrev two_sales : List (Timed ℤ)
two_sales =
    record { trade = sale; logged = noon; sent = noon }
    ∷ record { trade = record sale { price = pos 101 }; logged = noon; sent = noon }
    ∷ []

abbrev collector : StatisticsCollector ℤ
collector = record {
  config = record {
    timeframes = codes "1m" ∷ [];
    queue_capacity = 8;
    cleanup_interval = 60;
    enabled = true;
  };
  trade_queue = [];
  instrument_stats = [];
  running = true;
  stop_requested = false;
  total_trades_processed = 0;
  total_trades_dropped = 0;
}

abbrev fresh_handler : TradeHandler ℤ ℕ
fresh_handler = record {
  trade_logger = record {
    async = record {
      log_queue = codes "first" ∷ [];
      log_file = [];
      is_open = true;
      done = false;
      phase = working;
    };
    current_log_level = info;
    max_file_size = 1024;
    console_output_enabled = true;
    next_confirmation_id = 1;
    console = [];
  };
  stats_collector = some collector;
  executor = executor;
}

stats_route_lem_example :
    route_request
      (setup_callbacks handlers true (new_server (codes "0.0.0.0") 8080))
      (stats_request_of asked b'a' (codes "ll"))
      0
    ≡ handlers.stats_request
        (record (stats_request_of asked b'a' (codes "ll")) {
          path_params = insert (codes "symbol") (codes "all") [];
        })
        0
stats_route_lem_example =
    stats_route_lem handlers asked b'a' (codes "ll") 0 (refl, (refl, (refl, tt))) true
      (codes "0.0.0.0") 8080

-- A collector that has seen trades of one symbol in the last minute.
abbrev minute : OhlcvBucket ℤ
minute = record {
  open_price = pos 100;
  high = pos 103;
  low = pos 99;
  close = pos 101;
  volume = pos 12;
  dollar_volume = pos 1212;
  simple_return = pos 0;
  volatility = pos 0;
  trade_count = 3;
}

abbrev busy : StatisticsCollector ℤ
busy = record collector {
  instrument_stats =
      (
        codes "AAPL",
        record {
          symbol = codes "AAPL";
          last_trade_price = pos 101;
          timeframes = (codes "1m", minute) ∷ [];
        },
      )
      ∷ [];
}

busy-AllNumbers : AllNumbers busy.instrument_stats
unfolding minute_bucket lookup text_eq
busy-AllNumbers = ((refl, refl), tt)

handle_stats_summary_request_lem_example :
    (m : MarketSummary ℤ) × (handle_stats_summary_request json 0 (pos 1_000_000) (some busy)
      ≡ summary_response json 0 (pos 1_000_000) busy m)
    × All (λ x. IsCovered m (minute_bucket x.1)) busy.instrument_stats
    × ((nought ≼ m.max_price) × (m.min_price ≼ pos 1_000_000))
    × (m.total_trades ≡ all_trades busy.instrument_stats)
handle_stats_summary_request_lem_example =
    handle_stats_summary_request_lem json 0 (pos 1_000_000) busy Int-IsIeee refl refl
      busy-AllNumbers
