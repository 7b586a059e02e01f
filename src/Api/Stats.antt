-- ===== src/Api/Stats.antt =====
-- apps/trading_engine/main.cpp: the handlers of the statistics. `now` is the time of the response in
-- seconds, `largest` the greatest finite double.
pub mod Summary
use live_trading_engine.Common.{
  ℕ, zero, suc, ◌+◌, Bool, true, false, not, ◌&&◌, Option, none, some, List, [], ◌∷◌, ◌++◌,
  if◌then◌else◌, Text, codes, length,
}
use live_trading_engine.Common.Dict.{Dict, lookup}
use live_trading_engine.Common.Double.{Double, nought, min, max}
use live_trading_engine.Common.Json.{Json, JsonLibrary, text, int, num, obj, fields}
use live_trading_engine.Statistics.{
  OhlcvBucket, is_untraded, InstrumentStats, bucket_json, stats_json,
}
use live_trading_engine.Statistics.Collector.{
  StatisticsCollector, get_stats_for_symbol, get_queue_size,
}
use live_trading_engine.Api.{HttpRequest, HttpResponse, json_response, create_error_response}

-- The variables of the loop of the summary.
pub record MarketSummary {ℓ} (W : Type ℓ) : Type ℓ where
  pub total_volume : W
  pub total_dollar_volume : W
  pub total_trades : ℕ
  pub max_price : W
  pub min_price : W

module _ {ℓ} {W : Type ℓ} where
  -- The collector, while it is there and running.
  unfoldable pub available : Option (StatisticsCollector W) → Option (StatisticsCollector W)
  available none = none
  available (some c) = if c.running then some c else none

  unfoldable pub unavailable : JsonLibrary W → HttpResponse
  unavailable lib = create_error_response lib 503 (codes "Statistics collector not available")

module _ {ℓ} {W : Type ℓ} ⦃d : Double W⦄ where
  unfoldable pub timeframe_fields : Text → InstrumentStats W → OhlcvBucket W → List (Text × Json W)
  timeframe_fields timeframe stats b =
      (codes "timeframe", text timeframe)
      ∷ (codes "data", bucket_json b)
      ∷ (codes "last_trade_price", num stats.last_trade_price)
      ∷ []

  -- One bucket, or all of them; `none` where there is no data for the timeframe.
  unfoldable pub data_fields : InstrumentStats W → Option Text → Option (List (Text × Json W))
  unfolding timeframe_fields
  data_fields stats none = some ((codes "data", stats_json stats) ∷ [])
  data_fields stats (some timeframe) = elim (lookup timeframe stats.timeframes) [
    | none ↦ none
    | some b ↦ some (timeframe_fields timeframe stats b)
  ]

  unfoldable pub symbols_json : Dict (InstrumentStats W) → List (Text × Json W)
  symbols_json [] = []
  symbols_json ((symbol, stats) ∷ m) = (symbol, stats_json stats) ∷ symbols_json m

  module _ (lib : JsonLibrary W) (now : ℕ) where
    unfoldable pub stats_response : Text → InstrumentStats W → Option Text → HttpResponse
    unfolding data_fields
    stats_response symbol stats timeframe = elim (data_fields stats timeframe) [
      | none ↦ create_error_response lib 404 (
          codes "No data available for timeframe: "
          ++ (elim timeframe [ none ↦ [] | some name ↦ name ]))
      | some data_part ↦ json_response 200 (
          lib.dump (
            obj
              (fields ((codes "symbol", text symbol) ∷ (codes "timestamp", int now) ∷ data_part))))
    ]

    unfoldable pub handle_stats_request :
        Option (StatisticsCollector W) → HttpRequest → HttpResponse
    unfolding available unavailable stats_response
    handle_stats_request collector request = elim (lookup (codes "symbol") request.path_params) [
      | none ↦ create_error_response lib 400 (codes "Missing symbol parameter")
      | some symbol ↦ elim (available collector) [
        | none ↦ unavailable lib
        | some c ↦ elim (get_stats_for_symbol c symbol) [
          | none ↦
              create_error_response lib 404 (codes "No statistics available for symbol: " ++ symbol)
          | some stats ↦
              stats_response symbol stats (lookup (codes "timeframe") request.path_params)
        ]
      ]
    ]

    unfoldable pub handle_all_stats_request : Option (StatisticsCollector W) → HttpResponse
    unfolding available unavailable symbols_json
    handle_all_stats_request collector = elim (available collector) [
      | none ↦ unavailable lib
      | some c ↦ json_response 200 (
          lib.dump (
            obj (
              fields (
                (codes "timestamp", int now)
                ∷ (codes "total_symbols", int (length c.instrument_stats))
                ∷ (codes "symbols", obj (fields (symbols_json c.instrument_stats)))
                ∷ []))))
    ]

module _ {ℓ} {W : Type ℓ} ⦃d : Double W⦄ (largest : W) where
  unfoldable pub no_summary : MarketSummary W
  no_summary = record {
    total_volume = nought;
    total_dollar_volume = nought;
    total_trades = 0;
    max_price = nought;
    min_price = largest;
  }

module _ {ℓ} {W : Type ℓ} ⦃d : Double W⦄ where
  unfoldable pub add_bucket : MarketSummary W → OhlcvBucket W → MarketSummary W
  add_bucket m b = record {
    total_volume = d.add m.total_volume b.volume;
    total_dollar_volume = d.add m.total_dollar_volume b.dollar_volume;
    total_trades = m.total_trades + b.trade_count;
    max_price = max m.max_price b.high;
    min_price = if d.lt nought b.low then min m.min_price b.low else m.min_price;
  }

  -- The bucket of the last minute, unless it is empty.
  unfoldable pub minute_bucket : InstrumentStats W → Option (OhlcvBucket W)
  minute_bucket stats = elim (lookup (codes "1m") stats.timeframes) [
    | none ↦ none
    | some b ↦ if is_untraded b then none else some b
  ]

  abbrev pub add_minute : MarketSummary W → Option (OhlcvBucket W) → MarketSummary W
  add_minute m none = m
  add_minute m (some b) = add_bucket m b

  unfoldable pub summarise : MarketSummary W → Dict (InstrumentStats W) → MarketSummary W
  unfolding add_bucket minute_bucket
  summarise m [] = m
  summarise m ((symbol, stats) ∷ rest) = summarise (add_minute m (minute_bucket stats)) rest

  abbrev same : W → W → Bool
  same x y = d.le x y && d.le y x

  -- The least price that is shown.
  unfoldable pub shown_min : W → MarketSummary W → W
  shown_min largest m = if same m.min_price largest then nought else m.min_price

  module _ (lib : JsonLibrary W) (now : ℕ) (largest : W) where
    unfoldable pub summary_response : StatisticsCollector W → MarketSummary W → HttpResponse
    unfolding shown_min
    summary_response c m = json_response 200 (
        lib.dump (
          obj (
            fields (
              (codes "timestamp", int now)
              ∷ (codes "total_symbols", int (length c.instrument_stats))
              ∷ (codes "total_trades_processed", int c.total_trades_processed)
              ∷ (codes "total_trades_dropped", int c.total_trades_dropped)
              ∷ (codes "queue_size", int (get_queue_size c))
              ∷ (
                codes "market_summary",
                obj (
                    fields (
                      (codes "total_volume", num m.total_volume)
                      ∷ (codes "total_dollar_volume", num m.total_dollar_volume)
                      ∷ (codes "total_trades", int m.total_trades)
                      ∷ (
                        codes "price_range",
                        obj (
                            fields (
                              (codes "min", num (shown_min largest m))
                              ∷ (codes "max", num m.max_price)
                              ∷ [])),
                      )
                      ∷ [])),
              )
              ∷ []))))

    unfoldable pub handle_stats_summary_request : Option (StatisticsCollector W) → HttpResponse
    unfolding available unavailable no_summary summarise summary_response
    handle_stats_summary_request collector = elim (available collector) [
      | none ↦ unavailable lib
      | some c ↦ summary_response c (summarise (no_summary largest) c.instrument_stats)
    ]
