-- ===== src/Statistics.antt =====
-- include/trading/statistics/instrument_stats.hpp, and the update of the statistics by a trade in
-- src/statistics/statistics_collector.cpp.
pub mod Collector
pub mod Buckets
pub mod Summary
pub mod History
pub mod Faithful
pub mod Stopped
use live_trading_engine.Common.{
  ℕ, ◌+◌, ◌==◌, ◌≡◌, Bool, true, false, not, ◌&&◌, Option, none, some, List, [], ◌∷◌, if◌then◌else◌,
  Text, codes,
}
use live_trading_engine.Common.Dict.{Dict, lookup, insert}
use live_trading_engine.Common.Double.{Double, nought, min, max}
use live_trading_engine.Common.Json.{Json, null, num, int, text, obj, fields}

-- `trade_count` is an int; its overflow is undefined, and not modelled.
pub record OhlcvBucket {ℓ} (W : Type ℓ) : Type ℓ where
  pub open_price : W
  pub high : W
  pub low : W
  pub close : W
  pub volume : W
  pub dollar_volume : W
  pub simple_return : W
  pub volatility : W
  pub trade_count : ℕ

pub record InstrumentStats {ℓ} (W : Type ℓ) : Type ℓ where
  pub symbol : Text
  pub last_trade_price : W
  pub timeframes : Dict (OhlcvBucket W)

module _ {ℓ} {W : Type ℓ} where
  -- OhlcvBucket::isEmpty
  abbrev pub is_untraded : OhlcvBucket W → Bool
  is_untraded b = b.trade_count == 0

module _ {ℓ} {W : Type ℓ} ⦃d : Double W⦄ where
  unfoldable pub new_bucket : OhlcvBucket W
  new_bucket = record {
    open_price = nought;
    high = nought;
    low = nought;
    close = nought;
    volume = nought;
    dollar_volume = nought;
    simple_return = nought;
    volatility = nought;
    trade_count = 0;
  }

  unfoldable pub trade_into : OhlcvBucket W → W → W → OhlcvBucket W
  trade_into b price vol =
      if is_untraded b
      then record b {
        open_price = price;
        high = price;
        low = price;
        close = price;
        volume = vol;
        dollar_volume = d.mul price vol;
        trade_count = 1;
      }
      else record b {
        high = max b.high price;
        low = min b.low price;
        close = price;
        volume = d.add b.volume vol;
        dollar_volume = d.add b.dollar_volume (d.mul price vol);
        trade_count = b.trade_count + 1;
      }

  unfoldable pub get_vwap : OhlcvBucket W → W
  get_vwap b = if d.lt nought b.volume then d.div b.dollar_volume b.volume else nought

  unfoldable pub bucket_json : OhlcvBucket W → Json W
  unfolding get_vwap
  bucket_json b = obj (
      fields (
        (codes "open", num b.open_price)
        ∷ (codes "high", num b.high)
        ∷ (codes "low", num b.low)
        ∷ (codes "close", num b.close)
        ∷ (codes "volume", num b.volume)
        ∷ (codes "dollar_volume", num b.dollar_volume)
        ∷ (codes "simple_return", num b.simple_return)
        ∷ (codes "volatility", num b.volatility)
        ∷ (codes "trade_count", int b.trade_count)
        ∷ (codes "vwap", num (get_vwap b))
        ∷ []))

  unfoldable pub new_stats : Text → InstrumentStats W
  new_stats symbol = record { symbol = symbol; last_trade_price = nought; timeframes = [] }

  -- `timeframes[timeframe]`, which is a new bucket if there is none.
  unfoldable pub bucket_at : InstrumentStats W → Text → OhlcvBucket W
  bucket_at s timeframe = elim (lookup timeframe s.timeframes) [ none ↦ new_bucket | some b ↦ b ]

  abbrev set_bucket : InstrumentStats W → Text → OhlcvBucket W → InstrumentStats W
  set_bucket s timeframe b = record s { timeframes = insert timeframe b s.timeframes }

  unfoldable pub update_with_trade : InstrumentStats W → W → W → Text → InstrumentStats W
  update_with_trade s price volume timeframe =
      set_bucket (record s { last_trade_price = price }) timeframe
        (trade_into (bucket_at s timeframe) price volume)

  unfoldable pub with_return : OhlcvBucket W → W → OhlcvBucket W
  with_return b previous_close =
      if not (is_untraded b) && d.lt nought previous_close
      then record b { simple_return = d.div (d.sub b.close previous_close) previous_close }
      else b

  unfoldable pub calculate_returns : InstrumentStats W → Text → W → InstrumentStats W
  calculate_returns s timeframe previous_close =
      set_bucket s timeframe (with_return (bucket_at s timeframe) previous_close)

  unfoldable pub set_volatility : InstrumentStats W → Text → W → InstrumentStats W
  set_volatility s timeframe vol =
      set_bucket s timeframe (record (bucket_at s timeframe) { volatility = vol })

  -- A json value that no key was ever set in is null.
  abbrev object_or_null : List (Text × Json W) → Json W
  object_or_null [] = null
  object_or_null (f ∷ fs) = obj (fields (f ∷ fs))

  timeframes_json : Dict (OhlcvBucket W) → List (Text × Json W)
  timeframes_json [] = []
  timeframes_json ((tf, b) ∷ m) = (tf, bucket_json b) ∷ timeframes_json m

  unfoldable pub stats_json : InstrumentStats W → Json W
  unfolding timeframes_json
  stats_json s = obj (
      fields (
        (codes "symbol", text s.symbol)
        ∷ (codes "last_trade_price", num s.last_trade_price)
        ∷ (codes "timeframes", object_or_null (timeframes_json s.timeframes))
        ∷ []))

  -- The exponentially weighted average, and the square root of what it gives.
  unfoldable pub with_volatility : OhlcvBucket W → W → W → OhlcvBucket W
  with_volatility b current_price previous_price =
      let alpha = d.lit 1 1 in
      let return_rate = d.div (d.sub current_price previous_price) previous_price in
      let squared_return = d.mul return_rate return_rate in
      let averaged =
        if d.le b.volatility nought
        then squared_return
        else d.add (d.mul alpha squared_return) (d.mul (d.sub (d.lit 1 0) alpha) b.volatility) in
      record b { volatility = d.sqrt averaged }

  unfoldable pub update_volatility : InstrumentStats W → Text → W → W → InstrumentStats W
  update_volatility s timeframe current_price previous_price =
      set_bucket s timeframe (with_volatility (bucket_at s timeframe) current_price previous_price)

  -- The close of the bucket before the trade, 0.0 if it is not there or empty.
  unfoldable pub previous_close : InstrumentStats W → Text → W
  previous_close s timeframe = elim (lookup timeframe s.timeframes) [
    | none ↦ nought
    | some b ↦ if is_untraded b then nought else b.close
  ]

  -- The body of the loop over the timeframes.
  unfoldable pub update_timeframe : InstrumentStats W → W → W → W → Text → InstrumentStats W
  update_timeframe s previous_price price quantity timeframe =
      let before = previous_close s timeframe in
      let traded = update_with_trade s price quantity timeframe in
      let returned =
        if d.lt nought before then calculate_returns traded timeframe before else traded in
      if d.lt nought previous_price
      then update_volatility returned timeframe price previous_price
      else returned

  unfoldable pub update_timeframes : InstrumentStats W → W → W → W → List Text → InstrumentStats W
  update_timeframes s previous_price price quantity [] = s
  update_timeframes s previous_price price quantity (tf ∷ tfs) =
      update_timeframes (update_timeframe s previous_price price quantity tf) previous_price price
        quantity tfs

  unfoldable pub stats_of : Dict (InstrumentStats W) → Text → InstrumentStats W
  stats_of all symbol = elim (lookup symbol all) [ none ↦ new_stats symbol | some s ↦ s ]

  -- The boundaries and the keys of the time buckets, which the code computes too, are never used.
  unfoldable pub update_statistics :
      List Text → Dict (InstrumentStats W) → Text → W → W → Dict (InstrumentStats W)
  update_statistics timeframes all symbol price quantity =
      let s = stats_of all symbol in
      insert symbol (update_timeframes s s.last_trade_price price quantity timeframes) all
