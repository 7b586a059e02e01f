-- ===== src/Api/Stats/Summary.antt =====
-- The market summary: its prices bound those of all symbols.
use live_trading_engine.Common.{
  ℕ, ◌+◌, ◌≡◌, refl, ◌∙◌, ap, Bool-cases, inl, inr, true, false, not, Option, none, some, [], ◌∷◌,
  arith, All,
}
use live_trading_engine.Common.Dict.{Dict}
use live_trading_engine.Common.Double.{Double, IsIeee, IsNum, ◌≼◌, ◌≺◌, nought, min, max}
use live_trading_engine.Common.Json.{JsonLibrary}
use live_trading_engine.Statistics.{OhlcvBucket, InstrumentStats}
use live_trading_engine.Statistics.Collector.{StatisticsCollector}
use live_trading_engine.Api.Stats.{
  MarketSummary, available, no_summary, add_bucket, minute_bucket, add_minute, summarise,
  summary_response, handle_stats_summary_request,
}

module _ {ℓ} {W : Type ℓ} ⦃d : Double W⦄ (l : IsIeee W) where
  le_of_not_less : (x y : W) → IsNum x → IsNum y → d.lt x y ≡ false → y ≼ x
  le_of_not_less x y m n e = ground (arith, l.lt-eq-not-le x y m n)

  le_of_less : (x y : W) → x ≺ y → x ≼ y
  le_of_less x y e =
      let (m, n) = l.lt_num x y e in
      elim (l.le_total x y m n) [
        | inl h ↦ h
        | inr h ↦ absurd (cc (e, l.lt-eq-not-le x y m n ∙ ap not h))
      ]

  -- The greater of two numbers.
  max_lem : (x y : W) → IsNum x → IsNum y → (x ≼ max x y) × (y ≼ max x y) × IsNum (max x y)
  unfolding max
  max_lem x y m n = elim (Bool-cases (d.lt x y)) [
    | inl e ↦ rw e (le_of_less x y e, n, n)
    | inr e ↦ rw e (m, le_of_not_less x y m n e, m)
  ]

  -- The smaller of two numbers.
  min_lem : (x y : W) → IsNum x → IsNum y → (min x y ≼ x) × (min x y ≼ y) × IsNum (min x y)
  unfolding min
  min_lem x y m n = elim (Bool-cases (d.lt y x)) [
    | inl e ↦ rw e (le_of_less y x e, n, n)
    | inr e ↦ rw e (m, le_of_not_less y x n m e, m)
  ]

module _ {ℓ} {W : Type ℓ} ⦃d : Double W⦄ where
  -- The prices of a bucket are numbers.
  abbrev pub HasNumbers : Option (OhlcvBucket W) → Type 0
  HasNumbers none = Unit
  HasNumbers (some b) = IsNum b.high × IsNum b.low

  -- The range has the highest price of the bucket, and its lowest one if that is above zero.
  abbrev pub IsCovered : MarketSummary W → Option (OhlcvBucket W) → Type 0
  IsCovered m none = Unit
  IsCovered m (some b) = (b.high ≼ m.max_price) × (nought ≺ b.low → m.min_price ≼ b.low)

  -- The trades of the buckets.
  abbrev pub trades_in : Option (OhlcvBucket W) → ℕ
  trades_in none = 0
  trades_in (some b) = b.trade_count

  unfoldable pub all_trades : Dict (InstrumentStats W) → ℕ
  all_trades [] = 0
  all_trades (x ∷ rest) = trades_in (minute_bucket x.1) + all_trades rest

  -- A later summary has a wider range.
  record Widens (m m' : MarketSummary W) : Type 0 where
    upper : m.max_price ≼ m'.max_price
    lower : m'.min_price ≼ m.min_price

  abbrev Num : MarketSummary W → Type 0
  Num m = IsNum m.max_price × IsNum m.min_price

  IsCovered-Widens :
      IsIeee W
      → (m m' : MarketSummary W) (o : Option (OhlcvBucket W)) → Widens m m'
      → IsCovered m o
      → IsCovered m' o
  IsCovered-Widens l m m' none w h = tt
  IsCovered-Widens l m m' (some b) w h = (
    l.le_trans b.high m.max_price m'.max_price h.0 w.upper,
    λ p. l.le_trans m'.min_price m.min_price b.low w.lower (h.1 p),
  )

  add_minute-IsCovered :
      IsIeee W
      → (m : MarketSummary W) (o : Option (OhlcvBucket W)) → Num m
      → HasNumbers o
      → Widens m (add_minute m o) × Num (add_minute m o) × IsCovered (add_minute m o) o
  unfolding add_bucket
  add_minute-IsCovered l m none n h = (record { upper = n.0; lower = n.1 }, n, tt)
  add_minute-IsCovered l m (some b) n h =
      let hi = max_lem l m.max_price b.high n.0 h.0 in
      let lo = min_lem l m.min_price b.low n.1 h.1 in
      elim (Bool-cases (d.lt nought b.low)) [
        | inl e ↦ rw e (record { upper = hi.0; lower = lo.0 }, (hi.2, lo.2), (hi.1, λ _. lo.1))
        | inr e ↦ rw e (record { upper = hi.0; lower = n.1 }, (hi.2, n.1), (hi.1, λ p. cc p))
      ]

  abbrev pub AllNumbers : Dict (InstrumentStats W) → Type 0
  AllNumbers stats = All (λ x. HasNumbers (minute_bucket x.1)) stats

  summarise-IsCovered :
      IsIeee W
      → (stats : Dict (InstrumentStats W)) (m : MarketSummary W) → Num m
      → AllNumbers stats
      → Widens m (summarise m stats)
        × All (λ x. IsCovered (summarise m stats) (minute_bucket x.1)) stats
  unfolding summarise
  summarise-IsCovered l [] m n h = (record { upper = n.0; lower = n.1 }, tt)
  summarise-IsCovered l ((symbol, s) ∷ rest) m n h =
      let o = minute_bucket s in
      let one = add_minute-IsCovered l m o n h.0 in
      let later = summarise-IsCovered l rest (add_minute m o) one.1 h.1 in
      let w = later.0 in
      (
        record {
          upper = l.le_trans _ _ _ one.0.upper w.upper;
          lower = l.le_trans _ _ _ w.lower one.0.lower;
        },
        (IsCovered-Widens l (add_minute m o) _ o w one.2, later.1),
      )

  trades-add_minute :
      (m : MarketSummary W) (o : Option (OhlcvBucket W))
      → (add_minute m o).total_trades ≡ m.total_trades + trades_in o
  unfolding add_bucket
  trades-add_minute m none = omega arith
  trades-add_minute m (some b) = refl

  trades-summarise :
      (stats : Dict (InstrumentStats W)) (m : MarketSummary W)
      → (summarise m stats).total_trades ≡ m.total_trades + all_trades stats
  unfolding summarise all_trades
  trades-summarise [] m = omega arith
  trades-summarise ((symbol, s) ∷ rest) m = omega (
    arith,
    trades-summarise rest (add_minute m (minute_bucket s)),
    trades-add_minute m (minute_bucket s),
  )

  -- While a collector runs, the answer to a request for the summary has a price range that covers every
  -- symbol with trades in its bucket of one minute: its highest price, and its lowest one if that is
  -- above zero. The upper end is not below zero, the lower one at most the greatest double, and the number
  -- of trades is that of all those buckets. No price of a bucket is a NaN, and the greatest double is none.
  pub handle_stats_summary_request_lem :
      (lib : JsonLibrary W) (now : ℕ) (largest : W) (c : StatisticsCollector W)
      → IsIeee W
      → c.running ≡ true
      → IsNum largest
      → AllNumbers c.instrument_stats
      → (m : MarketSummary W) × (handle_stats_summary_request lib now largest (some c)
          ≡ summary_response lib now largest c m)
        × All (λ x. IsCovered m (minute_bucket x.1)) c.instrument_stats
        × ((nought ≼ m.max_price) × (m.min_price ≼ largest))
        × (m.total_trades ≡ all_trades c.instrument_stats)
  unfolding handle_stats_summary_request available no_summary
  handle_stats_summary_request_lem lib now largest c l r n h =
      let m = no_summary largest in
      let zero_num = (l.le_num nought nought (l.lit_nonneg 0 0)).0 in
      let k = summarise-IsCovered l c.instrument_stats m (zero_num, n) h in
      (
        summarise m c.instrument_stats,
        rw r refl,
        k.1,
        (k.0.upper, k.0.lower),
        trades-summarise c.instrument_stats m ∙ omega arith,
      )
