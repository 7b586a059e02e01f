-- ===== src/Statistics/Summary.antt =====
-- What a bucket says of the trades that went into it.
use live_trading_engine.Common.{
  suc, ◌==◌, ◌≡◌, refl, ◌∙◌, sym, ap, true, false, List, [], ◌∷◌, ◌++◌, arith, length,
  length-append,
}
use live_trading_engine.Common.Double.{Double, min, max}
use live_trading_engine.Statistics.{OhlcvBucket, trade_into}

module _ {ℓ} {W : Type ℓ} ⦃d : Double W⦄ where
  -- Over the later trades, each a price and a volume, from a first value.
  unfoldable pub highest : W → List (W × W) → W
  highest x [] = x
  highest x ((p, v) ∷ ts) = highest (max x p) ts

  unfoldable pub lowest : W → List (W × W) → W
  lowest x [] = x
  lowest x ((p, v) ∷ ts) = lowest (min x p) ts

  unfoldable pub final : W → List (W × W) → W
  final x [] = x
  final x ((p, v) ∷ ts) = final p ts

  unfoldable pub volume_of : W → List (W × W) → W
  volume_of x [] = x
  volume_of x ((p, v) ∷ ts) = volume_of (d.add x v) ts

  unfoldable pub turnover : W → List (W × W) → W
  turnover x [] = x
  turnover x ((p, v) ∷ ts) = turnover (d.add x (d.mul p v)) ts

  -- The bucket has the first and the last price, the extreme prices, the volumes and the number of
  -- the trades.
  abbrev pub IsSummary : List (W × W) → OhlcvBucket W → Type ℓ
  IsSummary [] b = Unit × (b.trade_count ≡ 0)
  IsSummary ((p, v) ∷ ts) b =
      (b.open_price ≡ p)
      × (b.high ≡ highest p ts)
      × (b.low ≡ lowest p ts)
      × (b.close ≡ final p ts)
      × (b.volume ≡ volume_of v ts)
      × (b.dollar_volume ≡ turnover (d.mul p v) ts)
      × (b.trade_count ≡ suc (length ts))

  highest-append :
      (x : W) (ts : List (W × W)) (p v : W) → highest x (ts ++ ((p, v) ∷ [])) ≡ max (highest x ts) p
  unfolding highest
  highest-append x [] p v = refl
  highest-append x ((q, w) ∷ ts) p v = highest-append (max x q) ts p v

  lowest-append :
      (x : W) (ts : List (W × W)) (p v : W) → lowest x (ts ++ ((p, v) ∷ [])) ≡ min (lowest x ts) p
  unfolding lowest
  lowest-append x [] p v = refl
  lowest-append x ((q, w) ∷ ts) p v = lowest-append (min x q) ts p v

  final-append : (x : W) (ts : List (W × W)) (p v : W) → final x (ts ++ ((p, v) ∷ [])) ≡ p
  unfolding final
  final-append x [] p v = refl
  final-append x ((q, w) ∷ ts) p v = final-append q ts p v

  volume_of-append :
      (x : W) (ts : List (W × W)) (p v : W)
      → volume_of x (ts ++ ((p, v) ∷ [])) ≡ d.add (volume_of x ts) v
  unfolding volume_of
  volume_of-append x [] p v = refl
  volume_of-append x ((q, w) ∷ ts) p v = volume_of-append (d.add x w) ts p v

  turnover-append :
      (x : W) (ts : List (W × W)) (p v : W)
      → turnover x (ts ++ ((p, v) ∷ [])) ≡ d.add (turnover x ts) (d.mul p v)
  unfolding turnover
  turnover-append x [] p v = refl
  turnover-append x ((q, w) ∷ ts) p v = turnover-append (d.add x (d.mul q w)) ts p v

  -- A trade into a bucket that sums up some trades gives one that sums up all.
  pub trade_into-IsSummary :
      (ts : List (W × W)) (b : OhlcvBucket W) (p v : W)
      → IsSummary ts b
      → IsSummary (ts ++ ((p, v) ∷ [])) (trade_into b p v)
  unfolding trade_into highest lowest final volume_of turnover
  trade_into-IsSummary [] b p v (_, h) =
      let e : (b.trade_count == 0) ≡ true = ground arith in
      rw e (refl, refl, refl, refl, refl, refl, refl)
  trade_into-IsSummary ((q, w) ∷ ts) b p v (o, h, l, c, n, t, k) =
      let e : (b.trade_count == 0) ≡ false = ground arith in
      rw e (
        o,
        ap (λ x. max x p) h ∙ sym (highest-append q ts p v),
        ap (λ x. min x p) l ∙ sym (lowest-append q ts p v),
        sym (final-append q ts p v),
        ap (λ x. d.add x v) n ∙ sym (volume_of-append w ts p v),
        ap (λ x. d.add x (d.mul p v)) t ∙ sym (turnover-append (d.mul q w) ts p v),
        omega (arith, length-append ts ((p, v) ∷ [])),
      )
