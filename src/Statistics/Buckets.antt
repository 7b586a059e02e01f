-- ===== src/Statistics/Buckets.antt =====
-- One trade in every timeframe of an instrument.
use live_trading_engine.Common.{
  ◌==◌, ◌≡◌, refl, ◌∙◌, sym, subst, false, not, ◌&&◌, List, [], ◌∷◌, ◌++◌, All, arith, Text,
  text_eq, text_eq_iff, text_eq_refl, has_text, IsDistinct, if-split,
}
use live_trading_engine.Common.Dict.{lookup-insert}
use live_trading_engine.Common.Double.{Double, nought}
use live_trading_engine.Statistics.{
  OhlcvBucket, InstrumentStats, bucket_at, set_bucket, trade_into, update_with_trade, with_return,
  with_volatility, calculate_returns, update_volatility, previous_close, update_timeframe,
  update_timeframes,
}
use live_trading_engine.Statistics.Summary.{IsSummary, trade_into-IsSummary}

module _ {ℓ} {W : Type ℓ} ⦃d : Double W⦄ where
  bucket_at-set_self :
      (s : InstrumentStats W) (tf : Text) (b : OhlcvBucket W) → bucket_at (set_bucket s tf b) tf ≡ b
  unfolding bucket_at
  bucket_at-set_self s tf b =
      rw (lookup-insert tf tf b s.timeframes, text_eq_refl tf, bucket_at) refl

  bucket_at-set_other :
      (s : InstrumentStats W) (tf other : Text) (b : OhlcvBucket W)
      → text_eq tf other ≡ false
      → bucket_at (set_bucket s tf b) other ≡ bucket_at s other
  unfolding bucket_at
  bucket_at-set_other s tf other b ne =
      rw (lookup-insert other tf b s.timeframes, ne, bucket_at) refl

  bucket_at-last :
      (s : InstrumentStats W) (x : W) (tf : Text)
      → bucket_at (record s { last_trade_price = x }) tf ≡ bucket_at s tf
  unfolding bucket_at
  bucket_at-last s x tf = refl

  -- The return and the volatility are no part of the summary.
  IsSummary-aside :
      (ts : List (W × W)) (b : OhlcvBucket W) (x y : W)
      → IsSummary ts b
      → IsSummary ts (record b { simple_return = x; volatility = y })
  IsSummary-aside [] b x y h = h
  IsSummary-aside (t ∷ ts) b x y h = h

  with_return-IsSummary :
      (ts : List (W × W)) (b : OhlcvBucket W) (x : W)
      → IsSummary ts b
      → IsSummary ts (with_return b x)
  unfolding with_return
  with_return-IsSummary ts b x h =
      if-split (IsSummary ts) (not (b.trade_count == 0) && d.lt nought x)
        (record b { simple_return = d.div (d.sub b.close x) x }) b
        (λ _. IsSummary-aside ts b (d.div (d.sub b.close x) x) b.volatility h) (λ _. h)

  with_volatility-IsSummary :
      (ts : List (W × W)) (b : OhlcvBucket W) (x y : W)
      → IsSummary ts b
      → IsSummary ts (with_volatility b x y)
  unfolding with_volatility
  with_volatility-IsSummary ts b x y h = IsSummary-aside ts b b.simple_return _ h

  calculate_returns-IsSummary :
      (ts : List (W × W)) (s : InstrumentStats W) (tf : Text) (x : W)
      → IsSummary ts (bucket_at s tf)
      → IsSummary ts (bucket_at (calculate_returns s tf x) tf)
  unfolding calculate_returns
  calculate_returns-IsSummary ts s tf x h =
      subst (IsSummary ts) (sym (bucket_at-set_self s tf (with_return (bucket_at s tf) x)))
        (with_return-IsSummary ts (bucket_at s tf) x h)

  update_volatility-IsSummary :
      (ts : List (W × W)) (s : InstrumentStats W) (tf : Text) (x y : W)
      → IsSummary ts (bucket_at s tf)
      → IsSummary ts (bucket_at (update_volatility s tf x y) tf)
  unfolding update_volatility
  update_volatility-IsSummary ts s tf x y h =
      subst (IsSummary ts) (sym (bucket_at-set_self s tf (with_volatility (bucket_at s tf) x y)))
        (with_volatility-IsSummary ts (bucket_at s tf) x y h)

  update_with_trade-IsSummary :
      (ts : List (W × W)) (s : InstrumentStats W) (price quantity : W) (tf : Text)
      → IsSummary ts (bucket_at s tf)
      → IsSummary
          (ts ++ ((price, quantity) ∷ []))
          (bucket_at (update_with_trade s price quantity tf) tf)
  unfolding update_with_trade
  update_with_trade-IsSummary ts s price quantity tf h =
      subst (IsSummary (ts ++ ((price, quantity) ∷ [])))
        (sym (bucket_at-set_self (record s { last_trade_price = price }) tf _))
        (trade_into-IsSummary ts (bucket_at s tf) price quantity h)

  module _ (s : InstrumentStats W) (tf other : Text) (ne : text_eq tf other ≡ false) where
    update_with_trade-other :
        (price quantity : W)
        → bucket_at (update_with_trade s price quantity tf) other ≡ bucket_at s other
    unfolding update_with_trade
    update_with_trade-other price quantity =
        bucket_at-set_other (record s { last_trade_price = price }) tf other
          (trade_into (bucket_at s tf) price quantity) ne
        ∙ bucket_at-last s price other

    calculate_returns-other :
        (x : W) → bucket_at (calculate_returns s tf x) other ≡ bucket_at s other
    unfolding calculate_returns
    calculate_returns-other x = bucket_at-set_other s tf other _ ne

    update_volatility-other :
        (x y : W) → bucket_at (update_volatility s tf x y) other ≡ bucket_at s other
    unfolding update_volatility
    update_volatility-other x y = bucket_at-set_other s tf other _ ne

  module _ (previous_price price quantity : W) where
    -- The bucket of the timeframe sums up one more trade.
    update_timeframe-IsSummary :
        (ts : List (W × W)) (s : InstrumentStats W) (tf : Text)
        → IsSummary ts (bucket_at s tf)
        → IsSummary
            (ts ++ ((price, quantity) ∷ []))
            (bucket_at (update_timeframe s previous_price price quantity tf) tf)
    unfolding update_timeframe
    update_timeframe-IsSummary ts s tf h =
        let all = ts ++ ((price, quantity) ∷ []) in
        let traded = update_with_trade s price quantity tf in
        let t = update_with_trade-IsSummary ts s price quantity tf h in
        let r =
          if-split (λ x. IsSummary all (bucket_at x tf)) (d.lt nought (previous_close s tf)) _ _
            (λ _. calculate_returns-IsSummary all traded tf (previous_close s tf) t) (λ _. t) in
        if-split (λ x. IsSummary all (bucket_at x tf)) (d.lt nought previous_price) _ _
          (λ _. update_volatility-IsSummary all _ tf price previous_price r) (λ _. r)

    -- The other buckets stay.
    update_timeframe-other :
        (s : InstrumentStats W) (tf other : Text)
        → text_eq tf other ≡ false
        → bucket_at (update_timeframe s previous_price price quantity tf) other ≡ bucket_at s other
    unfolding update_timeframe
    update_timeframe-other s tf other ne =
        let traded = update_with_trade s price quantity tf in
        let x = previous_close s tf in
        let r =
          if-split (λ y. bucket_at y other ≡ bucket_at s other) (d.lt nought x)
            (calculate_returns traded tf x) traded
            (λ _.
              calculate_returns-other traded tf other ne x
              ∙ update_with_trade-other s tf other ne price quantity)
            (λ _. update_with_trade-other s tf other ne price quantity) in
        if-split (λ y. bucket_at y other ≡ bucket_at s other) (d.lt nought previous_price) _ _
          (λ _. update_volatility-other _ tf other ne price previous_price ∙ r) (λ _. r)

    update_timeframes-other :
        (s : InstrumentStats W) (tfs : List Text) (other : Text)
        → has_text tfs other ≡ false
        → bucket_at (update_timeframes s previous_price price quantity tfs) other
          ≡ bucket_at s other
    unfolding update_timeframes has_text
    update_timeframes-other s [] other h = refl
    update_timeframes-other s (tf ∷ tfs) other h =
        let next = update_timeframe s previous_price price quantity tf in
        update_timeframes-other next tfs other (ground arith)
        ∙ update_timeframe-other s tf other (ground arith)

    -- What held of every bucket, each timeframe standing once, holds with one more trade.
    pub update_timeframes-All :
        (ts : List (W × W)) (s : InstrumentStats W) (tfs : List Text)
        → IsDistinct tfs
        → All (λ tf. IsSummary ts (bucket_at s tf)) tfs
        → All
            (λ tf.
              IsSummary
                (ts ++ ((price, quantity) ∷ []))
                (bucket_at (update_timeframes s previous_price price quantity tfs) tf))
            tfs
    unfolding update_timeframes
    update_timeframes-All ts s [] u h = tt
    update_timeframes-All ts s (tf ∷ tfs) (f, u) (h, hs) =
        let next = update_timeframe s previous_price price quantity tf in
        (
          subst (IsSummary (ts ++ ((price, quantity) ∷ [])))
              (sym (update_timeframes-other next tfs tf f)) (update_timeframe-IsSummary ts s tf h),
          update_timeframes-All ts next tfs u (kept ts s tf tfs f hs),
        )
      where
        kept :
            (ts : List (W × W)) (s : InstrumentStats W) (tf : Text) (others : List Text)
            → has_text others tf ≡ false
            → All (λ x. IsSummary ts (bucket_at s x)) others
            → All
                (λ x.
                  IsSummary ts (bucket_at (update_timeframe s previous_price price quantity tf) x))
                others
        kept ts s tf [] f h = tt
        kept ts s tf (x ∷ xs) f (h, hs) = (
          subst (IsSummary ts)
              (sym (
                update_timeframe-other s tf x
                  (unfold has_text in ground (arith, text_eq_iff tf x, text_eq_iff x tf))))
              h,
          kept ts s tf xs (unfold has_text in ground arith) hs,
        )
