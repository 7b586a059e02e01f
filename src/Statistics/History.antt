-- ===== src/Statistics/History.antt =====
-- The statistics after some events: every bucket sums up the trades of its symbol.
use live_trading_engine.Common.{
  ◌≡◌, refl, sym, ap, subst, inl, inr, Bool-cases, true, false, List, [], ◌∷◌, ◌++◌, All,
  if◌then◌else◌, Text, text_eq, text_eq_iff, text_eq_refl, IsDistinct,
}
use live_trading_engine.Common.Dict.{Dict, insert, lookup-insert, lookup-insert_self}
use live_trading_engine.Common.Double.{Double}
use live_trading_engine.Statistics.{
  InstrumentStats, bucket_at, stats_of, update_timeframes, update_statistics,
}
use live_trading_engine.Statistics.Summary.{IsSummary}
use live_trading_engine.Statistics.Buckets.{update_timeframes-All}
use live_trading_engine.Statistics.Collector.{TradeEvent}

module _ {ℓ} {W : Type ℓ} where
  -- The prices and volumes of the events of a symbol.
  unfoldable pub trades_in : Text → List (TradeEvent W) → List (W × W)
  trades_in symbol [] = []
  trades_in symbol (e ∷ es) =
      if text_eq e.symbol symbol
      then (e.price, e.quantity) ∷ trades_in symbol es
      else trades_in symbol es

  trades_in-append_same :
      (symbol : Text) (es : List (TradeEvent W)) (e : TradeEvent W)
      → text_eq e.symbol symbol ≡ true
      → trades_in symbol (es ++ (e ∷ [])) ≡ trades_in symbol es ++ ((e.price, e.quantity) ∷ [])
  unfolding trades_in
  trades_in-append_same symbol [] e h = rw h refl
  trades_in-append_same symbol (x ∷ es) e h = elim (Bool-cases (text_eq x.symbol symbol)) [
    | inl t ↦ rw t (ap (λ ts. (x.price, x.quantity) ∷ ts) (trades_in-append_same symbol es e h))
    | inr t ↦ rw t (trades_in-append_same symbol es e h)
  ]

  trades_in-append_other :
      (symbol : Text) (es : List (TradeEvent W)) (e : TradeEvent W)
      → text_eq e.symbol symbol ≡ false
      → trades_in symbol (es ++ (e ∷ [])) ≡ trades_in symbol es
  unfolding trades_in
  trades_in-append_other symbol [] e h = rw h refl
  trades_in-append_other symbol (x ∷ es) e h = elim (Bool-cases (text_eq x.symbol symbol)) [
    | inl t ↦ rw t (ap (λ ts. (x.price, x.quantity) ∷ ts) (trades_in-append_other symbol es e h))
    | inr t ↦ rw t (trades_in-append_other symbol es e h)
  ]

module _ {ℓ} {W : Type ℓ} ⦃d : Double W⦄ where
  -- In every timeframe, the bucket of every symbol sums up the trades of that symbol.
  abbrev pub Counts : List Text → Dict (InstrumentStats W) → List (TradeEvent W) → Type ℓ
  Counts tfs all done =
      (symbol : Text)
      → All (λ tf. IsSummary (trades_in symbol done) (bucket_at (stats_of all symbol) tf)) tfs

  stats_of-insert_self :
      (all : Dict (InstrumentStats W)) (k : Text) (s : InstrumentStats W)
      → stats_of (insert k s all) k ≡ s
  unfolding stats_of
  stats_of-insert_self all k s = rw (lookup-insert_self k s all, stats_of) refl

  stats_of-insert_other :
      (all : Dict (InstrumentStats W)) (k j : Text) (s : InstrumentStats W)
      → text_eq k j ≡ false
      → stats_of (insert k s all) j ≡ stats_of all j
  unfolding stats_of
  stats_of-insert_other all k j s ne = rw (lookup-insert j k s all, ne, stats_of) refl

  module _ (tfs : List Text) (all : Dict (InstrumentStats W)) (done : List (TradeEvent W))
      (e : TradeEvent W) where
    stats_of-same :
        let s = stats_of all e.symbol in
        stats_of (update_statistics tfs all e.symbol e.price e.quantity) e.symbol
        ≡ update_timeframes s s.last_trade_price e.price e.quantity tfs
    unfolding update_statistics
    stats_of-same = stats_of-insert_self all e.symbol _

    stats_of-other :
        (symbol : Text)
        → text_eq e.symbol symbol ≡ false
        → stats_of (update_statistics tfs all e.symbol e.price e.quantity) symbol
          ≡ stats_of all symbol
    unfolding update_statistics
    stats_of-other symbol ne = stats_of-insert_other all e.symbol symbol _ ne

    Counts-same :
        IsDistinct tfs
        → Counts tfs all done
        → All
            (λ tf. IsSummary (trades_in e.symbol (done ++ (e ∷ []))) (
              bucket_at
                (stats_of (update_statistics tfs all e.symbol e.price e.quantity) e.symbol)
                tf))
            tfs
    Counts-same u h =
        let s = stats_of all e.symbol in
        let ts = trades_in e.symbol done in
        subst
          (λ x.
            All
              (λ tf. IsSummary x (
                bucket_at
                  (stats_of (update_statistics tfs all e.symbol e.price e.quantity) e.symbol) tf))
              tfs)
          (sym (trades_in-append_same e.symbol done e (text_eq_refl e.symbol)))
          (subst
            (λ (x : InstrumentStats W).
              All (λ tf. IsSummary (ts ++ ((e.price, e.quantity) ∷ [])) (bucket_at x tf)) tfs)
            (sym stats_of-same)
            (update_timeframes-All s.last_trade_price e.price e.quantity ts s tfs u (h e.symbol)))

    pub update_statistics-Counts :
        IsDistinct tfs
        → Counts tfs all done
        → Counts tfs (update_statistics tfs all e.symbol e.price e.quantity) (done ++ (e ∷ []))
    update_statistics-Counts u h symbol = elim (Bool-cases (text_eq e.symbol symbol)) [
      | inl t ↦
          subst
            (λ x.
              All
                (λ tf. IsSummary (trades_in x (done ++ (e ∷ []))) (
                  bucket_at (stats_of (update_statistics tfs all e.symbol e.price e.quantity) x)
                    tf))
                tfs)
            ((text_eq_iff e.symbol symbol).0 t) (Counts-same u h)
      | inr t ↦
          subst
            (λ x.
              All
                (λ tf. IsSummary x (
                  bucket_at
                    (stats_of (update_statistics tfs all e.symbol e.price e.quantity) symbol) tf))
                tfs)
            (sym (trades_in-append_other symbol done e t))
            (subst
              (λ (x : InstrumentStats W).
                All (λ tf. IsSummary (trades_in symbol done) (bucket_at x tf)) tfs)
              (sym (stats_of-other symbol t)) (h symbol))
    ]
