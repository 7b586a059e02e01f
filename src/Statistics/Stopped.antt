-- ===== src/Statistics/Stopped.antt =====
-- The stop of a collector: the collecting thread empties the ring.
use live_trading_engine.Common.{
  ℕ, suc, ◌%◌, ◌^◌, ◌≤◌, ◌≡◌, refl, sym, ap, ◌∙◌, subst, true, false, Option, none, some, List, [],
  ◌∷◌, ◌++◌, length, IsDistinct,
}
use mathlib.Core.List.{append-nil}
use live_trading_engine.Common.Double.{Double}
use live_trading_engine.ConcurrentQueue.{ConcurrentQueue, try_dequeue}
use live_trading_engine.ConcurrentQueue.Consumer.{try_dequeue-capacity}
use live_trading_engine.ConcurrentQueue.Delivery.{offered}
use live_trading_engine.Statistics.Collector.{
  TradeEvent, Config, StatisticsCollector, take_event, tail, process_trade_event, collect,
  cleanup_old_stats, signal_stop, drain_ring, drain, stop,
}
use live_trading_engine.Statistics.Faithful.{
  Reaches, collected, stopping, IsFaithful, reached, Reaches-Runs, offered-queue,
}
use live_trading_engine.Statistics.History.{Counts}

module _ {ℓ} {W : Type ℓ} ⦃d : Double W⦄ (config : Config) (u : IsDistinct config.timeframes) where
  -- Every event is processed.
  abbrev IsOver : List (TradeEvent W) → StatisticsCollector W → Type ℓ
  IsOver cl c = (c.trade_queue ≡ []) × ((tk : List (TradeEvent W)) × IsFaithful config cl tk c)

  drain_lem :
      (rest cl tk : List (TradeEvent W)) (n : ℕ) (w : ℕ → Option (TradeEvent W))
      (q : ConcurrentQueue (TradeEvent W)) (c : StatisticsCollector W)
      → Reaches config n cl tk w q c
      → 2 ≤ q.capacity
      → ((p : ℕ) → w p ≡ none)
      → c.trade_queue ≡ rest
      → (drain_ring (suc (length rest)) q c ≡ some (drain c rest)) × IsOver cl (drain c rest)
  unfolding drain_ring drain
  drain_lem [] cl tk n w q c r two quiet e =
      let h = reached config u n cl tk w q c r two in
      let given : (try_dequeue q).0 ≡ none =
        offered-queue config u cl tk w q c (Reaches-Runs config u n cl tk w q c r) two h
        ∙ ap (offered (w (length tk))) e
        ∙ unfold offered in refl in
      (rw (given, drain_ring) refl, (e, (tk, h)))
  drain_lem (x ∷ rest) cl tk n w q c r two quiet e =
      let h = reached config u n cl tk w q c r two in
      let given : (try_dequeue q).0 ≡ some x =
        offered-queue config u cl tk w q c (Reaches-Runs config u n cl tk w q c r) two h
        ∙ (λ i. offered (quiet (length tk) i) (e i))
        ∙ unfold offered in refl in
      let left : tail c.trade_queue ≡ rest = ap tail e ∙ unfold tail in refl in
      let same : take_event c x ≡ process_trade_event (record c { trade_queue = rest }) x =
        ap (λ y. process_trade_event (record c { trade_queue = y }) x) left in
      let q' = (try_dequeue q).1 in
      let r' : Reaches config n cl (tk ++ (x ∷ [])) w q' (take_event c x) =
        unfold collect cleanup_old_stats in collected n cl tk w q c 0 x r given in
      let two' = subst (λ k. 2 ≤ k) (sym (try_dequeue-capacity q)) two in
      let (ran, over) =
        drain_lem rest cl (tk ++ (x ∷ [])) n w q' (take_event c x) r' two' quiet
          (unfold process_trade_event in left) in
      (
        rw (given, drain_ring) (ran ∙ ap (λ y. some (drain y rest)) same),
        subst (λ y. IsOver cl (drain y rest)) same over,
      )

  -- A running collector, over a ring of two slots or more and with distinct timeframes, is stopped
  -- when no producer that has a position in the queue is still to write: the collecting thread, which
  -- takes from the ring until it finds nothing, ends after one round more than there are events in the
  -- queue, and leaves the queue empty and every event that got a position processed. An event whose
  -- producer found the collector running and gets its position only afterwards is not among them.
  pub stop-processes_all :
      (n : ℕ) (cl tk : List (TradeEvent W)) (w : ℕ → Option (TradeEvent W))
      (q : ConcurrentQueue (TradeEvent W)) (c : StatisticsCollector W)
      → Reaches config n cl tk w q c
      → 2 ≤ q.capacity
      → ((p : ℕ) → w p ≡ none)
      → c.running ≡ true
      → (drain_ring (suc (length c.trade_queue)) q (signal_stop c) ≡ some (stop c))
        × ((stop c).trade_queue ≡ [])
        × ((stop c).total_trades_processed ≡ length cl % 2 ^ 64)
        × Counts config.timeframes (stop c).instrument_stats cl
  unfolding stop signal_stop
  stop-processes_all n cl tk w q c r two quiet run =
      let s : StatisticsCollector W = record c { stop_requested = true; running = false } in
      let r' : Reaches config n cl tk w q s =
        subst (Reaches config n cl tk w q) (rw (run, signal_stop) refl)
          (stopping n cl tk w q c r) in
      let (ran, (empty, (tk', h))) = drain_lem c.trade_queue cl tk n w q s r' two quiet refl in
      let all : cl ≡ tk' = h.split ∙ ap (λ x. tk' ++ x) empty ∙ append-nil tk' in
      rw run (
        ran,
        empty,
        h.counted ∙ ap (λ x. length x % 2 ^ 64) (sym all),
        subst (Counts config.timeframes (drain s c.trade_queue).instrument_stats) (sym all)
            h.counts,
      )
