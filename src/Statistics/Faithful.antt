-- ===== src/Statistics/Faithful.antt =====
-- The collector processes what it accepts: no trade is lost, counted twice or out of order.
use live_trading_engine.Common.{
  ℕ, suc, ◌+◌, ◌%◌, ◌^◌, ◌≤◌, ◌<◌, Option, none, some, ◌≡◌, refl, ◌∙◌, sym, ap, subst, Bool, true,
  false, not, List, [], ◌∷◌, ◌++◌, everywhere, arith, length, length-append, IsDistinct, if-split,
}
use mathlib.Core.List.{append_assoc}
use live_trading_engine.Common.Dict.{lookup}
use live_trading_engine.Common.Double.{Double}
use live_trading_engine.Statistics.{bucket_at, new_bucket, new_stats, stats_of, update_statistics}
use live_trading_engine.ConcurrentQueue.{
  ConcurrentQueue, new_queue, claim, is_free, publish, try_dequeue,
}
use live_trading_engine.ConcurrentQueue.Ring.{Runs, update}
use live_trading_engine.ConcurrentQueue.Ring
use live_trading_engine.ConcurrentQueue.Consumer.{try_dequeue-capacity}
use live_trading_engine.ConcurrentQueue.Delivery.{offered, Runs-fifo}
use live_trading_engine.Statistics.Collector.{
  TradeEvent, Config, StatisticsCollector, new_collector, start, is_refusing, enqueue_event,
  take_event, tail, process_trade_event, collect, signal_stop,
}
use live_trading_engine.Statistics.History.{trades_in, Counts, update_statistics-Counts}

module _ {ℓ} {W : Type ℓ} ⦃d : Double W⦄ where
  -- What the collector and its ring can come to: the number of producers that found `running_` true
  -- and have no position yet, the events that got a position, those that were taken, the producers
  -- that have not written their slot, the ring and the collector. The collecting thread may take an
  -- event at any time, in either of its loops.
  pub data Reaches (config : Config)
      : ℕ
        → List (TradeEvent W)
        → List (TradeEvent W)
        → (ℕ → Option (TradeEvent W))
        → ConcurrentQueue (TradeEvent W)
        → StatisticsCollector W
        → Type ℓ where
    initially :
        (q : ConcurrentQueue (TradeEvent W))
        → config.enabled ≡ true
        → new_queue config.queue_capacity ≡ some q
        → Reaches config 0 [] [] (λ _. none) q (new_collector config)
    started :
        (n : ℕ) (cl tk : List (TradeEvent W)) (w : ℕ → Option (TradeEvent W))
        (q : ConcurrentQueue (TradeEvent W)) (c : StatisticsCollector W)
        → Reaches config n cl tk w q c
        → Reaches config n cl tk w q (start c).1
    tested :
        (n : ℕ) (cl tk : List (TradeEvent W)) (w : ℕ → Option (TradeEvent W))
        (q : ConcurrentQueue (TradeEvent W)) (c : StatisticsCollector W)
        → Reaches config n cl tk w q c
        → is_refusing c ≡ false
        → Reaches config (suc n) cl tk w q c
    claimed :
        (n : ℕ) (cl tk : List (TradeEvent W)) (w : ℕ → Option (TradeEvent W))
        (q : ConcurrentQueue (TradeEvent W)) (c : StatisticsCollector W) (e : TradeEvent W)
        → Reaches config (suc n) cl tk w q c
        → q.enqueue_pos + q.capacity < 2 ^ 64
        → Reaches config n
            (cl ++ (e ∷ []))
            tk
            (update w (claim q).0 (some e))
            (claim q).1
            (enqueue_event c e)
    published :
        (n : ℕ) (cl tk : List (TradeEvent W)) (w : ℕ → Option (TradeEvent W))
        (q : ConcurrentQueue (TradeEvent W)) (c : StatisticsCollector W) (p : ℕ) (e : TradeEvent W)
        → Reaches config n cl tk w q c
        → w p ≡ some e
        → is_free q p ≡ true
        → Reaches config n cl tk (update w p none) (publish q p e) c
    collected :
        (n : ℕ) (cl tk : List (TradeEvent W)) (w : ℕ → Option (TradeEvent W))
        (q : ConcurrentQueue (TradeEvent W)) (c : StatisticsCollector W) (elapsed : ℕ)
        (e : TradeEvent W)
        → Reaches config n cl tk w q c
        → (try_dequeue q).0 ≡ some e
        → Reaches config n cl (tk ++ (e ∷ [])) w (try_dequeue q).1 (collect elapsed c (some e))
    found_none :
        (n : ℕ) (cl tk : List (TradeEvent W)) (w : ℕ → Option (TradeEvent W))
        (q : ConcurrentQueue (TradeEvent W)) (c : StatisticsCollector W) (elapsed : ℕ)
        → Reaches config n cl tk w q c
        → (try_dequeue q).0 ≡ none
        → Reaches config n cl tk w (try_dequeue q).1 (collect elapsed c none)
    stopping :
        (n : ℕ) (cl tk : List (TradeEvent W)) (w : ℕ → Option (TradeEvent W))
        (q : ConcurrentQueue (TradeEvent W)) (c : StatisticsCollector W)
        → Reaches config n cl tk w q c
        → Reaches config n cl tk w q (signal_stop c)

  -- The events that were taken are processed; with what is still queued they make up those that got a
  -- position.
  pub record IsFaithful (config : Config) (cl tk : List (TradeEvent W)) (c : StatisticsCollector W)
      : Type ℓ where
    pub same_config : c.config ≡ config
    pub split : cl ≡ tk ++ c.trade_queue
    pub counted : c.total_trades_processed ≡ length tk % 2 ^ 64
    pub none_dropped : c.total_trades_dropped ≡ 0
    pub counts : Counts config.timeframes c.instrument_stats tk

append_cancel {ℓ} : {A : Type ℓ} (xs a b : List A) → (xs ++ a) ≡ (xs ++ b) → a ≡ b
append_cancel [] a b e = e
append_cancel (x ∷ xs) a b e = append_cancel xs a b (cc e)

offered-some {ℓ} :
    {A : Type ℓ} (held : Option A) (rest : List A) (v : A)
    → offered held rest ≡ some v
    → (more : List A) × (rest ≡ v ∷ more)
unfolding offered
offered-some held [] v e = cc
offered-some (some x) (y ∷ more) v e = cc
offered-some none (y ∷ more) v e = (more, ap (λ x. x ∷ more) (cc e))

module _ {ℓ} {W : Type ℓ} ⦃d : Double W⦄ (config : Config) (u : IsDistinct config.timeframes) where
  new_collector-IsFaithful : IsFaithful config [] [] (new_collector {W = W} config)
  unfolding new_collector stats_of bucket_at new_stats new_bucket trades_in lookup
  new_collector-IsFaithful = record {
    same_config = refl;
    split = refl;
    counted = omega arith;
    none_dropped = refl;
    counts = λ symbol. everywhere config.timeframes λ tf. (tt, refl);
  }

  -- Processing the first of the queue.
  process-IsFaithful :
      (cl tk rest : List (TradeEvent W)) (c : StatisticsCollector W) (e : TradeEvent W)
      → c.trade_queue ≡ e ∷ rest
      → IsFaithful config cl tk c
      → IsFaithful config cl
          (tk ++ (e ∷ []))
          (process_trade_event (record c { trade_queue = rest }) e)
  unfolding process_trade_event
  process-IsFaithful cl tk rest c e q h = record {
    same_config = h.same_config;
    split = h.split ∙ ap (λ x. tk ++ x) q ∙ sym (append_assoc tk (e ∷ []) rest);
    counted = omega (arith, h.counted, length-append tk (e ∷ []));
    none_dropped = h.none_dropped;
    counts =
        subst
          (λ (x : Config).
            Counts config.timeframes
              (update_statistics x.timeframes c.instrument_stats e.symbol e.price e.quantity)
              (tk ++ (e ∷ [])))
          (sym h.same_config)
          (update_statistics-Counts config.timeframes c.instrument_stats tk e u h.counts);
  }

  -- The collector is faithful whatever its flags are.
  flags-IsFaithful :
      (cl tk : List (TradeEvent W)) (c : StatisticsCollector W) (running stop_requested : Bool)
      → IsFaithful config cl tk c
      → IsFaithful config cl tk (record c { running = running; stop_requested = stop_requested })
  flags-IsFaithful cl tk c running stop_requested h = record {
    same_config = h.same_config;
    split = h.split;
    counted = h.counted;
    none_dropped = h.none_dropped;
    counts = h.counts;
  }

  enqueue-IsFaithful :
      (cl tk : List (TradeEvent W)) (c : StatisticsCollector W) (e : TradeEvent W)
      → IsFaithful config cl tk c
      → IsFaithful config (cl ++ (e ∷ [])) tk (enqueue_event c e)
  enqueue-IsFaithful cl tk c e h = record {
    same_config = h.same_config;
    split = ap (λ x. x ++ (e ∷ [])) h.split ∙ append_assoc tk c.trade_queue (e ∷ []);
    counted = h.counted;
    none_dropped = h.none_dropped;
    counts = h.counts;
  }

  start-IsFaithful :
      (cl tk : List (TradeEvent W)) (c : StatisticsCollector W)
      → IsFaithful config cl tk c
      → IsFaithful config cl tk (start c).1
  unfolding start
  start-IsFaithful cl tk c h =
      if-split (λ (x : Bool × StatisticsCollector W). IsFaithful config cl tk x.1)
        (not c.config.enabled) _ _ (λ _. h)
        λ _.
          if-split (λ (x : Bool × StatisticsCollector W). IsFaithful config cl tk x.1) c.running _ _
            (λ _. h) λ _. flags-IsFaithful cl tk c true false h

  signal-IsFaithful :
      (cl tk : List (TradeEvent W)) (c : StatisticsCollector W)
      → IsFaithful config cl tk c
      → IsFaithful config cl tk (signal_stop c)
  unfolding signal_stop
  signal-IsFaithful cl tk c h =
      if-split (IsFaithful config cl tk) (not c.running) _ _ (λ _. h)
        λ _. flags-IsFaithful cl tk c false true h

  -- What the ring gives is the first of the queue.
  pub offered-queue :
      (cl tk : List (TradeEvent W)) (w : ℕ → Option (TradeEvent W))
      (q : ConcurrentQueue (TradeEvent W)) (c : StatisticsCollector W)
      → Runs cl tk w q
      → 2 ≤ q.capacity
      → IsFaithful config cl tk c
      → (try_dequeue q).0 ≡ offered (w (length tk)) c.trade_queue
  offered-queue cl tk w q c r two h =
      let (rest, split, e, _, _, _) = Runs-fifo cl tk cl tk w w q q r r two two in
      e ∙ ap (offered (w (length tk))) (append_cancel tk rest c.trade_queue (sym split ∙ h.split))

  take-IsFaithful :
      (cl tk : List (TradeEvent W)) (w : ℕ → Option (TradeEvent W))
      (q : ConcurrentQueue (TradeEvent W)) (c : StatisticsCollector W) (e : TradeEvent W)
      → Runs cl tk w q
      → 2 ≤ q.capacity
      → (try_dequeue q).0 ≡ some e
      → IsFaithful config cl tk c
      → IsFaithful config cl (tk ++ (e ∷ [])) (take_event c e)
  unfolding tail
  take-IsFaithful cl tk w q c e r two k h =
      let (rest, first) =
        offered-some (w (length tk)) c.trade_queue e
          (sym (offered-queue cl tk w q c r two h) ∙ k) in
      rw first (process-IsFaithful cl tk rest c e first h)

  pub Reaches-Runs :
      (n : ℕ) (cl tk : List (TradeEvent W)) (w : ℕ → Option (TradeEvent W))
      (q : ConcurrentQueue (TradeEvent W)) (c : StatisticsCollector W)
      → Reaches config n cl tk w q c
      → Runs cl tk w q
  Reaches-Runs n cl tk w q c (initially q' on e) = Ring.initially config.queue_capacity q' e
  Reaches-Runs n cl tk w q c (started m cl' tk' w' q' b r) = Reaches-Runs m cl' tk' w' q' b r
  Reaches-Runs n cl tk w q c (tested m cl' tk' w' q' b r on) = Reaches-Runs m cl' tk' w' q' b r
  Reaches-Runs n cl tk w q c (claimed m cl' tk' w' q' b e r lt) =
      Ring.claimed cl' tk' w' q' e (Reaches-Runs (suc m) cl' tk' w' q' b r) lt
  Reaches-Runs n cl tk w q c (published m cl' tk' w' q' b p e r k free) =
      Ring.published cl' tk' w' q' p e (Reaches-Runs m cl' tk' w' q' b r) k free
  Reaches-Runs n cl tk w q c (collected m cl' tk' w' q' b elapsed e r k) =
      Ring.dequeued cl' tk' w' q' e (Reaches-Runs m cl' tk' w' q' b r) k
  Reaches-Runs n cl tk w q c (found_none m cl' tk' w' q' b elapsed r k) =
      Ring.refused cl' tk' w' q' (Reaches-Runs m cl' tk' w' q' b r) k
  Reaches-Runs n cl tk w q c (stopping m cl' tk' w' q' b r) = Reaches-Runs m cl' tk' w' q' b r

  pub reached :
      (n : ℕ) (cl tk : List (TradeEvent W)) (w : ℕ → Option (TradeEvent W))
      (q : ConcurrentQueue (TradeEvent W)) (c : StatisticsCollector W)
      → Reaches config n cl tk w q c
      → 2 ≤ q.capacity
      → IsFaithful config cl tk c
  unfolding claim publish collect
  reached n cl tk w q c (initially q' on e) two = new_collector-IsFaithful
  reached n cl tk w q c (started m cl' tk' w' q' b r) two =
      start-IsFaithful cl' tk' b (reached m cl' tk' w' q' b r two)
  reached n cl tk w q c (tested m cl' tk' w' q' b r on) two = reached m cl' tk' w' q' b r two
  reached n cl tk w q c (claimed m cl' tk' w' q' b e r lt) two =
      enqueue-IsFaithful cl' tk' b e (reached (suc m) cl' tk' w' q' b r two)
  reached n cl tk w q c (published m cl' tk' w' q' b p e r k free) two =
      reached m cl' tk' w' q' b r two
  reached n cl tk w q c (collected m cl' tk' w' q' b elapsed e r k) two =
      let two' = subst (λ x. 2 ≤ x) (try_dequeue-capacity q') two in
      take-IsFaithful cl' tk' w' q' b e (Reaches-Runs m cl' tk' w' q' b r) two' k
        (reached m cl' tk' w' q' b r two')
  reached n cl tk w q c (found_none m cl' tk' w' q' b elapsed r k) two =
      reached m cl' tk' w' q' b r (subst (λ x. 2 ≤ x) (try_dequeue-capacity q') two)
  reached n cl tk w q c (stopping m cl' tk' w' q' b r) two =
      signal-IsFaithful cl' tk' b (reached m cl' tk' w' q' b r two)

  -- Over a ring of two slots or more whose positions do not wrap around, with distinct timeframes, and
  -- in every interleaving of producers, the collecting thread, starts and stops - a producer may be
  -- stopped short after its test of `running_`, and have to wait for its slot: the events that got a
  -- position in the queue, in the order of the positions, are those that the collector has processed,
  -- followed by those in its queue; the first of these is what the collecting thread is given next, once
  -- its producer has written it; no trade is dropped, and in every timeframe the bucket of every symbol
  -- sums up all the trades of that symbol that are processed, however old they are.
  pub Reaches-IsFaithful :
      (n : ℕ) (cl tk : List (TradeEvent W)) (w : ℕ → Option (TradeEvent W))
      (q : ConcurrentQueue (TradeEvent W)) (c : StatisticsCollector W)
      → Reaches config n cl tk w q c
      → 2 ≤ q.capacity
      → IsFaithful config cl tk c × ((try_dequeue q).0 ≡ offered (w (length tk)) c.trade_queue)
  Reaches-IsFaithful n cl tk w q c r two =
      let h = reached n cl tk w q c r two in
      (h, offered-queue cl tk w q c (Reaches-Runs n cl tk w q c r) two h)
