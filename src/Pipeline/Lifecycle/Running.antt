-- ===== src/Pipeline/Lifecycle/Running.antt =====
-- What runs once the engine was started, and once it was stopped.
use live_trading_engine.Common.{
  if◌then◌else◌, ◌≡◌, refl, ◌∙◌, ap, sym, subst, Bool, true, false, inl, inr, Bool-cases, some,
  List, [], ◌∷◌, arith, Text, codes,
}
use live_trading_engine.Common.Dict.{lookup, lookup-insert_self}
use live_trading_engine.Common.Double.{Double}
use live_trading_engine.Logging.{push, push_log}
use live_trading_engine.Logging.Lines.{Moment, LogLevel, info, add_log}
use live_trading_engine.Logging.Trades.{TradeLogger, put_line, log_message}
use live_trading_engine.Http.Server.{HttpServer, start_server, stop_server}
use live_trading_engine.Statistics.Collector.{
  StatisticsCollector, TradeEvent, process_trade_event, drain,
}
use live_trading_engine.Statistics.Collector
use live_trading_engine.Messaging.{
  Message, Kafka, QueueClient, connect, with_producer, with_consumer, disconnect, subscribe,
  resubscribe,
}
use live_trading_engine.Pipeline.Lifecycle.{
  Program, Opened, terminates, throws, opened, open_logger, Outcome, answers, and_then, start_http,
  start_stats, connect_queue, subscribe_orders, now_running, start_parts, answered,
  with_trade_logger, with_app_logger, start_program, stop_program,
}

-- A running thread, after stop.
thread_left : (done : Bool) → (if done then true else false) ≡ done
thread_left true = refl
thread_left false = refl

done-log_message :
    (l : TradeLogger) (now : Moment) (level : LogLevel) (m : Text)
    → (log_message l now level m).async.done ≡ l.async.done
unfolding log_message put_line add_log push_log push
done-log_message l now level m = ground arith

module _ {ℓ} {S : Type ℓ} where
  start_server-runs :
      (s : HttpServer S) (socket : Bool)
      → (start_server s socket).0 ≡ true
      → (start_server s socket).1.running ≡ true
  unfolding start_server
  start_server-runs s socket e = ground arith

  stop_server-rests : (s : HttpServer S) → (stop_server s).running ≡ false
  unfolding stop_server
  stop_server-rests s = ground arith

module _ {ℓ} {W : Type ℓ} where
  start-runs :
      (c : StatisticsCollector W)
      → (Collector.start c).0 ≡ true
      → ((Collector.start c).1.running ≡ true) × (c.config.enabled ≡ true)
  unfolding Collector.start
  start-runs c e = ground arith

module _ {ℓ} {W : Type ℓ} ⦃d : Double W⦄ where
  drain-rests :
      (es : List (TradeEvent W)) (c : StatisticsCollector W)
      → c.running ≡ false
      → (drain c es).running ≡ false
  unfolding drain process_trade_event
  drain-rests [] c e = e
  drain-rests (x ∷ es) c e =
      drain-rests es (process_trade_event (record c { trade_queue = es }) x) e

  stop-rests : (c : StatisticsCollector W) → (Collector.stop c).running ≡ false
  unfolding Collector.stop
  stop-rests c = elim (Bool-cases c.running) [
    | inl e ↦
        rw e (drain-rests c.trade_queue (record c { stop_requested = true; running = false }) refl)
    | inr e ↦ rw e refl
  ]

module _ {ℓ κ} {K : Type ℓ} {S : Type κ} (lib : Kafka K) where
  connect-connects :
      (c : QueueClient K S) → (connect lib c).0 ≡ true → (connect lib c).1.connected ≡ true
  unfolding connect with_producer with_consumer
  connect-connects c e = ground arith

  subscribe-subscribes :
      (c : QueueClient K S) (topic : Text) (handler : Message → S → S)
      → (subscribe lib c topic handler).0 ≡ true
      → ((subscribe lib c topic handler).1.connected ≡ true)
        × (lookup topic (subscribe lib c topic handler).1.topic_handlers ≡ some handler)
  unfolding subscribe resubscribe
  subscribe-subscribes c topic handler e =
      ground (arith, lookup-insert_self topic handler c.topic_handlers)

module _ {ℓ κ ι} {W : Type ℓ} {K : Type κ} {S : Type ι} where
  -- All parts run, and the handler gets the orders.
  pub record IsRunning (handler : Message → S → S) (p : Program W K S) : Type ι where
    pub itself : p.running ≡ true
    pub loggers : (p.app_thread ≡ true) × (p.trade_thread ≡ true)
    pub http : p.http_server.running ≡ true
    pub stats : p.stats_collector.running ≡ true
    pub queue : p.queue_client.connected ≡ true
    pub orders : lookup (codes "order-requests") p.queue_client.topic_handlers ≡ some handler

  -- No part runs, but the thread of a logger that had been stopped once before.
  pub record IsStopped (p p' : Program W K S) : Type 0 where
    pub itself : p'.running ≡ false
    pub loggers :
        (p'.app_thread ≡ p.app_logger.async.done) × (p'.trade_thread ≡ p.trade_logger.async.done)
    pub http : p'.http_server.running ≡ false
    pub stats : p'.stats_collector.running ≡ false
    pub queue : p'.queue_client.connected ≡ false

  and_then-true :
      (now : Moment) (what : Text) (r : Bool × Program W K S)
      (next : Program W K S → Bool × Program W K S)
      → (and_then now what r next).0 ≡ true
      → (r.0 ≡ true) × (and_then now what r next ≡ next r.1)
  and_then-true now what (true, p) next e = (refl, refl)
  and_then-true now what (false, p) next e = cc

  module _ (lib : Kafka K) (now : Moment) (socket : Bool) (handler : Message → S → S) where
    start_parts-IsRunning :
        (p : Program W K S)
        → p.app_thread ≡ true
        → p.trade_thread ≡ true
        → (start_parts lib now socket handler p).0 ≡ true
        → IsRunning handler (start_parts lib now socket handler p).1
          × (p.stats_collector.config.enabled ≡ true)
    unfolding start_parts start_http start_stats connect_queue subscribe_orders now_running
    start_parts-IsRunning p a t e =
        let r1 = start_http socket p in
        let r2 = start_stats r1.1 in
        let r3 = connect_queue lib r2.1 in
        let r4 = subscribe_orders lib handler r3.1 in
        let k1 = and_then-true now _ r1 _ e in
        let k2 = and_then-true now _ r2 _ (ap (λ r. r.0) (sym k1.1) ∙ e) in
        let k3 = and_then-true now _ r3 _ (ap (λ r. r.0) (sym (k1.1 ∙ k2.1)) ∙ e) in
        let k4 = and_then-true now _ r4 _ (ap (λ r. r.0) (sym (k1.1 ∙ k2.1 ∙ k3.1)) ∙ e) in
        let all = k1.1 ∙ k2.1 ∙ k3.1 ∙ k4.1 in
        let stats = start-runs p.stats_collector k2.0 in
        let orders =
          subscribe-subscribes lib r3.1.queue_client (codes "order-requests") handler k4.0 in
        (
          subst (λ r. IsRunning handler r.1) (sym all)
              (record {
                itself = refl;
                loggers = (a, t);
                http = start_server-runs p.http_server socket k1.0;
                stats = stats.0;
                queue = orders.0;
                orders = orders.1;
              }),
          stats.1,
        )

    started :
        (r : Bool × Program W K S) (p' : Program W K S)
        → answered lib r ≡ answers true p'
        → (r.0 ≡ true) × (r.1 ≡ p')
    started (ok, p) p' e = (cc e, cc e)

    with_trade_logger-IsRunning :
        (what : Text) (p p' : Program W K S) (o : Opened)
        → p.app_thread ≡ true
        → with_trade_logger lib now socket handler what p o ≡ answers true p'
        → IsRunning handler p' × (p.stats_collector.config.enabled ≡ true)
    with_trade_logger-IsRunning what p p' terminates a e = cc
    with_trade_logger-IsRunning what p p' throws a e = cc
    with_trade_logger-IsRunning what p p' (opened l) a e =
        let q : Program W K S = record p {
          trade_logger = record p.trade_logger { async = l };
          trade_thread = true;
        } in
        let s = started (start_parts lib now socket handler q) p' e in
        let k = start_parts-IsRunning q a refl s.0 in (subst (IsRunning handler) s.1 k.0, k.1)

    with_app_logger-IsRunning :
        (opens_trade : Bool) (what : Text) (p p' : Program W K S) (o : Opened)
        → with_app_logger lib now opens_trade socket handler what p o ≡ answers true p'
        → IsRunning handler p' × (p.stats_collector.config.enabled ≡ true)
    with_app_logger-IsRunning opens_trade what p p' terminates e = cc
    with_app_logger-IsRunning opens_trade what p p' throws e = cc
    with_app_logger-IsRunning opens_trade what p p' (opened l) e =
        with_trade_logger-IsRunning what
          (record p { app_logger = record p.app_logger { async = l }; app_thread = true }) p'
          (open_logger opens_trade p.trade_thread p.trade_logger.async) refl e

    start_program-IsRunning :
        (opens_app opens_trade : Bool) (what : Text) (p p' : Program W K S)
        → start_program lib now opens_app opens_trade socket handler what p ≡ answers true p'
        → IsRunning handler p' × (p.stats_collector.config.enabled ≡ true)
    unfolding start_program
    start_program-IsRunning opens_app opens_trade what p p' e =
        let started_or : Bool → Outcome (Program W K S) = λ b.
          if b
          then answers false p
          else with_app_logger lib now opens_trade socket handler what p
              (open_logger opens_app p.app_thread p.app_logger.async) in
        elim (Bool-cases p.running) [
          | inl y ↦ cc (ap started_or (sym y) ∙ e)
          | inr n ↦
              with_app_logger-IsRunning opens_trade what p p'
                (open_logger opens_app p.app_thread p.app_logger.async) (ap started_or (sym n) ∙ e)
        ]

  module _ ⦃d : Double W⦄ (lib : Kafka K) where
    stop_program-IsStopped :
        (handler : Message → S → S) (now : Moment) (p : Program W K S)
        → IsRunning handler p
        → IsStopped p (stop_program lib now p)
    unfolding stop_program disconnect
    stop_program-IsStopped handler now p h = rw h.itself (record {
      itself = refl;
      loggers = (
        rw h.loggers.0 (thread_left p.app_logger.async.done),
        rw (h.loggers.1, done-log_message p.trade_logger now info (codes "Trading engine stopped"))
            (thread_left p.trade_logger.async.done),
      );
      http = stop_server-rests p.http_server;
      stats = stop-rests p.stats_collector;
      queue = refl;
    })

    -- An engine that answers its start with true runs with all its parts, the handler subscribed to the
    -- orders, and its configuration enables the statistics; a later stop, whatever the clock says, leaves
    -- the engine, the HTTP server and the collector not running and the client of the queue not connected,
    -- and joins the thread of a logger, unless that logger was stopped before: then its thread stays
    -- joinable. So an engine whose statistics are disabled never starts.
    pub start_program_lem :
        (now later : Moment) (opens_app opens_trade socket : Bool) (handler : Message → S → S)
        (what : Text) (p p' : Program W K S)
        → start_program lib now opens_app opens_trade socket handler what p ≡ answers true p'
        → IsRunning handler p'
          × (p.stats_collector.config.enabled ≡ true)
          × IsStopped p' (stop_program lib later p')
    start_program_lem now later opens_app opens_trade socket handler what p p' e =
        let k = start_program-IsRunning lib now socket handler opens_app opens_trade what p p' e in
        (k.0, k.1, stop_program-IsStopped handler later p' k.0)
