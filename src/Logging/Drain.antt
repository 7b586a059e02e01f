-- ===== src/Logging/Drain.antt =====
-- The end of the worker: stop waits until all that is queued is written.
use live_trading_engine.Common.{
  if◌then◌else◌, ℕ, zero, suc, ◌+◌, ◌≡◌, refl, sym, ap, ◌∙◌, ◌⊎◌, inl, inr, Bool-cases, true, false,
  List, [], ◌∷◌, ◌++◌, Text, text_eq, text_eq_refl, length, length-append, arith,
}
use mathlib.Core.List.{append_assoc, append-nil}
use live_trading_engine.Logging.{
  AsyncLogger, Phase, working, draining, ended, sentinel, push, write_log, run_once, request_stop,
  close,
}
use live_trading_engine.Logging.Written.{
  messages, messages-push, messages-skips, messages-keeps, Reaches, Reaches-IsWritten,
}

-- Rounds of the worker.
unfoldable pub rounds : ℕ → AsyncLogger → AsyncLogger
rounds zero l = l
rounds (suc n) l = rounds n (run_once l)

-- The logger in a phase, with its queue and its file.
abbrev pub logger : Phase → List Text → List Text → AsyncLogger
logger p q f = record { log_queue = q; log_file = f; is_open = true; done = true; phase = p }

-- Both loops of the worker treat a message alike, but for the phase after a sentinel.
run_once-skips :
    (m : Text) (q f : List Text)
    → text_eq m sentinel ≡ true
    → (run_once (logger working (m ∷ q) f) ≡ logger draining q f)
      × (run_once (logger draining (m ∷ q) f) ≡ logger draining q f)
unfolding run_once
run_once-skips m q f e = (rw e refl, rw e refl)

run_once-writes :
    (m : Text) (q f : List Text)
    → text_eq m sentinel ≡ false
    → (run_once (logger working (m ∷ q) f) ≡ logger working q (f ++ (m ∷ [])))
      × (run_once (logger draining (m ∷ q) f) ≡ logger draining q (f ++ (m ∷ [])))
unfolding run_once write_log
run_once-writes m q f e = (rw e refl, rw e refl)

ended-skips :
    (m : Text) (q f : List Text)
    → text_eq m sentinel ≡ true
    → logger ended [] (f ++ messages q) ≡ logger ended [] (f ++ messages (m ∷ q))
ended-skips m q f e = ap (λ ms. logger ended [] (f ++ ms)) (sym (messages-skips m q e))

ended-keeps :
    (m : Text) (q f : List Text)
    → text_eq m sentinel ≡ false
    → logger ended [] ((f ++ (m ∷ [])) ++ messages q) ≡ logger ended [] (f ++ messages (m ∷ q))
ended-keeps m q f e =
    ap (logger ended [])
      (append_assoc f (m ∷ []) (messages q) ∙ ap (λ ms. f ++ ms) (sym (messages-keeps m q e)))

drain-logger :
    (q f : List Text)
    → rounds (suc (length q)) (logger draining q f) ≡ logger ended [] (f ++ messages q)
unfolding rounds run_once messages
drain-logger [] f = ap (logger ended []) (sym (append-nil f))
drain-logger (m ∷ q) f = elim (Bool-cases (text_eq m sentinel)) [
  | inl e ↦
      ap (rounds (suc (length q))) (run_once-skips m q f e).1
      ∙ drain-logger q f
      ∙ ended-skips m q f e
  | inr e ↦
      ap (rounds (suc (length q))) (run_once-writes m q f e).1
      ∙ drain-logger q (f ++ (m ∷ []))
      ∙ ended-keeps m q f e
]

work-logger :
    (q f : List Text)
    → rounds (suc (length (push q sentinel))) (logger working (push q sentinel) f)
      ≡ logger ended [] (f ++ messages q)
unfolding rounds push messages
work-logger [] f =
    ap (rounds 1) (run_once-skips sentinel [] f (text_eq_refl sentinel)).0 ∙ drain-logger [] f
work-logger (m ∷ q) f = elim (Bool-cases (text_eq m sentinel)) [
  | inl e ↦
      ap (rounds (suc (length (push q sentinel)))) (run_once-skips m (push q sentinel) f e).0
      ∙ drain-logger (push q sentinel) f
      ∙ ap (λ ms. logger ended [] (f ++ ms)) (messages-push q)
      ∙ ended-skips m q f e
  | inr e ↦
      ap (rounds (suc (length (push q sentinel)))) (run_once-writes m (push q sentinel) f e).0
      ∙ work-logger q (f ++ (m ∷ []))
      ∙ ended-keeps m q f e
]

-- stop, with the rounds of the worker until it has taken every message and finds the queue empty.
unfoldable pub stop_logger : AsyncLogger → AsyncLogger
stop_logger l = if l.done then l else close (rounds (2 + length l.log_queue) (request_stop l))

rounds_lem :
    (ms q f : List Text)
    → messages ms ≡ f ++ messages q
    → rounds (2 + length q) (logger working (push q sentinel) f) ≡ logger ended [] (messages ms)
unfolding push
rounds_lem ms q f e =
    ap (λ n. rounds n (logger working (push q sentinel) f))
      (omega (arith, length-append q (sentinel ∷ [])))
    ∙ work-logger q f
    ∙ ap (logger ended []) (sym e)

still_open :
    (l : AsyncLogger)
    → l.phase ≡ working
    → (l.is_open ≡ true) ⊎ (l.phase ≡ ended)
    → l.is_open ≡ true
still_open l runs (inl o) = o
still_open l runs (inr e) = grind arith

request_stop-running :
    (l : AsyncLogger)
    → l.phase ≡ working
    → l.done ≡ false
    → l.is_open ≡ true
    → request_stop l ≡ logger working (push l.log_queue sentinel) l.log_file
unfolding request_stop
request_stop-running l runs on o = rw on (rw runs (rw o refl))

-- Whatever has happened before, if the worker still waits for messages and stop was not called, then
-- stop, with no thread pushing meanwhile, ends the worker after one round for each queued message and
-- two more: the queue is then empty, the file closed, and the file holds the messages pushed since the
-- start, in their order, less those that are the text of the sentinel.
pub stop_logger-writes_all :
    (ms waiting : List Text) (l : AsyncLogger)
    → Reaches ms waiting l
    → l.phase ≡ working
    → l.done ≡ false
    → stop_logger l ≡ record {
      log_queue = [];
      log_file = messages ms;
      is_open = false;
      done = true;
      phase = ended;
    }
unfolding stop_logger close
stop_logger-writes_all ms waiting l r runs on =
    rw on refl
    ∙ ap (λ k. close (rounds (2 + length l.log_queue) k))
        (request_stop-running l runs on (still_open l runs (Reaches-IsWritten ms waiting l r).1))
    ∙ ap close (rounds_lem ms l.log_queue l.log_file (Reaches-IsWritten ms waiting l r).0)
