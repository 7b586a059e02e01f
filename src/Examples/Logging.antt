-- ===== src/Examples/Logging.antt =====
-- A run of the logger.
use live_trading_engine.Common.{true, false, ◌≡◌, refl, List, [], ◌∷◌, Text, text_eq, codes}
use live_trading_engine.Logging.{
  ended, AsyncLogger, start_logger, push_log, write_log, run_once, request_stop, close,
}
use live_trading_engine.Logging.Drain.{stop_logger, stop_logger-writes_all}
use live_trading_engine.Logging.Written.{
  Reaches, initially, tested, pushed, worked, stopped, closed, IsFaithful, messages,
  Reaches-IsWritten,
}

abbrev late : List Text
late = codes "late" ∷ []

-- A thread tests `done_`, the logger is stopped, and the message comes behind the sentinel.
stopped_logger : Reaches [] late (request_stop start_logger)
unfolding start_logger
stopped_logger =
    stopped [] late start_logger (tested [] [] start_logger (codes "late") initially refl)

abbrev last : AsyncLogger
last = close (run_once (run_once (run_once (push_log (request_stop start_logger) (codes "late")))))

closed_logger : Reaches late [] last
unfolding start_logger run_once request_stop push_log write_log text_eq
closed_logger =
    closed late [] _
      (worked _ _ _ (
        worked _ _ _ (
          worked _ _ _
            (pushed [] [] [] (request_stop start_logger) (codes "late") stopped_logger))))
      refl

late_is_written : last.log_file ≡ late
unfolding start_logger run_once request_stop push_log write_log close text_eq
late_is_written = refl

Reaches-IsWritten_example : IsFaithful late last
Reaches-IsWritten_example = Reaches-IsWritten late [] last closed_logger

one_queued : Reaches late [] (push_log start_logger (codes "late"))
unfolding start_logger
one_queued =
    pushed [] [] [] start_logger (codes "late")
      (tested [] [] start_logger (codes "late") initially refl)

stop_logger-writes_all_example : stop_logger (push_log start_logger (codes "late")) ≡ record {
  log_queue = [];
  log_file = messages late;
  is_open = false;
  done = true;
  phase = ended;
}
unfolding push_log start_logger
stop_logger-writes_all_example =
    stop_logger-writes_all late [] (push_log start_logger (codes "late")) one_queued refl refl
