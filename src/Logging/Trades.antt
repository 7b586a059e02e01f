-- ===== src/Logging/Trades.antt =====
-- include/trading/logging/trade_logger.hpp and src/logging/trade_logger.cpp: the trades' logger.
use live_trading_engine.Common.{
  ℕ, ◌+◌, ◌*◌, ◌%◌, ◌^◌, Bool, true, ltb, List, [], ◌∷◌, ◌++◌, if◌then◌else◌, Text, codes, decimal,
}
use live_trading_engine.Common.Double.{Double}
use live_trading_engine.Matching.Loop.{Trade}
use live_trading_engine.Executor.{
  ExecutionStatus, success, failed, partial, pending, ExecutionResult,
}
use live_trading_engine.Logging.{AsyncLogger}
use live_trading_engine.Logging.Lines.{LogLevel, info, severity, Moment, format_log_entry, add_log}

pub record TradeConfirmation {ℓ} (W : Type ℓ) : Type ℓ where
  pub confirmation_id : Text
  pub trade_id : Text
  pub symbol : Text
  pub quantity : W
  pub price : W
  pub timestamp : ℕ
  pub status : Text

-- `console` is what std::cout got.
pub record TradeLogger : Type 0 where
  pub async : AsyncLogger
  pub current_log_level : LogLevel
  pub max_file_size : ℕ
  pub console_output_enabled : Bool
  pub next_confirmation_id : ℕ
  pub console : List Text

unfoldable pub new_trade_logger : AsyncLogger → TradeLogger
new_trade_logger async = record {
  async = async;
  current_log_level = info;
  max_file_size = 100 * 1024 * 1024;
  console_output_enabled = true;
  next_confirmation_id = 1;
  console = [];
}

-- The queue for the file, and the console.
unfoldable pub put_line : TradeLogger → Text → TradeLogger
unfolding add_log
put_line l line = record l {
  async = add_log l.async line;
  console = if l.console_output_enabled then l.console ++ (line ∷ []) else l.console;
}

unfoldable pub log_message : TradeLogger → Moment → LogLevel → Text → TradeLogger
unfolding put_line
log_message l now level message =
    if ltb (severity level) (severity l.current_log_level)
    then l
    else put_line l (format_log_entry now level message)

-- The number of a status.
unfoldable pub status_number : ExecutionStatus → ℕ
status_number success = 0
status_number failed = 1
status_number partial = 2
status_number pending = 3

unfoldable pub error_part : Text → Text
error_part [] = []
error_part (c ∷ cs) = codes " Error: " ++ (c ∷ cs)

module _ {ℓ} {W : Type ℓ} ⦃d : Double W⦄ where
  unfoldable pub trade_text : Trade W → Text
  trade_text t =
      codes "TRADE: "
      ++ (t.trade_id
          ++ (codes " Symbol: "
              ++ (t.symbol
                  ++ (codes " Quantity: "
                      ++ (d.print t.quantity
                          ++ (codes " Price: "
                              ++ (d.print t.price
                                  ++ (codes " Buy Order: "
                                      ++ (t.buy_order_id
                                          ++ (codes " Sell Order: " ++ t.sell_order_id))))))))))

  unfoldable pub log_trade : TradeLogger → Moment → Trade W → TradeLogger
  unfolding put_line trade_text
  log_trade l now t = put_line l (format_log_entry now info (trade_text t))

  unfoldable pub execution_text : ExecutionResult W → Text
  unfolding status_number error_part
  execution_text result =
      codes "EXECUTION: "
      ++ (result.execution_id
          ++ (codes " Status: "
              ++ (decimal (status_number result.status)
                  ++ (codes " Quantity: "
                      ++ (d.print result.executed_quantity
                          ++ (codes " Price: "
                              ++ (d.print result.executed_price
                                  ++ error_part result.error_message)))))))

  unfoldable pub log_execution : TradeLogger → Moment → ExecutionResult W → TradeLogger
  unfolding put_line execution_text
  log_execution l now result = put_line l (format_log_entry now info (execution_text result))

unfoldable pub generate_confirmation_id : TradeLogger → Text × TradeLogger
generate_confirmation_id l = (
  codes "CONF_" ++ decimal l.next_confirmation_id,
  record l { next_confirmation_id = (l.next_confirmation_id + 1) % 2 ^ 64 },
)

module _ {ℓ} {W : Type ℓ} where
  unfoldable pub create_confirmation : TradeLogger → Trade W → TradeConfirmation W × TradeLogger
  unfolding generate_confirmation_id
  create_confirmation l t =
      let (id, l') = generate_confirmation_id l in
      (
        record {
          confirmation_id = id;
          trade_id = t.trade_id;
          symbol = t.symbol;
          quantity = t.quantity;
          price = t.price;
          timestamp = t.timestamp;
          status = codes "CONFIRMED";
        },
        l',
      )

  unfoldable pub confirmation_text : TradeConfirmation W → Text
  confirmation_text c =
      codes "CONFIRMATION: "
      ++ (c.confirmation_id
          ++ (codes " Trade: " ++ (c.trade_id ++ (codes " Status: " ++ c.status))))

  unfoldable pub send_confirmation : TradeLogger → Moment → TradeConfirmation W → Bool × TradeLogger
  unfolding put_line confirmation_text
  send_confirmation l now c = (true, put_line l (format_log_entry now info (confirmation_text c)))

unfoldable pub set_log_level : TradeLogger → LogLevel → TradeLogger
set_log_level l level = record l { current_log_level = level }

unfoldable pub set_rotate_size : TradeLogger → ℕ → TradeLogger
set_rotate_size l max_size_bytes = record l { max_file_size = max_size_bytes }

unfoldable pub enable_console_output : TradeLogger → Bool → TradeLogger
enable_console_output l enable = record l { console_output_enabled = enable }
