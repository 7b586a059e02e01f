-- ===== src/Examples/Board.antt =====
-- A leaderboard of two users.
use live_trading_engine.Common.{ℕ, some, ◌≡◌, refl, [], ◌∷◌, List, All, codes, length, text_eq}
use live_trading_engine.Common.Dict.{lookup}
use live_trading_engine.Common.Int.{ℤ, pos, ◌+ℤ◌, ◌*ℤ◌}
use live_trading_engine.Common.Double.{Int-IsIeee, int_double}
use live_trading_engine.Matching.{Engine, get_order_book}
use live_trading_engine.User.{User}
use live_trading_engine.Api.Leaderboard.{
  Entry, net_worths, add_positions, market_price, leaderboard_response, handle_leaderboard_request,
}
use live_trading_engine.Api.Leaderboard.Ranks.{IsRanking, handle_leaderboard_request_lem}
use live_trading_engine.OrderBook.{first_price, get_best_bid, get_best_ask}
use live_trading_engine.Api.Leaderboard.Falling.{NumPair}
use live_trading_engine.Examples.Scene.{market_engine, market_book}
use live_trading_engine.Examples.Orders.{json}

abbrev saver : User ℤ
saver = record {
  user_id = codes "saver";
  cash_balance = pos 300;
  realized_pnl = pos 0;
  positions = [];
}

-- The shares are worth 100 each in the book.
abbrev holder : User ℤ
holder = record {
  user_id = codes "zoe";
  cash_balance = pos 150;
  realized_pnl = pos 7;
  positions =
      (codes "AAPL", record { symbol = codes "AAPL"; quantity = pos 2; average_price = pos 50 })
      ∷ [];
}

abbrev two_users : Engine ℤ ℕ
two_users = record market_engine {
  orderbooks = (codes "AAPL", market_book) ∷ [];
  users = (codes "saver", saver) ∷ (codes "zoe", holder) ∷ [];
}

two_users_found : All (λ x. lookup x.0 two_users.users ≡ some x.1) two_users.users
unfolding lookup text_eq
two_users_found = (refl, (refl, tt))

two_users_numbers : All NumPair (net_worths two_users two_users.users)
unfolding net_worths add_positions market_price get_order_book lookup text_eq first_price
    get_best_bid get_best_ask ◌+ℤ◌ ◌*ℤ◌
two_users_numbers = (refl, (refl, tt))

handle_leaderboard_request_lem_example :
    (board : List (Entry ℤ)) × (handle_leaderboard_request json [] 0 two_users
      ≡ leaderboard_response json 0 (length two_users.users) board)
    × IsRanking two_users board
handle_leaderboard_request_lem_example =
    handle_leaderboard_request_lem two_users json [] 0 Int-IsIeee two_users_found two_users_numbers
