-- ===== src/Api/Leaderboard.antt =====
-- apps/trading_engine/main.cpp: handleLeaderboardRequest. `now` is the time of the response in seconds,
-- `missing` what the exception of a missing key says.
pub mod Falling
pub mod Ranks
use live_trading_engine.Common.{
  ℕ, suc, ◌+◌, Bool, true, false, ◌&&◌, Option, none, some, List, [], ◌∷◌, if◌then◌else◌, Text,
  codes, ◌++◌, length,
}
use live_trading_engine.Common.Dict.{Dict, lookup}
use live_trading_engine.Common.Double.{Double, nought}
use live_trading_engine.Common.Json.{
  Json, Items, nil, cons, JsonLibrary, text, int, num, arr, obj, fields,
}
use live_trading_engine.Common.Sorting.{sort}
use live_trading_engine.OrderBook.{OrderBook, get_best_bid, get_best_ask}
use live_trading_engine.User.{Position, User}
use live_trading_engine.Matching.{Engine, get_order_book}
use live_trading_engine.Api.{HttpResponse, json_response, create_error_response}

-- What is shown of a position, and of a user.
pub record Shown {ℓ} (W : Type ℓ) : Type ℓ where
  pub symbol : Text
  pub quantity : W
  pub average_price : W
  pub current_price : W
  pub market_value : W
  pub unrealized_pnl : W

pub record Entry {ℓ} (W : Type ℓ) : Type ℓ where
  pub rank : ℕ
  pub user_id : Text
  pub net_worth : W
  pub cash_balance : W
  pub realized_pnl : W
  pub portfolio_value : W
  pub positions : List (Shown W)

module _ {ℓ} {W : Type ℓ} where
  unfoldable pub shown_json : Shown W → Json W
  shown_json p = obj (
      fields (
        (codes "symbol", text p.symbol)
        ∷ (codes "quantity", num p.quantity)
        ∷ (codes "average_price", num p.average_price)
        ∷ (codes "current_price", num p.current_price)
        ∷ (codes "market_value", num p.market_value)
        ∷ (codes "unrealized_pnl", num p.unrealized_pnl)
        ∷ []))

  unfoldable pub all_shown : List (Shown W) → Items W
  unfolding shown_json
  all_shown [] = nil
  all_shown (p ∷ ps) = cons (shown_json p) (all_shown ps)

  unfoldable pub entry_json : Entry W → Json W
  unfolding all_shown
  entry_json e = obj (
      fields (
        (codes "rank", int e.rank)
        ∷ (codes "user_id", text e.user_id)
        ∷ (codes "net_worth", num e.net_worth)
        ∷ (codes "cash_balance", num e.cash_balance)
        ∷ (codes "realized_pnl", num e.realized_pnl)
        ∷ (codes "portfolio_value", num e.portfolio_value)
        ∷ (codes "positions", arr (all_shown e.positions))
        ∷ []))

  unfoldable pub all_entries : List (Entry W) → Items W
  unfolding entry_json
  all_entries [] = nil
  all_entries (e ∷ es) = cons (entry_json e) (all_entries es)

  abbrev pub with_entry : Entry W → Option (List (Entry W)) → Option (List (Entry W))
  with_entry x none = none
  with_entry x (some xs) = some (x ∷ xs)

  unfoldable pub leaderboard_response : JsonLibrary W → ℕ → ℕ → List (Entry W) → HttpResponse
  leaderboard_response lib now total_users board = json_response 200 (
      lib.dump (
        obj (
          fields (
            (codes "timestamp", int now)
            ∷ (codes "total_users", int total_users)
            ∷ (codes "leaderboard", arr (all_entries board))
            ∷ []))))

module _ {ℓ} {W : Type ℓ} ⦃d : Double W⦄ where
  abbrev pub is_better : (a b : Text × W) → Bool
  is_better a b = d.lt b.1 a.1

module _ {ℓ κ} {W : Type ℓ} {S : Type κ} ⦃d : Double W⦄ where
  -- The price by which a position counts for the net worth.
  unfoldable pub market_price : Engine W S → Text → W → W
  market_price e symbol average_price = elim (get_order_book e symbol) [
    | none ↦ average_price
    | some book ↦
        let best_bid = get_best_bid book in
        let best_ask = get_best_ask book in
        if d.lt nought best_bid && d.lt nought best_ask
        then d.div (d.add best_bid best_ask) (d.lit 2 0)
        else if d.lt nought best_bid
        then best_bid
        else if d.lt nought best_ask
        then best_ask
        else average_price
  ]

  unfoldable pub add_positions : Engine W S → W → Dict (Position W) → W
  unfolding market_price
  add_positions e net_worth [] = net_worth
  add_positions e net_worth ((symbol, p) ∷ m) =
      add_positions e
        (if d.le p.quantity nought
          then net_worth
          else d.add net_worth (d.mul p.quantity (market_price e symbol p.average_price)))
        m

  unfoldable pub net_worths : Engine W S → Dict (User W) → List (Text × W)
  unfolding add_positions
  net_worths e [] = []
  net_worths e ((user_id, u) ∷ m) =
      (user_id, add_positions e u.cash_balance u.positions) ∷ net_worths e m

  -- The price that is shown: the average price, unless the book has a better idea.
  unfoldable pub current_price : Engine W S → Text → W → W
  current_price e symbol average_price = elim (get_order_book e symbol) [
    | none ↦ average_price
    | some book ↦
        let best_bid = get_best_bid book in
        let best_ask = get_best_ask book in
        if d.lt nought best_bid && d.lt nought best_ask
        then d.div (d.add best_bid best_ask) (d.lit 2 0)
        else if d.lt nought best_bid
        then best_bid
        else if d.lt nought best_ask
        then best_ask
        else average_price
  ]

  unfoldable pub show : Engine W S → Text → Position W → Shown W
  unfolding current_price
  show e symbol p =
      let market_price = current_price e symbol p.average_price in
      record {
        symbol = symbol;
        quantity = p.quantity;
        average_price = p.average_price;
        current_price = market_price;
        market_value = d.mul p.quantity market_price;
        unrealized_pnl = d.mul (d.sub market_price p.average_price) p.quantity;
      }

  unfoldable pub show_positions : Engine W S → Dict (Position W) → List (Shown W)
  unfolding show
  show_positions e [] = []
  show_positions e ((symbol, p) ∷ m) =
      let rest = show_positions e m in
      if d.le p.quantity nought then rest else show e symbol p ∷ rest

  unfoldable pub entry_of : Engine W S → ℕ → Text → W → User W → Entry W
  unfolding show_positions
  entry_of e rank user_id net_worth u = record {
    rank = rank;
    user_id = user_id;
    net_worth = net_worth;
    cash_balance = u.cash_balance;
    realized_pnl = u.realized_pnl;
    portfolio_value = d.sub net_worth u.cash_balance;
    positions = show_positions e u.positions;
  }

  abbrev pub entry_or :
      Engine W S
      → ℕ
      → Text
      → W
      → Option (List (Entry W))
      → Option (User W)
      → Option (List (Entry W))
  entry_or e rank user_id net_worth rest none = none
  entry_or e rank user_id net_worth rest (some u) =
      with_entry (entry_of e rank user_id net_worth u) rest

  -- `none` is the exception of `all_users.at`.
  unfoldable pub entries : Engine W S → ℕ → List (Text × W) → Option (List (Entry W))
  unfolding entry_of
  entries e rank [] = some []
  entries e rank ((user_id, net_worth) ∷ pairs) =
      entry_or e rank user_id net_worth (entries e (suc rank) pairs) (lookup user_id e.users)

  unfoldable pub leaderboard : Engine W S → Option (List (Entry W))
  leaderboard e = entries e 1 (sort is_better (net_worths e e.users))

  module _ (lib : JsonLibrary W) (missing : Text) (now : ℕ) where
    unfoldable pub handle_leaderboard_request : Engine W S → HttpResponse
    unfolding leaderboard leaderboard_response
    handle_leaderboard_request e = elim e.users [
      | [] ↦ leaderboard_response lib now 0 []
      | u ∷ us ↦ elim (leaderboard e) [
        | none ↦ create_error_response lib 500 (codes "Internal server error: " ++ missing)
        | some board ↦ leaderboard_response lib now (length (net_worths e e.users)) board
      ]
    ]
