-- ===== src/Api/Routes.antt =====
-- apps/trading_engine/main.cpp: setupCallbacks, the routes of the program. The handlers act on a state S.
use live_trading_engine.Common.{Bool, if◌then◌else◌, codes}
use live_trading_engine.Http.Server.{RequestHandler, HttpServer, register_route}

pub record Handlers {ℓ} (S : Type ℓ) : Type ℓ where
  pub order_request : RequestHandler S
  pub health_request : RequestHandler S
  pub order_book_request : RequestHandler S
  pub stats_request : RequestHandler S
  pub all_stats_request : RequestHandler S
  pub stats_summary_request : RequestHandler S
  pub leaderboard_request : RequestHandler S
  pub admin_stop_trading : RequestHandler S
  pub admin_flush_system : RequestHandler S
  pub admin_resume_trading : RequestHandler S
  pub admin_status : RequestHandler S

module _ {ℓ} {S : Type ℓ} (h : Handlers S) where
  unfoldable pub public_routes : HttpServer S → HttpServer S
  unfolding register_route
  public_routes s0 =
      let s1 = register_route s0 (codes "POST") (codes "/order") h.order_request in
      let s2 = register_route s1 (codes "GET") (codes "/health") h.health_request in
      let s3 =
        register_route s2 (codes "GET") (codes "/api/v1/orderbook/{symbol}") h.order_book_request in
      let s4 = register_route s3 (codes "GET") (codes "/api/v1/stats/{symbol}") h.stats_request in
      let s5 =
        register_route s4 (codes "GET") (codes "/api/v1/stats/{symbol}/{timeframe}")
          h.stats_request in
      let s6 = register_route s5 (codes "GET") (codes "/api/v1/stats/all") h.all_stats_request in
      let s7 =
        register_route s6 (codes "GET") (codes "/api/v1/stats/summary") h.stats_summary_request in
      register_route s7 (codes "GET") (codes "/api/v1/leaderboard") h.leaderboard_request

  unfoldable pub admin_routes : HttpServer S → HttpServer S
  unfolding register_route
  admin_routes s0 =
      let s1 =
        register_route s0 (codes "POST") (codes "/admin/stop_trading") h.admin_stop_trading in
      let s2 =
        register_route s1 (codes "POST") (codes "/admin/flush_system") h.admin_flush_system in
      let s3 =
        register_route s2 (codes "POST") (codes "/admin/resume_trading") h.admin_resume_trading in
      register_route s3 (codes "GET") (codes "/admin/status") h.admin_status

  -- The trade callback and the execution callback are set at the same time.
  unfoldable pub setup_callbacks : Bool → HttpServer S → HttpServer S
  unfolding public_routes admin_routes
  setup_callbacks admin_enabled server =
      if admin_enabled then admin_routes (public_routes server) else public_routes server
