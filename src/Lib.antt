-- ===== src/Lib.antt =====
-- A model of the live trading engine (C++): the orders, the order books, the matching engine, the
-- users' portfolios, the HTTP server and its handlers, the statistics, the queues and the loggers, with
-- the theorems about them.
--
-- The program receives orders over HTTP, queues them, and processes the queue: an order is
-- validated, put into the order book of its symbol, and matched against the other side of that book.
-- Each trade moves cash and shares between the portfolios of two users and is handed to a callback,
-- which logs it, submits it to the statistics and confirms it.
--
--   Order          include/trading/core/order.hpp, src/core/order.cpp
--     Store        the heap behind std::shared_ptr<Order>: the book and its callers share orders,
--                  so that a fill through one pointer is seen through all
--   OrderBook      include/trading/core/orderbook.hpp, src/core/orderbook.cpp
--     Ladder       the std::map of price levels of one side, in the order of its comparison
--     Push, Books  addOrder against a queue with price-time priority; the best prices
--   Matching       include/trading/core/matching_engine.hpp, src/core/matching_engine.cpp
--     Loop         the loop over the active opposite orders
--     Allocation   the specification: the quantity each resting order gets
--     Refines, Priority, Orders, Limit, Market, Ids   matchOrder against that specification
--     Settle, Solvent, Cash   updateUserPortfolios and the callback for each trade
--   User           include/trading/core/user.hpp, src/core/user.cpp
--   Validation     include/trading/validation/order_validator.hpp, src/validation/order_validator.cpp
--   Executor       include/trading/execution/executor.hpp, src/execution/executor.cpp
--   Pipeline       apps/trading_engine/main.cpp: the processing of a queued order, from its JSON text
--                  to the trades; Sane, Keeps and Process have the invariant of the whole engine;
--                  Effects and Encoded: what a message does to it;
--                  Trades: what a trade leaves in the log and with the statistics;
--                  Lifecycle and its Running: the start and the stop of the engine
--   Statistics     include/trading/statistics/instrument_stats.hpp, the update by a trade
--     Collector    include/trading/statistics/statistics_collector.hpp and
--                  src/statistics/statistics_collector.cpp, its threads as steps over the ring of slots
--     Summary, Buckets, History, Faithful, Stopped   what the buckets sum up, on every run of the
--                  collector, and what its stop leaves
--   Config         include/trading/utils/config.hpp, src/utils/config.cpp
--   Messaging      include/trading/messaging/queue_client.hpp, src/messaging/queue_client.cpp
--     Address      the check of the broker addresses; Printed, Hosts, Brokers: what it takes
--   Http           include/trading/network/http_server.hpp, src/network/http_server.cpp
--     Message, Query, Parse, Connection   from the bytes of a connection to the request, and back
--     Encoded, Parameters, Lines, Written, Target, Received, Delivered   what a client's request
--                  becomes on that way
--     Pattern, Server   the routes; Direct, Routing: the router against a plain rule
--   Api            apps/trading_engine/main.cpp: the HTTP handlers (Admin: the password check and the
--                  admin handlers; Routes: the routes; Leaderboard: the users by net worth, with
--                  Falling and Ranks on its order; Shadowed: what the route of one symbol takes;
--                  Stats and its Summary: the statistics)
--     Password, Guard, Flush, Requests   who may do what, and what it changes
--   ConcurrentQueue  include/trading/utils/concurrent_queue.hpp: the ring of slots, as steps of its
--                  producers and its consumer (Ring), which Producers and Consumer keep in order, and
--                  Delivery: what the consumer is given
--   Logging        include/trading/logging/async_logger.hpp over
--                  include/trading/utils/thread_safe_queue.hpp, as steps
--     Lines, Trades   the loggers of the application and of the trades, and their lines
--     Written, Drain   what every run writes, and what stop waits for
--   ThreadPool     include/trading/utils/thread_pool.hpp, src/utils/thread_pool.cpp: the workers and their
--                  queue, as steps
--     Runs, Joined   what becomes of the tasks, and how long the destructor waits
--   Common         lists, texts, dictionaries, integers, doubles and JSON values; Streams and Numbers:
--                  std::getline, find, std::stoi and the like
--   Examples       concrete scenes, on which the theorems are run
--
-- Texts are lists of bytes. A std::map or std::unordered_map with string keys is an association list
-- (Common.Dict), sorted by the bytes of the keys. `double` is any type with the operations of the
-- record Double; what a theorem needs of it is a hypothesis: IsIeee has laws that hold of every IEEE
-- 754 double (an order on numbers that are not NaN, monotone subtraction, and so on), IsExact has
-- the laws that hold while no rounding takes place. Common.Int instantiates both by the integers.
-- The uint64_t counters wrap around at 2 ^ 64. Loops are structural recursion on the list they walk,
-- and only Statistics.Collector.drain_ring has fuel, one round more than there are events in the queue.
-- The clock is an argument, which gives the time of a trade by its number.
-- The client's trade callback is an argument that acts on a state of the client.
-- The calls of librdkafka are the record Kafka, the calls of recv a list of events. std::regex is
-- modelled for the expressions that the routes of the program make.
--
-- std::sort is a stable sort, which is one of the orders that it may give.
--
-- Not modelled: initialize and main of apps/trading_engine/main.cpp, which make the parts and wait, and
-- the time buckets of the statistics, whose results are not used; the JSON library (its printer is an
-- argument), files, sockets, librdkafka and the wall clock, which are not the program's own code; the
-- mutexes of the components that are modelled as sequences of steps.
pub mod Common
pub mod Order
pub mod OrderBook
pub mod User
pub mod Matching
pub mod Validation
pub mod Config
pub mod Messaging
pub mod Http
pub mod Executor
pub mod Pipeline
pub mod Api
pub mod ThreadPool
pub mod ConcurrentQueue
pub mod Logging
pub mod Statistics
pub mod Examples
