-- ===== src/Examples.antt =====
-- Concrete inputs at which the theorems are applied, and runs of the model on them, over the whole
-- numbers.
mod Scene
mod Books
mod Matching
mod Users
mod Orders
mod Statistics
mod Queues
mod Api
mod Logging
mod Settings
mod Http
mod Pool
mod Board
mod Trades
mod Engine
