-- ===== src/Http.antt =====
-- include/trading/network/http_server.hpp and src/network/http_server.cpp.
pub mod Message
pub mod Query
pub mod Encoded
pub mod Parameters
pub mod Parse
pub mod Connection
pub mod Received
pub mod Lines
pub mod Written
pub mod Target
pub mod Delivered
pub mod Pattern
pub mod Server
pub mod Direct
pub mod Routing
