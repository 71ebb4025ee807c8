-- ===== src/Server.antt =====
-- class Server (include/gnat/server.h).
pub mod State
pub mod Observer
pub mod Connecting
pub mod Handling
pub mod Replies
pub mod Signals
pub mod Failing
pub mod Publishing
pub mod Subscribing
pub mod Ending
pub mod Keeping
pub mod Reaching
pub mod Fanout
pub mod Answering
pub mod Service
