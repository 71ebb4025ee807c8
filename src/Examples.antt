-- ===== src/Examples.antt =====
-- Runs of the theorems on concrete clients and packets.
pub mod Client
mod Reading
mod Sending
mod Keys
mod Serving
mod Stores
pub mod Network
mod Session
pub mod Lines
mod Service
mod Running
mod Logging
mod Sockets
