-- ===== src/Proto3.antt =====
-- The packets of MQTT up to 3.1.1 (include/gnat/packets.h, namespace proto3).
pub mod Connect
pub mod ConnectAck
pub mod Publish
pub mod Subscribe
pub mod SubscribeAck
pub mod PingResp
pub mod Ending
