-- ===== src/Socket.antt =====
-- server/socket.c: DiME messages framed on a pair of byte rings, with or without WebSocket frames
-- around them, and the setup of a socket.
pub mod Bytes
pub mod State
pub mod Sending
pub mod Unframe
pub mod Receiving
pub mod Partial
pub mod Push
pub mod Examples
pub mod Pop
pub mod Stream
pub mod Stuck
pub mod Upgrade
pub mod Setup
pub mod Transfer
