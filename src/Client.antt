-- ===== src/Client.antt =====
-- server/client.c: what a client may ask of the server. Each handler takes the descriptor of the
-- client that asks, and what `json_unpack` finds in its request (`none` where it fails).
pub mod Groups
pub mod Messages
pub mod Session
pub mod Examples
