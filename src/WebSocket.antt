-- ===== src/WebSocket.antt =====
-- include/lohin/websocket.hpp: frames, and the state that reads them.
pub mod Frame
pub mod State
pub mod Bounds
pub mod Delivery
pub mod Sha1
pub mod Handshake
mod Tests
