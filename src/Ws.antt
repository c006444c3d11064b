-- ===== src/Ws.antt =====
-- src/ws.c: the WebSocket protocol without system calls.
pub mod Header
pub mod Mask
pub mod Utf8
pub mod Examples
pub mod Close
pub mod Accept
