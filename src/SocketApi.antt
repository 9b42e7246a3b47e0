-- ===== src/SocketApi.antt =====
-- The containers of the socket API library (socketapi/).
pub mod IdentifierBitmap
pub mod NotificationQueue
mod Examples
