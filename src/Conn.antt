-- ===== src/Conn.antt =====
-- An RTMP connection: protocol/core/rtmp_conn.go.
-- `State` is the type RtmpConn, `Control` builds and handles the messages of the protocol itself,
-- with Write, `Reader` is Read. The others are about what these do.
pub mod State
pub mod Control
pub mod Reader
pub mod Basic
pub mod Delivery
pub mod Frames
pub mod RoundTrip
pub mod Progress
pub mod Sending
pub mod Agreement
pub mod Resizing
