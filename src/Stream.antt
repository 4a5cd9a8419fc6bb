-- ===== src/Stream.antt =====
-- Streams: one publisher and its players. protocol/stream.go, stream_rw.go and stream_handler.go.
pub mod Statics
pub mod Writer
pub mod Reader
pub mod Sound
pub mod Loop
pub mod Playback
pub mod Handler
pub mod Joining
