-- ===== src/Tests.antt =====
-- Runs of every part on concrete inputs.
mod Data
mod Wire
mod Chunk
mod Conn
mod Amf
mod Handshake
mod Media
mod Stores
mod Session
mod Stream
mod H264
mod Codec
