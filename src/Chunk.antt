-- ===== src/Chunk.antt =====
-- RTMP chunks: protocol/core/chunk_stream.go.
-- `Stream` is the type ChunkStream with what allocates and completes a message, `Writer` and
-- `Reader` are writeChunk and readChunk; the other modules prove what they write and read.
pub mod Stream
pub mod Writer
pub mod Reader
pub mod Header
pub mod Frames
pub mod Body
pub mod Parse
pub mod Receive
pub mod Output
pub mod Input
