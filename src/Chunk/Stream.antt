-- ===== src/Chunk/Stream.antt =====
-- The type ChunkStream of protocol/core/chunk_stream.go, a message that is sent or received.
-- `body` is the field Data; a buffer that `alloc` makes has no capacity beyond its length, and the
-- model takes a slice that reaches behind its body for a panic.
use srtmp.Prelude.{ℕ, Bool, false, List, [], length, replicate, ltb, if◌then◌else◌}

pub record ChunkStream : Type 0 where
  pub format : ℕ
  pub csid : ℕ
  pub timestamp : ℕ
  pub message_length : ℕ
  pub type_id : ℕ
  pub stream_id : ℕ
  pub body : List ℕ
  pub pts : ℕ
  pub dts : ℕ
  pub time_delta : ℕ
  pub exted : Bool
  pub index : ℕ
  pub remain : ℕ
  pub complete : Bool
  pub tmp_format : ℕ

-- &ChunkStream{CSID: csid}
unfoldable pub new_chunk_stream : ℕ → ChunkStream
new_chunk_stream csid = record {
  format = 0;
  csid = csid;
  timestamp = 0;
  message_length = 0;
  type_id = 0;
  stream_id = 0;
  body = [];
  pts = 0;
  dts = 0;
  time_delta = 0;
  exted = false;
  index = 0;
  remain = 0;
  complete = false;
  tmp_format = 0;
}

unfoldable pub is_complete : ChunkStream → Bool
is_complete cs = cs.complete

unfoldable pub alloc : ChunkStream → ChunkStream
alloc cs = record cs {
  complete = false;
  index = 0;
  remain = cs.message_length;
  body = if ltb (length cs.body) cs.message_length then replicate cs.message_length 0 else cs.body;
}
