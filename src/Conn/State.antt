-- ===== src/Conn/State.antt =====
-- The type RtmpConn of protocol/core/rtmp_conn.go. The net.Conn is inside `rw`; the pool is never
-- used. The map of chunk streams is an association list.
use srtmp.Prelude.{ℕ, List, [], ◌∷◌, Option, none, some, ◌==◌, if◌then◌else◌}
use srtmp.Wire.{ReadWriter}
use srtmp.Chunk.Stream.{ChunkStream}

pub record RtmpConn : Type 0 where
  pub chunk_size : ℕ
  pub remote_chunk_size : ℕ
  pub window_ack_size : ℕ
  pub remote_window_ack_size : ℕ
  pub received : ℕ
  pub ack_received : ℕ
  pub rw : ReadWriter
  pub chunks : List (ℕ × ChunkStream)

unfoldable pub new_rtmp_conn : ReadWriter → RtmpConn
new_rtmp_conn rw = record {
  chunk_size = 128;
  remote_chunk_size = 128;
  window_ack_size = 2500000;
  remote_window_ack_size = 2500000;
  received = 0;
  ack_received = 0;
  rw = rw;
  chunks = [];
}

-- chunks[csid], and the assignment to it.
unfoldable pub find_chunk : ℕ → List (ℕ × ChunkStream) → Option ChunkStream
find_chunk csid [] = none
find_chunk csid ((k, cs) ∷ m) = if k == csid then some cs else find_chunk csid m

unfoldable pub save_chunk : ℕ → ChunkStream → List (ℕ × ChunkStream) → List (ℕ × ChunkStream)
save_chunk csid cs [] = (csid, cs) ∷ []
save_chunk csid cs ((k, c) ∷ m) =
    if k == csid then (csid, cs) ∷ m else (k, c) ∷ save_chunk csid cs m
