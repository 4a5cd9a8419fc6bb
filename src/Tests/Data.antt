-- ===== src/Tests/Data.antt =====
-- The inputs of the runs.
use srtmp.Prelude.{ℕ, false, List, [], ◌∷◌, none, some, refl, arith}
use srtmp.Wire.{ReadWriter}
use srtmp.Wire.Writes.{CanWrite}
use srtmp.Chunk.Stream.{ChunkStream}
use srtmp.Conn.State.{RtmpConn, new_rtmp_conn}
use srtmp.Conn.Frames.{IsSent}
use srtmp.Conn.Delivery.{CanReceive}

abbrev pub idle_rw : ReadWriter
idle_rw = record {
  input = [];
  read_error = none;
  output = [];
  flushed = 0;
  limit = none;
  failed = false;
  write_error = none;
}

-- A connection that takes one byte more and brings one.
abbrev pub failing_rw : ReadWriter
failing_rw = record idle_rw { limit = some 1; input = 5 ∷ [] }

pub idle_rw-CanWrite : CanWrite idle_rw
idle_rw-CanWrite = record { healthy = refl; unlimited = refl; no_error = refl }

-- Three bytes of video.
abbrev pub video_message : ChunkStream
video_message = record {
  format = 0;
  csid = 4;
  timestamp = 1000;
  message_length = 3;
  type_id = 9;
  stream_id = 1;
  body = 1 ∷ 2 ∷ 3 ∷ [];
  pts = 0;
  dts = 0;
  time_delta = 0;
  exted = false;
  index = 0;
  remain = 0;
  complete = false;
  tmp_format = 0;
}

pub video_message-IsSent : IsSent video_message
video_message-IsSent = record {
  message = record {
    full = refl;
    time_fits = omega arith;
    length_fits = omega arith;
    type_fits = omega arith;
    stream_fits = omega arith;
  };
  csid_low = omega arith;
  csid_high = omega arith;
  own = omega arith;
  nonempty = omega arith;
  whole = refl;
}

-- A new connection, with other bytes to read and another chunk size of its peer.
unfoldable pub peer : List ℕ → ℕ → RtmpConn
unfolding new_rtmp_conn
peer bs n = record (new_rtmp_conn (record idle_rw { input = bs })) { remote_chunk_size = n }

pub peer-CanReceive : (bs : List ℕ) (n : ℕ) → CanReceive (peer bs n)
unfolding peer
peer-CanReceive bs n = record {
  readable = refl;
  writable = record { healthy = refl; unlimited = refl; no_error = refl };
  sends = omega arith;
}
