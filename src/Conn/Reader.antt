-- ===== src/Conn/Reader.antt =====
-- Read of protocol/core/rtmp_conn.go: chunks are read until one completes a message for the caller.
use srtmp.Prelude.{ℕ, zero, suc, bit_and, Bool, length, take}
use srtmp.Prelude.{Option, none, some, leb, ◌==◌, if◌then◌else◌, shr, add32, Error}
use srtmp.Prelude.{Result, ok, err, panic}
use srtmp.Wire.{ReadWriter, Io, bind_io, read_byte, read_uint_le}
use srtmp.Chunk.Stream.{ChunkStream, new_chunk_stream, is_complete}
use srtmp.Chunk.Reader.{read_chunk, Step}
use srtmp.Conn.State.{RtmpConn, find_chunk, save_chunk}
use srtmp.Conn.Control.{handle_control_msg, ack}

-- The chunk stream id, from the six bits of the first byte and the bytes behind it.
unfoldable pub read_csid : ℕ → Io ℕ
read_csid six s =
    if six == 0
    then bind_io (read_byte s) (λ rb t. (ok (add32 rb 64), t))
    else if six == 1
    then bind_io (read_uint_le 2 s) (λ n t. (ok (add32 n 64), t))
    else (ok six, s)

-- What one round of Read's loop does: it returns an error or a message, panics, or goes on.
pub data Round : Type 0 where
  failed : Error → RtmpConn → Round
  crashed : RtmpConn → Round
  again : RtmpConn → Round
  delivered : ChunkStream → RtmpConn → Round

-- chunks[csid], or a new chunk stream.
unfoldable pub chunk_for : ℕ → RtmpConn → ChunkStream
unfolding find_chunk new_chunk_stream
chunk_for csid conn = elim (find_chunk csid conn.chunks) [
  | none ↦ new_chunk_stream csid
  | some cs ↦ cs
]

-- The complete message that is handed to the caller. Its body shares the chunk stream's buffer in Go.
unfoldable pub message_of : ChunkStream → ChunkStream
unfolding new_chunk_stream
message_of cs = record (new_chunk_stream cs.csid) {
  format = cs.format;
  timestamp = cs.timestamp;
  message_length = cs.message_length;
  type_id = cs.type_id;
  stream_id = cs.stream_id;
  body = take cs.message_length cs.body;
}

abbrev pub after_ack : Result (Unit {0}) × RtmpConn → Bool → ChunkStream → Round
after_ack (ok u, conn) handled c = if handled then again conn else delivered c conn
after_ack (err e, conn) handled c = failed e conn
after_ack (panic, conn) handled c = crashed conn

abbrev pub after_control : Result Bool × RtmpConn → ℕ → ChunkStream → Round
after_control (ok handled, conn) size c = after_ack (ack size conn) handled c
after_control (err e, conn) size c = failed e conn
after_control (panic, conn) size c = crashed conn

-- Data[0:Length] panics where the buffer is shorter.
unfoldable pub finish_chunk : ChunkStream → RtmpConn → Round
unfolding is_complete
finish_chunk cs conn =
    if is_complete cs
    then (if leb cs.message_length (length cs.body)
        then after_control (handle_control_msg cs conn) cs.message_length (message_of cs)
        else crashed conn)
    else again conn

abbrev pub after_chunk : Step (Unit {0}) → ℕ → RtmpConn → Round
after_chunk (ok u, cs, s) csid conn =
    finish_chunk cs (record conn { rw = s; chunks = save_chunk csid cs conn.chunks })
after_chunk (err e, cs, s) csid conn =
    failed e (record conn { rw = s; chunks = save_chunk csid cs conn.chunks })
after_chunk (panic, cs, s) csid conn =
    crashed (record conn { rw = s; chunks = save_chunk csid cs conn.chunks })

abbrev pub after_csid : Result ℕ × ReadWriter → ℕ → RtmpConn → Round
after_csid (ok csid, s) format conn =
    let cs = chunk_for csid conn in
    after_chunk (read_chunk (record cs { tmp_format = format }) conn.remote_chunk_size s) csid conn
after_csid (err e, s) format conn = failed e (record conn { rw = s })
after_csid (panic, s) format conn = crashed (record conn { rw = s })

abbrev pub after_byte : Result ℕ × ReadWriter → RtmpConn → Round
after_byte (ok rb, s) conn = after_csid (read_csid (bit_and rb 0x3f) s) (shr rb 6) conn
after_byte (err e, s) conn = failed e (record conn { rw = s })
after_byte (panic, s) conn = crashed (record conn { rw = s })

unfoldable pub read_round : RtmpConn → Round
read_round conn = after_byte (read_byte conn.rw) conn

abbrev pub next_round :
    Round
    → (RtmpConn → Option (Result ChunkStream × RtmpConn))
    → Option (Result ChunkStream × RtmpConn)
next_round (failed e conn) k = some (err e, conn)
next_round (crashed conn) k = some (panic, conn)
next_round (again conn) k = k conn
next_round (delivered m conn) k = some (ok m, conn)

-- `none`: the fuel ran out. Each round reads a byte or returns.
unfoldable pub read : ℕ → RtmpConn → Option (Result ChunkStream × RtmpConn)
read zero conn = none
read (suc fuel) conn = next_round (read_round conn) (read fuel)
