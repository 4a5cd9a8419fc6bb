-- ===== src/Conn/Control.antt =====
-- The messages of the protocol itself: protocol/core/rtmp_conn.go.
use srtmp.Prelude.{ℕ, bit_and, Bool, true, false, List, [], ◌∷◌, ◌++◌, take, drop}
use srtmp.Prelude.{replicate, leb, ◌==◌, if◌then◌else◌, byte, shr, add32}
use srtmp.Prelude.{Result, ok, err, panic}
use srtmp.Bytes.{u32_be, put_u32_be}
use srtmp.Wire.{flush, ReadWriter}
use srtmp.Chunk.Stream.{ChunkStream, new_chunk_stream}
use srtmp.Chunk.Writer.{write_chunk}
use srtmp.Conn.State.{RtmpConn}

abbrev pub put_or_nil : Result (List ℕ) → List ℕ
put_or_nil (ok bs) = bs
put_or_nil _ = []

-- Every size in use is 4 or more, so that the value fits.
unfoldable pub init_control_msg : ℕ → ℕ → ℕ → ChunkStream
unfolding new_chunk_stream put_u32_be
init_control_msg id size value = record (new_chunk_stream 2) {
  type_id = id;
  message_length = size;
  body = put_or_nil (put_u32_be (replicate size 0) value);
}

unfoldable pub new_ack : ℕ → ChunkStream
unfolding init_control_msg
new_ack size = init_control_msg 3 4 size

unfoldable pub new_set_chunk_size : ℕ → ChunkStream
unfolding init_control_msg
new_set_chunk_size size = init_control_msg 1 4 size

unfoldable pub new_window_ack_size : ℕ → ChunkStream
unfolding init_control_msg
new_window_ack_size size = init_control_msg 5 4 size

-- Data[4] = 2
unfoldable pub new_set_peer_bandwidth : ℕ → ChunkStream
unfolding init_control_msg
new_set_peer_bandwidth size =
    let ret = init_control_msg 6 5 size in
    record ret { body = take 4 ret.body ++ (2 ∷ drop 5 ret.body) }

-- The first two bytes are the event type; the others are 0.
unfoldable pub user_control_msg : ℕ → ℕ → ChunkStream
unfolding new_chunk_stream
user_control_msg event_type buflen = record (new_chunk_stream 2) {
  type_id = 4;
  stream_id = 1;
  message_length = add32 buflen 2;
  body =
      byte (bit_and (shr event_type 8) 0xff)
      ∷ byte (bit_and event_type 0xff)
      ∷ drop 2 (replicate (add32 buflen 2) 0);
}

-- The loop over the four bytes of the number 1 that SetBegin and SetRecorded write.
unfoldable pub stream_event : ℕ → ChunkStream
unfolding user_control_msg
stream_event event_type =
    let ret = user_control_msg event_type 4 in
    record ret {
      body =
          take 2 ret.body
          ++ (byte (bit_and (shr 1 24) 0xff)
              ∷ byte (bit_and (shr 1 16) 0xff)
              ∷ byte (bit_and (shr 1 8) 0xff)
              ∷ byte (bit_and (shr 1 0) 0xff)
              ∷ []);
    }

-- The result says that the message was the protocol's own. Go's BigEndian.Uint32 panics on fewer
-- than four bytes.
abbrev pub set_control : Result ℕ → RtmpConn → (ℕ → RtmpConn) → Result Bool × RtmpConn
set_control (ok n) conn f = (ok true, f n)
set_control (err e) conn f = (err e, conn)
set_control panic conn f = (panic, conn)

unfoldable pub handle_control_msg : ChunkStream → RtmpConn → Result Bool × RtmpConn
handle_control_msg c conn =
    if c.type_id == 1
    then set_control (u32_be c.body) conn (λ n. record conn { remote_chunk_size = n })
    else if c.type_id == 5
    then set_control (u32_be c.body) conn (λ n. record conn { remote_window_ack_size = n })
    else if c.type_id == 2
    then (ok true, conn)
    else if c.type_id == 3
    then (ok true, conn)
    else if c.type_id == 4
    then (ok true, conn)
    else if c.type_id == 6
    then (ok true, conn)
    else (ok false, conn)

-- The error of the acknowledgement's chunk is dropped; a panic is not.
abbrev pub acked :
    Result (Unit {0}) × ChunkStream × ReadWriter → RtmpConn → Result (Unit {0}) × RtmpConn
acked (ok u, cs, s) conn = (ok tt, record conn { rw = s; ack_received = 0 })
acked (err e, cs, s) conn = (ok tt, record conn { rw = s; ack_received = 0 })
acked (panic, cs, s) conn = (panic, record conn { rw = s })

unfoldable pub count_received : ℕ → RtmpConn → RtmpConn
count_received size conn =
    let total = add32 conn.received size in
    record conn {
      received = if leb 0xf0000000 total then 0 else total;
      ack_received = add32 conn.ack_received size;
    }

unfoldable pub ack : ℕ → RtmpConn → Result (Unit {0}) × RtmpConn
unfolding count_received
ack size conn =
    let c = count_received size conn in
    if leb c.remote_window_ack_size c.ack_received
    then acked (write_chunk (new_ack c.ack_received) c.chunk_size c.rw) c
    else (ok tt, c)

abbrev pub written :
    Result (Unit {0}) × ChunkStream × ReadWriter → RtmpConn → Result (Unit {0}) × RtmpConn
written (r, cs, s) conn = (r, record conn { rw = s })

abbrev pub resized : Result ℕ → ChunkStream → RtmpConn → Result (Unit {0}) × RtmpConn
resized (ok n) c conn = written (write_chunk c n conn.rw) (record conn { chunk_size = n })
resized (err e) c conn = (err e, conn)
resized panic c conn = (panic, conn)

-- Write: a message that sets the chunk size takes effect before it is sent.
unfoldable pub write : ChunkStream → RtmpConn → Result (Unit {0}) × RtmpConn
write c conn =
    if c.type_id == 1
    then resized (u32_be c.body) c conn
    else written (write_chunk c conn.chunk_size conn.rw) conn

unfoldable pub flush_conn : RtmpConn → Result (Unit {0}) × RtmpConn
flush_conn conn = let (r, s) = flush conn.rw in (r, record conn { rw = s })

unfoldable pub set_begin : RtmpConn → RtmpConn
unfolding write stream_event
set_begin conn = (write (stream_event 0) conn).1

unfoldable pub set_recorded : RtmpConn → RtmpConn
unfolding write stream_event
set_recorded conn = (write (stream_event 4) conn).1
