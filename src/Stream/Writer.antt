-- ===== src/Stream/Writer.antt =====
-- The type StreamWriter of protocol/stream_rw.go, a player's end of a stream: the stream's loop calls
-- Write and Close, one goroutine sends the packets of the queue, another one notices that the peer is
-- gone. `packet_queue` is the Go channel, `queue_closed` that it was closed, and `hung_up` that its
-- connection was. `past_test` and `past_close` say how far Check's goroutine is in Close.
use srtmp.Prelude.{ℕ, Bool, true, false, ◌&&◌, [], length, Option, none, some, ltb}
use srtmp.Prelude.{◌==◌, if◌then◌else◌, ◌/◌, add32, uint32, failure, Result, ok, err, panic}
use srtmp.Amf.Decode.{Amf3}
use srtmp.Av.{Packet}
use srtmp.Av.Base.{RwBaser, new_rw_baser, rec_time_stamp, set_pre_time, calc_base_timestamp}
use srtmp.Cache.{Channel, enqueue}
use srtmp.Chunk.Stream.{ChunkStream}
use srtmp.Conn.Control.{flush_conn}
use srtmp.Session.Server.{ForwardConnect}
use srtmp.Session.Server.Loop.{write_message}
use srtmp.Stream.Statics.{StaticsBw, no_statics, save_statics}

pub record StreamWriter : Type 0 where
  pub base : RwBaser
  pub closed : Bool
  pub keyframe_need : Bool
  pub conn : ForwardConnect
  pub packet_queue : Channel
  pub statics : StaticsBw
  pub queue_closed : Bool
  pub hung_up : Bool
  pub past_test : Bool
  pub past_close : Bool

unfoldable pub new_stream_writer : ℕ → ForwardConnect → StreamWriter
unfolding new_rw_baser
new_stream_writer now conn = record {
  base = new_rw_baser 10000000000 now;
  closed = false;
  keyframe_need = true;
  conn = conn;
  packet_queue = record { capacity = 1024; queued = [] };
  statics = no_statics;
  queue_closed = false;
  hung_up = false;
  past_test = false;
  past_close = false;
}

abbrev pub is_video : Packet → Bool
is_video p = p.packet_type == 1

abbrev pub is_key : Packet → Bool
is_key p = p.packet_type == 1 && p.v_header.frame_type == 1

-- The select: a send to a closed channel panics, and the deferred function makes an error of that.
unfoldable pub offer : Packet → StreamWriter → Result (Unit {0}) × StreamWriter
offer p sw =
    if sw.queue_closed
    then (err failure, sw)
    else if ltb (length sw.packet_queue.queued) sw.packet_queue.capacity
    then (ok tt, record sw { packet_queue = enqueue p sw.packet_queue })
    else (ok tt, if is_key p then record sw { keyframe_need = true } else sw)

-- Write.
unfoldable pub write_packet : Packet → StreamWriter → Result (Unit {0}) × StreamWriter
write_packet p sw =
    if sw.closed
    then (err failure, sw)
    else if is_video p && sw.keyframe_need
    then (if is_key p then offer p (record sw { keyframe_need = false }) else (ok tt, sw))
    else offer p sw

-- The type of the message for a packet; the variable keeps its last value for one of no known type.
unfoldable pub tag_type : ℕ → ℕ → ℕ
tag_type packet_type last =
    if packet_type == 1
    then 9
    else if packet_type == 2
    then 8
    else if packet_type == 3
    then 18
    else last

unfoldable pub outgoing : Packet → ChunkStream → StreamWriter → ChunkStream
unfolding tag_type
outgoing p cs sw = record cs {
  body = p.payload;
  message_length = uint32 (length p.payload);
  stream_id = p.stream_id;
  timestamp = add32 p.time_stamp sw.base.base_timestamp;
  type_id = tag_type p.packet_type cs.type_id;
}

-- After the message was written the connection is flushed; an error closes the writer, not the queue.
abbrev pub after_send :
    Option (Result (Unit {0}) × ForwardConnect)
    → ChunkStream
    → StreamWriter
    → Option (Result (Unit {0}) × ChunkStream × StreamWriter)
after_send none cs sw = none
after_send (some (ok u, fc)) cs sw =
    some (ok tt, cs, record sw { conn = record fc { conn = (flush_conn fc.conn).1 } })
after_send (some (err e, fc)) cs sw = some (err e, cs, record sw { conn = fc; closed = true })
after_send (some (panic, fc)) cs sw = some (panic, cs, record sw { conn = fc })

-- SendPacket's round for a packet that it got from the queue, with its variable `cs`.
unfoldable pub send_packet :
    Amf3
    → ℕ
    → Packet
    → ChunkStream
    → StreamWriter
    → Option (Result (Unit {0}) × ChunkStream × StreamWriter)
unfolding outgoing save_statics rec_time_stamp set_pre_time
send_packet amf3 now p cs sw =
    let c = outgoing p cs sw in
    let noted = record sw {
      statics = save_statics (now / 1000000) p.stream_id c.message_length (is_video p) sw.statics;
      base = rec_time_stamp c.timestamp c.type_id (set_pre_time now sw.base);
    } in
    after_send (write_message amf3 c sw.conn) c noted

-- Close, where nothing comes in between. Closing a closed channel panics.
unfoldable pub close_writer : StreamWriter → Result (Unit {0}) × StreamWriter
close_writer sw =
    if sw.closed
    then (ok tt, record sw { hung_up = true })
    else if sw.queue_closed
    then (panic, sw)
    else (ok tt, record sw { closed = true; queue_closed = true; hung_up = true })

-- Close as the goroutine of Check calls it, in the steps that others may come between: the test of
-- `closed`, the close of the channel, and the rest.
unfoldable pub test_closed : StreamWriter → StreamWriter
test_closed sw = if sw.closed then record sw { hung_up = true } else record sw { past_test = true }

unfoldable pub close_queue : StreamWriter → Result (Unit {0}) × StreamWriter
close_queue sw =
    if sw.queue_closed
    then (panic, sw)
    else (ok tt, record sw { queue_closed = true; past_test = false; past_close = true })

unfoldable pub end_close : StreamWriter → StreamWriter
end_close sw = record sw { closed = true; hung_up = true; past_close = false }

unfoldable pub rebase : StreamWriter → StreamWriter
unfolding calc_base_timestamp
rebase sw = record sw { base = calc_base_timestamp sw.base }
