-- ===== src/Stream/Reader.antt =====
-- The type StreamReader of protocol/stream_rw.go, a publisher's end of a stream.
use srtmp.Prelude.{ℕ, zero, suc, Bool, true, false, ◌||◌, [], length, Option, none, some, ◌==◌}
use srtmp.Prelude.{if◌then◌else◌, ◌/◌, Result, ok, err, panic}
use srtmp.Av.{Packet}
use srtmp.Av.Base.{RwBaser, new_rw_baser, set_pre_time}
use srtmp.Chunk.Stream.{ChunkStream}
use srtmp.Conn.State.{RtmpConn}
use srtmp.Flv.{demux_h}
use srtmp.Session.Server.{ForwardConnect}
use srtmp.Session.Server.Loop.{read_message}
use srtmp.Stream.Statics.{StaticsBw, no_statics, save_statics}

pub record StreamReader : Type 0 where
  pub base : RwBaser
  pub conn : ForwardConnect
  pub statics : StaticsBw
  pub hung_up : Bool

unfoldable pub new_stream_reader : ℕ → ForwardConnect → StreamReader
unfolding new_rw_baser
new_stream_reader now conn = record {
  base = new_rw_baser 10000000000 now;
  conn = conn;
  statics = no_statics;
  hung_up = false;
}

-- &av.Packet{}
abbrev pub zero_packet : Packet
zero_packet = record {
  packet_type = 0;
  time_stamp = 0;
  stream_id = 0;
  v_header = record { frame_type = 0; avc_packet_type = 0; codec_id = 0; composition_time = 0 };
  a_header = record {
    sound_format = 0;
    sound_rate = 0;
    sound_size = 0;
    sound_type = 0;
    aac_packet_type = 0;
  };
  payload = [];
}

unfoldable pub packet_type_of : ℕ → ℕ
packet_type_of type_id = if type_id == 9 then 1 else if type_id == 8 then 2 else 3

-- DemuxH's error is dropped, and Read's deferred function ends a panic: the packet stays as it was.
abbrev pub demuxed : Result Packet → Packet → Packet
demuxed (ok p) q = p
demuxed (err e) q = q
demuxed panic q = q

-- The packet of a media message.
unfoldable pub packet_of : ChunkStream → Packet
unfolding packet_type_of
packet_of cs =
    let p = record zero_packet {
      packet_type = packet_type_of cs.type_id;
      stream_id = cs.stream_id;
      payload = cs.body;
      time_stamp = cs.timestamp;
    } in
    demuxed (demux_h p) p

unfoldable pub is_media : ChunkStream → Bool
is_media cs = (cs.type_id == 8 || cs.type_id == 9) || (cs.type_id == 18 || cs.type_id == 15)

abbrev pub took : ℕ → ChunkStream → StreamReader → Result Packet × StreamReader
took now cs sr = (
  ok (packet_of cs),
  record sr {
    statics =
        save_statics (now / 1000000) cs.stream_id (length cs.body) (cs.type_id == 9) sr.statics;
  },
)

-- A panic of the connection is ended too, and Read then returns its empty packet with no error.
abbrev pub after_read :
    ℕ
    → Option (Result ChunkStream × RtmpConn)
    → StreamReader
    → (StreamReader → Option (Result Packet × StreamReader))
    → Option (Result Packet × StreamReader)
after_read now none sr k = none
after_read now (some (ok cs, conn)) sr k =
    let next = record sr { conn = record sr.conn { conn = conn } } in
    if is_media cs then some (took now cs next) else k next
after_read now (some (err e, conn)) sr k =
    some (err e, record sr { conn = record sr.conn { conn = conn } })
after_read now (some (panic, conn)) sr k =
    some (ok zero_packet, record sr { conn = record sr.conn { conn = conn } })

-- `none`: the model's fuel ran out; each round reads a message.
unfoldable pub read_media : ℕ → ℕ → StreamReader → Option (Result Packet × StreamReader)
unfolding packet_of is_media save_statics read_message
read_media now zero sr = none
read_media now (suc fuel) sr = after_read now (read_message sr.conn) sr (read_media now fuel)

unfoldable pub read_packet : ℕ → ℕ → StreamReader → Option (Result Packet × StreamReader)
unfolding read_media set_pre_time
read_packet now fuel sr = read_media now fuel (record sr { base = set_pre_time now sr.base })

unfoldable pub close_reader : StreamReader → StreamReader
close_reader sr = record sr { hung_up = true }
