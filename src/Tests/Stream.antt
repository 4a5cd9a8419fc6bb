-- ===== src/Tests/Stream.antt =====
-- Runs of protocol/stream.go and stream_rw.go.
use srtmp.Cache.{send_frames}
use srtmp.Cache.{send_headers}
use srtmp.Prelude.{◌≤◌, ◌≡◌, refl, [], ◌∷◌, ◌++◌, true, arith, length, failure, All}
use srtmp.Amf.Decode.{Amf3, failed}
use srtmp.Av.{Packet}
use srtmp.Cache.{send}
use srtmp.Session.Server.{ForwardConnect, new_forward_connect}
use srtmp.Stream.Writer.{StreamWriter, new_stream_writer, write_packet, offer}
use srtmp.Stream.Reader.{zero_packet}
use srtmp.Stream.Sound.{IsSound}
use srtmp.Stream.Loop.{RtmpStream, StreamInfo, new_stream, on_writer, running}
use srtmp.Stream.Loop.Steps.{Reached, created, stepped, joins, admits}
use srtmp.Stream.Loop.Invariant.{Reached-bounded}
use srtmp.Stream.Playback.{fresh, wrote, starts_with_key, Played-starts_with_key, write_many}
use srtmp.Stream.Playback.{write_many-key}
use srtmp.Tests.Data.{peer}

no_amf3 : Amf3
no_amf3 m bs = failed failure

abbrev a_player : ForwardConnect
a_player = new_forward_connect (peer [] 128)

abbrev a_name : StreamInfo
a_name = record { app = 97 ∷ []; name = 115 ∷ []; url = [] }

-- A stream with one player, and the step that lets it in.
abbrev watched : RtmpStream
watched = record (new_stream 7 a_name) { writers = new_stream_writer 8 a_player ∷ [] }

new-admits :
    on_writer (new_stream_writer 8 a_player) (record (new_stream 7 a_name) { writer_chan = [] })
    ≡ running watched
unfolding on_writer new_stream_writer send send_headers new_stream send_frames
new-admits = refl

new-writers : (new_stream 7 a_name).writer_chan ≡ []
unfolding new_stream
new-writers = refl

watched-Reached : Reached no_amf3 watched
unfolding new_stream
watched-Reached =
    stepped {s = record (new_stream 7 a_name) { writer_chan = new_stream_writer 8 a_player ∷ [] }}
      (stepped (created 7 a_name) (joins {s = new_stream 7 a_name} 8 a_player new-writers))
      (admits (new_stream_writer 8 a_player) [] refl new-admits)

-- The same stream while its player still waits.
abbrev awaited : RtmpStream
awaited = record (new_stream 7 a_name) { writer_chan = new_stream_writer 8 a_player ∷ [] }

Reached-bounded_example :
    (All IsSound watched.writers)
    × (All IsSound watched.writer_chan)
    × (length watched.pkt_chan ≤ 16)
Reached-bounded_example = Reached-bounded no_amf3 watched-Reached

abbrev key_frame : Packet
key_frame = record zero_packet {
  packet_type = 1;
  v_header = record { frame_type = 1; avc_packet_type = 1; codec_id = 7; composition_time = 0 };
}

abbrev inter_frame : Packet
inter_frame = record zero_packet {
  packet_type = 1;
  v_header = record { frame_type = 2; avc_packet_type = 1; codec_id = 7; composition_time = 0 };
}

abbrev new_writer : StreamWriter
new_writer = new_stream_writer 8 a_player

-- A picture that comes too early is dropped, the key frame is not.
Played-starts_with_key_example : starts_with_key (([] ++ []) ++ (key_frame ∷ [])) ≡ true
unfolding write_packet offer new_stream_writer
Played-starts_with_key_example =
    Played-starts_with_key {w = (write_packet key_frame (write_packet inter_frame new_writer).1).1}
      (wrote key_frame (wrote inter_frame (fresh 8 a_player)))

write_many-key_example :
    (write_many (key_frame ∷ inter_frame ∷ []) new_writer).packet_queue.queued
    ≡ new_writer.packet_queue.queued ++ (key_frame ∷ inter_frame ∷ [])
unfolding new_stream_writer
write_many-key_example =
    write_many-key key_frame (inter_frame ∷ []) new_writer refl refl refl (omega arith)
