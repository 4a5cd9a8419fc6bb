-- ===== src/Session/Command.antt =====
-- What protocol/core/forward_conn.go and conn_client.go do alike: they encode a command into a
-- message, send it, and decode the values of a command that was received.
use srtmp.Prelude.{ℕ, zero, suc, Bool, true, false, List, length, Option, none, some}
use srtmp.Prelude.{uint32, if◌then◌else◌, Error, eof, unexpected_eof, broken_pipe, failure}
use srtmp.Prelude.{Result, ok, err, panic}
use srtmp.Amf.{Value, Fields, no_fields, field, same}
use srtmp.Amf.Encode.{encode_batch}
use srtmp.Amf.Decode.{Amf3, BatchEnd, stopped, died, decode_amf3}
use srtmp.Amf.Decode.{after_value}
use srtmp.Chunk.Stream.{ChunkStream, new_chunk_stream}
use srtmp.Conn.State.{RtmpConn}
use srtmp.Conn.Control.{write, flush_conn}
use srtmp.Session.Action.{Action}

-- The message of a command whose values are encoded.
unfoldable pub command_message : ℕ → ℕ → List ℕ → ChunkStream
unfolding new_chunk_stream
command_message csid stream_id msg = record (new_chunk_stream csid) {
  type_id = 20;
  stream_id = stream_id;
  message_length = uint32 (length msg);
  body = msg;
}

-- Write's error is dropped, and Flush's is returned.
abbrev pub after_write : Result (Unit {0}) × RtmpConn → Result (Unit {0}) × RtmpConn
after_write (ok u, conn) = flush_conn conn
after_write (err e, conn) = flush_conn conn
after_write (panic, conn) = (panic, conn)

abbrev pub after_encode : Result (List ℕ) → ℕ → ℕ → Action RtmpConn (Unit {0})
after_encode (ok msg) csid stream_id conn =
    after_write (write (command_message csid stream_id msg) conn)
after_encode (err e) csid stream_id conn = (err e, conn)
after_encode panic csid stream_id conn = (panic, conn)

-- writeMsg on the connection.
unfoldable pub write_command : ℕ → ℕ → List Value → Action RtmpConn (Unit {0})
write_command csid stream_id args conn = after_encode (encode_batch args) csid stream_id conn

-- `err != nil && err != io.EOF`: the end of the input is how a batch ends.
abbrev pub is_eof : Error → Bool
is_eof eof = true
is_eof unexpected_eof = false
is_eof broken_pipe = false
is_eof failure = false

abbrev pub values_of : Option (List Value × BatchEnd) → Option (Result (List Value))
values_of none = none
values_of (some (vs, stopped e)) = some (if is_eof e then ok vs else err e)
values_of (some (vs, died)) = some panic

-- DecodeBatch with the version AMF3.
unfoldable pub decode_batch3 : Amf3 → ℕ → List ℕ → Option (List Value × BatchEnd)
unfolding decode_amf3
decode_batch3 amf3 zero bs = none
decode_batch3 amf3 (suc fuel) bs = after_value (decode_amf3 amf3 bs) (decode_batch3 amf3 fuel)

-- objmap[key] with its presence.
unfoldable pub find_field : List ℕ → Fields → Option Value
unfolding same
find_field key no_fields = none
find_field key (field k v fs) = if same k key then some v else find_field key fs
