-- ===== src/Session/Server/Replies.antt =====
-- The server's replies of protocol/core/forward_conn.go, and the switch over its commands.
use srtmp.Prelude.{ℕ, List, [], ◌∷◌}
use srtmp.Prelude.{if◌then◌else◌, ok, panic}
use srtmp.Amf.{Value, nil, number, string, object, Fields, no_fields}
use srtmp.Amf.{field, same}
use srtmp.Chunk.Stream.{ChunkStream}
use srtmp.Conn.Control.{write, flush_conn, new_window_ack_size, new_set_peer_bandwidth}
use srtmp.Conn.Control.{new_set_chunk_size, set_recorded, set_begin}
use srtmp.Session.Names.{cmd_connect, cmd_create_stream, cmd_publish, cmd_play, resp_result}
use srtmp.Session.Names.{on_status, publish_start, play_start, play_reset, data_start}
use srtmp.Session.Names.{publish_notify, connect_success}
use srtmp.Session.Names.{key_object_encoding, key_fms_ver, key_capabilities, key_level, key_code}
use srtmp.Session.Names.{key_description, fms_version, level_status, connection_succeeded}
use srtmp.Session.Names.{start_publishing, playing_and_resetting, started_playing, started_notify}
use srtmp.Session.Number.{of_int}
use srtmp.Session.Action.{Action, ◌>>◌, pure, unchecked}
use srtmp.Session.Server.{
  ForwardConnect, put_conn, write_msg, connect, create_stream, publish_or_play,
}

-- An object whose values are strings or numbers, in the order of its assignments.
abbrev pub status_event : List ℕ → List ℕ → Fields
status_event code description =
    field key_level (string level_status)
      (field key_code (string code) (field key_description (string description) no_fields))

abbrev pub connect_values : ℕ → ℕ → List Value
connect_values transaction_id encoding =
    string resp_result
    ∷ number (of_int transaction_id)
    ∷ object (
        field key_fms_ver (string fms_version)
          (field key_capabilities (number (of_int 31)) no_fields))
    ∷ object (
        field key_level (string level_status) (
          field key_code (string connect_success) (
            field key_description (string connection_succeeded)
              (field key_object_encoding (number (of_int encoding)) no_fields))))
    ∷ []

-- A Write whose error nothing looks at.
unfoldable pub write_unchecked : ChunkStream → Action ForwardConnect (Unit {0})
write_unchecked c fc = put_conn (unchecked (write c fc.conn)) fc

unfoldable pub connect_resp : ChunkStream → Action ForwardConnect (Unit {0})
unfolding write_msg write_unchecked
connect_resp cur fc =
    (do
      write_unchecked (new_window_ack_size 2500000)
      write_unchecked (new_set_peer_bandwidth 2500000)
      write_unchecked (new_set_chunk_size 1024)
      write_msg cur.csid cur.stream_id
          (connect_values fc.transaction_id fc.conn_info.object_encoding))
      fc

abbrev pub create_stream_values : ℕ → ℕ → List Value
create_stream_values transaction_id stream_id =
    string resp_result ∷ number (of_int transaction_id) ∷ nil ∷ number (of_int stream_id) ∷ []

unfoldable pub create_stream_resp : ChunkStream → Action ForwardConnect (Unit {0})
unfolding write_msg
create_stream_resp cur fc =
    write_msg cur.csid cur.stream_id (create_stream_values fc.transaction_id fc.stream_id) fc

abbrev pub status_values : List ℕ → List ℕ → List Value
status_values code description =
    string on_status ∷ number (of_int 0) ∷ nil ∷ object (status_event code description) ∷ []

unfoldable pub publish_resp : ChunkStream → Action ForwardConnect (Unit {0})
unfolding write_msg
publish_resp cur = write_msg cur.csid cur.stream_id (status_values publish_start start_publishing)

unfoldable pub flush_session : Action ForwardConnect (Unit {0})
flush_session fc = put_conn (flush_conn fc.conn) fc

-- The errors of the two events are dropped in SetRecorded and SetBegin.
unfoldable pub play_resp : ChunkStream → Action ForwardConnect (Unit {0})
unfolding write_msg flush_session
play_resp cur fc =
    (do
      write_msg cur.csid cur.stream_id (status_values play_reset playing_and_resetting)
      write_msg cur.csid cur.stream_id (status_values play_start started_playing)
      write_msg cur.csid cur.stream_id (status_values data_start started_playing)
      write_msg cur.csid cur.stream_id (status_values publish_notify started_notify)
      flush_session)
      (record fc { conn = set_begin (set_recorded fc.conn) })

-- What a command was: one that only has effects, or one that ends the session.
pub data Served : Type 0 where
  handled published played : Served

-- The switch on the first value. The commands FCPublish, releaseStream, FCUnpublish, deleteStream
-- and those that are not known do nothing; a command without a value panics at vs[0].
unfoldable pub serve : List Value → ChunkStream → Action ForwardConnect Served
unfolding connect connect_resp create_stream create_stream_resp publish_or_play publish_resp
    play_resp same
serve [] cur fc = (panic, fc)
serve (string name ∷ args) cur fc =
    if same name cmd_connect
    then (do connect args; connect_resp cur; pure handled) fc
    else if same name cmd_create_stream
    then (do create_stream args; create_stream_resp cur; pure handled) fc
    else if same name cmd_publish
    then (do publish_or_play 0 args; publish_resp cur; pure published) fc
    else if same name cmd_play
    then (do publish_or_play 0 args; play_resp cur; pure played) fc
    else (ok handled, fc)
serve (_ ∷ args) cur fc = (ok handled, fc)
