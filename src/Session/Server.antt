-- ===== src/Session/Server.antt =====
-- The server's side of a session: the type ForwardConnect of protocol/core/forward_conn.go, with its
-- handlers and the replies to them. The fields of ConnectInfo that nothing sets are left out.
use srtmp.Prelude.{ℕ, zero, suc, ◌+◌, Bool, true, false, ◌||◌, List, [], ◌∷◌, ◌++◌, length}
use srtmp.Prelude.{Option, none, some, ◌==◌, if◌then◌else◌, Result, ok, err, panic, failure}
use srtmp.Amf.{Value, nil, number, boolean, string, object, array, typed_object, Fields, no_fields}
use srtmp.Amf.{field, same}
use srtmp.Chunk.Stream.{ChunkStream}
use srtmp.Conn.State.{RtmpConn}
use srtmp.Conn.Control.{write, flush_conn, new_window_ack_size, new_set_peer_bandwidth}
use srtmp.Conn.Control.{new_set_chunk_size, set_recorded, set_begin}
use srtmp.Session.Names.{cmd_connect, cmd_create_stream, cmd_publish, cmd_play, resp_result}
use srtmp.Session.Names.{on_status, publish_start, play_start, play_reset, data_start}
use srtmp.Session.Names.{publish_notify, connect_success, key_app, key_flash_ver, key_tc_url}
use srtmp.Session.Names.{key_object_encoding, key_fms_ver, key_capabilities, key_level, key_code}
use srtmp.Session.Names.{key_description, fms_version, level_status, connection_succeeded}
use srtmp.Session.Names.{start_publishing, playing_and_resetting, started_playing, started_notify}
use srtmp.Session.Names.{slash}
use srtmp.Session.Number.{to_int, of_int}
use srtmp.Session.Action.{Action, and_next, ◌>>=◌, ◌>>◌, pure, stop, unchecked}
use srtmp.Session.Command.{write_command, find_field}
pub mod Replies
pub mod Loop
pub mod Inputs
pub mod Progress
pub mod Switches
pub mod Twin

pub record ConnectInfo : Type 0 where
  pub app : List ℕ
  pub flashver : List ℕ
  pub tc_url : List ℕ
  pub object_encoding : ℕ

pub record PublishInfo : Type 0 where
  pub name : List ℕ
  pub publish_type : List ℕ

pub record ForwardConnect : Type 0 where
  pub done : Bool
  pub stream_id : ℕ
  pub is_publisher : Bool
  pub conn : RtmpConn
  pub transaction_id : ℕ
  pub conn_info : ConnectInfo
  pub publish_info : PublishInfo

unfoldable pub new_forward_connect : RtmpConn → ForwardConnect
new_forward_connect conn = record {
  done = false;
  stream_id = 1;
  is_publisher = false;
  conn = conn;
  transaction_id = 0;
  conn_info = record { app = []; flashver = []; tc_url = []; object_encoding = 0 };
  publish_info = record { name = []; publish_type = [] };
}

abbrev pub put_conn :
    {A : Type 0} → Result A × RtmpConn → ForwardConnect → Result A × ForwardConnect
put_conn r fc = (r.0, record fc { conn = r.1 })

unfoldable pub write_msg : ℕ → ℕ → List Value → Action ForwardConnect (Unit {0})
write_msg csid stream_id args fc = put_conn (write_command csid stream_id args fc.conn) fc

-- A type assertion panics on another type.
abbrev pub as_string :
    Option Value → ForwardConnect → (List ℕ → ForwardConnect) → Result (Unit {0}) × ForwardConnect
as_string none fc f = (ok tt, fc)
as_string (some (string s)) fc f = (ok tt, f s)
as_string (some _) fc f = (panic, fc)

abbrev pub as_number :
    Option Value → ForwardConnect → (ℕ → ForwardConnect) → Result (Unit {0}) × ForwardConnect
as_number none fc f = (ok tt, fc)
as_number (some (number bits)) fc f = (ok tt, f bits)
as_number (some _) fc f = (panic, fc)

-- One lookup in the object of a connect command, and the field that it sets.
unfoldable pub take_app : Fields → Action ForwardConnect (Unit {0})
take_app fs fc =
    as_string (find_field key_app fs) fc
      λ s. record fc { conn_info = record fc.conn_info { app = s } }

unfoldable pub take_flashver : Fields → Action ForwardConnect (Unit {0})
take_flashver fs fc =
    as_string (find_field key_flash_ver fs) fc
      λ s. record fc { conn_info = record fc.conn_info { flashver = s } }

unfoldable pub take_tc_url : Fields → Action ForwardConnect (Unit {0})
take_tc_url fs fc =
    as_string (find_field key_tc_url fs) fc
      λ s. record fc { conn_info = record fc.conn_info { tc_url = s } }

unfoldable pub take_encoding : Fields → Action ForwardConnect (Unit {0})
take_encoding fs fc =
    as_number (find_field key_object_encoding fs) fc
      λ bits. record fc { conn_info = record fc.conn_info { object_encoding = to_int bits } }

-- One round of the loop of connect.
unfoldable pub connect_value : Value → Action ForwardConnect (Unit {0})
unfolding take_app take_flashver take_tc_url take_encoding
connect_value (number bits) fc =
    if to_int bits == 1
    then (ok tt, record fc { transaction_id = to_int bits })
    else (err failure, fc)
connect_value (object fs) fc =
    (do take_app fs; take_flashver fs; take_tc_url fs; take_encoding fs) fc
connect_value _ fc = (ok tt, fc)

unfoldable pub connect : List Value → Action ForwardConnect (Unit {0})
unfolding connect_value
connect [] fc = (ok tt, fc)
connect (v ∷ vs) fc = and_next (connect_value v fc) (λ _. connect vs)

unfoldable pub create_stream : List Value → Action ForwardConnect (Unit {0})
create_stream [] fc = (ok tt, fc)
create_stream (number bits ∷ vs) fc = create_stream vs (record fc { transaction_id = to_int bits })
create_stream (_ ∷ vs) fc = create_stream vs fc

-- One round of the loop of publishOrPlay; `k` is the loop's index.
unfoldable pub stream_value : ℕ → Value → ForwardConnect → ForwardConnect
stream_value k (string s) fc =
    if k == 2
    then record fc { publish_info = record fc.publish_info { name = s } }
    else if k == 3
    then record fc { publish_info = record fc.publish_info { publish_type = s } }
    else fc
stream_value k (number bits) fc = record fc { transaction_id = to_int bits }
stream_value k _ fc = fc

unfoldable pub publish_or_play : ℕ → List Value → Action ForwardConnect (Unit {0})
unfolding stream_value
publish_or_play k [] fc = (ok tt, fc)
publish_or_play k (v ∷ vs) fc = publish_or_play (k + 1) vs (stream_value k v fc)

unfoldable pub get_stream_info : ForwardConnect → List ℕ × List ℕ × List ℕ
get_stream_info fc =
    (fc.conn_info.app, fc.publish_info.name, fc.conn_info.tc_url ++ (slash ++ fc.publish_info.name))
