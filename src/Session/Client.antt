-- ===== src/Session/Client.antt =====
-- The client's side of a session: the type ConnClient of protocol/core/conn_client.go and the
-- commands that it sends. connectServer, which resolves a URL and opens a TCP connection, is not
-- modelled: a session starts on a connection whose handshake is done.
use srtmp.Prelude.{ℕ, zero, suc, ◌+◌, ◌%◌, ◌^◌, Bool, true, false, ◌||◌, List, [], ◌∷◌, length}
use srtmp.Prelude.{Option, none, some, ◌==◌, if◌then◌else◌, uint32, Result, ok, err, panic, failure}
use srtmp.Amf.{Value, nil, number, string, object, Fields, no_fields, field, same}
use srtmp.Amf.Decode.{Amf3}
use srtmp.Amf.Decode.{Decoder}
use srtmp.Amf.Metadata.{metadata_reform}
use srtmp.Chunk.Stream.{ChunkStream}
use srtmp.Conn.State.{RtmpConn}
use srtmp.Conn.Control.{write}
use srtmp.Session.Names.{cmd_connect, cmd_create_stream, cmd_publish, cmd_play, publish_live}
use srtmp.Session.Names.{key_app, key_type, key_flash_ver, key_tc_url, nonprivate, client_version}
use srtmp.Session.Number.{of_int}
use srtmp.Session.Action.{Action}
use srtmp.Session.Command.{write_command}
pub mod Checks
pub mod Start
pub mod Inputs
pub mod Progress
pub mod Older
pub mod OlderLoops

pub record ConnClient : Type 0 where
  pub done : Bool
  pub trans_id : ℕ
  pub url : List ℕ
  pub tcurl : List ℕ
  pub app : List ℕ
  pub title : List ℕ
  pub query : List ℕ
  pub curcmd_name : List ℕ
  pub streamid : ℕ
  pub conn : RtmpConn

-- NewConnClient, with a connection for its nil one.
unfoldable pub new_conn_client : RtmpConn → ConnClient
new_conn_client conn = record {
  done = false;
  trans_id = 1;
  url = [];
  tcurl = [];
  app = [];
  title = [];
  query = [];
  curcmd_name = [];
  streamid = 0;
  conn = conn;
}

abbrev pub put_conn : {A : Type 0} → Result A × RtmpConn → ConnClient → Result A × ConnClient
put_conn r client = (r.0, record client { conn = r.1 })

unfoldable pub write_msg : List Value → Action ConnClient (Unit {0})
write_msg args client = put_conn (write_command 3 client.streamid args client.conn) client

-- transID++ on an int of 64 bits, and the command's name.
unfoldable pub next_command : List ℕ → ConnClient → ConnClient
next_command name client = record client {
  trans_id = (client.trans_id + 1) % 2 ^ 64;
  curcmd_name = name;
}

abbrev pub connect_request : ConnClient → List Value
connect_request client =
    string cmd_connect
    ∷ number (of_int client.trans_id)
    ∷ object (
        field key_app (string client.app) (
          field key_type (string nonprivate) (
            field key_flash_ver (string client_version)
              (field key_tc_url (string client.tcurl) no_fields))))
    ∷ []

unfoldable pub write_connect_msg : Action ConnClient (Unit {0})
unfolding write_msg
write_connect_msg client =
    write_msg (connect_request client) (record client { curcmd_name = cmd_connect })

abbrev pub create_stream_request : ConnClient → List Value
create_stream_request client = string cmd_create_stream ∷ number (of_int client.trans_id) ∷ nil ∷ []

unfoldable pub write_create_stream_msg : Action ConnClient (Unit {0})
unfolding write_msg next_command
write_create_stream_msg client =
    let client' = next_command cmd_create_stream client in
    write_msg (create_stream_request client') client'

abbrev pub publish_request : ConnClient → List Value
publish_request client =
    string cmd_publish
    ∷ number (of_int client.trans_id)
    ∷ nil
    ∷ string client.title
    ∷ string publish_live
    ∷ []

unfoldable pub write_publish_msg : Action ConnClient (Unit {0})
unfolding write_msg next_command
write_publish_msg client =
    let client' = next_command cmd_publish client in write_msg (publish_request client') client'

-- The number that is sent is 0, not the new transaction id.
abbrev pub play_request : ConnClient → List Value
play_request client = string cmd_play ∷ number (of_int 0) ∷ nil ∷ string client.title ∷ []

unfoldable pub write_play_msg : Action ConnClient (Unit {0})
unfolding write_msg next_command
write_play_msg client =
    let client' = next_command cmd_play client in write_msg (play_request client') client'

abbrev pub send_reformed :
    Option (Result (List ℕ)) → ChunkStream → ConnClient → Option (Result (Unit {0}) × ConnClient)
send_reformed none c client = none
send_reformed (some (ok p)) c client = some (
    put_conn (write (record c { body = p; message_length = uint32 (length p) }) client.conn) client)
send_reformed (some (err e)) c client = some (err e, client)
send_reformed (some panic) c client = some (panic, client)

-- Write puts the name @setDataFrame before metadata. `none`: the model's fuel ran out.
unfoldable pub write_message :
    Amf3 → ChunkStream → ConnClient → Option (Result (Unit {0}) × ConnClient)
write_message amf3 c client =
    if c.type_id == 18 || c.type_id == 15
    then send_reformed (metadata_reform amf3 c.body 0x0) c client
    else some (put_conn (write c client.conn) client)

-- GetStreamInfo.
unfoldable pub client_stream_info : ConnClient → List ℕ × List ℕ × List ℕ
client_stream_info client = (client.app, client.title, client.url)
