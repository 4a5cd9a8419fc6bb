-- ===== src/Tests/Session.antt =====
-- Sessions of protocol/core/conn_client.go and forward_conn.go.
use srtmp.Prelude.{
  ℕ, ◌≡◌, refl, [], ◌∷◌, List, ok, false, some, arith, Result, Option, none, failure,
}
use srtmp.Amf.Decode.{Amf3, failed}
use srtmp.Amf.Encode.{encode_batch}
use srtmp.Session.Names.{method_publish, cmd_connect, cmd_create_stream, cmd_publish}
use srtmp.Session.Names.{cmd_play, publish_live, publish_start, start_publishing, play_reset}
use srtmp.Session.Names.{playing_and_resetting, client_version}
use srtmp.Session.Action.{◌>>◌, and_next, pure, reworded}
use srtmp.Session.Command.{command_message}
use srtmp.Session.Server.{ForwardConnect, new_forward_connect}
use srtmp.Session.Server.Replies.{connect_values, create_stream_values, handled}
use srtmp.Session.Server.Replies.{published, played}
use srtmp.Session.Server.Replies.{status_values}
use srtmp.Session.Server.Loop.{set_up_play_or_publish, serve_message, read_msg}
use srtmp.Session.Server.Progress.{set_up_play_or_publish-total}
use srtmp.Session.Server.Twin.{undone, set_up_play_or_publish-read_msg}
use srtmp.Session.Client.{ConnClient}
use srtmp.Session.Client.{connect_request, next_command, create_stream_request, publish_request}
use srtmp.Session.Client.{play_request}
use srtmp.Session.Client.Start.{start, wait_round}
use srtmp.Session.Client.Progress.{start-total}
use srtmp.Session.Agreement.Connect.{connect_agreed}
use srtmp.Session.Agreement.Stream.{create_stream_agreed}
use srtmp.Session.Agreement.{sends}
use srtmp.Conn.Control.{new_window_ack_size, new_set_peer_bandwidth, new_set_chunk_size}
use srtmp.Session.Agreement.Media.{publish_agreed, play_agreed, play_answers}
use srtmp.Session.Server.Replies.{write_unchecked}
use srtmp.Session.Names.{play_start, started_playing, data_start, publish_notify, started_notify}
use srtmp.Tests.Data.{peer}

-- A decoder of AMF3 that rejects every input.
no_amf3 : Amf3
no_amf3 m bs = failed failure

-- A client of the stream s in the application a, and a server, on connections with these bytes to
-- read.
abbrev client_of : List ℕ → ConnClient
client_of bs = record {
  done = false;
  trans_id = 1;
  url = 114 ∷ [];
  tcurl = 114 ∷ 47 ∷ 97 ∷ [];
  app = 97 ∷ [];
  title = 115 ∷ [];
  query = [];
  curcmd_name = [];
  streamid = 0;
  conn = peer bs 128;
}

abbrev server_of : List ℕ → ForwardConnect
server_of bs = new_forward_connect (peer bs 128)

-- The chunk of the client's publish command.
abbrev publish_bytes : List ℕ
publish_bytes =
    3 ∷ 0 ∷ 0 ∷ 0 ∷ 0 ∷ 0 ∷ 31 ∷ 20 ∷ 0 ∷ 0 ∷ 0 ∷ 0 ∷ 2 ∷ 0 ∷ 7 ∷ 112 ∷ 117 ∷ 98 ∷ 108 ∷ 105 ∷ 115
    ∷ 104 ∷ 0 ∷ 64 ∷ 8 ∷ 0 ∷ 0 ∷ 0 ∷ 0 ∷ 0 ∷ 0 ∷ 5 ∷ 2 ∷ 0 ∷ 1 ∷ 115 ∷ 2 ∷ 0 ∷ 4 ∷ 108 ∷ 105 ∷ 118
    ∷ 101 ∷ []

set_up_play_or_publish-total_example :
    (x : Result (Unit {0}) × ForwardConnect) × (set_up_play_or_publish no_amf3 50
        (server_of publish_bytes)
      ≡ some x)
unfolding new_forward_connect peer
set_up_play_or_publish-total_example =
    set_up_play_or_publish-total no_amf3 50 (server_of publish_bytes) (omega arith)

set_up_play_or_publish-read_msg_example :
    set_up_play_or_publish no_amf3 50 (server_of publish_bytes)
    ≡ reworded (undone (read_msg no_amf3 50 (server_of publish_bytes)))
unfolding new_forward_connect
set_up_play_or_publish-read_msg_example =
    set_up_play_or_publish-read_msg no_amf3 50 (server_of publish_bytes) refl

start-total_example :
    (x : Result (Unit {0}) × ConnClient) × (start no_amf3 method_publish 50
        (client_of publish_bytes)
      ≡ some x)
unfolding peer
start-total_example = start-total no_amf3 method_publish 50 (client_of publish_bytes) (omega arith)

abbrev no_more : ConnClient → Option (Result (Unit {0}) × ConnClient)
no_more client = none

abbrev a_client : ConnClient
a_client = client_of []

abbrev a_server : ForwardConnect
a_server = server_of []

connect_agreed_example :
    let info = record a_server.conn_info {
      app = a_client.app;
      flashver = client_version;
      tc_url = a_client.tcurl;
    } in
    let knowing = record a_server { transaction_id = 1; conn_info = info } in
    (request : List ℕ) × (encode_batch (connect_request a_client) ≡ ok request)
    × (reply : List ℕ) × (encode_batch (connect_values 1 a_server.conn_info.object_encoding)
        ≡ ok reply)
    × ((csid sid : ℕ)
        → (serve_message no_amf3 (command_message csid sid request) a_server
            ≡ some (
                and_next
                  ((do
                    write_unchecked (new_window_ack_size 2500000)
                    write_unchecked (new_set_peer_bandwidth 2500000)
                    write_unchecked (new_set_chunk_size 1024)
                    sends (command_message csid sid reply))
                    knowing)
                  (λ _. pure handled)))
          × (wait_round no_amf3 cmd_connect no_more (command_message csid sid reply) a_client
              ≡ some (ok tt, a_client)))
unfolding new_forward_connect
connect_agreed_example =
    connect_agreed no_amf3 a_client a_server no_more refl (omega arith) (omega arith) (omega arith)

create_stream_agreed_example :
    let asking = next_command cmd_create_stream a_client in
    let knowing = record a_server { transaction_id = asking.trans_id } in
    (request : List ℕ) × (encode_batch (create_stream_request asking) ≡ ok request)
    × (reply : List ℕ) × (encode_batch
          (create_stream_values knowing.transaction_id knowing.stream_id)
        ≡ ok reply)
    × ((csid sid : ℕ)
        → (serve_message no_amf3 (command_message csid sid request) a_server
            ≡ some (and_next (sends (command_message csid sid reply) knowing) (λ _. pure handled)))
          × (wait_round no_amf3 cmd_create_stream no_more (command_message csid sid reply) asking
              ≡ some (ok tt, record asking { streamid = a_server.stream_id })))
unfolding new_forward_connect
create_stream_agreed_example =
    create_stream_agreed no_amf3 a_client a_server no_more (omega arith) (omega arith)

publish_agreed_example :
    let asking = next_command cmd_publish a_client in
    let knowing = record a_server {
      transaction_id = asking.trans_id;
      publish_info = record { name = a_client.title; publish_type = publish_live };
    } in
    (request : List ℕ) × (encode_batch (publish_request asking) ≡ ok request)
    × (reply : List ℕ) × (encode_batch (status_values publish_start start_publishing) ≡ ok reply)
    × ((csid sid : ℕ)
        → (serve_message no_amf3 (command_message csid sid request) a_server
            ≡ some
                (and_next (sends (command_message csid sid reply) knowing) (λ _. pure published)))
          × (wait_round no_amf3 cmd_publish no_more (command_message csid sid reply) asking
              ≡ some (ok tt, asking)))
publish_agreed_example =
    publish_agreed no_amf3 a_client a_server no_more (omega arith) (omega arith)

play_agreed_example :
    let asking = next_command cmd_play a_client in
    let knowing = record a_server {
      transaction_id = 0;
      publish_info = record a_server.publish_info { name = a_client.title };
    } in
    (request reset start begun notify : List ℕ) × (encode_batch (play_request asking) ≡ ok request)
    × (encode_batch (status_values play_reset playing_and_resetting) ≡ ok reset)
    × (encode_batch (status_values play_start started_playing) ≡ ok start)
    × (encode_batch (status_values data_start started_playing) ≡ ok begun)
    × (encode_batch (status_values publish_notify started_notify) ≡ ok notify)
    × ((csid sid : ℕ)
        → (serve_message no_amf3 (command_message csid sid request) a_server
            ≡ some (
                and_next
                  (play_answers (command_message csid sid) reset start begun notify knowing)
                  (λ _. pure played)))
          × (wait_round no_amf3 cmd_play no_more (command_message csid sid reset) asking
              ≡ some (ok tt, asking)))
play_agreed_example = play_agreed no_amf3 a_client a_server no_more (omega arith)
