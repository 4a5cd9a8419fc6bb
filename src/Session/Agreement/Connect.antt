-- ===== src/Session/Agreement/Connect.antt =====
-- The exchange for connect between protocol/core/conn_client.go and forward_conn.go.
use srtmp.Prelude.{ℕ, ◌^◌, ◌<◌, ◌≡◌, refl, ap, ◌∙◌, List, length, some, ok}
use srtmp.Prelude.{arith, ==_refl, All}
use srtmp.Amf.{same}
use srtmp.Amf.Encode.{encode_batch}
use srtmp.Amf.Decode.{Amf3}
use srtmp.Amf.Valid.{IsValue}
use srtmp.Amf.Batch.{decode_batch-encode_batch}
use srtmp.Chunk.Stream.{ChunkStream}
use srtmp.Session.Names.{cmd_connect, client_version}
use srtmp.Session.Number.{of_int, to_int, to_int-of_int, of_int-lt}
use srtmp.Conn.Control.{new_window_ack_size, new_set_peer_bandwidth, new_set_chunk_size}
use srtmp.Session.Action.{Action, ◌>>◌, and_next, pure}
use srtmp.Session.Command.{command_message, find_field}
use srtmp.Session.Server.{ForwardConnect, connect}
use srtmp.Session.Server.Replies.{serve, connect_values, connect_resp, handled, write_unchecked}
use srtmp.Session.Server.Loop.{serve_message}
use srtmp.Session.Client.{ConnClient, connect_request}
use srtmp.Session.Client.Checks.{check_values}
use srtmp.Session.Client.Start.{Rest, wait_round}
use srtmp.Session.Agreement.{serve_message-values, wait_round-values, sends, write_msg-sends}

request-IsValue :
    (client : ConnClient)
    → client.trans_id < 2 ^ 53
    → length client.app < 2 ^ 32
    → length client.tcurl < 2 ^ 32
    → All IsValue (connect_request client)
unfolding IsValue
request-IsValue client small app url = (
  omega arith,
  (
    of_int-lt client.trans_id small,
    (
      (
        omega arith,
        omega arith,
        refl,
        app,
        (
          omega arith,
          omega arith,
          refl,
          omega arith,
          (omega arith, omega arith, refl, omega arith, (omega arith, omega arith, refl, url, tt)),
        ),
      ),
      tt,
    ),
  ),
)

reply-IsValue : (t e : ℕ) → t < 2 ^ 53 → e < 2 ^ 53 → All IsValue (connect_values t e)
unfolding IsValue
reply-IsValue t e small fits = (
  omega arith,
  (
    of_int-lt t small,
    (
      (
        omega arith,
        omega arith,
        refl,
        omega arith,
        (omega arith, omega arith, refl, of_int-lt 31 (omega arith), tt),
      ),
      (
        (
          omega arith,
          omega arith,
          refl,
          omega arith,
          (
            omega arith,
            omega arith,
            refl,
            omega arith,
            (
              omega arith,
              omega arith,
              refl,
              omega arith,
              (omega arith, omega arith, refl, of_int-lt e fits, tt),
            ),
          ),
        ),
        tt,
      ),
    ),
  ),
)

serve-connect :
    (client : ConnClient) (cur : ChunkStream) (fc : ForwardConnect)
    → client.trans_id ≡ 1
    → serve (connect_request client) cur fc
      ≡ and_next
          (connect_resp cur (record fc {
            transaction_id = 1;
            conn_info = record fc.conn_info {
              app = client.app;
              flashver = client_version;
              tc_url = client.tcurl;
            };
          }))
          (λ _. pure handled)
unfolding serve same connect find_field
serve-connect client cur fc first = simp (first, to_int-of_int 1 (omega arith))

check-connect :
    (t e : ℕ) (client : ConnClient)
    → client.trans_id ≡ t
    → t < 2 ^ 53
    → check_values cmd_connect (connect_values t e) client ≡ (ok tt, client)
unfolding check_values same find_field
check-connect t e client h small =
    let a : to_int (of_int t) ≡ t = to_int-of_int t small in simp (a, h, ==_refl t)

connect_resp-sends :
    (csid sid : ℕ) (request reply : List ℕ) (fc : ForwardConnect)
    → encode_batch (connect_values fc.transaction_id fc.conn_info.object_encoding) ≡ ok reply
    → and_next (connect_resp (command_message csid sid request) fc) (λ _. pure handled)
      ≡ and_next
          ((do
            write_unchecked (new_window_ack_size 2500000)
            write_unchecked (new_set_peer_bandwidth 2500000)
            write_unchecked (new_set_chunk_size 1024)
            sends (command_message csid sid reply))
            fc)
          (λ _. pure handled)
unfolding connect_resp command_message
connect_resp-sends csid sid request reply fc e =
    ap
      (λ (m : Action ForwardConnect (Unit {0})).
        and_next
          ((do
            write_unchecked (new_window_ack_size 2500000)
            write_unchecked (new_set_peer_bandwidth 2500000)
            write_unchecked (new_set_chunk_size 1024)
            m)
            fc)
          (λ _. pure handled))
      (write_msg-sends csid sid (connect_values fc.transaction_id fc.conn_info.object_encoding)
        reply e)

-- A client whose transaction id is still 1 connects: the server takes the application, the version
-- and the URL from the request, and writes the window, the bandwidth, its chunk size and a last message
-- on the request's streams; the client accepts that very message and changes nothing. The application and the URL
-- are shorter than 2 ^ 32, and the object encoding that the server has noted is below 2 ^ 53.
pub connect_agreed :
    (amf3 : Amf3) (client : ConnClient) (fc : ForwardConnect) (k : Rest)
    → client.trans_id ≡ 1
    → length client.app < 2 ^ 32
    → length client.tcurl < 2 ^ 32
    → fc.conn_info.object_encoding < 2 ^ 53
    → let info = record fc.conn_info {
      app = client.app;
      flashver = client_version;
      tc_url = client.tcurl;
    } in
      let knowing = record fc { transaction_id = 1; conn_info = info } in
      (request : List ℕ) × (encode_batch (connect_request client) ≡ ok request)
      × (reply : List ℕ) × (encode_batch (connect_values 1 fc.conn_info.object_encoding) ≡ ok reply)
      × ((csid sid : ℕ)
          → (serve_message amf3 (command_message csid sid request) fc
              ≡ some (
                  and_next
                    ((do
                      write_unchecked (new_window_ack_size 2500000)
                      write_unchecked (new_set_peer_bandwidth 2500000)
                      write_unchecked (new_set_chunk_size 1024)
                      sends (command_message csid sid reply))
                      knowing)
                    (λ _. pure handled)))
            × (wait_round amf3 cmd_connect k (command_message csid sid reply) client
                ≡ some (ok tt, client)))
connect_agreed amf3 client fc k first app url enc =
    let (request, e, f) =
      decode_batch-encode_batch amf3 (connect_request client)
        (request-IsValue client (omega arith) app url) in
    let (reply, g, h) =
      decode_batch-encode_batch amf3 (connect_values 1 fc.conn_info.object_encoding)
        (reply-IsValue 1 fc.conn_info.object_encoding (omega arith) enc) in
    (
      request,
      e,
      reply,
      g,
      λ csid sid. (
        serve_message-values amf3 csid sid (connect_request client) request f fc
            ∙ ap some (
                serve-connect client (command_message csid sid request) fc first
                ∙ connect_resp-sends csid sid request reply
                    (record fc {
                      transaction_id = 1;
                      conn_info = record fc.conn_info {
                        app = client.app;
                        flashver = client_version;
                        tc_url = client.tcurl;
                      };
                    })
                    g),
        wait_round-values amf3 csid sid (connect_values 1 fc.conn_info.object_encoding) reply h
              cmd_connect k client
            ∙ ap some (check-connect 1 fc.conn_info.object_encoding client first (omega arith)),
      ),
    )
