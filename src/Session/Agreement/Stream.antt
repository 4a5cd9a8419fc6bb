-- ===== src/Session/Agreement/Stream.antt =====
-- The exchange for createStream between protocol/core/conn_client.go and
-- forward_conn.go.
use srtmp.Prelude.{ℕ, ◌+◌, ◌%◌, ◌^◌, ◌<◌, ◌≡◌, refl, ap, ◌∙◌, List, [], ◌∷◌, some}
use srtmp.Prelude.{ok, arith, ==_refl, All}
use srtmp.Amf.{nil, number, string, same}
use srtmp.Amf.Encode.{encode_batch}
use srtmp.Amf.Decode.{Amf3}
use srtmp.Amf.Valid.{IsValue}
use srtmp.Amf.Batch.{decode_batch-encode_batch}
use srtmp.Chunk.Stream.{ChunkStream}
use srtmp.Session.Names.{cmd_create_stream}
use srtmp.Session.Number.{of_int, to_int, to_int-of_int, of_int-lt}
use srtmp.Session.Action.{Action, and_next, pure}
use srtmp.Session.Command.{command_message}
use srtmp.Session.Server.{ForwardConnect, create_stream}
use srtmp.Session.Server.Replies.{serve, create_stream_values, create_stream_resp, handled}
use srtmp.Session.Server.Loop.{serve_message}
use srtmp.Session.Client.{ConnClient, next_command, create_stream_request}
use srtmp.Session.Client.Checks.{check_values}
use srtmp.Session.Client.Start.{Rest, wait_round}
use srtmp.Session.Agreement.{serve_message-values, wait_round-values, sends, write_msg-sends}

serve-create_stream :
    (t : ℕ) (cur : ChunkStream) (fc : ForwardConnect)
    → t < 2 ^ 53
    → serve (string cmd_create_stream ∷ number (of_int t) ∷ nil ∷ []) cur fc
      ≡ and_next (create_stream_resp cur (record fc { transaction_id = t })) (λ _. pure handled)
unfolding serve same create_stream
serve-create_stream t cur fc small =
    ap
      (λ (n : ℕ).
        and_next (create_stream_resp cur (record fc { transaction_id = n })) (λ _. pure handled))
      (to_int-of_int t small)

check-create_stream :
    (t sid : ℕ) (client : ConnClient)
    → client.trans_id ≡ t
    → t < 2 ^ 53
    → sid < 2 ^ 32
    → check_values cmd_create_stream (create_stream_values t sid) client
      ≡ (ok tt, record client { streamid = sid })
unfolding check_values same
check-create_stream t sid client e small fits =
    let a : to_int (of_int t) ≡ t = to_int-of_int t small in
    let b : to_int (of_int sid) ≡ sid = to_int-of_int sid (omega arith) in
    let c : sid % 2 ^ 32 ≡ sid = omega arith in simp (a, b, c, e, ==_refl t)

request-IsValue :
    (t : ℕ) → t < 2 ^ 53 → All IsValue (string cmd_create_stream ∷ number (of_int t) ∷ nil ∷ [])
unfolding IsValue
request-IsValue t small = (omega arith, (of_int-lt t small, (tt, tt)))

reply-IsValue : (t sid : ℕ) → t < 2 ^ 53 → sid < 2 ^ 32 → All IsValue (create_stream_values t sid)
unfolding IsValue
reply-IsValue t sid small fits =
    (omega arith, (of_int-lt t small, (tt, (of_int-lt sid (omega arith), tt))))

create_stream_resp-sends :
    (csid sid t : ℕ) (request reply : List ℕ) (fc : ForwardConnect)
    → encode_batch (create_stream_values t fc.stream_id) ≡ ok reply
    → and_next
        (create_stream_resp (command_message csid sid request) (record fc { transaction_id = t }))
        (λ _. pure handled)
      ≡ and_next
          (sends (command_message csid sid reply) (record fc { transaction_id = t }))
          (λ _. pure handled)
unfolding create_stream_resp command_message
create_stream_resp-sends csid sid t request reply fc e =
    ap
      (λ (m : Action ForwardConnect (Unit {0})).
        and_next (m (record fc { transaction_id = t })) (λ _. pure handled))
      (write_msg-sends csid sid (create_stream_values t fc.stream_id) reply e)

-- A client asks for a stream: the server takes the new transaction id from the request and writes
-- one message, on the request's streams, and the client accepts that very message and takes the
-- server's stream id from it. So it is whatever the two have done before, on any chunk stream and message stream, while the
-- transaction ids are below 2 ^ 53 and the stream id below 2 ^ 32.
pub create_stream_agreed :
    (amf3 : Amf3) (client : ConnClient) (fc : ForwardConnect) (k : Rest)
    → client.trans_id + 1 < 2 ^ 53
    → fc.stream_id < 2 ^ 32
    → let asking = next_command cmd_create_stream client in
      let knowing = record fc { transaction_id = asking.trans_id } in
      (request : List ℕ) × (encode_batch (create_stream_request asking) ≡ ok request)
      × (reply : List ℕ) × (encode_batch
            (create_stream_values knowing.transaction_id knowing.stream_id)
          ≡ ok reply)
      × ((csid sid : ℕ)
          → (serve_message amf3 (command_message csid sid request) fc
              ≡ some
                  (and_next (sends (command_message csid sid reply) knowing) (λ _. pure handled)))
            × (wait_round amf3 cmd_create_stream k (command_message csid sid reply) asking
                ≡ some (ok tt, record asking { streamid = fc.stream_id })))
unfolding next_command
create_stream_agreed amf3 client fc k small fits =
    let t = (client.trans_id + 1) % 2 ^ 64 in
    let low : t < 2 ^ 53 = omega arith in
    let asking = record client { trans_id = t; curcmd_name = cmd_create_stream } in
    let (request, e, f) =
      decode_batch-encode_batch amf3 (create_stream_request asking) (request-IsValue t low) in
    let (reply, g, h) =
      decode_batch-encode_batch amf3 (create_stream_values t fc.stream_id)
        (reply-IsValue t fc.stream_id low fits) in
    (
      request,
      e,
      reply,
      g,
      λ csid sid. (
        serve_message-values amf3 csid sid (create_stream_request asking) request f fc
            ∙ ap some (
                serve-create_stream t (command_message csid sid request) fc low
                ∙ create_stream_resp-sends csid sid t request reply fc g),
        wait_round-values amf3 csid sid (create_stream_values t fc.stream_id) reply h
              cmd_create_stream k asking
            ∙ ap some (check-create_stream t fc.stream_id asking refl low fits),
      ),
    )
