-- ===== src/Session/Agreement/Media.antt =====
-- The exchanges for publish and play between protocol/core/conn_client.go and forward_conn.go.
use srtmp.Prelude.{ℕ, ◌+◌, ◌%◌, ◌^◌, ◌<◌, ◌≡◌, refl, ap, ◌∙◌, List, [], ◌∷◌, length, some}
use srtmp.Prelude.{ok, arith, All}
use srtmp.Amf.{nil, number, string, same}
use srtmp.Amf.Encode.{encode_batch}
use srtmp.Amf.Decode.{Amf3}
use srtmp.Amf.Valid.{IsValue}
use srtmp.Amf.Batch.{decode_batch-encode_batch}
use srtmp.Chunk.Stream.{ChunkStream}
use srtmp.Session.Names.{cmd_publish, cmd_play, publish_live, publish_start}
use srtmp.Session.Names.{start_publishing, play_reset, playing_and_resetting}
use srtmp.Session.Number.{of_int, to_int-of_int, of_int-lt}
use srtmp.Conn.Control.{set_recorded, set_begin}
use srtmp.Session.Names.{play_start, data_start, publish_notify, started_playing, started_notify}
use srtmp.Session.Action.{Action, ◌>>◌, and_next, pure}
use srtmp.Session.Command.{command_message, find_field}
use srtmp.Session.Server.{ForwardConnect, write_msg, publish_or_play, stream_value}
use srtmp.Session.Server.Replies.{serve}
use srtmp.Session.Server.Replies.{
  publish_resp, play_resp, published, played, status_values, flush_session,
}
use srtmp.Session.Server.Loop.{serve_message}
use srtmp.Session.Client.{ConnClient, next_command, publish_request}
use srtmp.Session.Client.{play_request}
use srtmp.Session.Client.Checks.{check_values}
use srtmp.Session.Client.Start.{Rest, wait_round}
use srtmp.Session.Agreement.{serve_message-values, wait_round-values, sends, write_msg-sends}

publish-IsValue :
    (t : ℕ) (title : List ℕ)
    → t < 2 ^ 53
    → length title < 2 ^ 32
    → All IsValue
        (string cmd_publish ∷ number (of_int t) ∷ nil ∷ string title ∷ string publish_live ∷ [])
unfolding IsValue
publish-IsValue t title small short =
    (omega arith, (of_int-lt t small, (tt, (short, (omega arith, tt)))))

play-IsValue :
    (title : List ℕ)
    → length title < 2 ^ 32
    → All IsValue (string cmd_play ∷ number (of_int 0) ∷ nil ∷ string title ∷ [])
unfolding IsValue
play-IsValue title short = (omega arith, (of_int-lt 0 (omega arith), (tt, (short, tt))))

status-IsValue :
    (status text : List ℕ)
    → length status < 2 ^ 32
    → length text < 2 ^ 32
    → All IsValue (status_values status text)
unfolding IsValue
status-IsValue status text h g = (
  omega arith,
  (
    of_int-lt 0 (omega arith),
    (
      tt,
      (
        (
          omega arith,
          omega arith,
          refl,
          omega arith,
          (omega arith, omega arith, refl, h, (omega arith, omega arith, refl, g, tt)),
        ),
        tt,
      ),
    ),
  ),
)

serve-publish :
    (t : ℕ) (title : List ℕ) (cur : ChunkStream) (fc : ForwardConnect)
    → t < 2 ^ 53
    → serve
        (string cmd_publish ∷ number (of_int t) ∷ nil ∷ string title ∷ string publish_live ∷ [])
        cur
        fc
      ≡ and_next
          (publish_resp cur (record fc {
            transaction_id = t;
            publish_info = record { name = title; publish_type = publish_live };
          }))
          (λ _. pure published)
unfolding serve same publish_or_play stream_value
serve-publish t title cur fc small =
    ap
      (λ (n : ℕ).
        and_next
          (publish_resp cur (record fc {
            transaction_id = n;
            publish_info = record { name = title; publish_type = publish_live };
          }))
          (λ _. pure published))
      (to_int-of_int t small)

serve-play :
    (title : List ℕ) (cur : ChunkStream) (fc : ForwardConnect)
    → serve (string cmd_play ∷ number (of_int 0) ∷ nil ∷ string title ∷ []) cur fc
      ≡ and_next
          (play_resp cur (record fc {
            transaction_id = 0;
            publish_info = record fc.publish_info { name = title };
          }))
          (λ _. pure played)
unfolding serve same publish_or_play stream_value
serve-play title cur fc =
    ap
      (λ (n : ℕ).
        and_next
          (play_resp cur (record fc {
            transaction_id = n;
            publish_info = record fc.publish_info { name = title };
          }))
          (λ _. pure played))
      (to_int-of_int 0 (omega arith))

check-publish :
    (client : ConnClient)
    → check_values cmd_publish (status_values publish_start start_publishing) client
      ≡ (ok tt, client)
unfolding check_values same find_field
check-publish client = refl

check-play :
    (client : ConnClient)
    → check_values cmd_play (status_values play_reset playing_and_resetting) client
      ≡ (ok tt, client)
unfolding check_values same find_field
check-play client = refl

publish_resp-sends :
    (csid sid : ℕ) (request reply : List ℕ) (fc : ForwardConnect)
    → encode_batch (status_values publish_start start_publishing) ≡ ok reply
    → and_next (publish_resp (command_message csid sid request) fc) (λ _. pure published)
      ≡ and_next (sends (command_message csid sid reply) fc) (λ _. pure published)
unfolding publish_resp command_message
publish_resp-sends csid sid request reply fc e =
    ap (λ (m : Action ForwardConnect (Unit {0})). and_next (m fc) (λ _. pure published))
      (write_msg-sends csid sid (status_values publish_start start_publishing) reply e)

-- The four messages of an answer to play, between the events and the flush.
abbrev pub play_answers :
    (List ℕ → ChunkStream) → List ℕ → List ℕ → List ℕ → List ℕ → Action ForwardConnect (Unit {0})
play_answers message reset start begun notify fc =
    (do
      sends (message reset)
      sends (message start)
      sends (message begun)
      sends (message notify)
      flush_session)
      (record fc { conn = set_begin (set_recorded fc.conn) })

play_resp-sends :
    (csid sid : ℕ) (request reset start begun notify : List ℕ) (fc : ForwardConnect)
    → encode_batch (status_values play_reset playing_and_resetting) ≡ ok reset
    → encode_batch (status_values play_start started_playing) ≡ ok start
    → encode_batch (status_values data_start started_playing) ≡ ok begun
    → encode_batch (status_values publish_notify started_notify) ≡ ok notify
    → and_next (play_resp (command_message csid sid request) fc) (λ _. pure played)
      ≡ and_next
          (play_answers (command_message csid sid) reset start begun notify fc)
          (λ _. pure played)
unfolding play_resp command_message
play_resp-sends csid sid request reset start begun notify fc e f g h =
    let msg = λ (status text bs : List ℕ) (p : encode_batch (status_values status text) ≡ ok bs).
      write_msg-sends csid sid (status_values status text) bs p in
    let run = λ (a b c d : Action ForwardConnect (Unit {0})).
      and_next
        ((do a; b; c; d; flush_session) (record fc { conn = set_begin (set_recorded fc.conn) }))
        (λ _. pure played) in
    let w = λ (status text : List ℕ). write_msg csid sid (status_values status text) in
    let s = λ (bs : List ℕ). sends (command_message csid sid bs) in
    ap
      (λ a.
        run a (w play_start started_playing) (w data_start started_playing)
          (w publish_notify started_notify))
      (msg play_reset playing_and_resetting reset e)
    ∙ ap (λ b. run (s reset) b (w data_start started_playing) (w publish_notify started_notify))
        (msg play_start started_playing start f)
    ∙ ap (λ c. run (s reset) (s start) c (w publish_notify started_notify))
        (msg data_start started_playing begun g)
    ∙ ap (λ d. run (s reset) (s start) (s begun) d) (msg publish_notify started_notify notify h)

-- A client publishes: the server learns the title as the stream's name, and that it is live, writes one
-- message on the request's streams, which says that publishing starts, and has served a publish
-- command; the client accepts that very message and changes nothing. The transaction ids are below 2 ^ 53 and the title is shorter than 2 ^ 32.
pub publish_agreed :
    (amf3 : Amf3) (client : ConnClient) (fc : ForwardConnect) (k : Rest)
    → client.trans_id + 1 < 2 ^ 53
    → length client.title < 2 ^ 32
    → let asking = next_command cmd_publish client in
      let knowing = record fc {
        transaction_id = asking.trans_id;
        publish_info = record { name = client.title; publish_type = publish_live };
      } in
      (request : List ℕ) × (encode_batch (publish_request asking) ≡ ok request)
      × (reply : List ℕ) × (encode_batch (status_values publish_start start_publishing) ≡ ok reply)
      × ((csid sid : ℕ)
          → (serve_message amf3 (command_message csid sid request) fc
              ≡ some
                  (and_next (sends (command_message csid sid reply) knowing) (λ _. pure published)))
            × (wait_round amf3 cmd_publish k (command_message csid sid reply) asking
                ≡ some (ok tt, asking)))
unfolding next_command
publish_agreed amf3 client fc k small short =
    let t = (client.trans_id + 1) % 2 ^ 64 in
    let low : t < 2 ^ 53 = omega arith in
    let asking = record client { trans_id = t; curcmd_name = cmd_publish } in
    let (request, e, f) =
      decode_batch-encode_batch amf3 (publish_request asking)
        (publish-IsValue t client.title low short) in
    let (reply, g, h) =
      decode_batch-encode_batch amf3 (status_values publish_start start_publishing)
        (status-IsValue publish_start start_publishing (omega arith) (omega arith)) in
    (
      request,
      e,
      reply,
      g,
      λ csid sid. (
        serve_message-values amf3 csid sid (publish_request asking) request f fc
            ∙ ap some (
                serve-publish t client.title (command_message csid sid request) fc low
                ∙ publish_resp-sends csid sid request reply
                    (record fc {
                      transaction_id = t;
                      publish_info = record { name = client.title; publish_type = publish_live };
                    })
                    g),
        wait_round-values amf3 csid sid (status_values publish_start start_publishing) reply h
              cmd_publish k asking
            ∙ ap some (check-publish asking),
      ),
    )

-- A client plays: the server learns the title as the stream's name, takes the transaction id 0, sends
-- its two events and writes four messages on the request's streams, which say reset, start, the start
-- of the data and the publisher's notice, flushes, and has served a play command; the client accepts
-- the first of these very messages and changes nothing. The title is shorter than 2 ^ 32.
pub play_agreed :
    (amf3 : Amf3) (client : ConnClient) (fc : ForwardConnect) (k : Rest)
    → length client.title < 2 ^ 32
    → let asking = next_command cmd_play client in
      let knowing = record fc {
        transaction_id = 0;
        publish_info = record fc.publish_info { name = client.title };
      } in
      (request reset start begun notify : List ℕ) × (encode_batch (play_request asking)
        ≡ ok request)
      × (encode_batch (status_values play_reset playing_and_resetting) ≡ ok reset)
      × (encode_batch (status_values play_start started_playing) ≡ ok start)
      × (encode_batch (status_values data_start started_playing) ≡ ok begun)
      × (encode_batch (status_values publish_notify started_notify) ≡ ok notify)
      × ((csid sid : ℕ)
          → (serve_message amf3 (command_message csid sid request) fc
              ≡ some (
                  and_next
                    (play_answers (command_message csid sid) reset start begun notify knowing)
                    (λ _. pure played)))
            × (wait_round amf3 cmd_play k (command_message csid sid reset) asking
                ≡ some (ok tt, asking)))
unfolding next_command
play_agreed amf3 client fc k short =
    let asking = record client {
      trans_id = (client.trans_id + 1) % 2 ^ 64;
      curcmd_name = cmd_play;
    } in
    let knowing = record fc {
      transaction_id = 0;
      publish_info = record fc.publish_info { name = client.title };
    } in
    let status = λ (code text : List ℕ) (p : length code < 2 ^ 32) (q : length text < 2 ^ 32).
      decode_batch-encode_batch amf3 (status_values code text) (status-IsValue code text p q) in
    let (request, e, f) =
      decode_batch-encode_batch amf3 (play_request asking) (play-IsValue client.title short) in
    let (reset, g, h) = status play_reset playing_and_resetting (omega arith) (omega arith) in
    let (start, g₂, _) = status play_start started_playing (omega arith) (omega arith) in
    let (begun, g₃, _) = status data_start started_playing (omega arith) (omega arith) in
    let (notify, g₄, _) = status publish_notify started_notify (omega arith) (omega arith) in
    (
      request,
      reset,
      start,
      begun,
      notify,
      e,
      g,
      g₂,
      g₃,
      g₄,
      λ csid sid. (
        serve_message-values amf3 csid sid (play_request asking) request f fc
            ∙ ap some (
                serve-play client.title (command_message csid sid request) fc
                ∙ play_resp-sends csid sid request reset start begun notify knowing g g₂ g₃ g₄),
        wait_round-values amf3 csid sid (status_values play_reset playing_and_resetting) reset h
              cmd_play k asking
            ∙ ap some (check-play asking),
      ),
    )
