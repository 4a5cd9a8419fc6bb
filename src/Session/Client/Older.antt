-- ===== src/Session/Client/Older.antt =====
-- checkResponse of protocol/core/conn_client.go and the loops around it, netConnection,
-- streamConnection and setupPlayOrPublish, which Start does not call; and readRespMsg.
use srtmp.Prelude.{ℕ, zero, suc, ◌+◌, ◌%◌, ◌^◌, Bool, true, false, ◌||◌, List, [], ◌∷◌, length}
use srtmp.Prelude.{Option, none, some, ◌==◌, if◌then◌else◌}
use srtmp.Prelude.{failure, Result, ok, err, panic}
use srtmp.Amf.{Value, number, string, object, same}
use srtmp.Amf.Decode.{Amf3, BatchEnd, stopped, died}
use srtmp.Amf.Decode.{decode_batch}
use srtmp.Chunk.Stream.{ChunkStream}
use srtmp.Conn.State.{RtmpConn}
use srtmp.Conn.Reader.{read}
use srtmp.Session.Names.{cmd_connect, cmd_create_stream, cmd_publish, cmd_play, resp_result}
use srtmp.Session.Names.{on_status, publish_start, connect_success, key_code}
use srtmp.Session.Names.{method_publish, method_play}
use srtmp.Session.Number.{to_int}
use srtmp.Session.Action.{Action, and_next, reworded}
use srtmp.Session.Command.{find_field, is_eof}
use srtmp.Session.Client.{ConnClient, write_connect_msg, write_create_stream_msg}
use srtmp.Session.Client.{write_publish_msg, write_play_msg}
use srtmp.Session.Client.Start.{Rest, response_values, received}

unfoldable pub asks_result : List ℕ → Bool
unfolding same
asks_result command = same command cmd_connect || same command cmd_create_stream

-- `code.(string)` panics where the code is of another type.
abbrev pub expect_code : Option Value → List ℕ → Bool → Action ConnClient Bool
expect_code none expected good client = (ok good, client)
expect_code (some (string s)) expected good client =
    (if same s expected then ok good else err failure, client)
expect_code (some _) expected good client = (panic, client)

-- One round of checkResponse's loop with its variable resultOK; `k` is the index.
unfoldable pub check_round : List ℕ → ℕ → Value → Bool → Action ConnClient Bool
unfolding asks_result same find_field to_int
check_round command k (string s) good client =
    if asks_result command
    then (if same s resp_result then ok true else err failure, client)
    else if same command cmd_publish
    then (if same s on_status then ok true else err failure, client)
    else (ok good, client)
check_round command k (number bits) good client =
    if asks_result command
    then (if k == 1
        then (if to_int bits == client.trans_id then ok good else err failure, client)
        else if k == 3
        then (ok good, record client { streamid = to_int bits % 2 ^ 32 })
        else (ok good, client))
    else if same command cmd_publish
    then (if to_int bits == 0 then ok good else err failure, client)
    else (ok good, client)
check_round command k (object fs) good client =
    if same command cmd_connect
    then expect_code (find_field key_code fs) connect_success good client
    else if same command cmd_publish
    then expect_code (find_field key_code fs) publish_start good client
    else (ok good, client)
check_round command k _ good client = (ok good, client)

unfoldable pub check_rounds : List ℕ → ℕ → List Value → Bool → Action ConnClient Bool
unfolding check_round
check_rounds command k [] good client = (ok good, client)
check_rounds command k (v ∷ vs) good client =
    and_next (check_round command k v good client) (check_rounds command (k + 1) vs)

abbrev pub result_ok : Bool → Action ConnClient (Unit {0})
result_ok good client = (if good then ok tt else err failure, client)

unfoldable pub check_response : List ℕ → List Value → Action ConnClient (Unit {0})
unfolding check_rounds
check_response command vs client = and_next (check_rounds command 0 vs false client) result_ok

abbrev pub responded : Option (Result (List Value)) → List ℕ → Rest
responded none command client = none
responded (some (ok vs)) command client = some (check_response command vs client)
responded (some (err e)) command client = some (err e, client)
responded (some panic) command client = some (panic, client)

-- The switch in the three loops: a message of another type is passed over.
unfoldable pub answer_round : Amf3 → List ℕ → Rest → ChunkStream → Rest
unfolding response_values check_response
answer_round amf3 command k c client =
    if c.type_id == 20 || c.type_id == 17
    then responded (response_values amf3 c) command client
    else if c.type_id == 18 || c.type_id == 15
    then some (err failure, client)
    else if c.type_id == 8 || c.type_id == 9
    then some (err failure, client)
    else k client

unfoldable pub answer_loop : Amf3 → List ℕ → ℕ → Rest
unfolding answer_round
answer_loop amf3 command zero client = none
answer_loop amf3 command (suc fuel) client =
    received (read (suc (length client.conn.rw.input)) client.conn) client
      (answer_round amf3 command (answer_loop amf3 command fuel))

abbrev pub after_request :
    Result (Unit {0}) × ConnClient → Rest → Option (Result (Unit {0}) × ConnClient)
after_request (ok u, client) k = k client
after_request (err e, client) k = some (err e, client)
after_request (panic, client) k = some (panic, client)

unfoldable pub net_connection : Amf3 → ℕ → Rest
unfolding answer_loop write_connect_msg
net_connection amf3 fuel client =
    reworded (after_request (write_connect_msg client) (answer_loop amf3 cmd_connect fuel))

unfoldable pub stream_connection : Amf3 → ℕ → Rest
unfolding answer_loop write_create_stream_msg
stream_connection amf3 fuel client =
    reworded
      (after_request (write_create_stream_msg client) (answer_loop amf3 cmd_create_stream fuel))

-- The error of the request is overwritten by Read's.
abbrev pub whatever_sent :
    Result (Unit {0}) × ConnClient → Rest → Option (Result (Unit {0}) × ConnClient)
whatever_sent (ok u, client) k = k client
whatever_sent (err e, client) k = k client
whatever_sent (panic, client) k = some (panic, client)

-- Both methods check the answer as that to a play command.
unfoldable pub setup_play_or_publish : Amf3 → List ℕ → ℕ → Rest
unfolding answer_loop write_play_msg write_publish_msg same
setup_play_or_publish amf3 method fuel client =
    let answered = answer_loop amf3 cmd_play fuel in
    if same method method_play
    then reworded (whatever_sent (write_play_msg client) answered)
    else if same method method_publish
    then reworded (whatever_sent (write_publish_msg client) answered)
    else some (err failure, client)

-- One round of readRespMsg's inner loop.
unfoldable pub resp_round : ℕ → Value → Action ConnClient Bool
unfolding asks_result same find_field to_int
resp_round k (string s) client =
    if asks_result client.curcmd_name
    then (if same s resp_result then ok true else err failure, client)
    else if same client.curcmd_name cmd_publish
    then (if same s on_status then ok true else err failure, client)
    else (ok true, client)
resp_round k (number bits) client = check_round client.curcmd_name k (number bits) true client
resp_round k (object fs) client = check_round client.curcmd_name k (object fs) true client
resp_round k _ client = (ok true, client)

unfoldable pub resp_rounds : ℕ → List Value → Action ConnClient (Unit {0})
unfolding resp_round
resp_rounds k [] client = (ok tt, client)
resp_rounds k (v ∷ vs) client = and_next (resp_round k v client) (λ _. resp_rounds (k + 1) vs)

-- DecodeBatch's error is dropped, and the values before it are checked.
abbrev pub resp_values : Option (List Value × BatchEnd) → Rest
resp_values none client = none
resp_values (some (vs, stopped e)) client = some (resp_rounds 0 vs client)
resp_values (some (vs, died)) client = some (panic, client)

-- At the end of the input the message is nil, and looking at it panics.
abbrev pub resp_received :
    Option (Result ChunkStream × RtmpConn)
    → ConnClient
    → (ChunkStream → Rest)
    → Option (Result (Unit {0}) × ConnClient)
resp_received none client k = none
resp_received (some (ok c, conn)) client k = k c (record client { conn = conn })
resp_received (some (err e, conn)) client k =
    some (if is_eof e then panic else err e, record client { conn = conn })
resp_received (some (panic, conn)) client k = some (panic, record client { conn = conn })

unfoldable pub read_resp_round : Amf3 → Rest → ChunkStream → Rest
unfolding resp_rounds
read_resp_round amf3 k c client =
    if c.type_id == 20 || c.type_id == 17
    then resp_values (decode_batch amf3 (suc (length c.body)) c.body) client
    else k client

unfoldable pub read_resp_msg : Amf3 → ℕ → Rest
unfolding read_resp_round
read_resp_msg amf3 zero client = none
read_resp_msg amf3 (suc fuel) client =
    resp_received (read (suc (length client.conn.rw.input)) client.conn) client
      (read_resp_round amf3 (read_resp_msg amf3 fuel))
