-- ===== src/Session/Server/Loop.antt =====
-- The loops over what the client sends: handleCmdMsg, ReadMsg and SetUpPlayOrPublish of
-- protocol/core/forward_conn.go, and its Write. What decodes a value behind the AMF3 marker is the
-- parameter `amf3`. `none`: the model's fuel ran out; each round reads a message.
use srtmp.Prelude.{ℕ, zero, suc, Bool, true, false, ◌||◌, List, [], ◌∷◌, length, Option, none, some}
use srtmp.Prelude.{◌==◌, if◌then◌else◌, uint32, Result, ok, err, panic}
use srtmp.Amf.{Value, string, same}
use srtmp.Amf.Decode.{Amf3}
use srtmp.Amf.Decode.{decode_batch}
use srtmp.Amf.Metadata.{metadata_reform}
use srtmp.Chunk.Stream.{ChunkStream}
use srtmp.Conn.State.{RtmpConn}
use srtmp.Conn.Control.{write}
use srtmp.Conn.Reader.{read}
use srtmp.Session.Names.{cmd_connect, cmd_create_stream, cmd_publish, cmd_play}
use srtmp.Session.Action.{Action, ◌>>◌, pure, reworded}
use srtmp.Session.Command.{values_of}
use srtmp.Session.Server.{ForwardConnect, put_conn, connect, create_stream, publish_or_play}
use srtmp.Session.Server.Replies.{connect_resp, create_stream_resp, publish_resp, play_resp}
use srtmp.Session.Server.Replies.{Served, handled, published, played, serve}

-- The message's bytes, less the first one in an AMF3 command. Data[1:] panics on no bytes.
unfoldable pub command_body : ChunkStream → Result (List ℕ)
command_body c = if c.type_id == 17 then elim c.body [ [] ↦ panic | b ∷ bs ↦ ok bs ] else ok c.body

abbrev pub decoded : Amf3 → Result (List ℕ) → Option (Result (List Value))
decoded amf3 (ok bs) = values_of (decode_batch amf3 (suc (length bs)) bs)
decoded amf3 (err e) = some (err e)
decoded amf3 panic = some panic

abbrev pub serve_decoded :
    Option (Result (List Value))
    → ChunkStream
    → ForwardConnect
    → Option (Result Served × ForwardConnect)
serve_decoded none c fc = none
serve_decoded (some (ok vs)) c fc = some (serve vs c fc)
serve_decoded (some (err e)) c fc = some (err e, fc)
serve_decoded (some panic) c fc = some (panic, fc)

-- One command: its body is decoded, and the switch runs.
unfoldable pub serve_message :
    Amf3 → ChunkStream → ForwardConnect → Option (Result Served × ForwardConnect)
unfolding command_body
serve_message amf3 c fc = serve_decoded (decoded amf3 (command_body c)) c fc

-- The switch of handleCmdMsg, which notes in the connection that the session has ended.
unfoldable pub ended : Bool → Action ForwardConnect (Unit {0})
ended is_publisher fc = (ok tt, record fc { done = true; is_publisher = is_publisher })

unfoldable pub handle_command : List Value → ChunkStream → Action ForwardConnect (Unit {0})
unfolding connect connect_resp create_stream create_stream_resp publish_or_play publish_resp
    play_resp same ended
handle_command [] c fc = (panic, fc)
handle_command (string name ∷ args) c fc =
    if same name cmd_connect
    then (do connect args; connect_resp c; pure tt) fc
    else if same name cmd_create_stream
    then (do create_stream args; create_stream_resp c; pure tt) fc
    else if same name cmd_publish
    then (do publish_or_play 0 args; publish_resp c; ended true) fc
    else if same name cmd_play
    then (do publish_or_play 0 args; play_resp c; ended false) fc
    else (ok tt, fc)
handle_command (_ ∷ args) c fc = (ok tt, fc)

abbrev pub handle_decoded :
    Option (Result (List Value))
    → ChunkStream
    → ForwardConnect
    → Option (Result (Unit {0}) × ForwardConnect)
handle_decoded none c fc = none
handle_decoded (some (ok vs)) c fc = some (handle_command vs c fc)
handle_decoded (some (err e)) c fc = some (err e, fc)
handle_decoded (some panic) c fc = some (panic, fc)

unfoldable pub handle_cmd_msg :
    Amf3 → ChunkStream → ForwardConnect → Option (Result (Unit {0}) × ForwardConnect)
unfolding command_body
handle_cmd_msg amf3 c fc = handle_decoded (decoded amf3 (command_body c)) c fc

-- conn.Read, and what the caller does with its message.
abbrev pub received :
    {A : Type 0}
    → Option (Result ChunkStream × RtmpConn)
    → ForwardConnect
    → (ChunkStream → ForwardConnect → Option (Result A × ForwardConnect))
    → Option (Result A × ForwardConnect)
received none fc k = none
received (some (ok c, conn)) fc k = k c (record fc { conn = conn })
received (some (err e, conn)) fc k = some (err e, record fc { conn = conn })
received (some (panic, conn)) fc k = some (panic, record fc { conn = conn })

unfoldable pub read_message : ForwardConnect → Option (Result ChunkStream × RtmpConn)
read_message fc = read (suc (length fc.conn.rw.input)) fc.conn

unfoldable pub is_command : ChunkStream → Bool
is_command c = c.type_id == 17 || c.type_id == 20

abbrev pub Rest : Type 0
Rest = ForwardConnect → Option (Result (Unit {0}) × ForwardConnect)

abbrev pub until_done :
    Option (Result (Unit {0}) × ForwardConnect) → Rest → Option (Result (Unit {0}) × ForwardConnect)
until_done none k = none
until_done (some (ok u, fc)) k = if fc.done then some (ok tt, fc) else k fc
until_done (some (err e, fc)) k = some (err e, fc)
until_done (some (panic, fc)) k = some (panic, fc)

unfoldable pub read_msg_round : Amf3 → Rest → ChunkStream → Rest
unfolding is_command handle_cmd_msg
read_msg_round amf3 k c fc =
    until_done (if is_command c then handle_cmd_msg amf3 c fc else some (ok tt, fc)) k

unfoldable pub read_msg : Amf3 → ℕ → Rest
unfolding read_msg_round read_message
read_msg amf3 zero fc = none
read_msg amf3 (suc fuel) fc =
    received (read_message fc) fc (read_msg_round amf3 (read_msg amf3 fuel))

-- A publish or a play command ends the loop.
abbrev pub until_stream :
    Option (Result Served × ForwardConnect) → Rest → Option (Result (Unit {0}) × ForwardConnect)
until_stream none k = none
until_stream (some (ok handled, fc)) k = k fc
until_stream (some (ok published, fc)) k = some (ok tt, record fc { is_publisher = true })
until_stream (some (ok played, fc)) k = some (ok tt, record fc { is_publisher = false })
until_stream (some (err e, fc)) k = some (err e, fc)
until_stream (some (panic, fc)) k = some (panic, fc)

unfoldable pub set_up_round : Amf3 → Rest → ChunkStream → Rest
unfolding is_command serve_message
set_up_round amf3 k c fc = if is_command c then until_stream (serve_message amf3 c fc) k else k fc

unfoldable pub set_up_loop : Amf3 → ℕ → Rest
unfolding set_up_round read_message
set_up_loop amf3 zero fc = none
set_up_loop amf3 (suc fuel) fc =
    received (read_message fc) fc (set_up_round amf3 (set_up_loop amf3 fuel))

-- Every error is made into one of its own.
unfoldable pub set_up_play_or_publish : Amf3 → ℕ → Rest
unfolding set_up_loop
set_up_play_or_publish amf3 fuel fc = reworded (set_up_loop amf3 fuel fc)

abbrev pub send_reformed : Option (Result (List ℕ)) → ChunkStream → Rest
send_reformed none c fc = none
send_reformed (some (ok p)) c fc =
    some (put_conn (write (record c { body = p; message_length = uint32 (length p) }) fc.conn) fc)
send_reformed (some (err e)) c fc = some (err e, fc)
send_reformed (some panic) c fc = some (panic, fc)

-- Write takes the name of a publisher's metadata away. `c` is a copy of the caller's message.
unfoldable pub write_message : Amf3 → ChunkStream → Rest
write_message amf3 c fc =
    if c.type_id == 18 || c.type_id == 15
    then send_reformed (metadata_reform amf3 c.body 0x3) c fc
    else some (put_conn (write c fc.conn) fc)
