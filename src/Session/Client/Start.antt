-- ===== src/Session/Client/Start.antt =====
-- waitForResponse and Start of protocol/core/conn_client.go. `amf3` stands for the decoder of AMF3.
-- `none`: the model's fuel ran out; each round of the loop reads a message.
use srtmp.Prelude.{ℕ, zero, suc, ◌||◌, List, length, Option, none, some}
use srtmp.Prelude.{◌==◌, if◌then◌else◌, failure, Result, ok, err, panic}
use srtmp.Amf.{Value, same}
use srtmp.Amf.Decode.{Amf3}
use srtmp.Amf.Decode.{decode_batch}
use srtmp.Chunk.Stream.{ChunkStream}
use srtmp.Conn.State.{RtmpConn}
use srtmp.Conn.Reader.{read}
use srtmp.Session.Names.{cmd_connect, cmd_create_stream, cmd_publish, cmd_play}
use srtmp.Session.Names.{method_publish, method_play}
use srtmp.Session.Action.{reworded}
use srtmp.Session.Command.{values_of, decode_batch3}
use srtmp.Session.Client.{ConnClient, write_connect_msg, write_create_stream_msg}
use srtmp.Session.Client.{write_publish_msg, write_play_msg}
use srtmp.Session.Client.Checks.{check_values}

abbrev pub Rest : Type 0
Rest = ConnClient → Option (Result (Unit {0}) × ConnClient)

-- The values of a command message of type 20 or 17.
unfoldable pub response_values : Amf3 → ChunkStream → Option (Result (List Value))
unfolding decode_batch3
response_values amf3 c = values_of (
    if c.type_id == 20
    then decode_batch amf3 (suc (length c.body)) c.body
    else decode_batch3 amf3 (suc (length c.body)) c.body)

abbrev pub checked : Option (Result (List Value)) → List ℕ → Rest
checked none command client = none
checked (some (ok vs)) command client = some (check_values command vs client)
checked (some (err e)) command client = some (err e, client)
checked (some panic) command client = some (panic, client)

-- The switch on the message's type: an aggregate message and one of any other type end the wait
-- with no error.
unfoldable pub wait_round : Amf3 → List ℕ → Rest → ChunkStream → Rest
unfolding response_values
wait_round amf3 command k c client =
    if c.type_id == 18 || c.type_id == 15
    then some (err failure, client)
    else if c.type_id == 19 || c.type_id == 16
    then k client
    else if c.type_id == 8 || c.type_id == 9
    then some (err failure, client)
    else if c.type_id == 22
    then some (ok tt, client)
    else if c.type_id == 4
    then k client
    else if c.type_id == 20 || c.type_id == 17
    then checked (response_values amf3 c) command client
    else some (ok tt, client)

abbrev pub received :
    Option (Result ChunkStream × RtmpConn)
    → ConnClient
    → (ChunkStream → Rest)
    → Option (Result (Unit {0}) × ConnClient)
received none client k = none
received (some (ok c, conn)) client k = k c (record client { conn = conn })
received (some (err e, conn)) client k = some (err e, record client { conn = conn })
received (some (panic, conn)) client k = some (panic, record client { conn = conn })

unfoldable pub wait_loop : Amf3 → List ℕ → ℕ → Rest
unfolding wait_round
wait_loop amf3 command zero client = none
wait_loop amf3 command (suc fuel) client =
    received (read (suc (length client.conn.rw.input)) client.conn) client
      (wait_round amf3 command (wait_loop amf3 command fuel))

-- Every error is made into one of its own.
unfoldable pub wait_for_response : Amf3 → List ℕ → ℕ → Rest
unfolding wait_loop
wait_for_response amf3 command fuel client = reworded (wait_loop amf3 command fuel client)

abbrev pub then_wait :
    Result (Unit {0}) × ConnClient → Rest → Option (Result (Unit {0}) × ConnClient)
then_wait (ok u, client) k = k client
then_wait (err e, client) k = some (err e, client)
then_wait (panic, client) k = some (panic, client)

abbrev pub and_then_some :
    Option (Result (Unit {0}) × ConnClient) → Rest → Option (Result (Unit {0}) × ConnClient)
and_then_some none k = none
and_then_some (some r) k = then_wait r k

-- The first switch of Start's loop: the command's message is written.
unfoldable pub write_current : List ℕ → ConnClient → Result (Unit {0}) × ConnClient
unfolding write_connect_msg write_create_stream_msg write_publish_msg write_play_msg same
write_current command client =
    if same command cmd_connect
    then write_connect_msg client
    else if same command cmd_create_stream
    then write_create_stream_msg client
    else if same command cmd_play
    then write_play_msg client
    else if same command cmd_publish
    then write_publish_msg client
    else (ok tt, client)

-- The second switch: the next command, or the end. A command of another name would go on for ever.
pub data Next : Type 0 where
  finished : Next
  unsupported : Next
  command : List ℕ → Next

unfoldable pub next_of : List ℕ → List ℕ → Next
unfolding same
next_of method current =
    if same current cmd_connect
    then command cmd_create_stream
    else if same current cmd_create_stream
    then (if same method method_publish
        then command cmd_publish
        else if same method method_play
        then command cmd_play
        else unsupported)
    else if same current cmd_play || same current cmd_publish
    then finished
    else command current

abbrev pub go_on : Next → (List ℕ → Rest) → Rest
go_on finished k client = some (ok tt, client)
go_on unsupported k client = some (err failure, client)
go_on (command c) k client = k c client

-- Start's loop: `rounds` commands are sent at most.
unfoldable pub start_loop : Amf3 → List ℕ → ℕ → ℕ → List ℕ → Rest
unfolding write_current next_of wait_for_response
start_loop amf3 method fuel zero current client = none
start_loop amf3 method fuel (suc rounds) current client =
    let loop = start_loop amf3 method fuel rounds in
    and_then_some (then_wait (write_current current client) (wait_for_response amf3 current fuel))
      (go_on (next_of method current) loop)

-- Start behind connectServer. The three rounds are connect, createStream, and publish or play.
unfoldable pub start : Amf3 → List ℕ → ℕ → Rest
unfolding start_loop
start amf3 method fuel client = reworded (start_loop amf3 method fuel 3 cmd_connect client)
