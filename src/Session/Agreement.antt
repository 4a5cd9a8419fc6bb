-- ===== src/Session/Agreement.antt =====
-- The client of protocol/core/conn_client.go and the server of forward_conn.go understand each
-- other: what a command message holds, whoever reads it.
use srtmp.Prelude.{
  ℕ, suc, ◌≡◌, refl, ap, ◌∙◌, Bool, true, false, List, length, Option, some, eof, ok,
}
use srtmp.Prelude.{arith, Error}
use srtmp.Amf.{Value}
use srtmp.Amf.Decode.{Amf3, BatchEnd, stopped}
use srtmp.Amf.Decode.{Decoder, decode_batch}
use srtmp.Amf.Encode.{encode_batch}
use srtmp.Prelude.{Result}
use srtmp.Chunk.Stream.{ChunkStream}
use srtmp.Conn.Control.{write}
use srtmp.Session.Action.{Action}
use srtmp.Session.Command.{command_message, values_of, write_command, after_write, after_encode}
use srtmp.Session.Server.{ForwardConnect, put_conn, write_msg}
use srtmp.Session.Server.Replies.{serve}
use srtmp.Session.Server.Loop.{command_body, serve_message, serve_decoded}
use srtmp.Session.Client.{ConnClient}
use srtmp.Session.Client.Checks.{check_values}
use srtmp.Session.Client.Start.{Rest, response_values, checked, wait_round}
pub mod Connect
pub mod Stream
pub mod Media

-- The server writes this message and flushes; an error of the write is dropped.
abbrev pub sends : ChunkStream → Action ForwardConnect (Unit {0})
sends m fc = put_conn (after_write (write m fc.conn)) fc

pub write_msg-sends :
    (csid sid : ℕ) (vs : List Value) (bs : List ℕ)
    → encode_batch vs ≡ ok bs
    → write_msg csid sid vs ≡ sends (command_message csid sid bs)
unfolding write_msg write_command
write_msg-sends csid sid vs bs e =
    ap
      (λ (r : Result (List ℕ)).
        λ (fc : ForwardConnect). put_conn (after_encode r csid sid fc.conn) fc)
      e

module _ (amf3 : Amf3) (csid sid : ℕ) (vs : List Value) (bs : List ℕ)
    (holds : decode_batch amf3 (suc (length bs)) bs ≡ some (vs, stopped eof)) where
  pub serve_message-values :
      (fc : ForwardConnect)
      → serve_message amf3 (command_message csid sid bs) fc
        ≡ some (serve vs (command_message csid sid bs) fc)
  unfolding serve_message command_body command_message
  serve_message-values fc =
      ap
        (λ (r : Option (List Value × BatchEnd)).
          serve_decoded (values_of r) (command_message csid sid bs) fc)
        holds

  pub wait_round-values :
      (name : List ℕ) (k : Rest) (client : ConnClient)
      → wait_round amf3 name k (command_message csid sid bs) client
        ≡ some (check_values name vs client)
  unfolding wait_round response_values command_message
  wait_round-values name k client =
      ap (λ (r : Option (List Value × BatchEnd)). checked (values_of r) name client) holds
