-- ===== src/Session/Server/Progress.antt =====
-- The server's loops of protocol/core/forward_conn.go end: each round takes a byte of the input, and
-- no reply adds to it.
use srtmp.Prelude.{ℕ, zero, suc, ◌<◌, ◌≡◌, refl, Bool}
use srtmp.Prelude.{List, length, Option, none, some, arith}
use srtmp.Prelude.{Result, ok, err, panic, if_cases}
use srtmp.Amf.{Value}
use srtmp.Amf.Decode.{Amf3, BatchEnd, stopped, died}
use srtmp.Amf.Decode.{decode_batch}
use srtmp.Amf.Fuel.{decode_batch-total}
use srtmp.Chunk.Stream.{ChunkStream}
use srtmp.Conn.State.{RtmpConn}
use srtmp.Conn.Progress.{Consumes, read-Consumes}
use srtmp.Session.Action.{reworded}
use srtmp.Session.Command.{values_of}
use srtmp.Session.Server.{ForwardConnect}
use srtmp.Session.Server.Replies.{Served, handled, published, played}
use srtmp.Session.Server.Inputs.{Kept, Keeps, serve-Keeps}
use srtmp.Session.Server.Loop.{command_body, decoded, serve_decoded, serve_message, received}
use srtmp.Session.Server.Loop.{read_message, until_stream, set_up_round, set_up_loop, Rest}
use srtmp.Session.Server.Loop.{set_up_play_or_publish, is_command}

-- The fuel did not run out.
abbrev pub Returns : {A : Type 0} → Option A → Type 0
Returns none = ⊥
Returns (some a) = Unit

-- A command was served, and left what there is to read and the flag.
abbrev pub Serves : {A : Type 0} → List ℕ → Bool → Option (Result A × ForwardConnect) → Type 0
Serves bs d none = ⊥
Serves bs d (some r) = Keeps bs d r

values_of-Returns :
    (vs : List Value) (e : BatchEnd) (r : Option (List Value × BatchEnd))
    → r ≡ some (vs, e)
    → Returns (values_of r)
values_of-Returns vs (stopped e) r h = rw h tt
values_of-Returns vs died r h = rw h tt

serve_decoded-Serves :
    (bs : List ℕ) (d : Bool) (r : Option (Result (List Value))) (c : ChunkStream)
    (fc : ForwardConnect)
    → Returns r
    → Kept bs d fc
    → Serves bs d (serve_decoded r c fc)
serve_decoded-Serves bs d none c fc r h = absurd r
serve_decoded-Serves bs d (some (ok vs)) c fc r h = serve-Keeps bs d vs c fc h
serve_decoded-Serves bs d (some (err e)) c fc r h = h
serve_decoded-Serves bs d (some panic) c fc r h = h

received-Returns :
    (k : ℕ) (r : Option (Result ChunkStream × RtmpConn)) (fc : ForwardConnect)
    (f : ChunkStream → Rest)
    → Consumes k r
    → ((c : ChunkStream) (conn : RtmpConn)
        → length conn.rw.input < k
        → Returns (f c (record fc { conn = conn })))
    → Returns (received r fc f)
received-Returns k none fc f c h = absurd c
received-Returns k (some (ok m, conn)) fc f c h = h m conn c
received-Returns k (some (err e, conn)) fc f c h = tt
received-Returns k (some (panic, conn)) fc f c h = tt

-- What is left to read does not grow.
until_stream-Returns :
    (bs : List ℕ) (d : Bool) (r : Option (Result Served × ForwardConnect)) (k : Rest)
    → Serves bs d r
    → ((fc : ForwardConnect) → fc.conn.rw.input ≡ bs → Returns (k fc))
    → Returns (until_stream r k)
until_stream-Returns bs d none k s h = absurd s
until_stream-Returns bs d (some (ok handled, fc)) k s h = h fc s.0
until_stream-Returns bs d (some (ok published, fc)) k s h = tt
until_stream-Returns bs d (some (ok played, fc)) k s h = tt
until_stream-Returns bs d (some (err e, fc)) k s h = tt
until_stream-Returns bs d (some (panic, fc)) k s h = tt

module _ (amf3 : Amf3) where
  decoded-Returns : (r : Result (List ℕ)) → Returns (decoded amf3 r)
  decoded-Returns (ok bs) =
      let (vs, e, h) = decode_batch-total amf3 (suc (length bs)) bs (omega arith) in
      values_of-Returns vs e (decode_batch amf3 (suc (length bs)) bs) h
  decoded-Returns (err e) = tt
  decoded-Returns panic = tt

  pub serve_message-Serves :
      (bs : List ℕ) (d : Bool) (c : ChunkStream) (fc : ForwardConnect)
      → Kept bs d fc
      → Serves bs d (serve_message amf3 c fc)
  unfolding serve_message
  serve_message-Serves bs d c fc h =
      serve_decoded-Serves bs d (decoded amf3 (command_body c)) c fc
        (decoded-Returns (command_body c)) h

  set_up_round-Returns :
      (k : Rest) (n : ℕ) (c : ChunkStream) (fc : ForwardConnect)
      → length fc.conn.rw.input < n
      → ((fc : ForwardConnect) → length fc.conn.rw.input < n → Returns (k fc))
      → Returns (set_up_round amf3 k c fc)
  unfolding set_up_round
  set_up_round-Returns k n c fc h f =
      if_cases Returns (is_command c) _ _
        (until_stream-Returns fc.conn.rw.input fc.done (serve_message amf3 c fc) k
          (serve_message-Serves fc.conn.rw.input fc.done c fc (refl, refl)) λ fc' e. f fc' (rw e h))
        (f fc h)

  set_up_loop-Returns :
      (fuel : ℕ) (fc : ForwardConnect)
      → length fc.conn.rw.input < fuel
      → Returns (set_up_loop amf3 fuel fc)
  unfolding set_up_loop read_message
  set_up_loop-Returns zero fc h = absurd (omega arith)
  set_up_loop-Returns (suc fuel) fc h =
      received-Returns (length fc.conn.rw.input) _ fc (set_up_round amf3 (set_up_loop amf3 fuel))
        (read-Consumes (suc (length fc.conn.rw.input)) fc.conn (omega arith))
        λ c conn g.
          set_up_round-Returns (set_up_loop amf3 fuel) fuel c _ (omega arith)
            (set_up_loop-Returns fuel)

  reworded-Returns :
      (r : Option (Result (Unit {0}) × ForwardConnect))
      → Returns r
      → (x : Result (Unit {0}) × ForwardConnect) × (reworded r ≡ some x)
  reworded-Returns none h = absurd h
  reworded-Returns (some (ok u, fc)) h = (_, refl)
  reworded-Returns (some (err e, fc)) h = (_, refl)
  reworded-Returns (some (panic, fc)) h = (_, refl)

  -- A server that sets a session up is done on every input that the client may send and then close,
  -- if its calls for the larger values of AMF3 return or panic: more rounds than there are bytes in
  -- the input are not needed, and the loop returns a stream to publish or to play, an error, or a
  -- panic.
  pub set_up_play_or_publish-total :
      (fuel : ℕ) (fc : ForwardConnect)
      → length fc.conn.rw.input < fuel
      → (x : Result (Unit {0}) × ForwardConnect) × (set_up_play_or_publish amf3 fuel fc ≡ some x)
  unfolding set_up_play_or_publish
  set_up_play_or_publish-total fuel fc h =
      reworded-Returns (set_up_loop amf3 fuel fc) (set_up_loop-Returns fuel fc h)
