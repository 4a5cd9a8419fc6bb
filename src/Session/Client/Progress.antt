-- ===== src/Session/Client/Progress.antt =====
-- The client's loops of protocol/core/conn_client.go end: each round of waitForResponse takes a byte
-- of the input, and Start sends three commands at most.
use srtmp.Prelude.{ℕ, zero, suc, ◌≤◌, ◌<◌, ◌≡◌, refl}
use srtmp.Prelude.{List, [], length, Option, none, some, ◌==◌}
use srtmp.Prelude.{arith, Result, ok, err, panic, if_cases, ◌||◌}
use srtmp.Amf.{Value, same, Decoded, done}
use srtmp.Amf.{rejected, crashed, out_of_fuel}
use srtmp.Amf.Decode.{Amf3, BatchEnd, stopped, died, decode_amf3}
use srtmp.Amf.Decode.{decode_batch, after_value}
use srtmp.Amf.Leaves.{Leaves}
use srtmp.Amf.Fuel.{decode_batch-total, decode_amf3-Leaves}
use srtmp.Chunk.Stream.{ChunkStream}
use srtmp.Conn.State.{RtmpConn}
use srtmp.Conn.Reader.{read}
use srtmp.Conn.Progress.{Consumes, read-Consumes}
use srtmp.Session.Names.{method_publish, method_play}
use srtmp.Session.Names.{cmd_connect, cmd_create_stream, cmd_publish, cmd_play}
use srtmp.Session.Action.{reworded}
use srtmp.Session.Command.{values_of, decode_batch3}
use srtmp.Session.Client.{ConnClient}
use srtmp.Session.Client.Checks.{check_values}
use srtmp.Session.Client.Start.{Rest, response_values, checked, wait_round, received, wait_loop}
use srtmp.Session.Client.Start.{wait_for_response, then_wait, and_then_some, write_current, Next}
use srtmp.Session.Client.Start.{finished, next_of, go_on, start_loop, start}
use srtmp.Session.Client.Inputs.{Within, Within-more, Keeps, write_current-Keeps, check_values-conn}

-- The fuel did not run out.
abbrev Returns : {A : Type 0} → Option A → Type 0
Returns none = ⊥
Returns (some a) = Unit

after_value-Returns :
    (k : ℕ) (r : Decoded Value) (next : List ℕ → Option (List Value × BatchEnd))
    → Leaves k r
    → ((rest : List ℕ) → length rest < k → Returns (next rest))
    → Returns (after_value r next)
after_value-Returns k (done v rest) next h g = kept (next rest) (g rest h)
  where
    kept :
        (r : Option (List Value × BatchEnd))
        → Returns r
        → Returns (after_value (done v []) (λ _. r))
    kept none h = absurd h
    kept (some (vs, e)) h = tt
after_value-Returns k (rejected e) next h g = tt
after_value-Returns k crashed next h g = tt
after_value-Returns k out_of_fuel next h g = absurd h

values_of-Returns : (r : Option (List Value × BatchEnd)) → Returns r → Returns (values_of r)
values_of-Returns none h = absurd h
values_of-Returns (some (vs, stopped e)) h = tt
values_of-Returns (some (vs, died)) h = tt

checked-Within :
    (n : ℕ) (r : Option (Result (List Value))) (name : List ℕ) (client : ConnClient)
    → Returns r
    → length client.conn.rw.input ≤ n
    → Within n (checked r name client)
checked-Within n none name client r h = absurd r
checked-Within n (some (ok vs)) name client r h =
    whole (check_values name vs client) (rw (check_values-conn name vs client) h)
  where
    whole : (x : Result (Unit {0}) × ConnClient) → length x.1.conn.rw.input ≤ n → Within n (some x)
    whole (ok u, client) h = h
    whole (err e, client) h = tt
    whole (panic, client) h = tt
checked-Within n (some (err e)) name client r h = tt
checked-Within n (some panic) name client r h = tt

received-Within :
    (k n : ℕ) (r : Option (Result ChunkStream × RtmpConn)) (client : ConnClient)
    (f : ChunkStream → Rest)
    → Consumes k r
    → ((c : ChunkStream) (conn : RtmpConn)
        → length conn.rw.input < k
        → Within n (f c (record client { conn = conn })))
    → Within n (received r client f)
received-Within k n none client f c h = absurd c
received-Within k n (some (ok m, conn)) client f c h = h m conn c
received-Within k n (some (err e, conn)) client f c h = tt
received-Within k n (some (panic, conn)) client f c h = tt

then_wait-Within :
    (bs : List ℕ) (n : ℕ) (r : Result (Unit {0}) × ConnClient) (k : Rest)
    → Keeps bs r
    → ((client : ConnClient) → client.conn.rw.input ≡ bs → Within n (k client))
    → Within n (then_wait r k)
then_wait-Within bs n (ok u, client) k h f = f client h
then_wait-Within bs n (err e, client) k h f = tt
then_wait-Within bs n (panic, client) k h f = tt

and_then_some-Within :
    (n : ℕ) (r : Option (Result (Unit {0}) × ConnClient)) (k : Rest)
    → Within n r
    → ((client : ConnClient) → length client.conn.rw.input ≤ n → Within n (k client))
    → Within n (and_then_some r k)
and_then_some-Within n none k h f = absurd h
and_then_some-Within n (some (ok u, client)) k h f = f client h
and_then_some-Within n (some (err e, client)) k h f = tt
and_then_some-Within n (some (panic, client)) k h f = tt

reworded-Within :
    (n : ℕ) (r : Option (Result (Unit {0}) × ConnClient)) → Within n r → Within n (reworded r)
reworded-Within n none h = h
reworded-Within n (some (ok u, client)) h = h
reworded-Within n (some (err e, client)) h = tt
reworded-Within n (some (panic, client)) h = tt

module _ (amf3 : Amf3) where
  decode_batch3-Returns :
      (fuel : ℕ) (bs : List ℕ) → length bs < fuel → Returns (decode_batch3 amf3 fuel bs)
  unfolding decode_batch3
  decode_batch3-Returns zero bs h = absurd (omega arith)
  decode_batch3-Returns (suc fuel) bs h =
      after_value-Returns (length bs) (decode_amf3 amf3 bs) (decode_batch3 amf3 fuel)
        (decode_amf3-Leaves amf3 (length bs) bs (omega arith))
        λ rest g. decode_batch3-Returns fuel rest (omega arith)

  decode_batch-Returns : (bs : List ℕ) → Returns (decode_batch amf3 (suc (length bs)) bs)
  decode_batch-Returns bs =
      let (vs, e, h) = decode_batch-total amf3 (suc (length bs)) bs (omega arith) in rw h tt

  response_values-Returns : (c : ChunkStream) → Returns (response_values amf3 c)
  unfolding response_values
  response_values-Returns c = values_of-Returns _ (
      if_cases Returns (c.type_id == 20) _ _ (decode_batch-Returns c.body)
        (decode_batch3-Returns (suc (length c.body)) c.body (omega arith)))

  wait_round-Within :
      (name : List ℕ) (k : Rest) (n : ℕ) (c : ChunkStream) (client : ConnClient)
      → length client.conn.rw.input ≤ n
      → Within n (k client)
      → Within n (wait_round amf3 name k c client)
  unfolding wait_round
  wait_round-Within name k n c client h g =
      if_cases (Within n) (c.type_id == 18 || c.type_id == 15) _ _ tt (
        if_cases (Within n) (c.type_id == 19 || c.type_id == 16) _ _ g (
          if_cases (Within n) (c.type_id == 8 || c.type_id == 9) _ _ tt (
            if_cases (Within n) (c.type_id == 22) _ _ h (
              if_cases (Within n) (c.type_id == 4) _ _ g (
                if_cases (Within n) (c.type_id == 20 || c.type_id == 17) _ _
                  (checked-Within n (response_values amf3 c) name client (response_values-Returns c)
                    h)
                  h)))))

  wait_loop-Within :
      (name : List ℕ) (fuel : ℕ) (client : ConnClient)
      → length client.conn.rw.input < fuel
      → Within (length client.conn.rw.input) (wait_loop amf3 name fuel client)
  unfolding wait_loop
  wait_loop-Within name zero client h = absurd (omega arith)
  wait_loop-Within name (suc fuel) client h =
      let n = length client.conn.rw.input in
      received-Within n n (read (suc n) client.conn) client
        (wait_round amf3 name (wait_loop amf3 name fuel))
        (read-Consumes (suc n) client.conn (omega arith))
        λ c conn g.
          wait_round-Within name (wait_loop amf3 name fuel) n c (record client { conn = conn })
            (omega arith)
            (Within-more (length conn.rw.input) n
              (wait_loop amf3 name fuel (record client { conn = conn })) (omega arith)
              (wait_loop-Within name fuel (record client { conn = conn }) (omega arith)))

  round_ends :
      (method name : List ℕ) (fuel rounds : ℕ) (client : ConnClient)
      → length client.conn.rw.input < fuel
      → ((next : ConnClient)
          → length next.conn.rw.input ≤ length client.conn.rw.input
          → Within
              (length client.conn.rw.input)
              (go_on (next_of method name) (start_loop amf3 method fuel rounds) next))
      → Within (length client.conn.rw.input) (start_loop amf3 method fuel (suc rounds) name client)
  unfolding start_loop wait_for_response
  round_ends method name fuel rounds client h go =
      let bs = client.conn.rw.input in
      and_then_some-Within (length bs)
        (then_wait (write_current name client) (wait_for_response amf3 name fuel)) _
        (then_wait-Within bs (length bs) (write_current name client)
          (wait_for_response amf3 name fuel) (write_current-Keeps name client)
          λ next e. reworded-Within (length bs) (wait_loop amf3 name fuel next) (
            Within-more (length next.conn.rw.input) (length bs) (wait_loop amf3 name fuel next)
              (rw e (omega arith)) (wait_loop-Within name fuel next (rw e h))))
        go

  -- The round of publish or play is the last one.
  last_round :
      (method name : List ℕ) (fuel n : ℕ) (client : ConnClient)
      → next_of method name ≡ finished
      → length client.conn.rw.input ≤ n
      → n < fuel
      → Within n (start_loop amf3 method fuel 1 name client)
  last_round method name fuel n client last h lt =
      Within-more (length client.conn.rw.input) n (start_loop amf3 method fuel 1 name client) h
        (round_ends method name fuel 0 client (omega arith) λ next g. rw last g)

  second_round :
      (method : List ℕ) (fuel n : ℕ) (client : ConnClient)
      → length client.conn.rw.input ≤ n
      → n < fuel
      → Within n (start_loop amf3 method fuel 2 cmd_create_stream client)
  second_round method fuel n client h lt =
      Within-more (length client.conn.rw.input) n
        (start_loop amf3 method fuel 2 cmd_create_stream client) h
        (round_ends method cmd_create_stream fuel 1 client (omega arith) λ next g.
          unfold next_of in
          if_cases
            (λ (x : Next).
              Within (length client.conn.rw.input) (go_on x (start_loop amf3 method fuel 1) next))
            (same method method_publish) _ _
            (last_round method cmd_publish fuel _ next refl g (omega arith))
            (if_cases
              (λ (x : Next).
                Within (length client.conn.rw.input) (go_on x (start_loop amf3 method fuel 1) next))
              (same method method_play) _ _
              (last_round method cmd_play fuel _ next refl g (omega arith)) tt))

  started :
      (n : ℕ) (r : Option (Result (Unit {0}) × ConnClient))
      → Within n r
      → (x : Result (Unit {0}) × ConnClient) × (r ≡ some x)
  started n none h = absurd h
  started n (some x) h = (x, refl)

  -- If its calls for the larger values of AMF3 return or panic, Start ends on every input
  -- that the server may send and then close, whatever the method: more rounds of each wait than there
  -- are bytes in the input, and three commands, are enough.
  pub start-total :
      (method : List ℕ) (fuel : ℕ) (client : ConnClient)
      → length client.conn.rw.input < fuel
      → (x : Result (Unit {0}) × ConnClient) × (start amf3 method fuel client ≡ some x)
  unfolding start
  start-total method fuel client h =
      let n = length client.conn.rw.input in
      started n (reworded (start_loop amf3 method fuel 3 cmd_connect client)) (
        reworded-Within n (start_loop amf3 method fuel 3 cmd_connect client) (
          round_ends method cmd_connect fuel 2 client h
            λ next g. unfold next_of in second_round method fuel n next g h))
