-- ===== src/Session/Client/OlderLoops.antt =====
-- setupPlayOrPublish of protocol/core/conn_client.go cannot succeed.
use srtmp.Prelude.{ℕ, zero, suc, ◌+◌, ◌≡◌, refl, false, ◌||◌, List, [], ◌∷◌, length, Option}
use srtmp.Prelude.{none, some, ◌==◌, Result, ok, err, panic, if_cases}
use srtmp.Amf.{Value, number, string, object, same}
use srtmp.Amf.Decode.{Amf3}
use srtmp.Chunk.Stream.{ChunkStream}
use srtmp.Conn.State.{RtmpConn}
use srtmp.Conn.Reader.{read}
use srtmp.Session.Names.{cmd_play, method_publish, method_play}
use srtmp.Session.Action.{reworded}
use srtmp.Session.Client.{ConnClient, write_publish_msg, write_play_msg}
use srtmp.Session.Client.Start.{Rest, response_values, received}
use srtmp.Session.Client.Older.{asks_result, check_round, check_rounds, check_response, responded}
use srtmp.Session.Client.Older.{answer_round, answer_loop, whatever_sent, setup_play_or_publish}

-- The call does not return with no error.
abbrev pub Fails : Option (Result (Unit {0}) × ConnClient) → Type 0
Fails none = Unit
Fails (some (ok u, client)) = ⊥
Fails (some (err e, client)) = Unit
Fails (some (panic, client)) = Unit

check_round-play :
    (k : ℕ) (v : Value) (client : ConnClient)
    → check_round cmd_play k v false client ≡ (ok false, client)
unfolding check_round asks_result same
check_round-play k (string s) client = refl
check_round-play k (number bits) client = refl
check_round-play k (object fs) client = refl
check_round-play k _ client = refl

check_rounds-play :
    (k : ℕ) (vs : List Value) (client : ConnClient)
    → check_rounds cmd_play k vs false client ≡ (ok false, client)
unfolding check_rounds
check_rounds-play k [] client = refl
check_rounds-play k (v ∷ vs) client =
    simp (check_round-play k v client, check_rounds-play (k + 1) vs client)

responded-Fails :
    (r : Option (Result (List Value))) (client : ConnClient) → Fails (responded r cmd_play client)
unfolding check_response
responded-Fails none client = tt
responded-Fails (some (ok vs)) client = rw (check_rounds-play 0 vs client) tt
responded-Fails (some (err e)) client = tt
responded-Fails (some panic) client = tt

received-Fails :
    (r : Option (Result ChunkStream × RtmpConn)) (client : ConnClient) (f : ChunkStream → Rest)
    → ((c : ChunkStream) (client : ConnClient) → Fails (f c client))
    → Fails (received r client f)
received-Fails none client f h = tt
received-Fails (some (ok c, conn)) client f h = h c (record client { conn = conn })
received-Fails (some (err e, conn)) client f h = tt
received-Fails (some (panic, conn)) client f h = tt

reworded-Fails : (r : Option (Result (Unit {0}) × ConnClient)) → Fails r → Fails (reworded r)
reworded-Fails none h = tt
reworded-Fails (some (ok u, client)) h = h
reworded-Fails (some (err e, client)) h = tt
reworded-Fails (some (panic, client)) h = tt

whatever_sent-Fails :
    (r : Result (Unit {0}) × ConnClient) (k : Rest)
    → ((client : ConnClient) → Fails (k client))
    → Fails (whatever_sent r k)
whatever_sent-Fails (ok u, client) k h = h client
whatever_sent-Fails (err e, client) k h = h client
whatever_sent-Fails (panic, client) k h = tt

module _ (amf3 : Amf3) where
  answer_round-Fails :
      (k : Rest) (c : ChunkStream) (client : ConnClient)
      → ((client : ConnClient) → Fails (k client))
      → Fails (answer_round amf3 cmd_play k c client)
  unfolding answer_round
  answer_round-Fails k c client h =
      if_cases Fails (c.type_id == 20 || c.type_id == 17) _ _
        (responded-Fails (response_values amf3 c) client)
        (if_cases Fails (c.type_id == 18 || c.type_id == 15) _ _ tt
          (if_cases Fails (c.type_id == 8 || c.type_id == 9) _ _ tt (h client)))

  answer_loop-Fails :
      (fuel : ℕ) (client : ConnClient) → Fails (answer_loop amf3 cmd_play fuel client)
  unfolding answer_loop
  answer_loop-Fails zero client = tt
  answer_loop-Fails (suc fuel) client =
      received-Fails (read (suc (length client.conn.rw.input)) client.conn) client
        (answer_round amf3 cmd_play (answer_loop amf3 cmd_play fuel))
        λ c next.
          answer_round-Fails (answer_loop amf3 cmd_play fuel) c next (answer_loop-Fails fuel)

  -- Whatever the server answers, whatever the method and however long it waits, setupPlayOrPublish
  -- never returns without an error: the check of the answer to a play command never notes a result.
  pub setup_play_or_publish-Fails :
      (method : List ℕ) (fuel : ℕ) (client : ConnClient)
      → Fails (setup_play_or_publish amf3 method fuel client)
  unfolding setup_play_or_publish
  setup_play_or_publish-Fails method fuel client =
      if_cases Fails (same method method_play) _ _
        (reworded-Fails (whatever_sent (write_play_msg client) (answer_loop amf3 cmd_play fuel))
          (whatever_sent-Fails (write_play_msg client) _ (answer_loop-Fails fuel)))
        (if_cases Fails (same method method_publish) _ _
          (reworded-Fails
            (whatever_sent (write_publish_msg client) (answer_loop amf3 cmd_play fuel))
            (whatever_sent-Fails (write_publish_msg client) _ (answer_loop-Fails fuel)))
          tt)
