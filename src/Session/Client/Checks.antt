-- ===== src/Session/Client/Checks.antt =====
-- What waitForResponse of protocol/core/conn_client.go asks of the values of a response.
use srtmp.Prelude.{ℕ, ◌+◌, ◌%◌, ◌^◌, Bool, true, false, ◌&&◌, ◌||◌, List, [], ◌∷◌, Option, none}
use srtmp.Prelude.{some, ◌==◌, if◌then◌else◌, Result, ok, err, failure}
use srtmp.Amf.{Value, number, string, object, Fields, same}
use srtmp.Session.Names.{cmd_connect, cmd_create_stream, cmd_publish, cmd_play, resp_result}
use srtmp.Session.Names.{
  on_status, publish_start, play_start, play_reset, connect_success, key_code,
}
use srtmp.Session.Number.{to_int}
use srtmp.Session.Action.{Action}
use srtmp.Session.Command.{find_field}
use srtmp.Session.Client.{ConnClient}

-- The local variables of the loops: bResult, bTransID, and bCode or bStart, and bReset.
pub record Seen : Type 0 where
  pub result : Bool
  pub trans_id : Bool
  pub start : Bool
  pub reset : Bool

abbrev pub nothing_seen : Seen
nothing_seen = record { result = false; trans_id = false; start = false; reset = false }

unfoldable pub see_result : List ℕ → List ℕ → Seen → Seen
unfolding same
see_result expected s seen = if same s expected then record seen { result = true } else seen

-- The code of a status object, if it is a string.
abbrev pub code_string : Option Value → Option (List ℕ)
code_string (some (string s)) = some s
code_string _ = none

unfoldable pub see_start : List ℕ → Fields → Seen → Seen
unfolding find_field same
see_start expected fs seen = elim (code_string (find_field key_code fs)) [
  | none ↦ seen
  | some c ↦ if same c expected then record seen { start = true } else seen
]

unfoldable pub see_trans_id : ℕ → ℕ → ℕ → Seen → Seen
unfolding to_int
see_trans_id trans_id k bits seen =
    if (k == 1) && (to_int bits == trans_id) then record seen { trans_id = true } else seen

-- One round of each command's loop; `k` is the loop's index.
unfoldable pub connect_seen : ℕ → ℕ → Value → Seen → Seen
unfolding see_result see_start see_trans_id
connect_seen trans_id k (string s) seen = see_result resp_result s seen
connect_seen trans_id k (number bits) seen = see_trans_id trans_id k bits seen
connect_seen trans_id k (object fs) seen = see_start connect_success fs seen
connect_seen trans_id k _ seen = seen

unfoldable pub create_stream_seen : ℕ → ℕ → Value → Seen → Seen
unfolding see_result see_trans_id
create_stream_seen trans_id k (string s) seen = see_result resp_result s seen
create_stream_seen trans_id k (number bits) seen = see_trans_id trans_id k bits seen
create_stream_seen trans_id k _ seen = seen

unfoldable pub publish_seen : Value → Seen → Seen
unfolding see_result see_start
publish_seen (string s) seen = see_result on_status s seen
publish_seen (object fs) seen = see_start publish_start fs seen
publish_seen _ seen = seen

unfoldable pub see_play_code : Fields → Seen → Seen
unfolding find_field same
see_play_code fs seen = elim (code_string (find_field key_code fs)) [
  | none ↦ seen
  | some c ↦
      if same c play_reset
      then record seen { reset = true }
      else if same c play_start
      then record seen { start = true }
      else seen
]

unfoldable pub play_seen : Value → Seen → Seen
unfolding see_result see_play_code
play_seen (string s) seen = see_result on_status s seen
play_seen (object fs) seen = see_play_code fs seen
play_seen _ seen = seen

-- The loops.
unfoldable pub see_all : (ℕ → Value → Seen → Seen) → ℕ → List Value → Seen → Seen
see_all f k [] seen = seen
see_all f k (v ∷ vs) seen = see_all f (k + 1) vs (f k v seen)

-- uint32(id) of the number at index 3, where the createStream loop meets it.
unfoldable pub take_streamid : ℕ → List Value → ConnClient → ConnClient
unfolding to_int
take_streamid k [] client = client
take_streamid k (number bits ∷ vs) client =
    take_streamid (k + 1) vs
      (if k == 3 then record client { streamid = to_int bits % 2 ^ 32 } else client)
take_streamid k (_ ∷ vs) client = take_streamid (k + 1) vs client

abbrev pub verdict : Bool → ConnClient → Result (Unit {0}) × ConnClient
verdict good client = (if good then ok tt else err failure, client)

unfoldable pub check_values : List ℕ → List Value → Action ConnClient (Unit {0})
unfolding connect_seen create_stream_seen publish_seen play_seen see_all take_streamid same
check_values command vs client =
    if same command cmd_connect
    then (let s = see_all (connect_seen client.trans_id) 0 vs nothing_seen in
        verdict (s.result && (s.trans_id && s.start)) client)
    else if same command cmd_create_stream
    then (let s = see_all (create_stream_seen client.trans_id) 0 vs nothing_seen in
        verdict (s.result && s.trans_id) (take_streamid 0 vs client))
    else if same command cmd_play
    then (let s = see_all (λ k. play_seen) 0 vs nothing_seen in
        verdict (s.result && (s.start || s.reset)) client)
    else if same command cmd_publish
    then (let s = see_all (λ k. publish_seen) 0 vs nothing_seen in
        verdict (s.result && s.start) client)
    else (err failure, client)
