-- ===== src/Session/Client/Inputs.antt =====
-- The client's calls of protocol/core/conn_client.go leave what there is to read.
use srtmp.Prelude.{ℕ, ◌+◌, ◌≤◌, ◌≡◌, refl, ◌∙◌}
use srtmp.Prelude.{List, [], ◌∷◌, length, Option, none, some}
use srtmp.Prelude.{arith, Result, ok, err, panic, if_cases}
use srtmp.Amf.{Value, number, same}
use srtmp.Session.Names.{cmd_connect, cmd_create_stream, cmd_publish, cmd_play}
use srtmp.Session.Server.Inputs.{write_command-input}
use srtmp.Session.Client.{ConnClient, write_msg}
use srtmp.Session.Client.{connect_request, next_command}
use srtmp.Session.Client.Checks.{check_values, take_streamid}
use srtmp.Session.Client.Start.{write_current}

-- The call returned, and where it went well at most `n` bytes are left to read.
abbrev pub Within : ℕ → Option (Result (Unit {0}) × ConnClient) → Type 0
Within n none = ⊥
Within n (some (ok u, client)) = length client.conn.rw.input ≤ n
Within n (some (err e, client)) = Unit
Within n (some (panic, client)) = Unit

pub Within-more :
    (m n : ℕ) (r : Option (Result (Unit {0}) × ConnClient)) → m ≤ n → Within m r → Within n r
Within-more m n none h w = w
Within-more m n (some (ok u, client)) h w = omega arith
Within-more m n (some (err e, client)) h w = tt
Within-more m n (some (panic, client)) h w = tt

-- The call leaves what there is to read.
abbrev pub Keeps : List ℕ → Result (Unit {0}) × ConnClient → Type 0
Keeps bs r = r.1.conn.rw.input ≡ bs

take_streamid-conn :
    (k : ℕ) (vs : List Value) (client : ConnClient) → (take_streamid k vs client).conn ≡ client.conn
unfolding take_streamid
take_streamid-conn k [] client = refl
take_streamid-conn k (number bits ∷ vs) client = take_streamid-conn (k + 1) vs _ ∙ ground arith
take_streamid-conn k (_ ∷ vs) client = take_streamid-conn (k + 1) vs client

pub check_values-conn :
    (name : List ℕ) (vs : List Value) (client : ConnClient)
    → (check_values name vs client).1.conn ≡ client.conn
unfolding check_values
check_values-conn name vs client = ground (arith, take_streamid-conn 0 vs client)

write_msg-Keeps :
    (args : List Value) (client : ConnClient) → Keeps client.conn.rw.input (write_msg args client)
unfolding write_msg
write_msg-Keeps args client = write_command-input 3 client.streamid args client.conn

pub write_current-Keeps :
    (name : List ℕ) (client : ConnClient) → Keeps client.conn.rw.input (write_current name client)
unfolding write_current next_command
write_current-Keeps name client =
    if_cases (Keeps client.conn.rw.input) (same name cmd_connect) _ _
      (write_msg-Keeps (connect_request client) (record client { curcmd_name = cmd_connect }))
      (if_cases (Keeps client.conn.rw.input) (same name cmd_create_stream) _ _
        (write_msg-Keeps _ (next_command cmd_create_stream client))
        (if_cases (Keeps client.conn.rw.input) (same name cmd_play) _ _
          (write_msg-Keeps _ (next_command cmd_play client))
          (if_cases (Keeps client.conn.rw.input) (same name cmd_publish) _ _
            (write_msg-Keeps _ (next_command cmd_publish client)) refl)))
