-- ===== src/Session/Server/Twin.antt =====
-- ReadMsg of protocol/core/forward_conn.go, an older copy of SetUpPlayOrPublish, does the same.
use srtmp.Prelude.{ℕ, zero, suc, ◌≡◌, refl, ap, sym, ◌∙◌, Bool, true, false, Bool-cases, inl, inr}
use srtmp.Prelude.{List, Option, none, some, if◌then◌else◌}
use srtmp.Prelude.{Result, ok, err, panic}
use srtmp.Amf.{Value}
use srtmp.Amf.Decode.{Amf3}
use srtmp.Chunk.Stream.{ChunkStream}
use srtmp.Conn.State.{RtmpConn}
use srtmp.Session.Action.{reworded}
use srtmp.Session.Server.{ForwardConnect}
use srtmp.Session.Server.Replies.{Served, handled, published, played}
use srtmp.Session.Server.Inputs.{serve-Keeps}
use srtmp.Session.Server.Loop.{command_body, decoded, serve_decoded, serve_message, received}
use srtmp.Session.Server.Loop.{read_message, until_stream, set_up_round, set_up_loop, Rest}
use srtmp.Session.Server.Loop.{set_up_play_or_publish, is_command, handle_cmd_msg}
use srtmp.Session.Server.Switches.{noted, noted_result, handle_decoded-serve_decoded}
use srtmp.Session.Server.Loop.{until_done, read_msg_round, read_msg}

-- The session with its flag `done` taken back, which SetUpPlayOrPublish never sets.
unfoldable pub undone :
    Option (Result (Unit {0}) × ForwardConnect) → Option (Result (Unit {0}) × ForwardConnect)
undone none = none
undone (some (r, fc)) = some (r, record fc { done = false })

undone_self :
    (r : Result (Unit {0})) (fc : ForwardConnect)
    → fc.done ≡ false
    → some (r, fc) ≡ undone (some (r, fc))
unfolding undone
undone_self r fc h = ap (λ (d : Bool). some (r, record fc { done = d })) h

abbrev Unmarked : Option (Result Served × ForwardConnect) → Type 0
Unmarked none = Unit
Unmarked (some (r, fc)) = fc.done ≡ false

serve_decoded-Unmarked :
    (r : Option (Result (List Value))) (c : ChunkStream) (fc : ForwardConnect)
    → fc.done ≡ false
    → Unmarked (serve_decoded r c fc)
serve_decoded-Unmarked none c fc h = tt
serve_decoded-Unmarked (some (ok vs)) c fc h =
    (serve-Keeps fc.conn.rw.input false vs c fc (refl, h)).1
serve_decoded-Unmarked (some (err e)) c fc h = h
serve_decoded-Unmarked (some panic) c fc h = h

-- ReadMsg goes on while the flag is not set.
going_on :
    (k l : Rest) (fc : ForwardConnect)
    → fc.done ≡ false
    → k fc ≡ undone (l fc)
    → k fc ≡ undone (until_done (some (ok tt, fc)) l)
going_on k l fc u h = h ∙ ap (λ (d : Bool). undone (if d then some (ok tt, fc) else l fc)) (sym u)

-- The two loops after a command, where they go on alike.
served_alike :
    (r : Option (Result Served × ForwardConnect)) (k l : Rest)
    → Unmarked r
    → ((fc : ForwardConnect) → fc.done ≡ false → k fc ≡ undone (l fc))
    → until_stream r k ≡ undone (until_done (noted r) l)
unfolding noted noted_result
served_alike none k l u h = unfold undone in refl
served_alike (some (ok handled, fc)) k l u h = going_on k l fc u (h fc u)
served_alike (some (ok published, fc)) k l u h =
    unfold undone in ap (λ (d : Bool). some (ok tt, record fc { done = d; is_publisher = true })) u
served_alike (some (ok played, fc)) k l u h =
    unfold undone in ap (λ (d : Bool). some (ok tt, record fc { done = d; is_publisher = false })) u
served_alike (some (err e, fc)) k l u h = undone_self (err e) fc u
served_alike (some (panic, fc)) k l u h = undone_self panic fc u

module _ (amf3 : Amf3) where
  rounds_alike :
      (k l : Rest) (c : ChunkStream) (fc : ForwardConnect)
      → fc.done ≡ false
      → ((fc : ForwardConnect) → fc.done ≡ false → k fc ≡ undone (l fc))
      → set_up_round amf3 k c fc ≡ undone (read_msg_round amf3 l c fc)
  unfolding set_up_round read_msg_round handle_cmd_msg serve_message
  rounds_alike k l c fc u h = elim (Bool-cases (is_command c)) [
    | inl command ↦
        rw (command, handle_decoded-serve_decoded (decoded amf3 (command_body c)) c fc)
          (served_alike (serve_decoded (decoded amf3 (command_body c)) c fc) k l
            (serve_decoded-Unmarked (decoded amf3 (command_body c)) c fc u) h)
    | inr other ↦ rw other (going_on k l fc u (h fc u))
  ]

  received_alike :
      (r : Option (Result ChunkStream × RtmpConn)) (fc : ForwardConnect) (f g : ChunkStream → Rest)
      → fc.done ≡ false
      → ((c : ChunkStream) (fc : ForwardConnect) → fc.done ≡ false → f c fc ≡ undone (g c fc))
      → received r fc f ≡ undone (received r fc g)
  unfolding undone
  received_alike none fc f g u h = refl
  received_alike (some (ok c, conn)) fc f g u h = h c (record fc { conn = conn }) u
  received_alike (some (err e, conn)) fc f g u h = undone_self (err e) (record fc { conn = conn }) u
  received_alike (some (panic, conn)) fc f g u h = undone_self panic (record fc { conn = conn }) u

  loops_alike :
      (fuel : ℕ) (fc : ForwardConnect)
      → fc.done ≡ false
      → set_up_loop amf3 fuel fc ≡ undone (read_msg amf3 fuel fc)
  unfolding set_up_loop read_msg
  loops_alike zero fc u = unfold undone in refl
  loops_alike (suc fuel) fc u =
      received_alike (read_message fc) fc (set_up_round amf3 (set_up_loop amf3 fuel))
        (read_msg_round amf3 (read_msg amf3 fuel)) u
        λ c fc' u'.
          rounds_alike (set_up_loop amf3 fuel) (read_msg amf3 fuel) c fc' u' (loops_alike fuel)

  -- Whatever the client sends, SetUpPlayOrPublish does what ReadMsg does to a session that is not
  -- done: the same commands are served with the same replies, and it ends with the same result and
  -- state, but that ReadMsg sets the flag `done` at the end and returns errors as they are.
  pub set_up_play_or_publish-read_msg :
      (fuel : ℕ) (fc : ForwardConnect)
      → fc.done ≡ false
      → set_up_play_or_publish amf3 fuel fc ≡ reworded (undone (read_msg amf3 fuel fc))
  unfolding set_up_play_or_publish
  set_up_play_or_publish-read_msg fuel fc u = ap reworded (loops_alike fuel fc u)
