-- ===== src/Session/Server/Switches.antt =====
-- The switches of handleCmdMsg and SetUpPlayOrPublish in protocol/core/forward_conn.go take the same
-- branches.
use srtmp.Prelude.{◌≡◌, refl, ap, Bool, true, false, List, [], ◌∷◌, Option, none, some}
use srtmp.Prelude.{if◌then◌else◌, Result, ok, err, panic}
use srtmp.Amf.{Value, nil, number, boolean, string, object, array, typed_object, same}
use srtmp.Chunk.Stream.{ChunkStream}
use srtmp.Session.Names.{cmd_connect, cmd_create_stream, cmd_publish, cmd_play}
use srtmp.Session.Action.{Action, ◌>>◌, and_next, pure}
use srtmp.Session.Server.{ForwardConnect, connect, create_stream, publish_or_play}
use srtmp.Session.Server.Replies.{Served, handled, published, played, serve}
use srtmp.Session.Server.Replies.{connect_resp, create_stream_resp, publish_resp, play_resp}
use srtmp.Session.Server.Loop.{serve_decoded, handle_decoded, handle_command, ended}

-- What a command was, as handleCmdMsg notes it in the connection.
unfoldable pub noted_result : Result Served × ForwardConnect → Result (Unit {0}) × ForwardConnect
noted_result (ok handled, fc) = (ok tt, fc)
noted_result (ok published, fc) = (ok tt, record fc { done = true; is_publisher = true })
noted_result (ok played, fc) = (ok tt, record fc { done = true; is_publisher = false })
noted_result (err e, fc) = (err e, fc)
noted_result (panic, fc) = (panic, fc)

unfoldable pub noted :
    Option (Result Served × ForwardConnect) → Option (Result (Unit {0}) × ForwardConnect)
unfolding noted_result
noted none = none
noted (some r) = some (noted_result r)

-- A branch of the two switches that ends in the same way does the same.
branch_alike :
    (r : Result (Unit {0}) × ForwardConnect) (g : Action ForwardConnect Served)
    (h : Action ForwardConnect (Unit {0}))
    → ((fc : ForwardConnect) → h fc ≡ noted_result (g fc))
    → and_next r (λ _. h) ≡ noted_result (and_next r (λ _. g))
branch_alike (ok u, fc) g h e = e fc
branch_alike (err x, fc) g h e = unfold noted_result in refl
branch_alike (panic, fc) g h e = unfold noted_result in refl

-- The same of a branch with a handler's call and a reply.
reply_alike :
    (r : Result (Unit {0}) × ForwardConnect) (f : Action ForwardConnect (Unit {0}))
    (g : Action ForwardConnect Served) (h : Action ForwardConnect (Unit {0}))
    → ((fc : ForwardConnect) → h fc ≡ noted_result (g fc))
    → and_next r (λ _. f >> h) ≡ noted_result (and_next r (λ _. f >> g))
reply_alike r f g h e = branch_alike r (f >> g) (f >> h) (λ fc. branch_alike (f fc) g h e)

-- The switches, whatever the handlers and the replies do.
switches_alike :
    (a b c d : Bool) (p q r : Result (Unit {0}) × ForwardConnect)
    (f g h k : Action ForwardConnect (Unit {0})) (fc : ForwardConnect)
    → (if a
        then and_next p (λ _. f >> pure tt)
        else if b
        then and_next q (λ _. g >> pure tt)
        else if c
        then and_next r (λ _. h >> ended true)
        else if d
        then and_next r (λ _. k >> ended false)
        else (ok tt, fc))
      ≡ noted_result (
          if a
          then and_next p (λ _. f >> pure handled)
          else if b
          then and_next q (λ _. g >> pure handled)
          else if c
          then and_next r (λ _. h >> pure published)
          else if d
          then and_next r (λ _. k >> pure played)
          else (ok handled, fc))
switches_alike true b c d p q r f g h k fc =
    reply_alike p f (pure handled) (pure tt) (λ _. unfold noted_result in refl)
switches_alike false true c d p q r f g h k fc =
    reply_alike q g (pure handled) (pure tt) (λ _. unfold noted_result in refl)
switches_alike false false true d p q r f g h k fc =
    reply_alike r h (pure published) (ended true) (λ _. unfold noted_result ended in refl)
switches_alike false false false true p q r f g h k fc =
    reply_alike r k (pure played) (ended false) (λ _. unfold noted_result ended in refl)
switches_alike false false false false p q r f g h k fc = unfold noted_result in refl

handle_command-serve :
    (vs : List Value) (c : ChunkStream) (fc : ForwardConnect)
    → handle_command vs c fc ≡ noted_result (serve vs c fc)
unfolding handle_command serve
handle_command-serve [] c fc = unfold noted_result in refl
handle_command-serve (string name ∷ args) c fc =
    switches_alike (same name cmd_connect) (same name cmd_create_stream) (same name cmd_publish)
      (same name cmd_play) (connect args fc) (create_stream args fc) (publish_or_play 0 args fc)
      (connect_resp c) (create_stream_resp c) (publish_resp c) (play_resp c) fc
handle_command-serve (number _ ∷ args) c fc = unfold noted_result in refl
handle_command-serve (boolean _ ∷ args) c fc = unfold noted_result in refl
handle_command-serve (nil ∷ args) c fc = unfold noted_result in refl
handle_command-serve (object _ ∷ args) c fc = unfold noted_result in refl
handle_command-serve (array _ ∷ args) c fc = unfold noted_result in refl
handle_command-serve (typed_object _ _ ∷ args) c fc = unfold noted_result in refl

-- The two ways to serve a message that was decoded.
pub handle_decoded-serve_decoded :
    (r : Option (Result (List Value))) (c : ChunkStream) (fc : ForwardConnect)
    → handle_decoded r c fc ≡ noted (serve_decoded r c fc)
unfolding noted
handle_decoded-serve_decoded none c fc = refl
handle_decoded-serve_decoded (some (ok vs)) c fc = ap some (handle_command-serve vs c fc)
handle_decoded-serve_decoded (some (err e)) c fc = unfold noted_result in refl
handle_decoded-serve_decoded (some panic) c fc = unfold noted_result in refl
