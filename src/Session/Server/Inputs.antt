-- ===== src/Session/Server/Inputs.antt =====
-- The handlers of protocol/core/forward_conn.go leave what there is to read.
use srtmp.Prelude.{ℕ, ◌+◌, ◌≡◌, refl, ◌∙◌, Bool}
use srtmp.Prelude.{List, [], ◌∷◌, Option, none, some, arith}
use srtmp.Prelude.{Result, ok, err, panic, if_cases}
use srtmp.Session.Names.{cmd_connect, cmd_create_stream, cmd_publish, cmd_play, key_app}
use srtmp.Session.Names.{key_flash_ver, key_tc_url, key_object_encoding}
use srtmp.Amf.{Value, nil, number, boolean, string, object, array, typed_object, same}
use srtmp.Amf.Encode.{encode_batch}
use srtmp.Chunk.Stream.{ChunkStream}
use srtmp.Conn.State.{RtmpConn}
use srtmp.Conn.Control.{write, new_window_ack_size, new_set_peer_bandwidth}
use srtmp.Conn.Control.{new_set_chunk_size, set_begin, set_recorded}
use srtmp.Conn.Sending.{write-input, flush_conn-input, play_events-input}
use srtmp.Session.Action.{Action, and_next, unchecked}
use srtmp.Session.Command.{write_command, command_message, after_write, after_encode}
use srtmp.Session.Command.{find_field}
use srtmp.Session.Server.{ForwardConnect, write_msg, connect_value, connect, create_stream}
use srtmp.Session.Server.{publish_or_play, stream_value, as_string, as_number, take_app}
use srtmp.Session.Server.{take_flashver, take_tc_url}
use srtmp.Session.Server.Replies.{write_unchecked, connect_resp, create_stream_resp, publish_resp}
use srtmp.Session.Names.{play_start, play_reset, data_start, publish_notify, playing_and_resetting}
use srtmp.Session.Names.{started_playing, started_notify}
use srtmp.Session.Server.Replies.{status_values}
use srtmp.Session.Server.Replies.{play_resp, flush_session, serve}

-- What there is to read, and the flag `done`.
abbrev pub Kept : List ℕ → Bool → ForwardConnect → Type 0
Kept bs d fc = (fc.conn.rw.input ≡ bs) × (fc.done ≡ d)

abbrev pub Keeps : {A : Type 0} → List ℕ → Bool → Result A × ForwardConnect → Type 0
Keeps bs d r = Kept bs d r.1

and_next-Keeps :
    {A B : Type 0} (bs : List ℕ) (d : Bool) (r : Result A × ForwardConnect)
    (f : A → Action ForwardConnect B)
    → Keeps bs d r
    → ((a : A) (fc : ForwardConnect) → Kept bs d fc → Keeps bs d (f a fc))
    → Keeps bs d (and_next r f)
and_next-Keeps bs d (ok a, fc) f h k = k a fc h
and_next-Keeps bs d (err e, fc) f h k = h
and_next-Keeps bs d (panic, fc) f h k = h

after_write-input : (r : Result (Unit {0}) × RtmpConn) → (after_write r).1.rw.input ≡ r.1.rw.input
after_write-input (ok u, conn) = flush_conn-input conn
after_write-input (err e, conn) = flush_conn-input conn
after_write-input (panic, conn) = refl

after_encode-input :
    (r : Result (List ℕ)) (csid sid : ℕ) (conn : RtmpConn)
    → (after_encode r csid sid conn).1.rw.input ≡ conn.rw.input
after_encode-input (ok msg) csid sid conn =
    after_write-input (write (command_message csid sid msg) conn)
    ∙ write-input (command_message csid sid msg) conn
after_encode-input (err e) csid sid conn = refl
after_encode-input panic csid sid conn = refl

pub write_command-input :
    (csid sid : ℕ) (args : List Value) (conn : RtmpConn)
    → (write_command csid sid args conn).1.rw.input ≡ conn.rw.input
unfolding write_command
write_command-input csid sid args conn = after_encode-input (encode_batch args) csid sid conn

unchecked-input : (r : Result (Unit {0}) × RtmpConn) → (unchecked r).1.rw.input ≡ r.1.rw.input
unchecked-input (ok u, conn) = refl
unchecked-input (err e, conn) = refl
unchecked-input (panic, conn) = refl

module _ (bs : List ℕ) (d : Bool) where
  write_msg-Keeps :
      (csid sid : ℕ) (args : List Value) (fc : ForwardConnect)
      → Kept bs d fc
      → Keeps bs d (write_msg csid sid args fc)
  unfolding write_msg
  write_msg-Keeps csid sid args fc h = (write_command-input csid sid args fc.conn ∙ h.0, h.1)

  write_unchecked-Keeps :
      (c : ChunkStream) (fc : ForwardConnect) → Kept bs d fc → Keeps bs d (write_unchecked c fc)
  unfolding write_unchecked
  write_unchecked-Keeps c fc h =
      (unchecked-input (write c fc.conn) ∙ write-input c fc.conn ∙ h.0, h.1)

  as_string-Keeps :
      (v : Option Value) (fc : ForwardConnect) (f : List ℕ → ForwardConnect)
      → Kept bs d fc
      → ((s : List ℕ) → Kept bs d (f s))
      → Keeps bs d (as_string v fc f)
  as_string-Keeps none fc f h k = h
  as_string-Keeps (some (string s)) fc f h k = k s
  as_string-Keeps (some _) fc f h k = h

  as_number-Keeps :
      (v : Option Value) (fc : ForwardConnect) (f : ℕ → ForwardConnect)
      → Kept bs d fc
      → ((n : ℕ) → Kept bs d (f n))
      → Keeps bs d (as_number v fc f)
  as_number-Keeps none fc f h k = h
  as_number-Keeps (some (number n)) fc f h k = k n
  as_number-Keeps (some _) fc f h k = h

  connect_value-Keeps :
      (v : Value) (fc : ForwardConnect) → Kept bs d fc → Keeps bs d (connect_value v fc)
  unfolding connect_value
  connect_value-Keeps (number n) fc h = ground arith
  connect_value-Keeps (object fs) fc h =
      and_next-Keeps bs d (take_app fs fc) _
        (as_string-Keeps (find_field key_app fs) fc _ h (λ s. h))
        λ _ a ha.
          and_next-Keeps bs d (take_flashver fs a) _
            (as_string-Keeps (find_field key_flash_ver fs) a _ ha (λ s. ha))
            λ _ b hb.
              and_next-Keeps bs d (take_tc_url fs b) _
                (as_string-Keeps (find_field key_tc_url fs) b _ hb (λ s. hb))
                λ _ c hc. as_number-Keeps (find_field key_object_encoding fs) c _ hc (λ s. hc)
  connect_value-Keeps nil fc h = h
  connect_value-Keeps (boolean b) fc h = h
  connect_value-Keeps (string s) fc h = h
  connect_value-Keeps (array vs) fc h = h
  connect_value-Keeps (typed_object name fs) fc h = h

  connect-Keeps :
      (vs : List Value) (fc : ForwardConnect) → Kept bs d fc → Keeps bs d (connect vs fc)
  unfolding connect
  connect-Keeps [] fc h = h
  connect-Keeps (v ∷ vs) fc h =
      and_next-Keeps bs d (connect_value v fc) _ (connect_value-Keeps v fc h)
        λ _ a ha. connect-Keeps vs a ha

  connect_resp-Keeps :
      (cur : ChunkStream) (fc : ForwardConnect) → Kept bs d fc → Keeps bs d (connect_resp cur fc)
  unfolding connect_resp
  connect_resp-Keeps cur fc h =
      and_next-Keeps bs d (write_unchecked (new_window_ack_size 2500000) fc) _
        (write_unchecked-Keeps (new_window_ack_size 2500000) fc h)
        λ _ a ha.
          and_next-Keeps bs d (write_unchecked (new_set_peer_bandwidth 2500000) a) _
            (write_unchecked-Keeps (new_set_peer_bandwidth 2500000) a ha)
            λ _ b hb.
              and_next-Keeps bs d (write_unchecked (new_set_chunk_size 1024) b) _
                (write_unchecked-Keeps (new_set_chunk_size 1024) b hb)
                λ _ c hc. write_msg-Keeps cur.csid cur.stream_id _ c hc

  create_stream-Keeps :
      (vs : List Value) (fc : ForwardConnect) → Kept bs d fc → Keeps bs d (create_stream vs fc)
  unfolding create_stream
  create_stream-Keeps [] fc h = h
  create_stream-Keeps (number n ∷ vs) fc h = create_stream-Keeps vs _ h
  create_stream-Keeps (_ ∷ vs) fc h = create_stream-Keeps vs fc h

  stream_value-Kept :
      (k : ℕ) (v : Value) (fc : ForwardConnect) → Kept bs d fc → Kept bs d (stream_value k v fc)
  unfolding stream_value
  stream_value-Kept k (string s) fc h = ground arith
  stream_value-Kept k (number n) fc h = h
  stream_value-Kept k _ fc h = h

  publish_or_play-Keeps :
      (k : ℕ) (vs : List Value) (fc : ForwardConnect)
      → Kept bs d fc
      → Keeps bs d (publish_or_play k vs fc)
  unfolding publish_or_play
  publish_or_play-Keeps k [] fc h = h
  publish_or_play-Keeps k (v ∷ vs) fc h =
      publish_or_play-Keeps (k + 1) vs (stream_value k v fc) (stream_value-Kept k v fc h)

  play_resp-Keeps :
      (cur : ChunkStream) (fc : ForwardConnect) → Kept bs d fc → Keeps bs d (play_resp cur fc)
  unfolding play_resp flush_session
  play_resp-Keeps cur fc h =
      let say = write_msg cur.csid cur.stream_id in
      let start = record fc { conn = set_begin (set_recorded fc.conn) } in
      let reset = status_values play_reset playing_and_resetting in
      let playing = status_values play_start started_playing in
      let sending = status_values data_start started_playing in
      let notify = status_values publish_notify started_notify in
      and_next-Keeps bs d (say reset start) _
        (write_msg-Keeps cur.csid cur.stream_id reset start (play_events-input fc.conn ∙ h.0, h.1))
        λ _ a ha.
          and_next-Keeps bs d (say playing a) _
            (write_msg-Keeps cur.csid cur.stream_id playing a ha)
            λ _ b hb.
              and_next-Keeps bs d (say sending b) _
                (write_msg-Keeps cur.csid cur.stream_id sending b hb)
                λ _ c hc.
                  and_next-Keeps bs d (say notify c) _
                    (write_msg-Keeps cur.csid cur.stream_id notify c hc)
                    λ _ e he. (flush_conn-input e.conn ∙ he.0, he.1)

  serve_command-Keeps :
      (name : List ℕ) (args : List Value) (cur : ChunkStream) (fc : ForwardConnect)
      → Kept bs d fc
      → Keeps bs d (serve (string name ∷ args) cur fc)
  unfolding serve
  serve_command-Keeps name args cur fc h =
      if_cases (Keeps bs d) (same name cmd_connect) _ _
        (and_next-Keeps bs d (connect args fc) _ (connect-Keeps args fc h) λ _ a ha.
          and_next-Keeps bs d (connect_resp cur a) _ (connect_resp-Keeps cur a ha) λ _ b hb. hb)
        (if_cases (Keeps bs d) (same name cmd_create_stream) _ _
          (and_next-Keeps bs d (create_stream args fc) _ (create_stream-Keeps args fc h) λ _ a ha.
            and_next-Keeps bs d (create_stream_resp cur a) _
              (write_msg-Keeps cur.csid cur.stream_id _ a ha) λ _ b hb. hb)
          (if_cases (Keeps bs d) (same name cmd_publish) _ _
            (and_next-Keeps bs d (publish_or_play 0 args fc) _ (publish_or_play-Keeps 0 args fc h)
              λ _ a ha.
                and_next-Keeps bs d (publish_resp cur a) _
                  (write_msg-Keeps cur.csid cur.stream_id _ a ha) λ _ b hb. hb)
            (if_cases (Keeps bs d) (same name cmd_play) _ _
              (and_next-Keeps bs d (publish_or_play 0 args fc) _ (publish_or_play-Keeps 0 args fc h)
                λ _ a ha.
                  and_next-Keeps bs d (play_resp cur a) _ (play_resp-Keeps cur a ha) λ _ b hb. hb)
              h)))

  pub serve-Keeps :
      (vs : List Value) (cur : ChunkStream) (fc : ForwardConnect)
      → Kept bs d fc
      → Keeps bs d (serve vs cur fc)
  unfolding serve
  serve-Keeps [] cur fc h = h
  serve-Keeps (string name ∷ args) cur fc h = serve_command-Keeps name args cur fc h
  serve-Keeps (_ ∷ args) cur fc h = h
