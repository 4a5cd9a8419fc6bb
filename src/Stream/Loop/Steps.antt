-- ===== src/Stream/Loop/Steps.antt =====
-- Everything that may happen to a stream of protocol/stream.go, one step of one goroutine at a time.
-- A connection may fail at any time. A new publisher replaces the old one when wg.Wait returns:
-- no goroutine is between wg.Add and wg.Done. A case of the loop is one step; Close in the goroutine
-- of Check is three.
use srtmp.Prelude.{ℕ, suc, ◌<◌, ◌≡◌, true, List, [], ◌∷◌, ◌++◌, some}
use srtmp.Prelude.{Result, ok}
use srtmp.Amf.Decode.{Amf3}
use srtmp.Av.{Packet}
use srtmp.Chunk.Stream.{ChunkStream}
use srtmp.Session.Server.{ForwardConnect}
use srtmp.Stream.Writer.{StreamWriter, new_stream_writer, send_packet, test_closed}
use srtmp.Stream.Writer.{close_queue, end_close}
use srtmp.Stream.Reader.{StreamReader, new_stream_reader, read_packet}
use srtmp.Stream.Loop.{RtmpStream, StreamInfo, new_stream, running, take_packet, on_packet}
use srtmp.Stream.Loop.{on_writer, on_reader, on_tick}

-- The goroutines of a writer: SendPacket takes the packet at the head of the queue, Check calls
-- Close when its peer is gone.
pub data WriterStep (amf3 : Amf3) : StreamWriter → StreamWriter → Type 0 where
  sends :
      {w v : StreamWriter} (p : Packet) (rest : List Packet) (now : ℕ) (cs ds : ChunkStream)
      (r : Result (Unit {0}))
      → w.packet_queue.queued ≡ p ∷ rest
      → send_packet amf3 now p cs
          (record w { packet_queue = record w.packet_queue { queued = rest } })
        ≡ some (r, ds, v)
      → WriterStep amf3 w v
  hangs_up : {w : StreamWriter} → WriterStep amf3 w (test_closed w)
  closes :
      {w v : StreamWriter} → w.past_test ≡ true → close_queue w ≡ (ok tt, v) → WriterStep amf3 w v
  has_closed : {w : StreamWriter} → w.past_close ≡ true → WriterStep amf3 w (end_close w)

pub data StreamStep (amf3 : Amf3) : RtmpStream → RtmpStream → Type 0 where
  reads :
      {s : RtmpStream} (now fuel : ℕ) (p : Packet) (r q : StreamReader)
      → 0 < s.reading
      → s.reader ≡ some r
      → read_packet now fuel r ≡ some (ok p, q)
      → StreamStep amf3 s (take_packet p (record s { reader = some q }))
  starts_reading :
      {s : RtmpStream} (n : ℕ)
      → s.launched ≡ suc n
      → StreamStep amf3 s (record s { launched = n; reading = suc s.reading })
  read_fails :
      {s : RtmpStream} (n : ℕ) → s.reading ≡ suc n → StreamStep amf3 s (record s { reading = n })
  joins :
      {s : RtmpStream} (now : ℕ) (conn : ForwardConnect)
      → s.writer_chan ≡ []
      → StreamStep amf3 s (record s { writer_chan = new_stream_writer now conn ∷ [] })
  publishes :
      {s : RtmpStream} (now : ℕ) (conn : ForwardConnect)
      → s.reader_chan ≡ []
      → StreamStep amf3 s (record s { reader_chan = new_stream_reader now conn ∷ [] })
  forwards :
      {s t : RtmpStream} (p : Packet) (rest : List Packet) (now : ℕ)
      → s.pkt_chan ≡ p ∷ rest
      → on_packet now p (record s { pkt_chan = rest }) ≡ running t
      → StreamStep amf3 s t
  admits :
      {s t : RtmpStream} (w : StreamWriter) (rest : List StreamWriter)
      → s.writer_chan ≡ w ∷ rest
      → on_writer w (record s { writer_chan = rest }) ≡ running t
      → StreamStep amf3 s t
  replaces :
      {s : RtmpStream} (r : StreamReader) (rest : List StreamReader)
      → s.reading ≡ 0
      → s.reader_chan ≡ r ∷ rest
      → StreamStep amf3 s (on_reader r (record s { reader_chan = rest }))
  ticks : {s t : RtmpStream} (now : ℕ) → on_tick now s ≡ running t → StreamStep amf3 s t
  writer_moves :
      {s : RtmpStream} (before after : List StreamWriter) (w v : StreamWriter)
      → s.writers ≡ before ++ (w ∷ after)
      → WriterStep amf3 w v
      → StreamStep amf3 s (record s { writers = before ++ (v ∷ after) })
  waiting_moves :
      {s : RtmpStream} (w v : StreamWriter)
      → s.writer_chan ≡ w ∷ []
      → WriterStep amf3 w v
      → StreamStep amf3 s (record s { writer_chan = v ∷ [] })

-- The states of a stream from its creation on, while its loop runs.
pub data Reached (amf3 : Amf3) : RtmpStream → Type 0 where
  created : (now : ℕ) (info : StreamInfo) → Reached amf3 (new_stream now info)
  stepped : {s t : RtmpStream} → Reached amf3 s → StreamStep amf3 s t → Reached amf3 t
