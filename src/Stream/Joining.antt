-- ===== src/Stream/Joining.antt =====
-- A player of protocol/stream.go that leaves before it has joined, or while the stream ends.
use srtmp.Prelude.{ℕ, ◌≡◌, refl, true, [], ◌∷◌}
use srtmp.Prelude.{some, ok}
use srtmp.Amf.Decode.{Amf3}
use srtmp.Av.{Packet}
use srtmp.Cache.{write_cache}
use srtmp.Session.Server.{ForwardConnect}
use srtmp.Stream.Writer.{StreamWriter, new_stream_writer, close_writer, test_closed, close_queue}
use srtmp.Stream.Writer.{end_close}
use srtmp.Prelude.{suc, ◌<◌, panic, arith}
use srtmp.Stream.Reader.{StreamReader, new_stream_reader, read_packet}
use srtmp.Stream.Loop.{
  RtmpStream, StreamInfo, new_stream, broken, on_writer, on_reader, take_packet, close_stream,
  close_all,
}
use srtmp.Stream.Loop.Steps.{
  Reached, created, stepped, hangs_up, closes, has_closed, starts_reading,
}
use srtmp.Stream.Loop.Steps.{reads, joins, publishes}
use srtmp.Stream.Loop.Steps.{replaces, waiting_moves}

module _ (now fuel : ℕ) (info : StreamInfo) (conn player : ForwardConnect) (p : Packet)
    (q : StreamReader) where
  abbrev published : RtmpStream
  published = record (new_stream now info) { reader_chan = new_stream_reader now conn ∷ [] }

  abbrev launched_reader : RtmpStream
  launched_reader = on_reader (new_stream_reader now conn) (record published { reader_chan = [] })

  abbrev started : RtmpStream
  started = record launched_reader { launched = 0; reading = suc launched_reader.reading }

  abbrev fed : RtmpStream
  fed = take_packet p (record started { reader = some q })

  -- The player that has joined is gone: Check has closed its queue.
  abbrev tested : StreamWriter
  tested = test_closed (new_stream_writer now player)

  abbrev gone_writer : StreamWriter
  gone_writer = end_close (close_queue tested).1

  abbrev gone : RtmpStream
  gone = record fed { writer_chan = gone_writer ∷ [] }

  new-readers : (new_stream now info).reader_chan ≡ []
  unfolding new_stream
  new-readers = refl

  launched_reader-launched : launched_reader.launched ≡ 1
  unfolding new_stream on_reader
  launched_reader-launched = refl

  new-reading : (new_stream now info).reading ≡ 0
  unfolding new_stream
  new-reading = refl

  started-reading : 0 < started.reading
  started-reading = omega arith

  started-reader : started.reader ≡ some (new_stream_reader now conn)
  unfolding new_stream on_reader
  started-reader = refl

  fed-writer_chan : fed.writer_chan ≡ []
  unfolding new_stream on_reader take_packet
  fed-writer_chan = refl

  tested-past_test : tested.past_test ≡ true
  unfolding test_closed new_stream_writer
  tested-past_test = refl

  tested-closes : (close_queue tested).0 ≡ ok tt
  unfolding test_closed close_queue new_stream_writer
  tested-closes = refl

  closed-past_close : (close_queue tested).1.past_close ≡ true
  unfolding test_closed close_queue new_stream_writer
  closed-past_close = refl

  gone-broken :
      p.packet_type ≡ 3 → on_writer gone_writer (record gone { writer_chan = [] }) ≡ broken
  unfolding on_writer new_stream on_reader take_packet write_cache test_closed close_queue end_close
      new_stream_writer
  gone-broken h = simp h

  new-writers : (new_stream now info).writer_chan ≡ []
  unfolding new_stream
  new-writers = refl

  closed_twice :
      close_stream (record (new_stream now info) { writer_chan = (close_queue tested).1 ∷ [] })
      ≡ panic
  unfolding close_stream close_all close_writer test_closed close_queue new_stream_writer
  closed_twice = refl

  -- Where a publisher's metadata has been read, a player that closes its connection before the stream
  -- has taken it from writerChan breaks the program: the cache is sent to its closed queue.
  pub joining-broken :
      (amf3 : Amf3)
      → read_packet now fuel (new_stream_reader now conn) ≡ some (ok p, q)
      → p.packet_type ≡ 3
      → (s : RtmpStream) × (w : StreamWriter) × Reached amf3 s
        × (s.writer_chan ≡ w ∷ [])
        × (on_writer w (record s { writer_chan = [] }) ≡ broken)
  joining-broken amf3 read meta =
      let w = new_stream_writer now player in
      let r = new_stream_reader now conn in
      let a =
        stepped (created now info) (publishes {s = new_stream now info} now conn new-readers) in
      let b = stepped {s = published} a (replaces {s = published} r [] new-reading refl) in
      let b' =
        stepped {s = launched_reader} b
          (starts_reading {s = launched_reader} 0 launched_reader-launched) in
      let c = stepped {s = started} b' (reads now fuel p r q started-reading started-reader read) in
      let d = stepped {s = fed} c (joins now player fed-writer_chan) in
      let e =
        stepped {s = record fed { writer_chan = w ∷ [] }} d
          (waiting_moves w tested refl hangs_up) in
      let f = stepped {s = record fed { writer_chan = tested ∷ [] }} e (
        waiting_moves tested (close_queue tested).1 refl
          (closes tested-past_test (λ i. (tested-closes i, (close_queue tested).1)))) in
      let g =
        stepped {s = record fed { writer_chan = (close_queue tested).1 ∷ [] }} f
          (waiting_moves (close_queue tested).1 gone_writer refl (has_closed closed-past_close)) in
      (gone, gone_writer, g, refl, gone-broken meta)

  -- Check's goroutine may have closed the channel and not yet noted it when the stream ends: then its
  -- channel is closed twice, and the program panics.
  pub closing-broken : (amf3 : Amf3) → (s : RtmpStream) × Reached amf3 s × (close_stream s ≡ panic)
  closing-broken amf3 =
      let w = new_stream_writer now player in
      let s = new_stream now info in
      let a = stepped (created now info) (joins {s = s} now player new-writers) in
      let b =
        stepped {s = record s { writer_chan = w ∷ [] }} a (waiting_moves w tested refl hangs_up) in
      let c = stepped {s = record s { writer_chan = tested ∷ [] }} b (
        waiting_moves tested (close_queue tested).1 refl
          (closes tested-past_test (λ i. (tested-closes i, (close_queue tested).1)))) in
      (record s { writer_chan = (close_queue tested).1 ∷ [] }, c, closed_twice)
