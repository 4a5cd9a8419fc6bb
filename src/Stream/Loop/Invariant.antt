-- ===== src/Stream/Loop/Invariant.antt =====
-- What holds in every state that a stream of protocol/stream.go reaches, however the goroutines and
-- the peers move.
use srtmp.Prelude.{ℕ, ◌≤◌, ◌≡◌, ap, subst, [], ◌∷◌}
use srtmp.Prelude.{length, some, Result, arith, All}
use srtmp.Amf.Decode.{Amf3}
use srtmp.Stream.Writer.{StreamWriter}
use srtmp.Stream.Sound.{IsSound, new_stream_writer-IsSound, taken-IsSound}
use srtmp.Stream.Sound.{test_closed-IsSound, close_queue-IsSound, end_close-IsSound}
use srtmp.Stream.Sound.{send_packet-IsSound}
use srtmp.Stream.Loop.{RtmpStream, StreamInfo, new_stream, Turn, running, on_packet}
use srtmp.Stream.Loop.{on_writer, on_tick}
use srtmp.Stream.Loop.Steps.{
  WriterStep, sends, hangs_up, closes, has_closed, StreamStep, reads, starts_reading,
}
use srtmp.Stream.Loop.Steps.{read_fails, joins}
use srtmp.Stream.Loop.Steps.{publishes, forwards, admits, replaces, ticks, writer_moves}
use srtmp.Stream.Loop.Steps.{waiting_moves, Reached, created, stepped}
use srtmp.Stream.Loop.Cases.{Inv, HoldsUnlessBroken, on_packet-Holds, on_tick-Holds}
use srtmp.Stream.Loop.Cases.{on_writer-Holds, take_packet-Inv, on_reader-Inv}
use srtmp.Stream.Loop.Cases.{All-replace}

new_stream-Inv : (now : ℕ) (info : StreamInfo) → Inv (new_stream now info)
unfolding new_stream
new_stream-Inv now info = record {
  writers = tt;
  waiting = tt;
  few = omega arith;
  one_writer = omega arith;
  one_reader = omega arith;
}

ran : (x : Turn) (t : RtmpStream) → HoldsUnlessBroken x → x ≡ running t → Inv t
ran x t h e = subst HoldsUnlessBroken e h

module _ (amf3 : Amf3) where
  WriterStep-IsSound : {w v : StreamWriter} → WriterStep amf3 w v → IsSound w → IsSound v
  WriterStep-IsSound {w} {v} (sends p rest now cs ds r e f) s =
      send_packet-IsSound amf3 now p cs ds
        (record w { packet_queue = record w.packet_queue { queued = rest } }) v r
        (taken-IsSound w p rest s e) f
  WriterStep-IsSound {w} hangs_up s = test_closed-IsSound w s
  WriterStep-IsSound {w} {v} (closes h e) s =
      subst (λ (x : Result (Unit {0}) × StreamWriter). IsSound x.1) e (close_queue-IsSound w s)
  WriterStep-IsSound {w} (has_closed h) s = end_close-IsSound w s

  StreamStep-Inv : {s t : RtmpStream} → StreamStep amf3 s t → Inv s → Inv t
  StreamStep-Inv {s} (reads now fuel p r q a b c) v =
      take_packet-Inv p (record s { reader = some q })
        (record {
          writers = v.writers;
          waiting = v.waiting;
          few = v.few;
          one_writer = v.one_writer;
          one_reader = v.one_reader;
        })
  StreamStep-Inv (starts_reading n e) v = record {
    writers = v.writers;
    waiting = v.waiting;
    few = v.few;
    one_writer = v.one_writer;
    one_reader = v.one_reader;
  }
  StreamStep-Inv (read_fails n e) v = record {
    writers = v.writers;
    waiting = v.waiting;
    few = v.few;
    one_writer = v.one_writer;
    one_reader = v.one_reader;
  }
  StreamStep-Inv (joins now conn e) v = record {
    writers = v.writers;
    waiting = (new_stream_writer-IsSound now conn, tt);
    few = v.few;
    one_writer = omega arith;
    one_reader = v.one_reader;
  }
  StreamStep-Inv (publishes now conn e) v = record {
    writers = v.writers;
    waiting = v.waiting;
    few = v.few;
    one_writer = v.one_writer;
    one_reader = omega arith;
  }
  StreamStep-Inv {s} {t} (forwards p rest now e f) v =
      ran (on_packet now p (record s { pkt_chan = rest })) t
        (on_packet-Holds now p (record s { pkt_chan = rest })
          (record {
            writers = v.writers;
            waiting = v.waiting;
            few = omega (arith, v.few, ap length e);
            one_writer = v.one_writer;
            one_reader = v.one_reader;
          }))
        f
  StreamStep-Inv {s} {t} (admits w rest e f) v =
      let both : All IsSound (w ∷ rest) = subst (All IsSound) e v.waiting in
      ran (on_writer w (record s { writer_chan = rest })) t
        (on_writer-Holds w (record s { writer_chan = rest })
          (record {
            writers = v.writers;
            waiting = both.1;
            few = v.few;
            one_writer = omega (arith, v.one_writer, ap length e);
            one_reader = v.one_reader;
          })
          both.0)
        f
  StreamStep-Inv {s} (replaces r rest still e) v =
      on_reader-Inv r (record s { reader_chan = rest })
        (record {
          writers = v.writers;
          waiting = v.waiting;
          few = v.few;
          one_writer = v.one_writer;
          one_reader = omega (arith, v.one_reader, ap length e);
        })
  StreamStep-Inv {s} {t} (ticks now e) v = ran (on_tick now s) t (on_tick-Holds now s v) e
  StreamStep-Inv (writer_moves before after w x e m) v = record {
    writers = All-replace before after w x (WriterStep-IsSound m) (subst (All IsSound) e v.writers);
    waiting = v.waiting;
    few = v.few;
    one_writer = v.one_writer;
    one_reader = v.one_reader;
  }
  StreamStep-Inv (waiting_moves w x e m) v =
      let one : All IsSound (w ∷ []) = subst (All IsSound) e v.waiting in
      record {
        writers = v.writers;
        waiting = (WriterStep-IsSound m one.0, tt);
        few = v.few;
        one_writer = omega arith;
        one_reader = v.one_reader;
      }

  pub Reached-Inv : {s : RtmpStream} → Reached amf3 s → Inv s
  Reached-Inv (created now info) = new_stream-Inv now info
  Reached-Inv (stepped r st) = StreamStep-Inv st (Reached-Inv r)

  -- In every state that a stream reaches, however its loop, its players' goroutines and the peers
  -- move, its players' queues hold 1024 packets at most, 16 packets wait to be forwarded at most, and a
  -- queue that is closed belongs to a player that is noted as closed, or whose goroutine is about to
  -- note it.
  pub Reached-bounded :
      {s : RtmpStream}
      → Reached amf3 s
      → (All IsSound s.writers) × (All IsSound s.writer_chan) × (length s.pkt_chan ≤ 16)
  Reached-bounded r = let v = Reached-Inv r in (v.writers, v.waiting, v.few)
