-- ===== src/Stream/Loop.antt =====
-- The type RtmpStream of protocol/stream.go, and the cases of its loop. `launched` counts
-- the goroutines of startRead that have not yet called wg.Add, and `reading` those between their calls
-- of wg.Add and wg.Done. A writer that is added is always a StreamWriter.
use srtmp.Prelude.{
  ℕ, zero, suc, ◌+◌, ◌-◌, Bool, true, false, ◌&&◌, ◌||◌, not, List, [], ◌∷◌, ◌++◌, length,
}
use srtmp.Prelude.{
  Option, none, some, ltb, map, if◌then◌else◌, failure, Result, ok, err, panic, bind,
}
use srtmp.Av.{Packet}
use srtmp.Av.Base.{is_alive}
use srtmp.Cache.{Cache, Channel, new_cache, write_cache, send, headers_of}
use srtmp.Stream.Writer.{StreamWriter, write_packet, close_writer, rebase}
use srtmp.Stream.Reader.{StreamReader, close_reader}
pub mod Steps
pub mod Cases
pub mod Invariant

pub record StreamInfo : Type 0 where
  pub app : List ℕ
  pub name : List ℕ
  pub url : List ℕ

pub record RtmpStream : Type 0 where
  pub cache : Cache
  pub reader : Option StreamReader
  pub writers : List StreamWriter
  pub stream_info : StreamInfo
  pub pkt_chan : List Packet
  pub writer_chan : List StreamWriter
  pub reader_chan : List StreamReader
  pub launched : ℕ
  pub reading : ℕ
  pub last_write_remove : ℕ

-- The flag gopNum, which NewCache reads, has the default 1.
unfoldable pub new_stream : ℕ → StreamInfo → RtmpStream
unfolding new_cache
new_stream now info = record {
  cache = new_cache 1;
  reader = none;
  writers = [];
  stream_info = info;
  pkt_chan = [];
  writer_chan = [];
  reader_chan = [];
  launched = 0;
  reading = 0;
  last_write_remove = now;
}

-- How a case of the loop ends: the loop goes on, it returns, or the program panics.
pub data Turn : Type 0 where
  running : RtmpStream → Turn
  leaving : RtmpStream → Turn
  broken : Turn

-- The body of startRead behind a packet that was read: it is dropped if the channel is full.
unfoldable pub take_packet : Packet → RtmpStream → RtmpStream
take_packet p s =
    let kept = record s { cache = write_cache p s.cache } in
    if ltb (length s.pkt_chan) 16 then record kept { pkt_chan = s.pkt_chan ++ (p ∷ []) } else kept

-- A writer that returns an error is closed, and its place set to nil.
abbrev pub kept_or_closed : Result (Unit {0}) × StreamWriter → Result (Option StreamWriter)
kept_or_closed (ok u, w) = ok (some w)
kept_or_closed (err e, w) = bind (close_writer w).0 λ _. ok none
kept_or_closed (panic, w) = panic

unfoldable pub write_all : Packet → List StreamWriter → Result (List (Option StreamWriter))
write_all p [] = ok []
write_all p (w ∷ ws) =
    bind (kept_or_closed (write_packet p w)) λ o. bind (write_all p ws) λ os. ok (o ∷ os)

-- bRemove, and the loop that takes the nil writers out.
unfoldable pub any_removed : List (Option StreamWriter) → Bool
any_removed [] = false
any_removed (none ∷ os) = true
any_removed (some w ∷ os) = any_removed os

unfoldable pub compact : List (Option StreamWriter) → List StreamWriter
compact [] = []
compact (none ∷ os) = compact os
compact (some w ∷ os) = w ∷ compact os

abbrev pub after_writes : ℕ → Result (List (Option StreamWriter)) → RtmpStream → Turn
after_writes now (ok os) s = running (record s {
  writers = compact os;
  last_write_remove = if any_removed os then now else s.last_write_remove;
})
after_writes now (err e) s = broken
after_writes now panic s = broken

-- The case of a packet from pktChan.
unfoldable pub on_packet : ℕ → Packet → RtmpStream → Turn
unfolding write_all any_removed compact
on_packet now p s = after_writes now (write_all p s.writers) s

-- What Send writes to the channel. A send to a closed one panics.
abbrev pub anything_kept : Cache → Bool
anything_kept cache = ltb 0 (
    length (
      headers_of cache.metadata
      ++ (headers_of cache.video_seq ++ (headers_of cache.audio_seq ++ cache.gop.gops))))

abbrev pub leave_closed : Result (Unit {0}) × StreamWriter → RtmpStream → Turn
leave_closed (ok u, w) s = leaving s
leave_closed (err e, w) s = leaving s
leave_closed (panic, w) s = broken

abbrev pub after_cache : Result (Unit {0}) × Channel → StreamWriter → RtmpStream → Turn
after_cache (ok u, c) w s =
    running (record s { writers = s.writers ++ (record w { packet_queue = c } ∷ []) })
after_cache (err e, c) w s = leave_closed (close_writer (record w { packet_queue = c })) s
after_cache (panic, c) w s = broken

-- The case of a writer from writerChan.
unfoldable pub on_writer : StreamWriter → RtmpStream → Turn
on_writer w s =
    if w.queue_closed && anything_kept s.cache
    then broken
    else after_cache (send s.cache w.packet_queue) w s

-- The case of a reader from readerChan: an older one is closed and no goroutine is between wg.Add
-- and wg.Done, what is in pktChan is dropped, and the writers go on from the timestamps that they have sent.
unfoldable pub on_reader : StreamReader → RtmpStream → RtmpStream
on_reader r s = elim s.reader [
  | none ↦ record s { reader = some r; launched = s.launched + 1 }
  | some old ↦ record s {
    reader = some r;
    launched = s.launched + 1;
    pkt_chan = [];
    writers = map rebase s.writers;
  }
]

abbrev pub is_reader_alive : ℕ → Option StreamReader → Bool
is_reader_alive now none = false
is_reader_alive now (some r) = is_alive now r.base

-- The loop that takes out the writers whose time has run out.
unfoldable pub keep_alive : ℕ → List StreamWriter → Result (List StreamWriter)
keep_alive now [] = ok []
keep_alive now (w ∷ ws) =
    let rest = keep_alive now ws in
    if is_alive now w.base then (bind rest λ l. ok (w ∷ l)) else (bind (close_writer w).0 λ _. rest)

abbrev pub after_checks : ℕ → Result (List StreamWriter) → RtmpStream → Turn
after_checks now (ok ws) s = running (record s {
  writers = ws;
  last_write_remove = if ltb (length ws) (length s.writers) then now else s.last_write_remove;
})
after_checks now (err e) s = broken
after_checks now panic s = broken

-- The case of the ticker.
unfoldable pub on_tick : ℕ → RtmpStream → Turn
unfolding keep_alive
on_tick now s =
    if is_reader_alive now s.reader
    then after_checks now (keep_alive now s.writers) s
    else leaving s

unfoldable pub close_all : List StreamWriter → Result (Unit {0})
close_all [] = ok tt
close_all (w ∷ ws) = bind (close_writer w).0 λ _. close_all ws

-- close: the reader, the writers that wait in writerChan, and those of the stream.
unfoldable pub close_stream : RtmpStream → Result (Unit {0})
unfolding close_all
close_stream s = bind (close_all s.writer_chan) λ _. close_all s.writers
