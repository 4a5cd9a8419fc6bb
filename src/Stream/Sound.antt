-- ===== src/Stream/Sound.antt =====
-- A player's queue in protocol/stream_rw.go is bounded, and when its channel is closed.
use srtmp.Prelude.{ℕ, ◌≤◌, ◌≡◌, refl, ap, true, false, List, [], ◌∷◌, ◌++◌}
use srtmp.Prelude.{length, length-append, Option, none, some, Result, ok, err, panic, arith, ltb}
use srtmp.Amf.Decode.{Amf3}
use srtmp.Av.{Packet}
use srtmp.Cache.{
  Cache, Channel, enqueue, send, after_headers, send_headers, send_frames, headers_of,
}
use srtmp.Chunk.Stream.{ChunkStream}
use srtmp.Session.Server.{ForwardConnect}
use srtmp.Session.Server.Loop.{write_message}
use srtmp.Stream.Writer.{StreamWriter, new_stream_writer, offer, write_packet, close_writer, rebase}
use srtmp.Stream.Writer.{test_closed, close_queue, end_close}
use srtmp.Stream.Writer.{send_packet, after_send, outgoing}

-- The channel holds at most as many packets as it was made for.
abbrev pub Fits : Channel → Type 0
Fits c = (c.capacity ≡ 1024) × (length c.queued ≤ 1024)

pub record IsSound (w : StreamWriter) : Type 0 where
  pub fits : Fits w.packet_queue
  pub open_queue : w.closed ≡ false → w.past_close ≡ false → w.queue_closed ≡ false

pub new_stream_writer-IsSound :
    (now : ℕ) (conn : ForwardConnect) → IsSound (new_stream_writer now conn)
unfolding new_stream_writer
new_stream_writer-IsSound now conn = record { fits = omega arith; open_queue = λ h k. refl }

enqueue-Fits :
    (p : Packet) (c : Channel)
    → Fits c
    → ltb (length c.queued) c.capacity ≡ true
    → Fits (enqueue p c)
enqueue-Fits p c h room = (h.0, ground (arith, length-append c.queued (p ∷ [])))

offer-IsSound : (p : Packet) (w : StreamWriter) → IsSound w → IsSound (offer p w).1
unfolding offer
offer-IsSound p w s = ground (arith, length-append w.packet_queue.queued (p ∷ []))

pub write_packet-IsSound :
    (p : Packet) (w : StreamWriter) → IsSound w → IsSound (write_packet p w).1
unfolding write_packet
write_packet-IsSound p w s =
    ground (arith, offer-IsSound p w, offer-IsSound p (record w { keyframe_need = false }))

-- Close does not panic, where Check's goroutine has not closed the queue just now.
pub close_writer-ok :
    (w : StreamWriter) → IsSound w → w.past_close ≡ false → (close_writer w).0 ≡ ok tt
unfolding close_writer
close_writer-ok w s q = ground arith

pub test_closed-IsSound : (w : StreamWriter) → IsSound w → IsSound (test_closed w)
unfolding test_closed
test_closed-IsSound w s = ground arith

pub close_queue-IsSound : (w : StreamWriter) → IsSound w → IsSound (close_queue w).1
unfolding close_queue
close_queue-IsSound w s = ground arith

pub end_close-IsSound : (w : StreamWriter) → IsSound w → IsSound (end_close w)
unfolding end_close
end_close-IsSound w s = ground arith

pub write_packet-past_close :
    (p : Packet) (w : StreamWriter) → (write_packet p w).1.past_close ≡ w.past_close
unfolding write_packet offer
write_packet-past_close p w = ground arith

pub rebase-IsSound : (w : StreamWriter) → IsSound w → IsSound (rebase w)
unfolding rebase
rebase-IsSound w s = record { fits = s.fits; open_queue = s.open_queue }

-- A packet that SendPacket has taken makes room.
pub taken-IsSound :
    (w : StreamWriter) (p : Packet) (rest : List Packet)
    → IsSound w
    → w.packet_queue.queued ≡ p ∷ rest
    → IsSound (record w { packet_queue = record w.packet_queue { queued = rest } })
taken-IsSound w p rest s e = record {
  fits = (s.fits.0, omega (arith, s.fits.1, ap length e));
  open_queue = s.open_queue;
}

after_send-IsSound :
    (x : Option (Result (Unit {0}) × ForwardConnect)) (cs ds : ChunkStream) (w v : StreamWriter)
    (r : Result (Unit {0}))
    → IsSound w
    → after_send x cs w ≡ some (r, ds, v)
    → IsSound v
after_send-IsSound none cs ds w v r s e = cc
after_send-IsSound (some (ok u, fc)) cs ds w v r s e = ground arith
after_send-IsSound (some (err x, fc)) cs ds w v r s e = ground arith
after_send-IsSound (some (panic, fc)) cs ds w v r s e = ground arith

pub send_packet-IsSound :
    (amf3 : Amf3) (now : ℕ) (p : Packet) (cs ds : ChunkStream) (w v : StreamWriter)
    (r : Result (Unit {0}))
    → IsSound w
    → send_packet amf3 now p cs w ≡ some (r, ds, v)
    → IsSound v
unfolding send_packet
send_packet-IsSound amf3 now p cs ds w v r s e =
    after_send-IsSound (write_message amf3 (outgoing p cs w) w.conn) (outgoing p cs w) ds _ v r
      (record { fits = s.fits; open_queue = s.open_queue }) e

send_headers-Fits : (ps : List Packet) (c : Channel) → Fits c → Fits (send_headers ps c).1
unfolding send_headers
send_headers-Fits [] c h = h
send_headers-Fits (p ∷ ps) c h =
    ground (arith, enqueue-Fits p c h, send_headers-Fits ps (enqueue p c))

send_frames-Fits : (ps : List Packet) (c : Channel) → Fits c → Fits (send_frames ps c)
unfolding send_frames
send_frames-Fits [] c h = h
send_frames-Fits (p ∷ ps) c h = send_frames-Fits ps _ (ground (arith, enqueue-Fits p c h))

-- What the cache sends to a player that joins fits too.
pub send-Fits : (cache : Cache) (c : Channel) → Fits c → Fits (send cache c).1
unfolding send
send-Fits cache c h =
    let headers =
      headers_of cache.metadata ++ (headers_of cache.video_seq ++ headers_of cache.audio_seq) in
    sent (send_headers headers c) (send_headers-Fits headers c h)
  where
    sent : (r : Result (Unit {0}) × Channel) → Fits r.1 → Fits (after_headers r cache.gop.gops).1
    sent (ok u, d) g = send_frames-Fits cache.gop.gops d g
    sent (err e, d) g = g
    sent (panic, d) g = g
