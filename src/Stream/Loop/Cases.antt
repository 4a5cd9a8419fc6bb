-- ===== src/Stream/Loop/Cases.antt =====
-- The cases of streamLoop of protocol/stream.go keep the stream's bounds; and when they do not
-- panic.
use srtmp.Prelude.{Bool, ℕ, ◌≤◌, ◌≡◌, ◌≢◌, refl, true, ◌&&◌}
use srtmp.Prelude.{
  Bool-cases, inl, inr, List, [], ◌∷◌, ◌++◌, map, length, length-append, Option, none,
}
use srtmp.Prelude.{some, Result, ok, err, panic, arith, if_cases, All}
use srtmp.Av.{Packet}
use srtmp.Av.Base.{is_alive}
use srtmp.Prelude.{false, ◌+◌, ◌∙◌, ap, bind, ltb, if◌then◌else◌}
use srtmp.Cache.{Cache, Channel, send, send_headers, after_headers, enqueue}
use srtmp.Stream.Sound.{write_packet-past_close, Fits}
use srtmp.Stream.Loop.{after_writes, after_checks, any_removed}
use srtmp.Stream.Writer.{StreamWriter, write_packet, close_writer, rebase, offer}
use srtmp.Stream.Reader.{StreamReader}
use srtmp.Stream.Sound.{IsSound, write_packet-IsSound, close_writer-ok, rebase-IsSound}
use srtmp.Stream.Sound.{send-Fits}
use srtmp.Stream.Loop.{
  RtmpStream, Turn, running, leaving, broken, take_packet, on_packet, on_writer,
}
use srtmp.Stream.Loop.{on_reader, on_tick, write_all, kept_or_closed, compact}
use srtmp.Stream.Loop.{after_cache, leave_closed, anything_kept, keep_alive}
use srtmp.Stream.Loop.{is_reader_alive, close_all, close_stream}

pub record Inv (s : RtmpStream) : Type 0 where
  pub writers : All IsSound s.writers
  pub waiting : All IsSound s.writer_chan
  pub few : length s.pkt_chan ≤ 16
  pub one_writer : length s.writer_chan ≤ 1
  pub one_reader : length s.reader_chan ≤ 1

-- The bounds hold of the state that a case of the loop leaves, if it does not panic.
abbrev pub HoldsUnlessBroken : Turn → Type 0
HoldsUnlessBroken (running t) = Inv t
HoldsUnlessBroken (leaving t) = Inv t
HoldsUnlessBroken broken = Unit

abbrev SoundOr : Option StreamWriter → Type 0
SoundOr none = Unit
SoundOr (some w) = IsSound w

write_packet-ne-panic : (p : Packet) (w : StreamWriter) → (write_packet p w).0 ≢ panic
unfolding write_packet offer
write_packet-ne-panic p w h = ground arith

-- No goroutine of a player is between the close of its channel and the note of that.
abbrev pub Quiet : StreamWriter → Type 0
Quiet w = w.past_close ≡ false

-- What a writer's call leaves is sound, and a close that panics leaves nothing.
abbrev KeptOr : Result (Option StreamWriter) → Type 0
KeptOr (ok o) = SoundOr o
KeptOr (err e) = Unit
KeptOr panic = Unit

kept_or_closed-KeptOr :
    (r : Result (Unit {0}) × StreamWriter) → IsSound r.1 → KeptOr (kept_or_closed r)
kept_or_closed-KeptOr (ok u, w) s = s
kept_or_closed-KeptOr (err e, w) s = closed (close_writer w).0
  where
    closed : (r : Result (Unit {0})) → KeptOr (bind r λ _. ok none)
    closed (ok u) = tt
    closed (err e) = tt
    closed panic = tt
kept_or_closed-KeptOr (panic, w) s = tt

kept_or_closed-ok :
    (r : Result (Unit {0}) × StreamWriter)
    → r.0 ≢ panic
    → IsSound r.1
    → Quiet r.1
    → (o : Option StreamWriter) × (kept_or_closed r ≡ ok o)
kept_or_closed-ok (ok u, w) h s q = (some w, refl)
kept_or_closed-ok (err e, w) h s q = (none, rw (close_writer-ok w s q) refl)
kept_or_closed-ok (panic, w) h s q = absurd (h refl)

compact-IsSound :
    (o : Option StreamWriter) (os : List (Option StreamWriter))
    → SoundOr o
    → All IsSound (compact os)
    → All IsSound (compact (o ∷ os))
unfolding compact
compact-IsSound none os h hs = hs
compact-IsSound (some w) os h hs = (h, hs)

abbrev CompactOr : Result (List (Option StreamWriter)) → Type 0
CompactOr (ok os) = All IsSound (compact os)
CompactOr (err e) = Unit
CompactOr panic = Unit

write_all-CompactOr :
    (p : Packet) (ws : List StreamWriter) → All IsSound ws → CompactOr (write_all p ws)
unfolding write_all
write_all-CompactOr p [] h = unfold compact in tt
write_all-CompactOr p (w ∷ ws) (h, hs) =
    joined (kept_or_closed (write_packet p w)) (write_all p ws)
      (kept_or_closed-KeptOr (write_packet p w) (write_packet-IsSound p w h))
      (write_all-CompactOr p ws hs)
  where
    joined :
        (r : Result (Option StreamWriter)) (rs : Result (List (Option StreamWriter)))
        → KeptOr r
        → CompactOr rs
        → CompactOr (bind r λ o. bind rs λ os. ok (o ∷ os))
    joined (ok o) (ok os) k c = compact-IsSound o os k c
    joined (ok o) (err e) k c = tt
    joined (ok o) panic k c = tt
    joined (err e) rs k c = tt
    joined panic rs k c = tt

write_all-ok :
    (p : Packet) (ws : List StreamWriter)
    → All IsSound ws
    → All Quiet ws
    → (os : List (Option StreamWriter)) × (write_all p ws ≡ ok os)
unfolding write_all
write_all-ok p [] h q = ([], refl)
write_all-ok p (w ∷ ws) (h, hs) (q, qs) =
    let (o, e) =
      kept_or_closed-ok (write_packet p w) (write_packet-ne-panic p w) (write_packet-IsSound p w h)
        (write_packet-past_close p w ∙ q) in
    let (os, es) = write_all-ok p ws hs qs in (o ∷ os, simp (e, es))

with_writers :
    (now : ℕ) (s : RtmpStream) (ws : List StreamWriter)
    → Inv s
    → All IsSound ws
    → Inv (record s { writers = ws; last_write_remove = now })
with_writers now s ws v h = record {
  writers = h;
  waiting = v.waiting;
  few = v.few;
  one_writer = v.one_writer;
  one_reader = v.one_reader;
}

pub on_packet-Holds :
    (now : ℕ) (p : Packet) (s : RtmpStream) → Inv s → HoldsUnlessBroken (on_packet now p s)
unfolding on_packet
on_packet-Holds now p s v =
    after (write_all p s.writers) (write_all-CompactOr p s.writers v.writers)
  where
    after :
        (r : Result (List (Option StreamWriter)))
        → CompactOr r
        → HoldsUnlessBroken (after_writes now r s)
    after (ok os) c = with_writers (if any_removed os then now else s.last_write_remove) s _ v c
    after (err e) c = tt
    after panic c = tt

pub on_packet-ne-broken :
    (now : ℕ) (p : Packet) (s : RtmpStream)
    → Inv s
    → All Quiet s.writers
    → on_packet now p s ≢ broken
unfolding on_packet
on_packet-ne-broken now p s v q h =
    let (os, e) = write_all-ok p s.writers v.writers q in
    let running_still = ap (λ (r : Result (List (Option StreamWriter))). after_writes now r s) e in
    cc

abbrev AliveOr : Result (List StreamWriter) → Type 0
AliveOr (ok ws) = All IsSound ws
AliveOr (err e) = Unit
AliveOr panic = Unit

keep_alive-AliveOr :
    (now : ℕ) (ws : List StreamWriter) → All IsSound ws → AliveOr (keep_alive now ws)
unfolding keep_alive
keep_alive-AliveOr now [] h = tt
keep_alive-AliveOr now (w ∷ ws) (h, hs) =
    let rest = keep_alive-AliveOr now ws hs in
    if_cases AliveOr (is_alive now w.base) _ _ (kept (keep_alive now ws) rest)
      (closed (close_writer w).0 (keep_alive now ws) rest)
  where
    kept : (r : Result (List StreamWriter)) → AliveOr r → AliveOr (bind r λ l. ok (w ∷ l))
    kept (ok l) g = (h, g)
    kept (err e) g = tt
    kept panic g = tt

    closed :
        (c : Result (Unit {0})) (r : Result (List StreamWriter))
        → AliveOr r
        → AliveOr (bind c λ _. r)
    closed (ok u) r g = g
    closed (err e) r g = tt
    closed panic r g = tt

keep_alive-ok :
    (now : ℕ) (ws : List StreamWriter)
    → All IsSound ws
    → All Quiet ws
    → (l : List StreamWriter) × (keep_alive now ws ≡ ok l)
unfolding keep_alive
keep_alive-ok now [] h q = ([], refl)
keep_alive-ok now (w ∷ ws) (h, hs) (q, qs) =
    let (l, e) = keep_alive-ok now ws hs qs in
    elim (Bool-cases (is_alive now w.base)) [
      | inl alive ↦ (w ∷ l, simp (alive, e))
      | inr late ↦ (l, simp (late, e, close_writer-ok w h q))
    ]

pub on_tick-Holds : (now : ℕ) (s : RtmpStream) → Inv s → HoldsUnlessBroken (on_tick now s)
unfolding on_tick
on_tick-Holds now s v =
    if_cases HoldsUnlessBroken (is_reader_alive now s.reader) _ _
      (after (keep_alive now s.writers) (keep_alive-AliveOr now s.writers v.writers)) v
  where
    after : (r : Result (List StreamWriter)) → AliveOr r → HoldsUnlessBroken (after_checks now r s)
    after (ok ws) g =
        with_writers (if ltb (length ws) (length s.writers) then now else s.last_write_remove) s ws
          v g
    after (err e) g = tt
    after panic g = tt

pub on_tick-ne-broken :
    (now : ℕ) (s : RtmpStream) → Inv s → All Quiet s.writers → on_tick now s ≢ broken
unfolding on_tick
on_tick-ne-broken now s v q =
    let (l, e) = keep_alive-ok now s.writers v.writers q in
    if_cases (λ (t : Turn). t ≢ broken) (is_reader_alive now s.reader) _ _ (rw e (λ h. cc))
      (λ h. cc)

close_all-ok : (ws : List StreamWriter) → All IsSound ws → All Quiet ws → close_all ws ≡ ok tt
unfolding close_all
close_all-ok [] h q = refl
close_all-ok (w ∷ ws) (h, hs) (q, qs) = simp (close_writer-ok w h q, close_all-ok ws hs qs)

pub close_stream-ok :
    (s : RtmpStream)
    → Inv s
    → All Quiet s.writers
    → All Quiet s.writer_chan
    → close_stream s ≡ ok tt
unfolding close_stream
close_stream-ok s v q p =
    simp (close_all-ok s.writer_chan v.waiting p, close_all-ok s.writers v.writers q)

All-append : (xs ys : List StreamWriter) → All IsSound xs → All IsSound ys → All IsSound (xs ++ ys)
All-append [] ys h k = k
All-append (x ∷ xs) ys (h, hs) k = (h, All-append xs ys hs k)

after_cache-Holds :
    (r : Result (Unit {0}) × Channel) (w : StreamWriter) (s : RtmpStream)
    → Inv s
    → IsSound (record w { packet_queue = r.1 })
    → HoldsUnlessBroken (after_cache r w s)
after_cache-Holds (ok u, c) w s v sound = record {
  writers = All-append s.writers _ v.writers (sound, tt);
  waiting = v.waiting;
  few = v.few;
  one_writer = v.one_writer;
  one_reader = v.one_reader;
}
after_cache-Holds (err e, c) w s v sound = left (close_writer (record w { packet_queue = c }))
  where
    left : (x : Result (Unit {0}) × StreamWriter) → HoldsUnlessBroken (leave_closed x s)
    left (ok u, w) = v
    left (err e, w) = v
    left (panic, w) = tt
after_cache-Holds (panic, c) w s v sound = tt

send_headers-ne-panic : (ps : List Packet) (c : Channel) → (send_headers ps c).0 ≢ panic
unfolding send_headers
send_headers-ne-panic [] c h = cc
send_headers-ne-panic (p ∷ ps) c h =
    if_cases (λ (r : Result (Unit {0}) × Channel). r.0 ≢ panic) (ltb (length c.queued) c.capacity) _
      _ (send_headers-ne-panic ps (enqueue p c)) (λ e. cc) h

send-ne-panic : (cache : Cache) (c : Channel) → (send cache c).0 ≢ panic
unfolding send
send-ne-panic cache c = sent (send_headers _ c) (send_headers-ne-panic _ c)
  where
    sent :
        (r : Result (Unit {0}) × Channel) → r.0 ≢ panic → (after_headers r cache.gop.gops).0 ≢ panic
    sent (ok u, d) n h = cc
    sent (err e, d) n h = cc
    sent (panic, d) n h = n refl

pub on_writer-Holds :
    (w : StreamWriter) (s : RtmpStream) → Inv s → IsSound w → HoldsUnlessBroken (on_writer w s)
unfolding on_writer
on_writer-Holds w s v h =
    if_cases HoldsUnlessBroken (w.queue_closed && anything_kept s.cache) _ _ tt (
      after_cache-Holds (send s.cache w.packet_queue) w s v
        (record { fits = send-Fits s.cache w.packet_queue h.fits; open_queue = h.open_queue }))

guarded :
    (closed kept : Bool)
    → closed ≡ false
    → {x : Turn} → x ≢ broken
    → (if closed && kept then broken else x) ≢ broken
guarded true kept e n = cc
guarded false kept e n = n

-- A writer whose queue is open joins, or the loop ends, where no goroutine of it is in Close.
pub on_writer-ne-broken :
    (w : StreamWriter) (s : RtmpStream)
    → IsSound w
    → w.queue_closed ≡ false
    → Quiet w
    → on_writer w s ≢ broken
unfolding on_writer
on_writer-ne-broken w s h opened q = guarded w.queue_closed (anything_kept s.cache) opened (
    joined (send s.cache w.packet_queue) (send-ne-panic s.cache w.packet_queue)
      (send-Fits s.cache w.packet_queue h.fits))
  where
    left : (x : Result (Unit {0}) × StreamWriter) → x.0 ≡ ok tt → leave_closed x s ≢ broken
    left (ok u, v) e b = cc
    left (err x, v) e b = cc
    left (panic, v) e b = cc

    joined : (r : Result (Unit {0}) × Channel) → r.0 ≢ panic → Fits r.1 → after_cache r w s ≢ broken
    joined (ok u, c) n f b = cc
    joined (err x, c) n f b =
        left (close_writer (record w { packet_queue = c }))
          (close_writer-ok (record w { packet_queue = c })
            (record { fits = f; open_queue = h.open_queue }) q)
          b
    joined (panic, c) n f b = n refl

pub take_packet-Inv : (p : Packet) (s : RtmpStream) → Inv s → Inv (take_packet p s)
unfolding take_packet
take_packet-Inv p s v = record {
  writers = ground arith;
  waiting = ground arith;
  few = ground (arith, length-append s.pkt_chan (p ∷ []));
  one_writer = ground arith;
  one_reader = ground arith;
}

rebased : (ws : List StreamWriter) → All IsSound ws → All IsSound (map rebase ws)
rebased [] h = tt
rebased (w ∷ ws) (h, hs) = (rebase-IsSound w h, rebased ws hs)

pub on_reader-Inv : (r : StreamReader) (s : RtmpStream) → Inv s → Inv (on_reader r s)
unfolding on_reader
on_reader-Inv r s v = replaced s.reader
  where
    replaced :
        (old : Option StreamReader)
        → Inv (elim old [
          | none ↦ record s { reader = some r; launched = s.launched + 1 }
          | some q ↦ record s {
            reader = some r;
            launched = s.launched + 1;
            pkt_chan = [];
            writers = map rebase s.writers;
          }
        ])
    replaced none = record {
      writers = v.writers;
      waiting = v.waiting;
      few = v.few;
      one_writer = v.one_writer;
      one_reader = v.one_reader;
    }
    replaced (some q) = record {
      writers = rebased s.writers v.writers;
      waiting = v.waiting;
      few = omega arith;
      one_writer = v.one_writer;
      one_reader = v.one_reader;
    }

pub All-replace :
    (before after : List StreamWriter) (w v : StreamWriter)
    → (IsSound w → IsSound v)
    → All IsSound (before ++ (w ∷ after))
    → All IsSound (before ++ (v ∷ after))
All-replace [] after w v f (h, hs) = (f h, hs)
All-replace (x ∷ before) after w v f (h, hs) = (h, All-replace before after w v f hs)
