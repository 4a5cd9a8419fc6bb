-- ===== src/Stream/Playback.antt =====
-- What a player gets from Write of protocol/stream_rw.go: no picture before a key frame, and from a
-- key frame on every packet that there is room for; and the timestamps after a change of publishers.
use srtmp.Prelude.{ℕ, suc, ◌+◌, ◌≤◌, ◌≡◌, refl, sym, ap, ◌∙◌, Bool, true, false}
use srtmp.Prelude.{List, [], ◌∷◌, ◌++◌, append_assoc, length, length-append, ltb, arith}
use srtmp.Prelude.{append-nil, drop, drop-all, drop-append_exact}
use srtmp.Prelude.{if◌then◌else◌, Bool-cases, inl, inr, failure, subst, if_cases, Result, ok, err}
use srtmp.Av.{Packet}
use srtmp.Cache.{Channel, enqueue}
use srtmp.Session.Server.{ForwardConnect}
use srtmp.Stream.Writer.{StreamWriter, new_stream_writer, offer, write_packet, is_video, is_key}

-- There is a picture among the packets; and the first one is a key frame.
unfoldable pub has_video : List Packet → Bool
has_video [] = false
has_video (p ∷ ps) = if is_video p then true else has_video ps

unfoldable pub starts_with_key : List Packet → Bool
starts_with_key [] = true
starts_with_key (p ∷ ps) = if is_video p then is_key p else starts_with_key ps

-- A writer after any packets that the stream wrote and that were sent, with the list of all that
-- Write has put in its queue since it was new.
pub data Played : StreamWriter → List Packet → Type 0 where
  fresh : (now : ℕ) (conn : ForwardConnect) → Played (new_stream_writer now conn) []
  wrote :
      {w : StreamWriter} {log : List Packet} (p : Packet)
      → Played w log
      → Played
          (write_packet p w).1
          (log ++ drop (length w.packet_queue.queued) (write_packet p w).1.packet_queue.queued)
  sent :
      {w v : StreamWriter} {log : List Packet} (p : Packet)
      → Played w log
      → w.packet_queue.queued ≡ p ∷ v.packet_queue.queued
      → v.keyframe_need ≡ w.keyframe_need
      → v.queue_closed ≡ w.queue_closed
      → Played v log

-- Unless it waits for a key frame, the open queue has had a picture.
record Begun (w : StreamWriter) (log : List Packet) : Type 0 where
  clean : starts_with_key log ≡ true
  begun : w.keyframe_need ≡ false → w.queue_closed ≡ false → has_video log ≡ true

has_video-append_video :
    (log : List Packet) (p : Packet) → is_video p ≡ true → has_video (log ++ (p ∷ [])) ≡ true
unfolding has_video
has_video-append_video [] p h = rw h refl
has_video-append_video (q ∷ log) p h = ground (arith, has_video-append_video log p h)

has_video-append :
    (log : List Packet) (p : Packet) → has_video log ≡ true → has_video (log ++ (p ∷ [])) ≡ true
unfolding has_video
has_video-append [] p h = cc
has_video-append (q ∷ log) p h = ground (arith, has_video-append log p)

clean-append_key :
    (log : List Packet) (p : Packet)
    → starts_with_key log ≡ true
    → is_key p ≡ true
    → starts_with_key (log ++ (p ∷ [])) ≡ true
unfolding starts_with_key
clean-append_key [] p h k = ground arith
clean-append_key (q ∷ log) p h k = ground (arith, clean-append_key log p)

clean-append_begun :
    (log : List Packet) (p : Packet)
    → starts_with_key log ≡ true
    → has_video log ≡ true
    → starts_with_key (log ++ (p ∷ [])) ≡ true
unfolding starts_with_key has_video
clean-append_begun [] p h b = cc
clean-append_begun (q ∷ log) p h b = ground (arith, clean-append_begun log p)

clean-append_other :
    (log : List Packet) (p : Packet)
    → starts_with_key log ≡ true
    → is_video p ≡ false
    → starts_with_key (log ++ (p ∷ [])) ≡ true
unfolding starts_with_key
clean-append_other [] p h k = ground arith
clean-append_other (q ∷ log) p h k = ground (arith, clean-append_other log p)

-- A queue that is as it was adds nothing, and one with a packet more adds that.
same_queue :
    (w : StreamWriter) (log : List Packet)
    → Begun w log
    → Begun w (log ++ drop (length w.packet_queue.queued) w.packet_queue.queued)
same_queue w log b =
    rw (drop-all (length w.packet_queue.queued) w.packet_queue.queued (omega arith), append-nil log)
      b

-- The writer after a call, and the list with what the call has put in the queue.
abbrev Added : StreamWriter → List Packet → Result (Unit {0}) × StreamWriter → Type 0
Added w log r = Begun r.1 (log ++ drop (length w.packet_queue.queued) r.1.packet_queue.queued)

one_more :
    (p : Packet) (w : StreamWriter) (log : List Packet)
    → Begun w (log ++ (p ∷ []))
    → Added w log (ok tt, record w { packet_queue = enqueue p w.packet_queue })
one_more p w log b =
    rw (drop-append_exact w.packet_queue.queued (p ∷ []) (length w.packet_queue.queued) refl)
      (record { clean = b.clean; begun = b.begun })

offer-Begun :
    (p : Packet) (w : StreamWriter) (log : List Packet)
    → (w.queue_closed ≡ false → Begun w (log ++ (p ∷ [])))
    → (w.queue_closed ≡ true → Begun w log)
    → Begun (if is_key p then record w { keyframe_need = true } else w) log
    → Added w log (offer p w)
unfolding offer
offer-Begun p w log next old full =
    let u = if is_key p then record w { keyframe_need = true } else w in
    let same : u.packet_queue ≡ w.packet_queue = ground arith in
    let kept : Added w log (ok tt, u) =
      subst (λ (c : Channel). Begun u (log ++ drop (length c.queued) u.packet_queue.queued)) same
        (same_queue u log full) in
    elim (Bool-cases w.queue_closed) [
      | inl shut ↦
          let e : offer p w ≡ (err failure, w) = ground arith in
          subst (Added w log) (sym e) (same_queue w log (old shut))
      | inr free ↦ elim (Bool-cases (ltb (length w.packet_queue.queued) w.packet_queue.capacity)) [
        | inl room ↦
            let e : offer p w ≡ (ok tt, record w { packet_queue = enqueue p w.packet_queue }) =
              ground arith in
            subst (Added w log) (sym e) (one_more p w log (next free))
        | inr none_left ↦
            let e : offer p w ≡ (ok tt, u) = ground arith in subst (Added w log) (sym e) kept
      ]
    ]

-- What is not a key frame leaves the writer as it is when the queue is full.
full_other :
    (p : Packet) (w : StreamWriter) (log : List Packet)
    → Begun w log
    → Begun (if is_key p then record w { keyframe_need = true } else w) log
full_other p w log b =
    if_cases (λ (u : StreamWriter). Begun u log) (is_key p) (record w { keyframe_need = true }) w
      (record { clean = b.clean; begun = λ n q. cc }) b

offer-key :
    (p : Packet) (w : StreamWriter) (log : List Packet)
    → starts_with_key log ≡ true
    → is_video p ≡ true
    → is_key p ≡ true
    → Added w log (offer p w)
offer-key p w log clean video key =
    offer-Begun p w log
      (λ q. record {
        clean = clean-append_key log p clean key;
        begun = λ n c. has_video-append_video log p video;
      })
      (λ shut. record { clean = clean; begun = λ n q. cc })
      (rw key (record { clean = clean; begun = λ n q. cc }))

write_packet-Begun :
    (p : Packet) (w : StreamWriter) (log : List Packet)
    → Begun w log
    → Added w log (write_packet p w)
unfolding write_packet
write_packet-Begun p w log b = elim (Bool-cases w.closed) [
  | inl shut ↦
      let e : write_packet p w ≡ (err failure, w) = ground arith in
      subst (Added w log) (sym e) (same_queue w log b)
  | inr free ↦ elim (Bool-cases (is_video p)) [
    | inr sound ↦
        let e : write_packet p w ≡ offer p w = ground arith in
        subst (Added w log) (sym e) (
          offer-Begun p w log
            (λ q. record {
              clean = clean-append_other log p b.clean sound;
              begun = λ n c. has_video-append log p (b.begun n c);
            })
            (λ q. b) (full_other p w log b))
    | inl video ↦ elim (Bool-cases w.keyframe_need) [
      | inr going ↦
          let e : write_packet p w ≡ offer p w = ground arith in
          subst (Added w log) (sym e) (
            offer-Begun p w log
              (λ q. record {
                clean = clean-append_begun log p b.clean (b.begun going q);
                begun = λ n c. has_video-append_video log p video;
              })
              (λ q. b) (full_other p w log b))
      | inl need ↦ elim (Bool-cases (is_key p)) [
        | inr other ↦
            let e : write_packet p w ≡ (ok tt, w) = ground arith in
            subst (Added w log) (sym e) (same_queue w log b)
        | inl key ↦
            let e : write_packet p w ≡ offer p (record w { keyframe_need = false }) =
              ground arith in
            subst (Added w log) (sym e)
              (offer-key p (record w { keyframe_need = false }) log b.clean video key)
      ]
    ]
  ]
]

Played-Begun : {w : StreamWriter} {log : List Packet} → Played w log → Begun w log
Played-Begun (fresh now conn) =
    unfold new_stream_writer starts_with_key in record { clean = refl; begun = λ n q. cc }
Played-Begun (wrote {w} {log} p h) = write_packet-Begun p w log (Played-Begun h)
Played-Begun (sent p h e n q) =
    let b = Played-Begun h in
    record { clean = b.clean; begun = λ a c. b.begun (sym n ∙ a) (sym q ∙ c) }

-- Of all packets that a stream writes to a player, from the new one on, whatever was sent meanwhile,
-- those that get into the queue hold no picture before a key frame.
pub Played-starts_with_key :
    {w : StreamWriter} {log : List Packet} → Played w log → starts_with_key log ≡ true
Played-starts_with_key h = (Played-Begun h).clean

unfoldable pub write_many : List Packet → StreamWriter → StreamWriter
write_many [] w = w
write_many (p ∷ ps) w = write_many ps (write_packet p w).1

-- An open queue with room, no key frame needed: every packet gets in.
writes_on :
    (ps : List Packet) (w : StreamWriter)
    → w.closed ≡ false
    → w.queue_closed ≡ false
    → w.keyframe_need ≡ false
    → length w.packet_queue.queued + length ps ≤ w.packet_queue.capacity
    → (write_many ps w).packet_queue.queued ≡ w.packet_queue.queued ++ ps
unfolding write_many write_packet offer
writes_on [] w c q n room = sym (append-nil w.packet_queue.queued)
writes_on (p ∷ ps) w c q n room =
    let u = record w { packet_queue = enqueue p w.packet_queue } in
    let space : ltb (length w.packet_queue.queued) w.packet_queue.capacity ≡ true = ground arith in
    let step : (write_packet p w).1 ≡ u = ground arith in
    ap (λ (x : StreamWriter). (write_many ps x).packet_queue.queued) step
    ∙ writes_on ps u c q n (omega (arith, length-append w.packet_queue.queued (p ∷ [])))
    ∙ append_assoc w.packet_queue.queued (p ∷ []) ps

-- A player whose connection is open is served: from a key frame on, every packet that there is room
-- for is queued, in order, whether the player waited for a key frame or not.
pub write_many-key :
    (p : Packet) (ps : List Packet) (w : StreamWriter)
    → w.closed ≡ false
    → w.queue_closed ≡ false
    → is_key p ≡ true
    → length w.packet_queue.queued + suc (length ps) ≤ w.packet_queue.capacity
    → (write_many (p ∷ ps) w).packet_queue.queued ≡ w.packet_queue.queued ++ (p ∷ ps)
unfolding write_packet offer write_many
write_many-key p ps w c q key room =
    let u = record w { packet_queue = enqueue p w.packet_queue; keyframe_need = false } in
    let space : ltb (length w.packet_queue.queued) w.packet_queue.capacity ≡ true = ground arith in
    let step : (write_packet p w).1 ≡ u = ground arith in
    ap (λ (x : StreamWriter). (write_many ps x).packet_queue.queued) step
    ∙ writes_on ps u c q refl (omega (arith, length-append w.packet_queue.queued (p ∷ [])))
    ∙ append_assoc w.packet_queue.queued (p ∷ []) ps
