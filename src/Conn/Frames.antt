-- ===== src/Conn/Frames.antt =====
-- Read of protocol/core/rtmp_conn.go on the chunks of a message, behind the first one.
use srtmp.Prelude.{ℕ, zero, suc, ◌+◌, ◌*◌, ◌≤◌, ◌<◌, min, ◌≡◌, refl, sym, ap, ◌∙◌}
use srtmp.Prelude.{false, List, [], ◌∷◌, ◌++◌, append-nil, append_assoc, length, take, drop}
use srtmp.Prelude.{length-take, length-drop, length-append, take-append-drop, none, some}
use srtmp.Prelude.{◌==◌, ok, arith, subst, not_le→leb}
use srtmp.Prelude.{ne→==}
use srtmp.Wire.{ReadWriter, read_byte}
use srtmp.Wire.Reads.{feed, feed_self}
use srtmp.Chunk.Stream.{ChunkStream}
use srtmp.Chunk.Reader.{read_chunk}
use srtmp.Chunk.Header.{header_bytes, basic_bytes, message_bytes, extended_bytes}
use srtmp.Chunk.Frames.{frames}
use srtmp.Chunk.Parse.{IsMessage, with_format}
use srtmp.Chunk.Receive.{InFlight, next_chunk}
use srtmp.Conn.State.{RtmpConn, find_chunk}
use srtmp.Conn.Reader.{read, read_round, after_byte, after_chunk, chunk_for}
use srtmp.Conn.Basic.{after_byte-basic_bytes, find_chunk-save_chunk}
use srtmp.Conn.Delivery.{CanReceive, Delivers, chunk_saved, chunk_saved-CanReceive}
use srtmp.Conn.Delivery.{chunk_for-found, last_chunk, inner_chunk}

-- A message that the application may send, as writeChunk gets it to send.
pub record IsSent (m : ChunkStream) : Type 0 where
  pub message : IsMessage m
  pub csid_low : 2 ≤ m.csid
  pub csid_high : m.csid < 65600
  pub own : 6 < m.type_id
  pub nonempty : 0 < m.message_length
  pub whole : length m.body ≡ m.message_length

-- The chunks that follow the first one, where no extended timestamp is sent.
later_frame :
    (k n j b : ℕ) (m : ChunkStream) (bs rest : List ℕ)
    → 0 < j
    → m.timestamp < 0xffffff
    → frames (suc k) n j m (b ∷ bs) ++ rest
      ≡ basic_bytes 3 m.csid
        ++ (take n (b ∷ bs) ++ (frames k n (j + 1) m (drop n (b ∷ bs)) ++ rest))
unfolding frames header_bytes message_bytes extended_bytes
later_frame k n j b m bs rest pos h =
    let later : (j == 0) ≡ false = ne→== j 0 (omega arith) in
    simp (later, not_le→leb 0xffffff m.timestamp h, append-nil, append_assoc)

pub frames-nil : (k n j : ℕ) (m : ChunkStream) → frames k n j m [] ≡ []
unfolding frames
frames-nil zero n j m = refl
frames-nil (suc k) n j m = refl

-- A round of Read whose input begins with a basic header.
pub round_on :
    (format csid : ℕ) (rest : List ℕ) (conn : RtmpConn)
    → format ≤ 3
    → 2 ≤ csid
    → csid < 65600
    → conn.rw.read_error ≡ none
    → conn.rw.input ≡ basic_bytes format csid ++ rest
    → read_round conn
      ≡ after_chunk
          (read_chunk
            (with_format format (chunk_for csid conn))
            conn.remote_chunk_size
            (feed rest conn.rw))
          csid
          conn
unfolding read_round
round_on format csid rest conn h lo hi k input =
    ap (λ (s : ReadWriter). after_byte (read_byte s) conn) (feed_self conn.rw _ input)
    ∙ after_byte-basic_bytes format csid rest conn.rw conn h lo hi k

-- A round of Read on a chunk of format 3 of a message on its way.
later_round :
    (m c : ChunkStream) (n : ℕ) (done bs rest : List ℕ) (conn : RtmpConn)
    → CanReceive conn
    → IsSent m
    → conn.remote_chunk_size ≡ n
    → find_chunk m.csid conn.chunks ≡ some c
    → conn.rw.input ≡ basic_bytes 3 m.csid ++ (bs ++ rest)
    → InFlight m done c
    → 0 < c.remain
    → length bs ≡ min n c.remain
    → (c' : ChunkStream) × (read_round conn
        ≡ after_chunk (ok tt, c', feed rest conn.rw) m.csid conn)
      × InFlight m (done ++ bs) c'
later_round m c n done bs rest conn v h size found input f more len =
    let (c', e, f') =
      next_chunk m c n done bs rest conn.rw h.message.length_fits f more len v.readable in
    (
      c',
      round_on 3 m.csid (bs ++ rest) conn (omega arith) h.csid_low h.csid_high v.readable input
          ∙ simp (chunk_for-found m.csid conn found, size, e),
      f',
    )

Delivers-step :
    (m : ChunkStream) (rest : List ℕ) (fuel : ℕ) (conn conn' : RtmpConn)
    → read (suc fuel) conn ≡ read fuel conn'
    → conn'.remote_chunk_size ≡ conn.remote_chunk_size
    → Delivers m rest fuel conn'
    → Delivers m rest (suc fuel) conn
Delivers-step m rest fuel conn conn' e size (c, r, v, input, same, idle) =
    (c, e ∙ r, v, input, same ∙ size, idle)

-- Where a chunk has brought the last bytes, Read returns; otherwise it goes on with the rest.
pub chunk_read :
    (fuel : ℕ) (m c : ChunkStream) (done later more rest : List ℕ) (conn : RtmpConn)
    → CanReceive conn
    → IsSent m
    → InFlight m done c
    → done ++ later ≡ m.body
    → (later ≡ [] → more ≡ [])
    → read_round conn ≡ after_chunk (ok tt, c, feed (more ++ rest) conn.rw) m.csid conn
    → (0 < length later
        → Delivers m rest fuel (chunk_saved m.csid c (feed (more ++ rest) conn.rw) conn))
    → Delivers m rest (suc fuel) conn
chunk_read fuel m c done [] more rest conn v h f body none_left step go =
    let finished : InFlight m m.body c =
      subst (λ (l : List ℕ). InFlight m l c) (sym (append-nil done) ∙ body) f in
    subst (λ (l : List ℕ). Delivers m (l ++ rest) (suc fuel) conn) (none_left refl)
      (last_chunk fuel m c (more ++ rest) conn v finished h.whole h.own step)
chunk_read fuel m c done (b ∷ bs) more rest conn v h f body none_left step go =
    let left : 0 < c.remain =
      omega (arith, ap length body, length-append done (b ∷ bs), f.at, f.left, h.whole) in
    Delivers-step m rest fuel conn (chunk_saved m.csid c (feed (more ++ rest) conn.rw) conn)
      (inner_chunk fuel m c done (more ++ rest) conn f left step) refl (go (omega arith))

-- The rest of a message on its way is read to its end.
pub read_frames :
    (k fuel n j : ℕ) (m c : ChunkStream) (done suf rest : List ℕ) (conn : RtmpConn)
    → CanReceive conn
    → IsSent m
    → m.timestamp < 0xffffff
    → 0 < j
    → 0 < n
    → conn.remote_chunk_size ≡ n
    → find_chunk m.csid conn.chunks ≡ some c
    → conn.rw.input ≡ frames k n j m suf ++ rest
    → InFlight m done c
    → done ++ suf ≡ m.body
    → 0 < length suf
    → length suf ≤ k * n
    → k ≤ fuel
    → Delivers m rest fuel conn
read_frames zero fuel n j m c done suf rest conn v h ts jp pos size found input f body left room
      enough =
    absurd (omega arith)
read_frames (suc k) zero n j m c done suf rest conn v h ts jp pos size found input f body left room
      enough =
    absurd (omega arith)
read_frames (suc k) (suc fuel) n j m c done [] rest conn v h ts jp pos size found input f body left
      room enough =
    absurd (omega arith)
read_frames (suc k) (suc fuel) n j m c done (b ∷ bs) rest conn v h ts jp pos size found input f body
      left room enough =
    let suf = b ∷ bs in
    let now = take n suf in
    let later = drop n suf in
    let more = frames k n (j + 1) m later in
    let remaining : length suf ≡ c.remain =
      omega (arith, ap length body, length-append done suf, f.at, f.left, h.whole) in
    let (c', step, f') =
      later_round m c n done now (more ++ rest) conn v h size found
        (input ∙ later_frame k n j b m bs rest jp ts) f (omega arith)
        (omega (arith, length-take n suf)) in
    let body' : (done ++ now) ++ later ≡ m.body = rw (append_assoc, take-append-drop n suf) body in
    chunk_read fuel m c' (done ++ now) later more rest conn v h f' body'
      (λ e. ap (λ (l : List ℕ). frames k n (j + 1) m l) e ∙ frames-nil k n (j + 1) m) step
      λ some_left.
        read_frames k fuel n (j + 1) m c' (done ++ now) later rest
          (chunk_saved m.csid c' (feed (more ++ rest) conn.rw) conn)
          (chunk_saved-CanReceive m.csid c' (more ++ rest) conn v) h ts (omega arith) pos size
          (find_chunk-save_chunk m.csid c' conn.chunks) refl f' body' some_left
          (omega (arith, length-drop n suf)) (omega arith)
