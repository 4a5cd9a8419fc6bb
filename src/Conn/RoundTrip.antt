-- ===== src/Conn/RoundTrip.antt =====
-- A message that one side writes arrives at the other: Write and Read of protocol/core/rtmp_conn.go.
use srtmp.Prelude.{ℕ, zero, suc, ◌+◌, ◌*◌, ◌/◌, ◌≤◌, ◌<◌, ◌≡◌, refl, sym, ap, ◌∙◌}
use srtmp.Prelude.{List, [], ◌∷◌, ◌++◌, append_assoc, length, take, drop}
use srtmp.Prelude.{length-take, length-drop, take-append-drop}
use srtmp.Prelude.{ok, arith}
use srtmp.Prelude.{◌⊎◌, inl, inr}
use srtmp.Wire.{ReadWriter}
use srtmp.Wire.Writes.{CanWrite}
use srtmp.Wire.Reads.{feed}
use srtmp.Chunk.Stream.{ChunkStream}
use srtmp.Chunk.Writer.{write_chunk, assign_csid}
use srtmp.Chunk.Header.{header_bytes, basic_bytes, message_bytes, extended_bytes}
use srtmp.Chunk.Frames.{frames, write_chunk_lem, assign_csid_fields}
use srtmp.Chunk.Receive.{first_chunk}
use srtmp.Conn.State.{RtmpConn}
use srtmp.Conn.Reader.{read_round, after_chunk, chunk_for}
use srtmp.Conn.Basic.{find_chunk-save_chunk}
use srtmp.Conn.Delivery.{CanReceive, Delivers, chunk_saved, chunk_saved-CanReceive}
use srtmp.Conn.Delivery.{IsIdle}
use srtmp.Conn.Frames.{IsSent, frames-nil, round_on, chunk_read, read_frames}

pub first_frame :
    (k n : ℕ) (m : ChunkStream) (body rest : List ℕ)
    → m.format ≡ 0
    → 0 < length body
    → frames (suc k) n 0 m body ++ rest
      ≡ basic_bytes 0 m.csid
        ++ (message_bytes m
            ++ (extended_bytes m.timestamp
                ++ (take n body ++ (frames k n 1 m (drop n body) ++ rest))))
unfolding frames header_bytes message_bytes
first_frame k n m [] rest h pos = absurd (omega arith)
first_frame k n m (b ∷ bs) rest h pos = simp (h, append_assoc)

-- Read gets a message from the chunks that `frames` lists, whatever follows them.
read-frames :
    (k fuel n : ℕ) (m : ChunkStream) (rest : List ℕ) (conn : RtmpConn)
    → CanReceive conn
    → IsSent m
    → 0 < n
    → conn.remote_chunk_size ≡ n
    → IsIdle m.csid conn
    → conn.rw.input ≡ frames k n 0 m m.body ++ rest
    → m.message_length ≤ k * n
    → k ≤ fuel
    → (m.timestamp < 0xffffff) ⊎ (m.message_length ≤ n)
    → Delivers m rest fuel conn
read-frames zero fuel n m rest conn v h pos size idle input room enough early =
    absurd (omega (arith, h.nonempty))
read-frames (suc k) zero n m rest conn v h pos size idle input room enough early =
    absurd (omega arith)
read-frames (suc k) (suc fuel) n m rest conn v h pos size idle input room enough early =
    let now = take n m.body in
    let later = drop n m.body in
    let more = frames k n 1 m later in
    let some_body : 0 < length m.body = omega (arith, h.whole, h.nonempty) in
    let (c, e, f) =
      first_chunk m (chunk_for m.csid conn) n now (more ++ rest) conn.rw h.message h.nonempty
        idle.own_csid idle.nothing_left idle.no_delta (omega (arith, length-take n m.body, h.whole))
        v.readable in
    let step : read_round conn ≡ after_chunk (ok tt, c, feed (more ++ rest) conn.rw) m.csid conn =
      round_on 0 m.csid _ conn (omega arith) h.csid_low h.csid_high v.readable
        (input ∙ first_frame k n m m.body rest h.message.full some_body)
      ∙ simp (size, e) in
    chunk_read fuel m c now later more rest conn v h f (take-append-drop n m.body)
      (λ e. ap (λ (l : List ℕ). frames k n 1 m l) e ∙ frames-nil k n 1 m) step
      λ some_left. elim early [
        | inl ts ↦
            read_frames k fuel n 1 m c now later rest
              (chunk_saved m.csid c (feed (more ++ rest) conn.rw) conn)
              (chunk_saved-CanReceive m.csid c (more ++ rest) conn v) h ts (omega arith) pos size
              (find_chunk-save_chunk m.csid c conn.chunks) refl f (take-append-drop n m.body)
              some_left (omega (arith, length-drop n m.body, h.whole)) (omega arith)
        | inr single ↦ absurd (omega (arith, length-drop n m.body, h.whole))
      ]

-- The chunk stream id of its type replaces the caller's.
assign_csid-IsSent : (m : ChunkStream) → IsSent m → IsSent (assign_csid m)
unfolding assign_csid
assign_csid-IsSent m h = ground arith

rounds_enough : (l n : ℕ) → 0 < n → l ≤ (l / n + 1) * n
rounds_enough l n pos = grind arith

rounds_few : (l n : ℕ) → l / n ≤ l
rounds_few l n = grind arith

early_assigned :
    (m : ChunkStream) (n : ℕ)
    → (m.timestamp < 0xffffff) ⊎ (m.message_length ≤ n)
    → ((assign_csid m).timestamp < 0xffffff) ⊎ ((assign_csid m).message_length ≤ n)
unfolding assign_csid
early_assigned m n early = ground arith

-- A message of the application that one side writes on a working connection is what the next Read
-- of a peer with the same chunk size returns: same type, stream id and body, on the chunk stream of
-- its type, and its timestamp if that is below 0xffffff. Whatever follows is left in the input, and
-- the chunk stream waits for the next message. The message is not empty, carries its declared
-- length, of at most 0xffffff bytes, and is sent in one chunk if its timestamp is 0xffffff or more.
-- The peer has no message on its way on that chunk stream, and its fuel is more than the length.
pub read-write :
    (m : ChunkStream) (n fuel : ℕ) (w : ReadWriter) (rest : List ℕ) (conn : RtmpConn)
    → IsSent m
    → 0 < n
    → CanWrite w
    → w.output ≡ []
    → CanReceive conn
    → conn.remote_chunk_size ≡ n
    → IsIdle (assign_csid m).csid conn
    → conn.rw.input ≡ (write_chunk m n w).2.output ++ rest
    → (m.timestamp < 0xffffff) ⊎ (m.message_length ≤ n)
    → m.message_length < fuel
    → ((write_chunk m n w).0 ≡ ok tt) × Delivers (assign_csid m) rest fuel conn
read-write m n fuel w rest conn h pos c empty v size idle input early enough =
    let a = assign_csid m in
    let k : ℕ = a.message_length / n + 1 in
    let fields = assign_csid_fields m h.csid_high in
    let sent = write_chunk_lem m n w pos h.csid_high h.message.length_fits (sym h.whole) c in
    let arrives : conn.rw.input ≡ frames k n 0 a a.body ++ rest =
      input
      ∙ ap (λ (s : ReadWriter). s.output ++ rest) sent.1
      ∙ ap (λ (l : List ℕ). (l ++ frames k n 0 a a.body) ++ rest) empty in
    (
      sent.0,
      read-frames k fuel n a rest conn v (assign_csid-IsSent m h) pos size idle arrives
          (rounds_enough a.message_length n pos)
          (omega (arith, fields.1, rounds_few a.message_length n)) (early_assigned m n early),
    )
