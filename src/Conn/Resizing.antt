-- ===== src/Conn/Resizing.antt =====
-- A change of the chunk size, by NewSetChunkSize, Write and Read of protocol/core/rtmp_conn.go.
use srtmp.Prelude.{
  ℕ, suc, ◌+◌, ◌/◌, ◌^◌, ◌≤◌, ◌<◌, ◌≡◌, refl, sym, ap, subst, ◌∙◌, true, List, [], ◌∷◌, ◌++◌,
  length, take, drop, take-all, drop-all, leb, le→leb, ok, arith, Result,
}
use srtmp.Bytes.{u32_be, put_u32_be}
use srtmp.Wire.Writes.{CanWrite, put}
use srtmp.Wire.Reads.{feed}
use srtmp.Chunk.Stream.{ChunkStream, new_chunk_stream}
use srtmp.Chunk.Writer.{assign_csid}
use srtmp.Chunk.Header.{basic_bytes, message_bytes, extended_bytes}
use srtmp.Chunk.Frames.{frames, write_chunk_lem}
use srtmp.Chunk.Parse.{IsMessage}
use srtmp.Chunk.Receive.{InFlight, first_chunk}
use srtmp.Conn.State.{RtmpConn}
use srtmp.Conn.Control.{init_control_msg, new_set_chunk_size, handle_control_msg, write}
use srtmp.Conn.Reader.{read, read_round, after_chunk, chunk_for, finish_chunk}
use srtmp.Conn.Basic.{find_chunk-save_chunk}
use srtmp.Conn.Delivery.{CanReceive, IsIdle, ack_lem, chunk_saved, chunk_saved-CanReceive}
use srtmp.Conn.Delivery.{chunk_for-found}
use srtmp.Conn.Frames.{frames-nil, round_on}
use srtmp.Conn.RoundTrip.{first_frame}
use srtmp.Conn.Agreement.{body_lem}

-- What NewSetChunkSize makes, which keeps its chunk stream.
resizing_fields :
    (n : ℕ)
    → IsMessage (new_set_chunk_size n)
      × ((new_set_chunk_size n).csid ≡ 2)
      × ((new_set_chunk_size n).message_length ≡ 4)
      × ((new_set_chunk_size n).type_id ≡ 1)
      × (length (new_set_chunk_size n).body ≡ 4)
      × (assign_csid (new_set_chunk_size n) ≡ new_set_chunk_size n)
unfolding new_set_chunk_size init_control_msg new_chunk_stream put_u32_be assign_csid
resizing_fields n = (
  record {
    full = refl;
    time_fits = omega arith;
    length_fits = omega arith;
    type_fits = omega arith;
    stream_fits = omega arith;
  },
  refl,
  refl,
  refl,
  refl,
  refl,
)

-- What is on the wire is one chunk.
resizing_frames :
    (n : ℕ) (rest : List ℕ)
    → 4 ≤ n
    → let m = new_set_chunk_size n in
      frames (m.message_length / n + 1) n 0 m m.body ++ rest
      ≡ basic_bytes 0 2 ++ (message_bytes m ++ (extended_bytes m.timestamp ++ (m.body ++ rest)))
resizing_frames n rest few =
    let m = new_set_chunk_size n in
    let (h, id, len, kind, size, same) = resizing_fields n in
    let k : ℕ = m.message_length / n in
    let whole : take n m.body ≡ m.body = take-all n m.body (omega arith) in
    let none_left : drop n m.body ≡ [] = drop-all n m.body (omega arith) in
    let shape : basic_bytes 0 m.csid
          ++ (message_bytes m
              ++ (extended_bytes m.timestamp
                  ++ (take n m.body ++ (frames k n 1 m (drop n m.body) ++ rest))))
        ≡ basic_bytes 0 2 ++ (message_bytes m ++ (extended_bytes m.timestamp ++ (m.body ++ rest))) =
      simp (id, whole, none_left, frames-nil k n 1 m) in
    let rounds : m.message_length / n + 1 ≡ suc k = omega arith in
    ap (λ (j : ℕ). frames j n 0 m m.body ++ rest) rounds
    ∙ first_frame k n m m.body rest h.full (omega arith)
    ∙ shape

u32_be-take : (xs : List ℕ) → 4 ≤ length xs → u32_be (take 4 xs) ≡ u32_be xs
unfolding u32_be
u32_be-take [] h = absurd (omega arith)
u32_be-take (a ∷ []) h = absurd (omega arith)
u32_be-take (a ∷ (b ∷ [])) h = absurd (omega arith)
u32_be-take (a ∷ (b ∷ (c ∷ []))) h = absurd (omega arith)
u32_be-take (a ∷ (b ∷ (c ∷ (d ∷ xs)))) h = refl

resizing_value : (n : ℕ) → n < 2 ^ 32 → u32_be (new_set_chunk_size n).body ≡ ok n
unfolding new_set_chunk_size
resizing_value n h = body_lem 1 4 n (omega arith) h

-- The sender takes the size over and sends the message in one chunk.
write_resizing :
    (n : ℕ) (sender : RtmpConn)
    → 4 ≤ n
    → n < 2 ^ 32
    → CanWrite sender.rw
    → let m = new_set_chunk_size n in
      write m sender ≡ (
        ok tt,
        record sender {
          chunk_size = n;
          rw = put (frames (m.message_length / n + 1) n 0 m m.body) sender.rw;
        },
      )
unfolding write
write_resizing n sender few fits w =
    let m = new_set_chunk_size n in
    let (h, id, len, kind, size, same) = resizing_fields n in
    let (sent, out) =
      write_chunk_lem m n sender.rw (omega arith) (omega arith) (omega arith) (omega arith) w in
    simp (
      kind,
      resizing_value n fits,
      sent,
      out
          ∙ ap (λ (a : ChunkStream). put (frames (a.message_length / n + 1) n 0 a a.body) sender.rw)
              same,
    )

-- The receiver's round that has read it goes on with the new size.
resized_round :
    (n fuel : ℕ) (c : ChunkStream) (rest : List ℕ) (conn : RtmpConn)
    → n < 2 ^ 32
    → CanReceive conn
    → InFlight (new_set_chunk_size n) (new_set_chunk_size n).body c
    → read_round conn ≡ after_chunk (ok tt, c, feed rest conn.rw) 2 conn
    → (c' : RtmpConn) × (read (suc fuel) conn ≡ read fuel c')
      × CanReceive c'
      × (c'.rw.input ≡ rest)
      × (c'.remote_chunk_size ≡ n)
      × IsIdle 2 c'
unfolding read finish_chunk handle_control_msg
resized_round n fuel c rest conn fits v f step =
    let m = new_set_chunk_size n in
    let (h, id, len, kind, size, same) = resizing_fields n in
    let saved = chunk_saved 2 c (feed rest conn.rw) conn in
    let v' = chunk_saved-CanReceive 2 c rest conn v in
    let (d, acked, w, input, chunks, kept) =
      ack_lem c.message_length (record saved { remote_chunk_size = n })
        (record { readable = v'.readable; writable = v'.writable; sends = v'.sends }) in
    let whole : c.complete ≡ true = ground (arith, f, size, len) in
    let room : leb c.message_length (length c.body) ≡ true =
      le→leb _ _ (omega (arith, f.same_length, f.room)) in
    let prefix : take 4 c.body ≡ m.body =
      subst (λ (k : ℕ). take k c.body ≡ m.body) (f.at ∙ size) f.held in
    let value : u32_be c.body ≡ ok n =
      sym (u32_be-take c.body (omega (arith, f.room, len)))
      ∙ ap u32_be prefix
      ∙ resizing_value n fits in
    let one : c.type_id ≡ 1 = f.same_type ∙ kind in
    let idle : chunk_for 2 d ≡ c =
      chunk_for-found 2 d (rw chunks (find_chunk-save_chunk 2 c conn.chunks)) in
    (
      d,
      simp (step, whole, room, one, value, acked),
      w,
      input,
      kept,
      record {
        own_csid = rw idle (f.same_csid ∙ id);
        nothing_left = rw idle (omega (arith, f.at, f.left, size, len));
        no_delta = rw idle f.no_delta;
      },
    )

-- A message of NewSetChunkSize, for a size of at least 4, changes the chunk size on both sides of the
-- wire: Write succeeds and its sender notes the new size; a Read of the peer, whose
-- chunk size is at least 4 and which has no message on its way on chunk stream 2, takes the bytes
-- written, and goes on, where what follows is left, with the new size, as if it had begun there.
pub read-new_set_chunk_size :
    (n fuel : ℕ) (sender conn : RtmpConn) (rest : List ℕ)
    → 4 ≤ n
    → n < 2 ^ 32
    → CanWrite sender.rw
    → sender.rw.output ≡ []
    → CanReceive conn
    → 4 ≤ conn.remote_chunk_size
    → IsIdle 2 conn
    → conn.rw.input ≡ (write (new_set_chunk_size n) sender).1.rw.output ++ rest
    → ((write (new_set_chunk_size n) sender).0 ≡ ok tt)
      × ((write (new_set_chunk_size n) sender).1.chunk_size ≡ n)
      × (c : RtmpConn) × (read (suc fuel) conn ≡ read fuel c)
      × CanReceive c
      × (c.rw.input ≡ rest)
      × (c.remote_chunk_size ≡ n)
      × IsIdle 2 c
read-new_set_chunk_size n fuel sender conn rest few fits w empty v large idle input =
    let m = new_set_chunk_size n in
    let (h, id, len, kind, size, same) = resizing_fields n in
    let sent = write_resizing n sender few fits w in
    let wire = frames (m.message_length / n + 1) n 0 m m.body in
    let arrives : conn.rw.input
        ≡ basic_bytes 0 2 ++ (message_bytes m ++ (extended_bytes m.timestamp ++ (m.body ++ rest))) =
      input
      ∙ ap (λ (r : Result (Unit {0}) × RtmpConn). r.1.rw.output ++ rest) sent
      ∙ ap (λ (o : List ℕ). (o ++ wire) ++ rest) empty
      ∙ resizing_frames n rest few in
    let (c, e, f) =
      first_chunk m (chunk_for 2 conn) conn.remote_chunk_size m.body rest conn.rw h (omega arith)
        (idle.own_csid ∙ sym id) idle.nothing_left idle.no_delta (omega arith) v.readable in
    let step : read_round conn ≡ after_chunk (ok tt, c, feed rest conn.rw) 2 conn =
      round_on 0 2 _ conn (omega arith) (omega arith) (omega arith) v.readable arrives ∙ simp e in
    let (d, goes_on, w', left, new, idle') = resized_round n fuel c rest conn fits v f step in
    (
      ap (λ (r : Result (Unit {0}) × RtmpConn). r.0) sent,
      ap (λ (r : Result (Unit {0}) × RtmpConn). r.1.chunk_size) sent,
      d,
      goes_on,
      w',
      left,
      new,
      idle',
    )
