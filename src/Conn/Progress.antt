-- ===== src/Conn/Progress.antt =====
-- Read of protocol/core/rtmp_conn.go ends: every round of its loop reads a byte or returns.
use srtmp.Prelude.{ℕ, zero, suc, ◌≤◌, ◌<◌, ◌≡◌, refl, Bool, true, false, length, Option, none, some}
use srtmp.Prelude.{
  Result, ok, err, panic, arith, List, [], ◌∷◌, bit_and, shr, leb, Bool-cases, inl, inr,
}
use srtmp.Prelude.{add32, if◌then◌else◌, ◌∙◌, ap}
use srtmp.Bytes.{u32_be}
use srtmp.Wire.{ReadWriter, read_byte, read_uint_le, bind_io}
use srtmp.Wire.Reads.{feed}
use srtmp.Chunk.Stream.{ChunkStream}
use srtmp.Chunk.Writer.{write_chunk}
use srtmp.Chunk.Reader.{Step, read_chunk}
use srtmp.Chunk.Output.{write_chunk-input}
use srtmp.Chunk.Input.{read_chunk-input, read_uint_le-input}
use srtmp.Conn.State.{RtmpConn}
use srtmp.Conn.Control.{handle_control_msg, set_control, ack, acked, count_received, new_ack}
use srtmp.Conn.Reader.{Round, failed, crashed, again, delivered, read_csid, chunk_for, after_ack}
use srtmp.Conn.Reader.{after_control, finish_chunk, after_chunk, after_csid, after_byte, read_round}
use srtmp.Conn.Reader.{next_round, read, message_of}

-- If the round goes on or delivers a message, less than `k` bytes of the input are left.
abbrev Advances : ℕ → Round → Type 0
Advances k (again conn) = length conn.rw.input < k
Advances k (failed e conn) = Unit
Advances k (crashed conn) = Unit
Advances k (delivered m conn) = length conn.rw.input < k

set_control-rw :
    (r : Result ℕ) (conn : RtmpConn) (f : ℕ → RtmpConn)
    → ((n : ℕ) → (f n).rw ≡ conn.rw)
    → (set_control r conn f).1.rw ≡ conn.rw
set_control-rw (ok n) conn f h = h n
set_control-rw (err e) conn f h = refl
set_control-rw panic conn f h = refl

handle_control_msg-rw :
    (c : ChunkStream) (conn : RtmpConn) → (handle_control_msg c conn).1.rw ≡ conn.rw
unfolding handle_control_msg
handle_control_msg-rw c conn = ground (
  arith,
  set_control-rw (u32_be c.body) conn (λ n. record conn { remote_chunk_size = n }) (λ n. refl),
  set_control-rw (u32_be c.body) conn (λ n. record conn { remote_window_ack_size = n }) (λ n. refl),
)

acked-input :
    (r : Result (Unit {0}) × ChunkStream × ReadWriter) (conn : RtmpConn) → (acked r conn).1.rw ≡ r.2
acked-input (ok u, cs, s) conn = refl
acked-input (err e, cs, s) conn = refl
acked-input (panic, cs, s) conn = refl

ack-input : (size : ℕ) (conn : RtmpConn) → (ack size conn).1.rw.input ≡ conn.rw.input
unfolding ack count_received
ack-input size conn =
    let c = count_received size conn in
    elim (Bool-cases (leb c.remote_window_ack_size c.ack_received)) [
      | inl due ↦ rw due (
          ap (λ (s : ReadWriter). s.input)
            (acked-input (write_chunk (new_ack c.ack_received) c.chunk_size c.rw) c)
          ∙ write_chunk-input (new_ack c.ack_received) c.chunk_size c.rw)
      | inr idle ↦ rw idle refl
    ]

after_ack-Advances :
    (k : ℕ) (r : Result (Unit {0}) × RtmpConn) (handled : Bool) (c : ChunkStream)
    → length r.1.rw.input < k
    → Advances k (after_ack r handled c)
after_ack-Advances k (ok u, conn) true c h = h
after_ack-Advances k (ok u, conn) false c h = h
after_ack-Advances k (err e, conn) handled c h = tt
after_ack-Advances k (panic, conn) handled c h = tt

after_control-Advances :
    (k : ℕ) (r : Result Bool × RtmpConn) (size : ℕ) (c : ChunkStream)
    → length r.1.rw.input < k
    → Advances k (after_control r size c)
after_control-Advances k (ok handled, conn) size c h =
    after_ack-Advances k (ack size conn) handled c (rw (ack-input size conn) h)
after_control-Advances k (err e, conn) size c h = tt
after_control-Advances k (panic, conn) size c h = tt

finished-Advances :
    (k : ℕ) (done fits : Bool) (r : Round) (conn : RtmpConn)
    → Advances k r
    → length conn.rw.input < k
    → Advances k (if done then (if fits then r else crashed conn) else again conn)
finished-Advances k false fits r conn h g = g
finished-Advances k true false r conn h g = tt
finished-Advances k true true r conn h g = h

finish_chunk-Advances :
    (k : ℕ) (cs : ChunkStream) (conn : RtmpConn)
    → length conn.rw.input < k
    → Advances k (finish_chunk cs conn)
unfolding finish_chunk
finish_chunk-Advances k cs conn h =
    finished-Advances k cs.complete (leb cs.message_length (length cs.body)) _ conn
      (after_control-Advances k (handle_control_msg cs conn) cs.message_length (message_of cs)
        (rw (handle_control_msg-rw cs conn) h))
      h

after_chunk-Advances :
    (k : ℕ) (r : Step (Unit {0})) (csid : ℕ) (conn : RtmpConn)
    → length r.2.input < k
    → Advances k (after_chunk r csid conn)
after_chunk-Advances k (ok u, cs, s) csid conn h = finish_chunk-Advances k cs _ h
after_chunk-Advances k (err e, cs, s) csid conn h = tt
after_chunk-Advances k (panic, cs, s) csid conn h = tt

after_csid-Advances :
    (k : ℕ) (r : Result ℕ × ReadWriter) (format : ℕ) (conn : RtmpConn)
    → length r.1.input < k
    → Advances k (after_csid r format conn)
after_csid-Advances k (ok csid, s) format conn h =
    let cs = record (chunk_for csid conn) { tmp_format = format } in
    after_chunk-Advances k (read_chunk cs conn.remote_chunk_size s) csid conn
      (omega (arith, read_chunk-input cs conn.remote_chunk_size s))
after_csid-Advances k (err e, s) format conn h = tt
after_csid-Advances k (panic, s) format conn h = tt

read_byte-input :
    (input : List ℕ) (s : ReadWriter) → length (read_byte (feed input s)).1.input ≤ length input
unfolding read_byte
read_byte-input [] s = omega arith
read_byte-input (b ∷ bs) s = omega arith

added-input :
    (r : Result ℕ × ReadWriter) (k : ℕ)
    → length r.1.input ≤ k
    → length (bind_io r (λ n t. (ok (add32 n 64), t))).1.input ≤ k
added-input (ok n, s) k h = h
added-input (err e, s) k h = h
added-input (panic, s) k h = h

read_csid-input : (six : ℕ) (s : ReadWriter) → length (read_csid six s).1.input ≤ length s.input
unfolding read_csid
read_csid-input six s = ground (
  arith,
  added-input (read_byte s) (length s.input) (read_byte-input s.input s),
  added-input (read_uint_le 2 s) (length s.input) (read_uint_le-input 2 s),
)

after_byte-Advances :
    (input : List ℕ) (s : ReadWriter) (conn : RtmpConn)
    → Advances (length input) (after_byte (read_byte (feed input s)) conn)
unfolding read_byte
after_byte-Advances [] s conn = tt
after_byte-Advances (b ∷ bs) s conn =
    after_csid-Advances (suc (length bs)) (read_csid (bit_and b 0x3f) (feed bs s)) (shr b 6) conn
      (omega (arith, read_csid-input (bit_and b 0x3f) (feed bs s)))

read_round-Advances : (conn : RtmpConn) → Advances (length conn.rw.input) (read_round conn)
unfolding read_round
read_round-Advances conn = after_byte-Advances conn.rw.input conn.rw conn

-- Read returned, and a message took at least one of `k` bytes.
abbrev pub Consumes : ℕ → Option (Result ChunkStream × RtmpConn) → Type 0
Consumes k none = ⊥
Consumes k (some (ok m, conn)) = length conn.rw.input < k
Consumes k (some (err e, conn)) = Unit
Consumes k (some (panic, conn)) = Unit

Consumes-more :
    (j k : ℕ) (r : Option (Result ChunkStream × RtmpConn)) → j ≤ k → Consumes j r → Consumes k r
Consumes-more j k none h c = absurd c
Consumes-more j k (some (ok m, conn)) h c = omega arith
Consumes-more j k (some (err e, conn)) h c = tt
Consumes-more j k (some (panic, conn)) h c = tt

next_round-Consumes :
    (r : Round) (k : ℕ) (f : RtmpConn → Option (Result ChunkStream × RtmpConn))
    → Advances k r
    → ((conn : RtmpConn) → length conn.rw.input < k → Consumes k (f conn))
    → Consumes k (next_round r f)
next_round-Consumes (failed e conn) k f h g = tt
next_round-Consumes (crashed conn) k f h g = tt
next_round-Consumes (again conn) k f h g = g conn h
next_round-Consumes (delivered m conn) k f h g = h

pub read-Consumes :
    (fuel : ℕ) (conn : RtmpConn)
    → length conn.rw.input < fuel
    → Consumes (length conn.rw.input) (read fuel conn)
unfolding read
read-Consumes zero conn h = absurd (omega arith)
read-Consumes (suc fuel) conn h =
    next_round-Consumes (read_round conn) (length conn.rw.input) (read fuel)
      (read_round-Advances conn)
      (λ c g.
        Consumes-more (length c.rw.input) (length conn.rw.input) (read fuel c) (omega arith)
          (read-Consumes fuel c (omega arith)))

returned :
    (k : ℕ) (r : Option (Result ChunkStream × RtmpConn))
    → Consumes k r
    → (x : Result ChunkStream × RtmpConn) × (r ≡ some x)
returned k none c = absurd c
returned k (some x) c = (x, refl)

-- On every connection and input, Read returns a result, a panic included: more fuel than there are
-- bytes in the input is enough.
pub read-total :
    (fuel : ℕ) (conn : RtmpConn)
    → length conn.rw.input < fuel
    → (x : Result ChunkStream × RtmpConn) × (read fuel conn ≡ some x)
read-total fuel conn h =
    returned (length conn.rw.input) (read fuel conn) (read-Consumes fuel conn h)
