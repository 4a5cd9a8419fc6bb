-- ===== src/Conn/Delivery.antt =====
-- What Read of protocol/core/rtmp_conn.go returns for the chunks of one message.
use srtmp.Prelude.{ℕ, suc, ◌+◌, ◌/◌, ◌<◌, ◌≡◌, refl}
use srtmp.Prelude.{true, false, List, length, take}
use srtmp.Prelude.{none, some, leb, ◌==◌, ok, arith, le→leb, subst}
use srtmp.Prelude.{Bool-cases, inl, inr}
use srtmp.Wire.{ReadWriter}
use srtmp.Wire.Writes.{CanWrite, put, put-CanWrite}
use srtmp.Wire.Reads.{feed}
use srtmp.Chunk.Stream.{ChunkStream, new_chunk_stream}
use srtmp.Chunk.Writer.{write_chunk, assign_csid}
use srtmp.Chunk.Frames.{frames, write_chunk_lem}
use srtmp.Chunk.Parse.{short_time}
use srtmp.Chunk.Receive.{InFlight}
use srtmp.Conn.State.{RtmpConn, find_chunk, save_chunk}
use srtmp.Conn.Control.{ack, count_received, new_ack, acked, handle_control_msg}
use srtmp.Conn.Basic.{find_chunk-save_chunk}
use srtmp.Conn.Reader.{chunk_for, read, read_round, after_chunk, finish_chunk, message_of}

-- A connection that has met no error and may send acknowledgements.
pub record CanReceive (conn : RtmpConn) : Type 0 where
  pub readable : conn.rw.read_error ≡ none
  pub writable : CanWrite conn.rw
  pub sends : 0 < conn.chunk_size

-- The message as Read hands it to its caller.
abbrev pub delivered_message : ChunkStream → ChunkStream
delivered_message m = record (new_chunk_stream m.csid) {
  timestamp = short_time m.timestamp;
  message_length = m.message_length;
  type_id = m.type_id;
  stream_id = m.stream_id;
  body = m.body;
}

pub write_chunk-new_ack :
    (size n : ℕ) (s : ReadWriter)
    → 0 < n
    → CanWrite s
    → (out : List ℕ) × (cs : ChunkStream) × (write_chunk (new_ack size) n s
        ≡ (ok tt, cs, put out s))
unfolding new_ack
write_chunk-new_ack size n s pos c =
    let w = write_chunk_lem (new_ack size) n s pos (omega arith) (omega arith) refl c in
    (
      frames ((assign_csid (new_ack size)).message_length / n + 1) n 0 (assign_csid (new_ack size))
          (assign_csid (new_ack size)).body,
      (write_chunk (new_ack size) n s).1,
      λ i. (w.0 i, (write_chunk (new_ack size) n s).1, w.1 i),
    )

-- An acknowledgement, sent or not, changes nothing that the reading half uses.
pub ack_lem :
    (size : ℕ) (conn : RtmpConn)
    → CanReceive conn
    → (c : RtmpConn) × (ack size conn ≡ (ok tt, c))
      × CanReceive c
      × (c.rw.input ≡ conn.rw.input)
      × (c.chunks ≡ conn.chunks)
      × (c.remote_chunk_size ≡ conn.remote_chunk_size)
unfolding ack
ack_lem size conn v =
    let c = count_received size conn in
    elim (Bool-cases (leb c.remote_window_ack_size c.ack_received)) [
      | inl due ↦
          let (out, cs, e) =
            write_chunk-new_ack c.ack_received c.chunk_size c.rw v.sends v.writable in
          (
            record c { rw = put out c.rw; ack_received = 0 },
            simp (due, e),
            record {
              readable = v.readable;
              writable = put-CanWrite out c.rw v.writable;
              sends = v.sends;
            },
            refl,
            refl,
            refl,
          )
      | inr idle ↦ (
        c,
        simp idle,
        record { readable = v.readable; writable = v.writable; sends = v.sends },
        refl,
        refl,
        refl,
      )
    ]

-- The state after a chunk was read into `c`.
abbrev pub chunk_saved : ℕ → ChunkStream → ReadWriter → RtmpConn → RtmpConn
chunk_saved csid c s conn = record conn { rw = s; chunks = save_chunk csid c conn.chunks }

pub chunk_saved-CanReceive :
    (csid : ℕ) (c : ChunkStream) (rest : List ℕ) (conn : RtmpConn)
    → CanReceive conn
    → CanReceive (chunk_saved csid c (feed rest conn.rw) conn)
chunk_saved-CanReceive csid c rest conn v = record {
  readable = v.readable;
  writable = record {
    healthy = v.writable.healthy;
    unlimited = v.writable.unlimited;
    no_error = v.writable.no_error;
  };
  sends = v.sends;
}

-- No message of the chunk stream is on its way, and no extended delta is announced.
pub record IsIdle (csid : ℕ) (conn : RtmpConn) : Type 0 where
  pub own_csid : (chunk_for csid conn).csid ≡ csid
  pub nothing_left : (chunk_for csid conn).remain ≡ 0
  pub no_delta : ((chunk_for csid conn).time_delta == 0xffffff) ≡ false

pub chunk_for-found :
    (csid : ℕ) (conn : RtmpConn) {c : ChunkStream}
    → find_chunk csid conn.chunks ≡ some c
    → chunk_for csid conn ≡ c
unfolding chunk_for
chunk_for-found csid conn e = ground arith

-- Read returns `m`, leaves `rest`, and its chunk stream waits for a new message.
abbrev pub Delivers : ChunkStream → List ℕ → ℕ → RtmpConn → Type 0
Delivers m rest fuel conn =
    (c : RtmpConn) × (read fuel conn ≡ some (ok (delivered_message m), c))
    × CanReceive c
    × (c.rw.input ≡ rest)
    × (c.remote_chunk_size ≡ conn.remote_chunk_size)
    × IsIdle m.csid c

message_of-InFlight :
    (m c : ChunkStream)
    → InFlight m m.body c
    → length m.body ≡ m.message_length
    → message_of c ≡ delivered_message m
unfolding message_of new_chunk_stream
message_of-InFlight m c f e =
    let whole : take c.message_length c.body ≡ m.body =
      subst (λ (k : ℕ). take k c.body ≡ m.body) (omega (arith, f.at, f.same_length)) f.held in
    ground (arith, whole, f)

-- Read hands messages of the application to its caller.
own_message :
    (c : ChunkStream) (conn : RtmpConn)
    → 6 < c.type_id
    → handle_control_msg c conn ≡ (ok false, conn)
unfolding handle_control_msg
own_message c conn h = ground arith

-- The last chunk of a message of the application delivers it.
pub last_chunk :
    (fuel : ℕ) (m c : ChunkStream) (rest : List ℕ) (conn : RtmpConn)
    → CanReceive conn
    → InFlight m m.body c
    → length m.body ≡ m.message_length
    → 6 < m.type_id
    → read_round conn ≡ after_chunk (ok tt, c, feed rest conn.rw) m.csid conn
    → Delivers m rest (suc fuel) conn
unfolding read finish_chunk
last_chunk fuel m c rest conn v f e kind step =
    let saved = chunk_saved m.csid c (feed rest conn.rw) conn in
    let (c', acked, v', input, chunks, size) =
      ack_lem c.message_length saved (chunk_saved-CanReceive m.csid c rest conn v) in
    let whole : c.complete ≡ true = ground (arith, f) in
    let fits : leb c.message_length (length c.body) ≡ true =
      le→leb _ _ (omega (arith, f.same_length, f.room)) in
    let idle : chunk_for m.csid c' ≡ c =
      chunk_for-found m.csid c' (rw chunks (find_chunk-save_chunk m.csid c conn.chunks)) in
    (
      c',
      simp (
        step,
        whole,
        fits,
        own_message c saved (omega (arith, f.same_type)),
        acked,
        message_of-InFlight m c f e,
      ),
      v',
      input,
      size,
      record {
        own_csid = rw idle f.same_csid;
        nothing_left = rw idle (omega (arith, f.at, f.left));
        no_delta = rw idle f.no_delta;
      },
    )

-- Any other chunk leaves Read in its loop.
pub inner_chunk :
    (fuel : ℕ) (m c : ChunkStream) (done rest : List ℕ) (conn : RtmpConn)
    → InFlight m done c
    → 0 < c.remain
    → read_round conn ≡ after_chunk (ok tt, c, feed rest conn.rw) m.csid conn
    → read (suc fuel) conn ≡ read fuel (chunk_saved m.csid c (feed rest conn.rw) conn)
unfolding read finish_chunk
inner_chunk fuel m c done rest conn f more step =
    let unfinished : c.complete ≡ false = ground (arith, f) in simp (step, unfinished)
