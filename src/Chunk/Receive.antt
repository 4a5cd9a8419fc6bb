-- ===== src/Chunk/Receive.antt =====
-- A message on its way: the state that readChunk of protocol/core/chunk_stream.go keeps between the
-- chunks of one message.
use srtmp.Prelude.{ℕ, ◌+◌, ◌^◌, ◌≤◌, ◌<◌, min, ◌≡◌, refl, ap, ◌∙◌, true, false}
use srtmp.Prelude.{List, [], ◌++◌, length, take, length-append, length-replicate}
use srtmp.Prelude.{ltb, leb, ◌==◌, if◌then◌else◌, ok, arith, none}
use srtmp.Prelude.{Bool-cases, inl, inr}
use srtmp.Wire.{ReadWriter}
use srtmp.Wire.Reads.{feed}
use srtmp.Chunk.Stream.{ChunkStream, alloc}
use srtmp.Chunk.Reader.{read_chunk, read_message_header, read_extended, begin_message}
use srtmp.Chunk.Header.{message_bytes, extended_bytes}
use srtmp.Chunk.Body.{stored, read_body_lem, length-overwrite, take-overwrite}
use srtmp.Chunk.Parse.{IsMessage, short_time, described, with_format, read_message_header_lem}
use srtmp.Chunk.Parse.{read_extended_lem}

-- `done` is what has arrived of the body of `m`.
pub record InFlight (m : ChunkStream) (done : List ℕ) (cs : ChunkStream) : Type 0 where
  pub same_csid : cs.csid ≡ m.csid
  pub same_format : cs.format ≡ 0
  pub short_timestamp : cs.timestamp ≡ short_time m.timestamp
  pub whole_pts : cs.pts ≡ m.timestamp
  pub same_length : cs.message_length ≡ m.message_length
  pub same_type : cs.type_id ≡ m.type_id
  pub same_stream : cs.stream_id ≡ m.stream_id
  pub no_delta : (cs.time_delta == 0xffffff) ≡ false
  pub at : cs.index ≡ length done
  pub left : cs.index + cs.remain ≡ m.message_length
  pub held : take cs.index cs.body ≡ done
  pub room : m.message_length ≤ length cs.body
  pub completed : cs.complete ≡ (cs.remain == 0)

alloc_room : (cs : ChunkStream) → cs.message_length ≤ length (alloc cs).body
unfolding alloc
alloc_room cs = elim (Bool-cases (ltb (length cs.body) cs.message_length)) [
  | inl short ↦ rw short (omega (arith, length-replicate {A = ℕ} cs.message_length 0))
  | inr long ↦ rw long (ground arith)
]

-- The state with which the body of the first chunk is read.
abbrev started : ChunkStream → ChunkStream → ChunkStream
started m cs =
    begin_message true (short_time m.timestamp == 0xffffff)
      (if leb 0xffffff m.timestamp then m.timestamp else 0) (described m (with_format 0 cs))

started-InFlight :
    (m cs : ChunkStream)
    → IsMessage m
    → 0 < m.message_length
    → cs.csid ≡ m.csid
    → (cs.time_delta == 0xffffff) ≡ false
    → InFlight m [] (started m cs)
unfolding begin_message
started-InFlight m cs h pos id d = record {
  same_csid = id;
  same_format = refl;
  short_timestamp = refl;
  whole_pts = ground arith;
  same_length = refl;
  same_type = refl;
  same_stream = refl;
  no_delta = d;
  at = refl;
  left = omega arith;
  held = refl;
  room = alloc_room (described m (with_format 0 cs));
  completed = ground arith;
}

-- A chunk's bytes join what has arrived.
stored-InFlight :
    (m cs : ChunkStream) (done bs : List ℕ)
    → InFlight m done cs
    → length bs ≤ cs.remain
    → InFlight m (done ++ bs) (stored bs cs)
stored-InFlight m cs done bs f h = record {
  same_csid = f.same_csid;
  same_format = f.same_format;
  short_timestamp = f.short_timestamp;
  whole_pts = f.whole_pts;
  same_length = f.same_length;
  same_type = f.same_type;
  same_stream = f.same_stream;
  no_delta = f.no_delta;
  at = omega (arith, f.at, length-append done bs);
  left = omega (arith, f.left);
  held =
      take-overwrite cs.body cs.index bs (omega (arith, f.left, f.room))
      ∙ ap (λ (l : List ℕ). l ++ bs) f.held;
  room = omega (arith, f.room, f.left, length-overwrite cs.body cs.index bs);
  completed = ground (arith, f.completed);
}

with_format-InFlight :
    (k : ℕ) (m cs : ChunkStream) (done : List ℕ)
    → InFlight m done cs
    → InFlight m done (with_format k cs)
with_format-InFlight k m cs done f = ground arith

-- The first chunk of a message, where the chunk stream has no other message on its way.
pub first_chunk :
    (m cs : ChunkStream) (n : ℕ) (bs rest : List ℕ) (r : ReadWriter)
    → IsMessage m
    → 0 < m.message_length
    → cs.csid ≡ m.csid
    → cs.remain ≡ 0
    → (cs.time_delta == 0xffffff) ≡ false
    → length bs ≡ min n m.message_length
    → r.read_error ≡ none
    → (c : ChunkStream) × (read_chunk
          (with_format 0 cs)
          n
          (feed (message_bytes m ++ (extended_bytes m.timestamp ++ (bs ++ rest))) r)
        ≡ (ok tt, c, feed rest r))
      × InFlight m bs c
unfolding read_chunk
first_chunk m cs n bs rest r h pos id z d len k =
    let f = started-InFlight m cs h pos id d in
    let rem : (started m cs).remain ≡ m.message_length = omega (arith, f.at, f.left) in
    let fits : (started m cs).index + (started m cs).remain ≤ length (started m cs).body =
      omega (arith, f.left, f.room) in
    let first : (cs.remain == 0) ≡ true = ground arith in
    let small : (started m cs).index + (started m cs).remain < 2 ^ 32 =
      omega (arith, f.left, h.length_fits) in
    (
      stored bs (started m cs),
      simp (
        first,
        read_message_header_lem m cs (extended_bytes m.timestamp ++ (bs ++ rest)) r h k,
        read_extended_lem m.timestamp (bs ++ rest) r h.time_fits k,
        read_body_lem n bs rest (started m cs) r (omega (arith, rem)) fits small k,
      ),
      stored-InFlight m (started m cs) [] bs f (omega (arith, rem)),
    )

-- The next chunk of a message on its way, in format 3.
pub next_chunk :
    (m cs : ChunkStream) (n : ℕ) (done bs rest : List ℕ) (r : ReadWriter)
    → m.message_length ≤ 0xffffff
    → InFlight m done cs
    → 0 < cs.remain
    → length bs ≡ min n cs.remain
    → r.read_error ≡ none
    → (c : ChunkStream) × (read_chunk (with_format 3 cs) n (feed (bs ++ rest) r)
        ≡ (ok tt, c, feed rest r))
      × InFlight m (done ++ bs) c
unfolding read_chunk read_message_header read_extended begin_message
next_chunk m cs n done bs rest r short f more len k =
    let g = with_format-InFlight 3 m cs done f in
    let later : (cs.remain == 0) ≡ false = ground arith in
    (
      stored bs (with_format 3 cs),
      simp (
        f.no_delta,
        later,
        read_body_lem n bs rest (with_format 3 cs) r len (omega (arith, f.left, f.room))
            (omega (arith, f.left)) k,
      ),
      stored-InFlight m (with_format 3 cs) done bs g (omega arith),
    )
