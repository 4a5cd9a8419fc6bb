-- ===== src/Chunk/Parse.antt =====
-- The message header of format 0 that readChunk of protocol/core/chunk_stream.go takes apart.
use srtmp.Prelude.{ℕ, ◌/◌, ◌%◌, ◌^◌, ◌≤◌, ◌<◌, ◌≡◌, refl}
use srtmp.Prelude.{true, false, List, [], ◌++◌, length}
use srtmp.Prelude.{
  subst, append-nil, ltb, leb, ◌==◌, if◌then◌else◌, ok, arith, none, Bool-cases, inl, inr,
}
use srtmp.Bytes.{u24_be, u32_be, u32_le}
use srtmp.Bytes.RoundTrip.{u24_be_lem, u32_be_lem, u32_le_lem}
use srtmp.Wire.{ReadWriter}
use srtmp.Wire.Writes.{length-be_bytes, be_bytes, le_bytes}
use srtmp.Wire.Reads.{feed, read_lem}
use srtmp.Chunk.Stream.{ChunkStream}
use srtmp.Chunk.Reader.{read_message_header, read_extended, set_full}
use srtmp.Chunk.Header.{message_bytes, extended_bytes}

-- The value of the three timestamp bytes.
abbrev pub short_time : ℕ → ℕ
short_time ts = if ltb 0xffffff ts then 0xffffff else ts

-- The chunk stream with the format of the chunk that is read.
abbrev pub with_format : ℕ → ChunkStream → ChunkStream
with_format format cs = record cs { tmp_format = format }

-- The chunk stream after the header of message `m` was read in format 0.
abbrev pub described : ChunkStream → ChunkStream → ChunkStream
described m cs = record cs {
  format = 0;
  timestamp = short_time m.timestamp;
  message_length = m.message_length;
  type_id = m.type_id;
  stream_id = m.stream_id;
}

-- The fields of a message have the widths of the protocol.
pub record IsMessage (m : ChunkStream) : Type 0 where
  pub full : m.format ≡ 0
  pub time_fits : m.timestamp < 2 ^ 32
  pub length_fits : m.message_length ≤ 0xffffff
  pub type_fits : m.type_id < 256
  pub stream_fits : m.stream_id < 2 ^ 32

u24-be_bytes : (v : ℕ) (rest : List ℕ) → u24_be (be_bytes 3 v ++ rest) ≡ ok (v % 2 ^ 24)
unfolding be_bytes
u24-be_bytes v rest = ground (arith, u24_be_lem (v / 65536 % 256) (v / 256 % 256) (v % 256) rest)

pub u32-be_bytes : (v : ℕ) (rest : List ℕ) → u32_be (be_bytes 4 v ++ rest) ≡ ok (v % 2 ^ 32)
unfolding be_bytes
u32-be_bytes v rest =
    ground (arith, u32_be_lem (v / 2 ^ 24 % 256) (v / 65536 % 256) (v / 256 % 256) (v % 256) rest)

u32-le_bytes : (v : ℕ) (rest : List ℕ) → u32_le (le_bytes 4 v ++ rest) ≡ ok (v % 2 ^ 32)
unfolding le_bytes
u32-le_bytes v rest = ground (
  arith,
  u32_le_lem (v % 256) (v / 256 % 256) (v / 256 / 256 % 256) (v / 256 / 256 / 256 % 256) rest,
)

full_bytes : (ts len ty sid : ℕ) → List ℕ
full_bytes ts len ty sid = be_bytes 3 ts ++ ((be_bytes 3 len ++ be_bytes 1 ty) ++ le_bytes 4 sid)

set_full_lem :
    (ts len ty sid : ℕ) (cs : ChunkStream)
    → ts < 2 ^ 24
    → len < 2 ^ 24
    → ty < 256
    → sid < 2 ^ 32
    → set_full cs (full_bytes ts len ty sid)
      ≡ ok (record cs {
        format = cs.tmp_format;
        timestamp = ts;
        message_length = len;
        type_id = ty;
        stream_id = sid;
      })
unfolding set_full full_bytes be_bytes le_bytes
set_full_lem ts len ty sid cs h₁ h₂ h₃ h₄ =
    let tail = (be_bytes 3 len ++ be_bytes 1 ty) ++ le_bytes 4 sid in
    let kind = be_bytes 1 ty ++ le_bytes 4 sid in
    ground (arith, u24-be_bytes ts tail, u24-be_bytes len kind, u32-le_bytes sid [])

message_bytes-full :
    (m : ChunkStream)
    → m.format ≡ 0
    → message_bytes m ≡ full_bytes (short_time m.timestamp) m.message_length m.type_id m.stream_id
unfolding message_bytes full_bytes
message_bytes-full m h = simp h

length-full_bytes : (ts len ty sid : ℕ) → length (full_bytes ts len ty sid) ≡ 11
unfolding full_bytes be_bytes le_bytes
length-full_bytes ts len ty sid = refl

-- The header of format 0 sets the fields of the message, and its timestamp bytes say whether an
-- extended timestamp follows.
pub read_message_header_lem :
    (m cs : ChunkStream) (rest : List ℕ) (r : ReadWriter)
    → IsMessage m
    → r.read_error ≡ none
    → read_message_header (with_format 0 cs) (feed (message_bytes m ++ rest) r)
      ≡ (ok (short_time m.timestamp == 0xffffff), described m (with_format 0 cs), feed rest r)
unfolding read_message_header
read_message_header_lem m cs rest r h k =
    let ts = short_time m.timestamp in
    let hdr = full_bytes ts m.message_length m.type_id m.stream_id in
    let small : ts < 2 ^ 24 = ground arith in
    let set =
      set_full_lem ts m.message_length m.type_id m.stream_id (with_format 0 cs) small (omega arith)
        h.type_fits h.stream_fits in
    simp
      (
        message_bytes-full m h.full,
        read_lem 11 hdr rest r (length-full_bytes ts m.message_length m.type_id m.stream_id) k,
      )
      (rw set)

-- The extended timestamp is read where it was written.
pub read_extended_lem :
    (ts : ℕ) (rest : List ℕ) (r : ReadWriter)
    → ts < 2 ^ 32
    → r.read_error ≡ none
    → read_extended (short_time ts == 0xffffff) (feed (extended_bytes ts ++ rest) r)
      ≡ (ok (if leb 0xffffff ts then ts else 0), feed rest r)
unfolding read_extended extended_bytes
read_extended_lem ts rest r h k = elim (Bool-cases (leb 0xffffff ts)) [
  | inl big ↦
      let marked : (short_time ts == 0xffffff) ≡ true = ground arith in
      let four : u32_be (be_bytes 4 ts) ≡ ok (ts % 2 ^ 32) =
        subst (λ (l : List ℕ). u32_be l ≡ ok (ts % 2 ^ 32)) (append-nil (be_bytes 4 ts))
          (u32-be_bytes ts []) in
      let value : ts % 2 ^ 32 ≡ ts = omega arith in
      simp (big, marked, read_lem 4 (be_bytes 4 ts) rest r (length-be_bytes 4 ts) k)
        (simp (four, value))
  | inr small ↦
      let unmarked : (short_time ts == 0xffffff) ≡ false = ground arith in simp (small, unmarked)
]
