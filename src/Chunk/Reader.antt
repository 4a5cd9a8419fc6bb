-- ===== src/Chunk/Reader.antt =====
-- readChunk of protocol/core/chunk_stream.go.
use srtmp.Prelude.{ℕ, ◌+◌, ◌-◌, Bool, true, false, ◌&&◌, List, ◌++◌, length, take, drop, get_elem?}
use srtmp.Prelude.{
  Option, none, some, ltb, leb, ◌==◌, if◌then◌else◌, add32, Result, ok, err, panic, bind,
}
use srtmp.Prelude.{failure}
use srtmp.Wire.{ReadWriter, Io, read, read_part}
use srtmp.Bytes.{u24_be, u32_be, u32_le}
use srtmp.Chunk.Stream.{ChunkStream, alloc}

-- The stages return the chunk stream and the connection after an error too.
abbrev pub Step : Type 0 → Type 0
Step A = Result A × ChunkStream × ReadWriter

abbrev pub or_panic : Option ℕ → Result ℕ
or_panic (some b) = ok b
or_panic none = panic

-- messageHeader[6]
abbrev pub byte_at : ℕ → List ℕ → Result ℕ
byte_at i bs = or_panic (get_elem? bs i)

-- The fields that the 11, 7 and 3 bytes of a message header set.
unfoldable pub set_full : ChunkStream → List ℕ → Result ChunkStream
set_full cs hdr = bind (u24_be hdr) λ ts. bind (u24_be (drop 3 hdr)) λ len.
    bind (byte_at 6 hdr) λ type_id. bind (u32_le (drop 7 hdr)) λ stream_id. ok (record cs {
      format = cs.tmp_format;
      timestamp = ts;
      message_length = len;
      type_id = type_id;
      stream_id = stream_id;
    })

unfoldable pub set_same_stream : ChunkStream → List ℕ → Result ChunkStream
set_same_stream cs hdr = bind (u24_be hdr) λ delta. bind (u24_be (drop 3 hdr)) λ len.
    bind (byte_at 6 hdr) λ type_id. ok (record cs {
      format = cs.tmp_format;
      time_delta = delta;
      message_length = len;
      type_id = type_id;
    })

unfoldable pub set_delta : ChunkStream → List ℕ → Result ChunkStream
set_delta cs hdr =
    bind (u24_be hdr) λ delta. ok (record cs { format = cs.tmp_format; time_delta = delta })

-- The stage's end: after a failed read the chunk stream is as it was.
abbrev pub set_result :
    Result ChunkStream → ChunkStream → ReadWriter → (ChunkStream → ℕ) → Step Bool
set_result (ok cs') cs s time = (ok (time cs' == 0xffffff), cs', s)
set_result (err e) cs s time = (err e, cs, s)
set_result panic cs s time = (panic, cs, s)

abbrev pub set_from :
    Result (List ℕ) × ReadWriter
    → ChunkStream
    → (List ℕ → Result ChunkStream)
    → (ChunkStream → ℕ)
    → Step Bool
set_from (ok hdr, s) cs f time = set_result (f hdr) cs s time
set_from (err e, s) cs f time = (err failure, cs, s)
set_from (panic, s) cs f time = (panic, cs, s)

-- The switch on tmpFromat. The result says whether an extended timestamp follows.
unfoldable pub read_message_header : ChunkStream → ReadWriter → Step Bool
read_message_header cs s =
    if cs.tmp_format == 0
    then set_from (read 11 s) cs (set_full cs) (λ c. c.timestamp)
    else if cs.tmp_format == 1
    then set_from (read 7 s) cs (set_same_stream cs) (λ c. c.time_delta)
    else if cs.tmp_format == 2
    then set_from (read 3 s) cs (set_delta cs) (λ c. c.time_delta)
    else if cs.tmp_format == 3
    then (ok (cs.time_delta == 0xffffff), cs, s)
    else (err failure, cs, s)

abbrev pub read_number : Result (List ℕ) × ReadWriter → Result ℕ × ReadWriter
read_number (ok bs, s) = (u32_be bs, s)
read_number (err e, s) = (err failure, s)
read_number (panic, s) = (panic, s)

-- The extended timestamp, if there is one; otherwise the number is not used.
unfoldable pub read_extended : Bool → Io ℕ
read_extended true s = read_number (read 4 s)
read_extended false s = (ok 0, s)

-- What is done before the first chunk of a message.
unfoldable pub begin_message : Bool → Bool → ℕ → ChunkStream → ChunkStream
unfolding alloc
begin_message false extended ext cs = cs
begin_message true extended ext cs =
    let c = alloc cs in
    if cs.tmp_format == 0
    then record c { pts = if extended then ext else cs.timestamp }
    else record c { pts = add32 cs.pts (if extended then ext else cs.time_delta) }

-- copy into body[index:]
abbrev pub overwrite : List ℕ → ℕ → List ℕ → List ℕ
overwrite body i bs = take i body ++ (bs ++ drop (i + length bs) body)

abbrev pub store_body : Result (List ℕ) × ReadWriter → List ℕ → ChunkStream → ℕ → Step (Unit {0})
store_body (ok bs, s) part cs size = (
  ok tt,
  record cs {
    body = overwrite cs.body cs.index bs;
    index = add32 cs.index size;
    remain = cs.remain - size;
    complete = if cs.remain - size == 0 then true else cs.complete;
  },
  s,
)
store_body (err e, s) part cs size =
    (err failure, record cs { body = overwrite cs.body cs.index part }, s)
store_body (panic, s) part cs size = (panic, cs, s)

-- The chunk's part of the body is read into the buffer. `size` is at most `remain`.
unfoldable pub read_body : ChunkStream → ℕ → ReadWriter → Step (Unit {0})
read_body cs chunk_size s =
    let size = if ltb chunk_size cs.remain then chunk_size else cs.remain in
    let end = add32 cs.index size in
    if leb cs.index end && leb end (length cs.body)
    then store_body (read size s) (read_part size s) cs size
    else (panic, cs, s)

abbrev pub read_rest : Result ℕ × ReadWriter → Bool → Bool → ChunkStream → ℕ → Step (Unit {0})
read_rest (ok ext, s) rmark extended cs chunk_size =
    read_body (begin_message rmark extended ext cs) chunk_size s
read_rest (err e, s) rmark extended cs chunk_size = (err e, cs, s)
read_rest (panic, s) rmark extended cs chunk_size = (panic, cs, s)

abbrev pub after_header : Step Bool → Bool → ℕ → Step (Unit {0})
after_header (ok extended, cs, s) rmark chunk_size =
    read_rest (read_extended extended s) rmark extended cs chunk_size
after_header (err e, cs, s) rmark chunk_size = (err e, cs, s)
after_header (panic, cs, s) rmark chunk_size = (panic, cs, s)

unfoldable pub read_chunk : ChunkStream → ℕ → ReadWriter → Step (Unit {0})
read_chunk cs chunk_size s = after_header (read_message_header cs s) (cs.remain == 0) chunk_size
