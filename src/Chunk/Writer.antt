-- ===== src/Chunk/Writer.antt =====
-- writeHeader and writeChunk of protocol/core/chunk_stream.go.
use srtmp.Prelude.{ℕ, zero, suc, ◌+◌, ◌*◌, ◌/◌, bit_or, ◌&&◌, ◌||◌}
use srtmp.Prelude.{length, take, drop, ltb, leb, ◌==◌, if◌then◌else◌}
use srtmp.Prelude.{shl32, add32, sub32, uint32, Result, ok, err, panic, failure}
use srtmp.Wire.{ReadWriter, Io, then_io, write_uint_be, write_uint_le, write, write_status}
use srtmp.Chunk.Stream.{ChunkStream}

-- The switch on the CSID. The errors of single writes are dropped: the writer keeps the first one.
unfoldable pub write_basic_header : ChunkStream → ReadWriter → ReadWriter
write_basic_header cs s =
    let h = shl32 cs.format 6 in
    let rest = sub32 cs.csid 64 in
    if ltb cs.csid 64
    then (write_uint_be (bit_or h cs.csid) 1 s).1
    else if ltb rest 256
    then (write_uint_le rest 1 (write_uint_be (bit_or h 0) 1 s).1).1
    else if ltb rest 65536
    then (write_uint_le rest 2 (write_uint_be (bit_or h 1) 1 s).1).1
    else s

-- What stands behind the label END.
unfoldable pub write_extended : ℕ → ChunkStream → Io (Unit {0})
write_extended ts cs s =
    let s' = if leb 0xffffff ts then (write_uint_be cs.timestamp 4 s).1 else s in
    (write_status s', s')

unfoldable pub write_header : ChunkStream → Io (Unit {0})
write_header cs s =
    let s₁ = write_basic_header cs s in
    let ts = if ltb 0xffffff cs.timestamp then 0xffffff else cs.timestamp in
    let s₂ = (write_uint_be ts 3 s₁).1 in
    let s₃ = (write_uint_be cs.type_id 1 (write_uint_be cs.message_length 3 s₂).1).1 in
    let s₄ = (write_uint_le cs.stream_id 4 s₃).1 in
    if cs.format == 3
    then write_extended cs.timestamp cs s₁
    else if cs.format == 2
    then write_extended ts cs s₂
    else if ltb 0xffffff cs.message_length
    then (err failure, s₂)
    else if cs.format == 1
    then write_extended ts cs s₃
    else write_extended ts cs s₄

-- The CSID that a message of its type is sent on.
unfoldable pub assign_csid : ChunkStream → ChunkStream
assign_csid cs =
    if cs.type_id == 8
    then record cs { csid = 4 }
    else if cs.type_id == 9 || (cs.type_id == 18 || cs.type_id == 0xf)
    then record cs { csid = 6 }
    else cs

-- The number of bytes that the chunk from `start` on carries.
unfoldable pub chunk_inc : ℕ → ℕ → ChunkStream → ℕ
chunk_inc chunk_size start cs =
    let left = sub32 (uint32 (length cs.body)) start in
    if leb left chunk_size then left else chunk_size

unfoldable pub write_body : ℕ → ℕ → ChunkStream → Io (Unit {0})
write_body start inc cs s =
    let end = add32 start inc in
    if leb start end && leb end (length cs.body)
    then write (take inc (drop start cs.body)) s
    else (panic, s)

-- One round of the loop: a header, and the chunk's part of the body.
unfoldable pub write_round : ℕ → ℕ → ChunkStream → Io (Unit {0})
write_round chunk_size i cs s =
    let start = uint32 (i * chunk_size) in
    then_io (write_header cs s) (write_body start (chunk_inc chunk_size start cs) cs)

abbrev pub after_round :
    Result (Unit {0}) × ReadWriter
    → ChunkStream
    → (ReadWriter → Result (Unit {0}) × ChunkStream × ReadWriter)
    → Result (Unit {0}) × ChunkStream × ReadWriter
after_round (ok u, s) cs k = k s
after_round (err e, s) cs k = (err e, cs, s)
after_round (panic, s) cs k = (panic, cs, s)

abbrev pub set_format : ℕ → ChunkStream → ChunkStream
set_format i cs = record cs { format = if i == 0 then 0 else 3 }

-- The loop with the number of rounds that are left, the counter and totalLen.
unfoldable pub write_chunk_loop :
    ℕ → ℕ → ℕ → ℕ → ChunkStream → ReadWriter → Result (Unit {0}) × ChunkStream × ReadWriter
write_chunk_loop zero chunk_size i total cs s = (ok tt, cs, s)
write_chunk_loop (suc rounds) chunk_size i total cs s =
    let cs' = set_format i cs in
    let inc = chunk_inc chunk_size (uint32 (i * chunk_size)) cs' in
    let rest =
      after_round (write_round chunk_size i cs' s) cs'
        (write_chunk_loop rounds chunk_size (i + 1) (add32 total inc) cs') in
    if total == cs.message_length then (ok tt, cs, s) else rest

-- Go panics on the division by a chunk size of 0.
unfoldable pub write_chunk :
    ChunkStream → ℕ → ReadWriter → Result (Unit {0}) × ChunkStream × ReadWriter
write_chunk cs chunk_size s =
    let cs' = assign_csid cs in
    if chunk_size == 0
    then (panic, cs', s)
    else write_chunk_loop (cs'.message_length / chunk_size + 1) chunk_size 0 0 cs' s
