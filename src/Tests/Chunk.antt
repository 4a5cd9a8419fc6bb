-- ===== src/Tests/Chunk.antt =====
-- Runs of protocol/core/chunk_stream.go.
use srtmp.Wire.{write}
use srtmp.Chunk.Writer.{chunk_inc}
use srtmp.Chunk.Writer.{write_body}
use srtmp.Wire.{write_uint_le_loop}
use srtmp.Wire.{buf_write}
use srtmp.Wire.{write_uint_be_loop}
use srtmp.Chunk.Writer.{write_basic_header}
use srtmp.Wire.{write_uint_be}
use srtmp.Wire.{write_uint_le}
use srtmp.Wire.{write_status}
use srtmp.Chunk.Writer.{write_extended}
use srtmp.Chunk.Writer.{write_round}
use srtmp.Chunk.Writer.{write_chunk_loop}
use srtmp.Prelude.{◌≡◌, refl, ◌+◌, ◌/◌, [], ◌∷◌, ok, arith}
use srtmp.Wire.Writes.{put}
use srtmp.Chunk.Writer.{write_header, write_chunk, assign_csid}
use srtmp.Chunk.Frames.{frames, write_chunk_lem}
use srtmp.Tests.Data.{idle_rw, idle_rw-CanWrite, video_message}

write_chunk_lem_example :
    ((write_chunk video_message 2 idle_rw).0 ≡ ok tt)
    × ((write_chunk video_message 2 idle_rw).2
        ≡ put
            (frames
              ((assign_csid video_message).message_length / 2 + 1)
              2
              0
              (assign_csid video_message)
              (assign_csid video_message).body)
            idle_rw)
write_chunk_lem_example =
    write_chunk_lem video_message 2 idle_rw (omega arith) (omega arith) (omega arith) refl
      idle_rw-CanWrite

-- Two chunks: twelve bytes of header and two of the body, one byte of header and one of the body.
write_chunk-run :
    (write_chunk video_message 2 idle_rw).2.output
    ≡ 6 ∷ 0 ∷ 3 ∷ 232 ∷ 0 ∷ 0 ∷ 3 ∷ 9 ∷ 1 ∷ 0 ∷ 0 ∷ 0 ∷ 1 ∷ 2 ∷ 198 ∷ 3 ∷ []
unfolding write_chunk write_chunk_loop assign_csid write_round write_header write_extended
    write_status write_uint_le write_uint_be write_basic_header write_uint_be_loop buf_write
    write_uint_le_loop write_body chunk_inc write
write_chunk-run = refl
