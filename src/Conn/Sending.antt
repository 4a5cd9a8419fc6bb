-- ===== src/Conn/Sending.antt =====
-- Sending on a connection of protocol/core/rtmp_conn.go leaves what there is to read.
use srtmp.Prelude.{ℕ, ◌≡◌, refl, ap, ◌∙◌, Result, ok, err, panic, arith, Bool-cases, inl, inr}
use srtmp.Prelude.{◌==◌}
use srtmp.Bytes.{u32_be}
use srtmp.Wire.{ReadWriter, flush}
use srtmp.Chunk.Stream.{ChunkStream}
use srtmp.Chunk.Writer.{write_chunk}
use srtmp.Chunk.Output.{write_chunk-input}
use srtmp.Conn.State.{RtmpConn}
use srtmp.Conn.Control.{write, written, resized, flush_conn, set_begin, set_recorded, stream_event}

written-input :
    (r : Result (Unit {0}) × ChunkStream × ReadWriter) (conn : RtmpConn)
    → (written r conn).1.rw ≡ r.2
written-input (r, cs, s) conn = refl

resized-input :
    (r : Result ℕ) (c : ChunkStream) (conn : RtmpConn)
    → (resized r c conn).1.rw.input ≡ conn.rw.input
resized-input (ok n) c conn =
    ap (λ (s : ReadWriter). s.input)
      (written-input (write_chunk c n conn.rw) (record conn { chunk_size = n }))
    ∙ write_chunk-input c n conn.rw
resized-input (err e) c conn = refl
resized-input panic c conn = refl

pub write-input : (c : ChunkStream) (conn : RtmpConn) → (write c conn).1.rw.input ≡ conn.rw.input
unfolding write
write-input c conn = elim (Bool-cases (c.type_id == 1)) [
  | inl size ↦ rw size (resized-input (u32_be c.body) c conn)
  | inr other ↦ rw other (
      ap (λ (s : ReadWriter). s.input) (written-input (write_chunk c conn.chunk_size conn.rw) conn)
      ∙ write_chunk-input c conn.chunk_size conn.rw)
]

pub flush_conn-input : (conn : RtmpConn) → (flush_conn conn).1.rw.input ≡ conn.rw.input
unfolding flush_conn flush
flush_conn-input conn = ground arith

pub play_events-input : (conn : RtmpConn) → (set_begin (set_recorded conn)).rw.input ≡ conn.rw.input
unfolding set_begin set_recorded
play_events-input conn =
    write-input (stream_event 0) (write (stream_event 4) conn).1 ∙ write-input (stream_event 4) conn
