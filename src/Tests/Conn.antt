-- ===== src/Tests/Conn.antt =====
-- Runs of protocol/core/rtmp_conn.go.
use srtmp.Prelude.{ℕ, ◌≡◌, refl, [], ◌∷◌, ◌++◌, List, ok, some, inl, arith, Result}
use srtmp.Chunk.Stream.{ChunkStream}
use srtmp.Chunk.Writer.{write_chunk, assign_csid}
use srtmp.Conn.State.{RtmpConn, find_chunk}
use srtmp.Conn.Control.{ack}
use srtmp.Conn.Reader.{read, chunk_for}
use srtmp.Conn.Delivery.{IsIdle, Delivers, CanReceive}
use srtmp.Conn.Resizing.{read-new_set_chunk_size}
use srtmp.Conn.Control.{write, new_set_chunk_size}
use srtmp.Wire.Writes.{CanWrite}
use srtmp.Conn.RoundTrip.{read-write}
use srtmp.Conn.Progress.{read-total}
use srtmp.Conn.Agreement.{IsCounting, ack-IsCounting}
use srtmp.Tests.Data.{
  idle_rw, idle_rw-CanWrite, video_message, video_message-IsSent, peer, peer-CanReceive,
}

-- The bytes of the message in chunks of two, and one byte more.
arrived : List ℕ
arrived = (write_chunk video_message 2 idle_rw).2.output ++ (7 ∷ [])

peer-IsIdle : IsIdle (assign_csid video_message).csid (peer arrived 2)
unfolding peer assign_csid chunk_for find_chunk arrived
peer-IsIdle = record { own_csid = refl; nothing_left = refl; no_delta = refl }

read-write_example :
    ((write_chunk video_message 2 idle_rw).0 ≡ ok tt)
    × Delivers (assign_csid video_message) (7 ∷ []) 10 (peer arrived 2)
unfolding peer arrived
read-write_example =
    read-write video_message 2 10 idle_rw (7 ∷ []) (peer arrived 2) video_message-IsSent
      (omega arith) idle_rw-CanWrite refl (peer-CanReceive arrived 2) refl peer-IsIdle refl
      (inl (omega arith)) (omega arith)

read-total_example :
    (x : Result ChunkStream × RtmpConn) × (read 4 (peer (3 ∷ 0 ∷ 0 ∷ []) 128) ≡ some x)
unfolding peer
read-total_example = read-total 4 (peer (3 ∷ 0 ∷ 0 ∷ []) 128) (omega arith)

ack-IsCounting_example : IsCounting (ack 3000000 (peer [] 128)).1
unfolding peer
ack-IsCounting_example = ack-IsCounting 3000000 (peer [] 128) (peer-CanReceive [] 128) (omega arith)

-- What a side with chunks of 128 bytes writes to make them 4096, and one byte more.
resizing : List ℕ
resizing = (write (new_set_chunk_size 4096) (peer [] 128)).1.rw.output ++ (7 ∷ [])

resized-IsIdle : IsIdle 2 (peer resizing 128)
unfolding peer chunk_for find_chunk resizing
resized-IsIdle = record { own_csid = refl; nothing_left = refl; no_delta = refl }

peer-CanWrite : CanWrite (peer [] 128).rw
unfolding peer
peer-CanWrite = idle_rw-CanWrite

read-new_set_chunk_size_example :
    ((write (new_set_chunk_size 4096) (peer [] 128)).0 ≡ ok tt)
    × ((write (new_set_chunk_size 4096) (peer [] 128)).1.chunk_size ≡ 4096)
    × (c : RtmpConn) × (read 4 (peer resizing 128) ≡ read 3 c)
    × CanReceive c
    × (c.rw.input ≡ 7 ∷ [])
    × (c.remote_chunk_size ≡ 4096)
    × IsIdle 2 c
unfolding peer resizing
read-new_set_chunk_size_example =
    read-new_set_chunk_size 4096 3 (peer [] 128) (peer resizing 128) (7 ∷ []) (omega arith)
      (omega arith) peer-CanWrite refl (peer-CanReceive resizing 128) (omega arith) resized-IsIdle
      refl
