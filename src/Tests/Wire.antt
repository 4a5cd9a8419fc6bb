-- ===== src/Tests/Wire.antt =====
-- Runs of utils/reader.go, utils/writer.go and protocol/core/read_writer.go.
use srtmp.Wire.{read_uint_le_loop}
use srtmp.Wire.{read_uint_be_loop}
use srtmp.Wire.{write_uint_le_loop}
use srtmp.Wire.{buf_write}
use srtmp.Wire.{write_uint_be_loop}
use srtmp.Prelude.{
  ◌≡◌, refl, ◌^◌, ◌%◌, ◌++◌, [], ◌∷◌, ok, bind, replicate, arith, ◌*◌, broken_pipe, eof,
  unexpected_eof,
}
use srtmp.Bytes.{
  u16_be, u24_be, u32_be, u32_le, u40_be, u64_be, put_u16_be, put_u24_be, put_u32_be, put_u32_le,
  put_u40_be, put_u64_be,
}
use srtmp.Bytes.RoundTrip.{read-put}
use srtmp.Wire.{write_uint_be, write_uint_le, read_uint_be, read_uint_le, read}
use srtmp.Wire.Reads.{feed, read_uint-write_uint}
use srtmp.Wire.Faults.{RefusesWrites, RefusesReads, write_errors_kept, read_errors_kept}
use srtmp.Tests.Data.{idle_rw, failing_rw, idle_rw-CanWrite}

read-put_example :
    (bind (put_u16_be (replicate 8 0) 70000) u16_be ≡ ok (70000 % 2 ^ 16))
    × (bind (put_u24_be (replicate 8 0) 70000) u24_be ≡ ok (70000 % 2 ^ 24))
    × (bind (put_u32_be (replicate 8 0) 70000) u32_be ≡ ok (70000 % 2 ^ 32))
    × (bind (put_u32_le (replicate 8 0) 70000) u32_le ≡ ok (70000 % 2 ^ 32))
    × (bind (put_u40_be (replicate 8 0) 70000) u40_be ≡ ok (70000 % 2 ^ 40))
    × (bind (put_u64_be (replicate 8 0) 70000) u64_be ≡ ok (70000 % 2 ^ 64))
read-put_example = read-put 70000 (replicate 8 0) (omega arith)

read_uint-write_uint_example :
    ((write_uint_be 70000 3 idle_rw).0 ≡ ok tt)
    × (read_uint_be 3 (feed ((write_uint_be 70000 3 idle_rw).1.output ++ (9 ∷ [])) idle_rw)
        ≡ (ok (70000 % 2 ^ (3 * 8)), feed (9 ∷ []) idle_rw))
    × ((write_uint_le 70000 3 idle_rw).0 ≡ ok tt)
    × (read_uint_le 3 (feed ((write_uint_le 70000 3 idle_rw).1.output ++ (9 ∷ [])) idle_rw)
        ≡ (ok (70000 % 2 ^ (3 * 8)), feed (9 ∷ []) idle_rw))
read_uint-write_uint_example =
    read_uint-write_uint 3 70000 (9 ∷ []) idle_rw idle_rw (omega arith) idle_rw-CanWrite refl refl

write_errors_kept_example :
    RefusesWrites broken_pipe (write_uint_be 7 2 failing_rw).1
    × RefusesWrites broken_pipe (write_uint_le 7 3 failing_rw).1
unfolding write_uint_be write_uint_le write_uint_be_loop buf_write write_uint_le_loop
write_errors_kept_example =
    write_errors_kept 7 2 7 3 failing_rw failing_rw {e = broken_pipe} {d = broken_pipe} refl refl

read_errors_kept_example :
    RefusesReads eof (read_uint_be 2 failing_rw).1
    × RefusesReads eof (read_uint_le 3 failing_rw).1
    × RefusesReads unexpected_eof (read 2 failing_rw).1
unfolding read_uint_be read_uint_le read read_uint_be_loop read_uint_le_loop
read_errors_kept_example =
    read_errors_kept 2 3 2 failing_rw failing_rw failing_rw {e = eof} {d = eof} {c = unexpected_eof}
      refl refl refl

-- ReadUintLE counts the shift in its own variable.
read_uint_le-run : read_uint_le 2 (feed (1 ∷ 2 ∷ 3 ∷ []) idle_rw) ≡ (ok 513, feed (3 ∷ []) idle_rw)
unfolding read_uint_le read_uint_le_loop
read_uint_le-run = refl
