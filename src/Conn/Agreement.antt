-- ===== src/Conn/Agreement.antt =====
-- The protocol's own messages and counters, protocol/core/rtmp_conn.go: the number in a
-- message, and what was received is acknowledged in time.
use srtmp.Prelude.{ℕ, zero, suc, ◌/◌, ◌%◌, ◌^◌, ◌≤◌, ◌<◌, ◌≡◌, ap, ◌∙◌, replicate, leb}
use srtmp.Prelude.{ok, arith, Bool-cases, inl, inr}
use srtmp.Bytes.{u32_be}
use srtmp.Bytes.RoundTrip.{u32_be_lem}
use srtmp.Conn.State.{RtmpConn}
use srtmp.Conn.Control.{init_control_msg, count_received, ack}
use srtmp.Conn.Delivery.{CanReceive, write_chunk-new_ack}

pub body_lem :
    (id size n : ℕ) → 4 ≤ size → n < 2 ^ 32 → u32_be (init_control_msg id size n).body ≡ ok n
unfolding init_control_msg
body_lem id zero n few h = absurd (omega arith)
body_lem id (suc zero) n few h = absurd (omega arith)
body_lem id (suc (suc zero)) n few h = absurd (omega arith)
body_lem id (suc (suc (suc zero))) n few h = absurd (omega arith)
body_lem id (suc (suc (suc (suc size)))) n few h =
    u32_be_lem (n / 2 ^ 24 % 256) (n / 2 ^ 16 % 256) (n / 2 ^ 8 % 256) (n % 256) (replicate size 0)
      (omega arith) (omega arith) (omega arith) (omega arith)
    ∙ ap ok (omega arith)

-- The counters of a connection: neither is at its limit.
pub record IsCounting (conn : RtmpConn) : Type 0 where
  pub received_low : conn.received < 0xf0000000
  pub ack_low : conn.ack_received < conn.remote_window_ack_size

-- After every message of a connection that works, whatever its size and whatever the counters were,
-- the counters are below their limits, where the window is not 0.
pub ack-IsCounting :
    (size : ℕ) (conn : RtmpConn)
    → CanReceive conn
    → 0 < conn.remote_window_ack_size
    → IsCounting (ack size conn).1
unfolding ack count_received
ack-IsCounting size conn v pos =
    let c = count_received size conn in
    elim (Bool-cases (leb c.remote_window_ack_size c.ack_received)) [
      | inl due ↦
          let (out, cs, e) =
            write_chunk-new_ack c.ack_received c.chunk_size c.rw v.sends v.writable in
          simp (due, e) (record { received_low = ground arith; ack_low = pos })
      | inr idle ↦ simp idle (record { received_low = ground arith; ack_low = ground arith })
    ]
