-- ===== src/Handshake/Agreement.antt =====
-- The two sides of protocol/core/handshake.go complete a plain handshake with each other.
use srtmp.Prelude.{ℕ, List, length, take}
use srtmp.Wire.{ReadWriter}

-- What the connection is after all that was written was flushed.
abbrev flushed : ReadWriter → ReadWriter
flushed s = record s { flushed = length s.output }

-- The bytes that have been flushed, which the peer can read.
abbrev pub sent : ReadWriter → List ℕ
sent s = take s.flushed s.output
