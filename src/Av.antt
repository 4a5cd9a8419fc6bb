-- ===== src/Av.antt =====
-- The packets that all parts of the server pass on: av/av.go.
pub mod Base
use srtmp.Prelude.{ℕ, List}

pub record AudioPacketHeader : Type 0 where
  pub sound_format : ℕ
  pub sound_rate : ℕ
  pub sound_size : ℕ
  pub sound_type : ℕ
  pub aac_packet_type : ℕ

-- `composition_time` is the pattern of an int32.
pub record VideoPacketHeader : Type 0 where
  pub frame_type : ℕ
  pub avc_packet_type : ℕ
  pub codec_id : ℕ
  pub composition_time : ℕ

pub record Packet : Type 0 where
  pub packet_type : ℕ
  pub time_stamp : ℕ
  pub stream_id : ℕ
  pub v_header : VideoPacketHeader
  pub a_header : AudioPacketHeader
  pub payload : List ℕ
