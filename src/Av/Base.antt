-- ===== src/Av/Base.antt =====
-- The type RWBaser of av/rwbase.go, which readers and writers of packets share. A time.Time is the
-- number of nanoseconds of the monotonic clock, and `now` what it shows; the lock guards no method.
use srtmp.Prelude.{ℕ, ◌-◌, Bool, ltb, ◌==◌, if◌then◌else◌}

pub record RwBaser : Type 0 where
  pub timeout : ℕ
  pub pre_time : ℕ
  pub base_timestamp : ℕ
  pub last_video_timestamp : ℕ
  pub last_audio_timestamp : ℕ

unfoldable pub new_rw_baser : ℕ → ℕ → RwBaser
new_rw_baser duration now = record {
  timeout = duration;
  pre_time = now;
  base_timestamp = 0;
  last_video_timestamp = 0;
  last_audio_timestamp = 0;
}

unfoldable pub calc_base_timestamp : RwBaser → RwBaser
calc_base_timestamp rw = record rw {
  base_timestamp =
      if ltb rw.last_video_timestamp rw.last_audio_timestamp
      then rw.last_audio_timestamp
      else rw.last_video_timestamp;
}

unfoldable pub rec_time_stamp : ℕ → ℕ → RwBaser → RwBaser
rec_time_stamp timestamp type_id rw =
    if type_id == 9
    then record rw { last_video_timestamp = timestamp }
    else if type_id == 8
    then record rw { last_audio_timestamp = timestamp }
    else rw

unfoldable pub set_pre_time : ℕ → RwBaser → RwBaser
set_pre_time now rw = record rw { pre_time = now }

unfoldable pub is_alive : ℕ → RwBaser → Bool
is_alive now rw = ltb (now - rw.pre_time) rw.timeout
