-- ===== src/Stream/Statics.antt =====
-- StaticsBW and SaveStatics of protocol/stream_rw.go, alike in StreamWriter and StreamReader. `ms` is
-- the wall clock in milliseconds; an int64 difference that is negative is no time that has passed.
use srtmp.Prelude.{ℕ, ◌+◌, ◌-◌, ◌*◌, ◌/◌, ◌%◌, ◌^◌, Bool, leb, ◌==◌, if◌then◌else◌}

pub record StaticsBw : Type 0 where
  pub stream_id : ℕ
  pub video_bytes : ℕ
  pub last_video_bytes : ℕ
  pub video_speed : ℕ
  pub audio_bytes : ℕ
  pub last_audio_bytes : ℕ
  pub audio_speed : ℕ
  pub last_timestamp : ℕ

abbrev pub no_statics : StaticsBw
no_statics = record {
  stream_id = 0;
  video_bytes = 0;
  last_video_bytes = 0;
  video_speed = 0;
  audio_bytes = 0;
  last_audio_bytes = 0;
  audio_speed = 0;
  last_timestamp = 0;
}

-- The bytes of a uint64 difference, in bits, over a number of seconds and 1000.
unfoldable pub speed : ℕ → ℕ → ℕ → ℕ
speed total last seconds = (total + 2 ^ 64 - last) % 2 ^ 64 * 8 % 2 ^ 64 / seconds / 1000

unfoldable pub count_bytes : ℕ → ℕ → Bool → StaticsBw → StaticsBw
count_bytes stream_id size is_video s =
    if is_video
    then record s { stream_id = stream_id; video_bytes = (s.video_bytes + size) % 2 ^ 64 }
    else record s { stream_id = stream_id; audio_bytes = (s.audio_bytes + size) % 2 ^ 64 }

unfoldable pub save_statics : ℕ → ℕ → ℕ → Bool → StaticsBw → StaticsBw
unfolding speed count_bytes
save_statics ms stream_id size is_video s =
    let c = count_bytes stream_id size is_video s in
    let seconds = (ms - c.last_timestamp) / 1000 in
    if c.last_timestamp == 0
    then record c { last_timestamp = ms }
    else if leb 5000 (ms - c.last_timestamp)
    then record c {
      video_speed = speed c.video_bytes c.last_video_bytes seconds;
      audio_speed = speed c.audio_bytes c.last_audio_bytes seconds;
      last_video_bytes = c.video_bytes;
      last_audio_bytes = c.audio_bytes;
      last_timestamp = ms;
    }
    else c
