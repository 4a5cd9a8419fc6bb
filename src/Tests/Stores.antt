-- ===== src/Tests/Stores.antt =====
-- Runs of protocol/cache, utils/queue.go and utils/pool.go.
use srtmp.Queue.{pop_last}
use srtmp.Prelude.{
  List, none, ℕ, ◌≡◌, ◌≢◌, ◌≤◌, ◌⊎◌, refl, true, false, [], ◌∷◌, ok, panic, some, ◌+◌, take, inr,
  arith,
}
use srtmp.Av.{Packet}
use srtmp.Cache.{GopCache, Channel, write_gop}
use srtmp.Cache.Joining.{IsCounted, write_gop-IsCounted, latest, is_metadata}
use srtmp.Cache.Joining.{is_video_header, is_audio_header}
use srtmp.Queue.{push, new_queue}
use srtmp.Pool.{Pool, Slice, Taken, max_pool_size, get, get-disjoint}

abbrev metadata_packet : Packet
metadata_packet = record {
  packet_type = 3;
  time_stamp = 0;
  stream_id = 1;
  v_header = record { frame_type = 0; avc_packet_type = 0; codec_id = 0; composition_time = 0 };
  a_header = record {
    sound_format = 0;
    sound_rate = 0;
    sound_size = 0;
    sound_type = 0;
    aac_packet_type = 0;
  };
  payload = 2 ∷ [];
}

abbrev frame_packet : Packet
frame_packet = record metadata_packet {
  packet_type = 1;
  v_header = record { frame_type = 1; avc_packet_type = 1; codec_id = 7; composition_time = 0 };
}

abbrev empty_channel : Channel
empty_channel = record { capacity = 3; queued = [] }

abbrev video_header : Packet
video_header = record metadata_packet {
  packet_type = 1;
  v_header = record { frame_type = 1; avc_packet_type = 0; codec_id = 7; composition_time = 0 };
}

-- The metadata of a later publisher replaces that of the first one.
abbrev published : List Packet
published =
    metadata_packet ∷ video_header ∷ frame_packet ∷ record metadata_packet { payload = 5 ∷ [] } ∷ []

-- What it gets are the later metadata and the header.
latest-published :
    (latest is_metadata none published ≡ some (record metadata_packet { payload = 5 ∷ [] }))
    × (latest is_video_header none published ≡ some video_header)
    × (latest is_audio_header none published ≡ none)
unfolding latest
latest-published = (refl, refl, refl)

abbrev one_frame : GopCache
one_frame = record { max_number = 2; count = 1; gops = frame_packet ∷ [] }

write_gop-IsCounted_example :
    IsCounted (write_gop frame_packet false one_frame)
    × ((write_gop frame_packet true one_frame).gops ≡ take 2 (frame_packet ∷ []))
write_gop-IsCounted_example =
    write_gop-IsCounted frame_packet false one_frame (record { counted = refl; few = omega arith })

-- A queue without a bound cannot be filled.
push-unbounded : push {A = ℕ} 5 (new_queue 0) ≡ panic
unfolding push new_queue pop_last
push-unbounded = refl

abbrev used_pool : Pool
used_pool = record { pos = 50000; buffer = 0 }

abbrev old_slice : Slice
old_slice = record { of = 0; start = 0; size = 50000 }

get-disjoint_example :
    (s : Slice) × (p : Pool) × (get 4000 used_pool ≡ ok (s, p))
    × (s.size ≡ 4000)
    × (s.start + s.size ≤ max_pool_size)
    × (p.pos ≤ max_pool_size)
    × ((old_slice.of ≢ s.of) ⊎ (old_slice.start + old_slice.size ≤ s.start))
    × Taken s p
    × Taken old_slice p
get-disjoint_example =
    get-disjoint 4000 used_pool old_slice (omega arith) (omega arith) (inr (refl, omega arith))
