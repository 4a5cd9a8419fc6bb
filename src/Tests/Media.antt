-- ===== src/Tests/Media.antt =====
-- Runs of container/flv and media/aac.
use srtmp.Flv.{parse_audio_header}
use srtmp.Prelude.{ℕ, ◌≡◌, refl, true, [], ◌∷◌, ◌++◌, List, ok, panic, some, ◌+◌, length, arith}
use srtmp.Av.{Packet, AudioPacketHeader}
use srtmp.Aac.{Parser, specific_info, adts, frame_length, adts-frame_length}
use srtmp.Flv.{demux, demux_h, pack_audio_data}
use srtmp.Flv.RoundTrip.{IsAudioHeader, demux-pack_audio_data}
use srtmp.Flv.AacConfig.{
  sampling_frequence_index, new_aac_sequence_header, demux-new_aac_sequence_header,
}

abbrev pub stereo : AudioPacketHeader
stereo = record {
  sound_format = 10;
  sound_rate = 3;
  sound_size = 1;
  sound_type = 1;
  aac_packet_type = 0;
}

stereo-IsAudioHeader : IsAudioHeader stereo
stereo-IsAudioHeader = record {
  format_fits = omega arith;
  rate_fits = omega arith;
  size_fits = omega arith;
  type_fits = omega arith;
}

abbrev pub packet : ℕ → Packet
packet packet_type = record {
  packet_type = packet_type;
  time_stamp = 0;
  stream_id = 1;
  v_header = record { frame_type = 0; avc_packet_type = 0; codec_id = 0; composition_time = 0 };
  a_header = record stereo { sound_format = 0 };
  payload = [];
}

abbrev configured : Parser
configured = record { getted_specific = true; object_type = 2; sample_rate = 4; channel = 2 }

demux-pack_audio_data_example :
    (bs : List ℕ) × (pack_audio_data stereo (5 ∷ 6 ∷ []) ≡ ok bs)
    × (demux (record (packet 2) { payload = bs })
        ≡ ok (record (packet 2) {
          a_header = record stereo { aac_packet_type = 1 };
          payload = 5 ∷ 6 ∷ [];
        }))
demux-pack_audio_data_example =
    demux-pack_audio_data (packet 2) stereo (5 ∷ 6 ∷ []) refl stereo-IsAudioHeader refl

demux-new_aac_sequence_header_example :
    (config : List ℕ) × (demux (record (packet 2) { payload = new_aac_sequence_header stereo })
      ≡ ok (record (packet 2) {
        a_header = record stereo { aac_packet_type = 0 };
        payload = config;
      }))
    × (specific_info config configured
        ≡ ok (record {
          getted_specific = true;
          object_type = 2;
          sample_rate = sampling_frequence_index 3;
          channel = 1 + 1;
        }))
demux-new_aac_sequence_header_example =
    demux-new_aac_sequence_header (packet 2) stereo configured refl stereo-IsAudioHeader refl

adts-frame_length_example :
    (out : List ℕ) × (adts (1 ∷ 2 ∷ []) configured ≡ ok (out ++ (1 ∷ 2 ∷ [])))
    × (length out ≡ 7)
    × (frame_length out ≡ some (length (out ++ (1 ∷ 2 ∷ []))))
adts-frame_length_example =
    adts-frame_length (1 ∷ 2 ∷ []) configured refl (omega arith) (omega arith)

-- A packet that is the one byte of an AAC header.
demux_h-short : demux_h (record (packet 2) { payload = 0xaf ∷ [] }) ≡ panic
unfolding demux_h parse_audio_header
demux_h-short = refl
