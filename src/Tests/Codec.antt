-- ===== src/Tests/Codec.antt =====
-- Runs of media/coder_parser.go and media/mp3/parser.go.
use srtmp.Prelude.{ℕ, ◌≡◌, refl, [], ◌∷◌, ◌++◌, List, none, some, ok, err, failure, arith}
use srtmp.Amf.{same}
use srtmp.Flv.Config.{start_code4, new_avc_sequence_header}
use srtmp.H264.{nalu_aud}
use srtmp.Flv.Packing.{pack_video_data}
use srtmp.Codec.{
  CodecParser, Mp3Parser, parse_mp3, mp3_sample_rate, sample_rate, new_codec_parser, parse_packet,
  parse_audio, parse_video,
}
use srtmp.Codec.Streams.{AreSets, demux_and_parse, parse-new_avc_sequence_header-pack_video_data}
use srtmp.Tests.Media.{packet}
use srtmp.Tests.H264.{sps, pps, idr, avc, streaming}

abbrev one_stream : CodecParser
one_stream = record { aac = none; mp3 = none; h264 = some streaming }

sets-AreSets : AreSets sps pps
unfolding same
sets-AreSets = record {
  sps_own = refl;
  pps_own = refl;
  sps_some = omega arith;
  sps_short = omega arith;
  pps_some = omega arith;
  pps_short = omega arith;
}

parse-new_avc_sequence_header-pack_video_data_example :
    (start after : CodecParser) × (packed : List ℕ) × (demux_and_parse
        (packet 1)
        (new_avc_sequence_header sps pps)
        one_stream
        []
      ≡ ((start, []), ok tt))
    × (pack_video_data avc (start_code4 ++ idr) ≡ ok packed)
    × (demux_and_parse (packet 1) packed start [] ≡ (
      (
        after,
        []
            ++ (nalu_aud
                ++ ((((9 ∷ []) ++ (start_code4 ++ sps)) ++ (start_code4 ++ pps))
                    ++ (start_code4 ++ idr))),
      ),
      ok tt,
    ))
unfolding srtmp.Codec.h264_of
parse-new_avc_sequence_header-pack_video_data_example =
    parse-new_avc_sequence_header-pack_video_data (packet 1) avc sps pps idr one_stream [] refl refl
      refl sets-AreSets refl (omega arith) (omega arith)

-- The second of the three rates, and the index that has none.
abbrev fresh_mp3 : Mp3Parser
fresh_mp3 = record { sampling_frequency = 0 }

mp3_second :
    parse_mp3 (0xff ∷ 0xfb ∷ 0x94 ∷ []) fresh_mp3 ≡ (record { sampling_frequency = 48000 }, ok tt)
unfolding parse_mp3
mp3_second = refl

mp3_reserved : parse_mp3 (0xff ∷ 0xfb ∷ 0x9c ∷ []) fresh_mp3 ≡ (fresh_mp3, err failure)
unfolding parse_mp3
mp3_reserved = refl

mp3_default : mp3_sample_rate fresh_mp3 ≡ (record { sampling_frequency = 44100 }, 44100)
unfolding mp3_sample_rate
mp3_default = refl

no_audio : sample_rate new_codec_parser ≡ (new_codec_parser, err failure)
unfolding sample_rate new_codec_parser
no_audio = refl

unknown_packet : parse_packet (packet 3) new_codec_parser [] ≡ ((new_codec_parser, []), err failure)
unfolding parse_packet
unknown_packet = refl
