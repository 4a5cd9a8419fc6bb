-- ===== src/Tests/H264.antt =====
-- Runs of media/h264 and PackVideoData.
use srtmp.Prelude.{ℕ, ◌≡◌, refl, inr, true, false, [], ◌∷◌, ◌++◌, List, some, ok, panic, arith}
use srtmp.Amf.{same}
use srtmp.Av.{VideoPacketHeader}
use srtmp.Flv.{demux}
use srtmp.Flv.Config.{start_code4, avc_decoder_configuration_record, parse_avc_sequence_header}
use srtmp.H264.{Parser, parse, nalu_aud}
use srtmp.H264.{parse_nalus, parse_nalus_n, split_nalus}
use srtmp.H264.Nalus.{join_nalus, AreUnits, parse_nalus_n-join_nalus}
use srtmp.Flv.Packing.{pack_video_data}
use srtmp.H264.Packing.{IsKeyUnit, framed}
use srtmp.H264.Packing.{parse-demux-pack_video_data, parse-demux-pack_slice}
use srtmp.H264.Records.{parse-avc_decoder_configuration_record}
use srtmp.Tests.Media.{packet}

abbrev pub sps : List ℕ
sps = 0x67 ∷ 66 ∷ 0 ∷ 40 ∷ []

abbrev pub pps : List ℕ
pps = 0x68 ∷ 206 ∷ []

abbrev pub idr : List ℕ
idr = 0x65 ∷ 0 ∷ 0 ∷ 3 ∷ 1 ∷ []

abbrev pub avc : VideoPacketHeader
avc = record { frame_type = 0; avc_packet_type = 1; codec_id = 7; composition_time = 0 }

abbrev pub streaming : Parser
streaming = record { specific_info = 9 ∷ []; pps = [] }

units-AreUnits : AreUnits (sps ∷ pps ∷ idr ∷ [])
unfolding AreUnits
units-AreUnits = ((omega arith, refl), ((omega arith, refl), (omega arith, refl)))

unit-IsKeyUnit : IsKeyUnit sps pps idr
unit-IsKeyUnit = record {
  are_units = units-AreUnits;
  are_short =
      ((omega arith, omega arith), ((omega arith, omega arith), ((omega arith, omega arith), tt)));
  is_sps = refl;
  is_pps = refl;
  is_idr = refl;
}

parse-demux-pack_video_data_example :
    (packed body : List ℕ) × (pack_video_data avc (start_code4 ++ join_nalus (sps ∷ pps ∷ idr ∷ []))
      ≡ ok packed)
    × (demux (record (packet 1) { payload = packed })
        ≡ ok (record (packet 1) { v_header = framed 1 avc; payload = body }))
    × ((parse streaming body false []).1 ≡ ok tt)
    × ((parse streaming body false []).0.1
        ≡ [] ++ (nalu_aud ++ (start_code4 ++ join_nalus (sps ∷ pps ∷ idr ∷ []))))
parse-demux-pack_video_data_example =
    parse-demux-pack_video_data (packet 1) avc sps pps idr streaming [] refl refl unit-IsKeyUnit
      (omega arith)

parse-demux-pack_slice_example :
    (packed body : List ℕ) × (pack_video_data avc (start_code4 ++ idr) ≡ ok packed)
    × (demux (record (packet 1) { payload = packed })
        ≡ ok (record (packet 1) { v_header = framed 1 avc; payload = body }))
    × ((parse streaming body false []).1 ≡ ok tt)
    × ((parse streaming body false []).0.1 ≡ [] ++ (nalu_aud ++ ((9 ∷ []) ++ (start_code4 ++ idr))))
parse-demux-pack_slice_example =
    parse-demux-pack_slice (packet 1) avc idr streaming [] refl refl (inr refl) (omega arith)
      (omega arith)

parse_nalus_n-join_nalus_example :
    (parse_nalus_n (join_nalus (sps ∷ pps ∷ idr ∷ [])) (some 3) ≡ ok (sps ∷ pps ∷ idr ∷ []))
    × (parse_nalus (start_code4 ++ join_nalus (sps ∷ pps ∷ idr ∷ [])) ≡ ok (sps ∷ pps ∷ idr ∷ []))
parse_nalus_n-join_nalus_example =
    parse_nalus_n-join_nalus (sps ∷ pps ∷ idr ∷ []) (some 3) units-AreUnits (omega arith)

parse-avc_decoder_configuration_record_example :
    (parse_avc_sequence_header (avc_decoder_configuration_record sps pps) ≡ ok (sps ∷ [], pps ∷ []))
    × (parse streaming (avc_decoder_configuration_record sps pps) true [] ≡ (
      (
        record streaming {
          specific_info = ((9 ∷ []) ++ (start_code4 ++ sps)) ++ (start_code4 ++ pps);
        },
        [],
      ),
      ok tt,
    ))
unfolding same
parse-avc_decoder_configuration_record_example =
    parse-avc_decoder_configuration_record sps pps streaming [] refl refl (omega arith)
      (omega arith) (omega arith) (omega arith)

-- Both start codes are found; a limit leaves the rest whole.
split_both :
    parse_nalus (7 ∷ 7 ∷ 0 ∷ 0 ∷ 1 ∷ 8 ∷ 0 ∷ 0 ∷ 0 ∷ 1 ∷ 5 ∷ 5 ∷ 5 ∷ 5 ∷ [])
    ≡ ok ((7 ∷ 7 ∷ []) ∷ (8 ∷ []) ∷ (5 ∷ 5 ∷ 5 ∷ 5 ∷ []) ∷ [])
unfolding parse_nalus parse_nalus_n split_nalus
split_both = refl

split_limited :
    parse_nalus_n (7 ∷ 7 ∷ 0 ∷ 0 ∷ 1 ∷ 8 ∷ 0 ∷ 0 ∷ 1 ∷ 5 ∷ []) (some 2)
    ≡ ok ((7 ∷ 7 ∷ []) ∷ (8 ∷ 0 ∷ 0 ∷ 1 ∷ 5 ∷ []) ∷ [])
unfolding parse_nalus_n split_nalus
split_limited = refl

-- A last unit of fewer than four bytes.
split_short : parse_nalus (start_code4 ++ (5 ∷ 5 ∷ [])) ≡ panic
unfolding parse_nalus parse_nalus_n split_nalus
split_short = refl
