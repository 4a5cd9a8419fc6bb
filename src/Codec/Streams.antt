-- ===== src/Codec/Streams.antt =====
-- The packets of a stream through container/flv/demuxer.go and media/coder_parser.go.
use srtmp.Prelude.{ℕ, ◌^◌, ◌≤◌, ◌<◌, ◌≡◌, refl, ap, ◌∙◌, inr, Bool, true, false, List, ◌++◌}
use srtmp.Prelude.{some, length, Result, ok, err, panic, ◌&&◌, ◌==◌, if◌then◌else◌, arith}
use srtmp.Av.{VideoPacketHeader, Packet}
use srtmp.Amf.{same}
use srtmp.Flv.{demux}
use srtmp.Flv.RoundTrip.{demux-muxer_tag_data}
use srtmp.Flv.Config.{start_code4, avc_decoder_configuration_record, new_avc_sequence_header}
use srtmp.H264.{Parser, parse, nalu_aud}
use srtmp.H264.Annexb.{nal_type}
use srtmp.Flv.Packing.{pack_video_data}
use srtmp.H264.Packing.{parse-demux-pack_slice, framed}
use srtmp.H264.Records.{parse-avc_decoder_configuration_record}
use srtmp.Codec.{CodecParser, h264_of, parse_video, parse_packet}

abbrev after_demux :
    Result Packet → CodecParser → List ℕ → (CodecParser × List ℕ) × Result (Unit {0})
after_demux (ok q) cp w = parse_packet q cp w
after_demux (err e) cp w = ((cp, w), err e)
after_demux panic cp w = ((cp, w), panic)

-- Demux and Parse of one payload.
unfoldable pub demux_and_parse :
    Packet → List ℕ → CodecParser → List ℕ → (CodecParser × List ℕ) × Result (Unit {0})
demux_and_parse p payload cp w = after_demux (demux (record p { payload = payload })) cp w

abbrev configuration : VideoPacketHeader
configuration = record { frame_type = 1; avc_packet_type = 0; codec_id = 7; composition_time = 0 }

demux-new_avc_sequence_header :
    (p : Packet) (sps pps : List ℕ)
    → p.packet_type ≡ 1
    → demux (record p { payload = new_avc_sequence_header sps pps })
      ≡ ok (record p {
        v_header = configuration;
        payload = avc_decoder_configuration_record sps pps;
      })
unfolding new_avc_sequence_header
demux-new_avc_sequence_header p sps pps k =
    demux-muxer_tag_data p configuration (avc_decoder_configuration_record sps pps) k
      (record { frame_fits = omega arith; codec_fits = omega arith; time_fits = omega arith }) refl

-- The parser after a configuration record.
abbrev configured : List ℕ → List ℕ → Parser → Parser
configured sps pps parser = record parser {
  specific_info = (parser.specific_info ++ (start_code4 ++ sps)) ++ (start_code4 ++ pps);
}

-- The parameter sets of an H.264 stream.
pub record AreSets (sps pps : List ℕ) : Type 0 where
  pub sps_own : same sps start_code4 ≡ false
  pub pps_own : same pps start_code4 ≡ false
  pub sps_some : 0 < length sps
  pub sps_short : length sps < 2 ^ 16
  pub pps_some : 0 < length pps
  pub pps_short : length pps < 2 ^ 16

parse_packet-video :
    (q : Packet) (cp : CodecParser) (w : List ℕ) (is_seq : Bool)
    → q.packet_type ≡ 1
    → q.v_header.codec_id ≡ 7
    → (q.v_header.frame_type == 1 && q.v_header.avc_packet_type == 0) ≡ is_seq
    → parse_packet q cp w ≡ (
      (
        record cp { h264 = some (parse (h264_of cp.h264) q.payload is_seq w).0.0 },
        (parse (h264_of cp.h264) q.payload is_seq w).0.1,
      ),
      (parse (h264_of cp.h264) q.payload is_seq w).1,
    )
unfolding parse_packet parse_video
parse_packet-video q cp w is_seq video avc seq = simp (video, avc, seq)

demux_and_parse-ok :
    (p q : Packet) (payload : List ℕ) (cp : CodecParser) (w : List ℕ)
    → demux (record p { payload = payload }) ≡ ok q
    → demux_and_parse p payload cp w ≡ parse_packet q cp w
unfolding demux_and_parse
demux_and_parse-ok p q payload cp w e = ap (λ (r : Result Packet). after_demux r cp w) e

parse-configuration :
    (p : Packet) (sps pps : List ℕ) (cp : CodecParser) (w : List ℕ)
    → p.packet_type ≡ 1
    → AreSets sps pps
    → demux_and_parse p (new_avc_sequence_header sps pps) cp w
      ≡ ((record cp { h264 = some (configured sps pps (h264_of cp.h264)) }, w), ok tt)
parse-configuration p sps pps cp w k h =
    let q : Packet = record p {
      v_header = configuration;
      payload = avc_decoder_configuration_record sps pps;
    } in
    let parsed =
      (parse-avc_decoder_configuration_record sps pps (h264_of cp.h264) w h.sps_own h.pps_own
        h.sps_some h.sps_short h.pps_some h.pps_short).1 in
    demux_and_parse-ok p q (new_avc_sequence_header sps pps) cp w
      (demux-new_avc_sequence_header p sps pps k)
    ∙ parse_packet-video q cp w true k refl refl
    ∙ simp parsed

-- A sequence header and then an IDR slice, each packed, demuxed and given to the parser of all codecs,
-- make it write an access unit delimiter, the stream's SPS and PPS and the slice, each behind
-- 00 00 00 01, after whatever configurations came before. The sets are not empty or bare start codes
-- and their lengths fit 16 bits; the slice has two bytes or more and its length fits 32 bits.
pub parse-new_avc_sequence_header-pack_video_data :
    (p : Packet) (vh : VideoPacketHeader) (sps pps idr : List ℕ) (cp : CodecParser) (w : List ℕ)
    → p.packet_type ≡ 1
    → vh.codec_id ≡ 7
    → vh.avc_packet_type ≡ 1
    → AreSets sps pps
    → nal_type idr ≡ 5
    → 2 ≤ length idr
    → length idr < 2 ^ 32
    → (start after : CodecParser) × (packed : List ℕ) × (demux_and_parse p
          (new_avc_sequence_header sps pps)
          cp
          w
        ≡ ((start, w), ok tt))
      × (pack_video_data vh (start_code4 ++ idr) ≡ ok packed)
      × (demux_and_parse p packed start w ≡ (
        (
          after,
          w
              ++ (nalu_aud
                  ++ ((configured sps pps (h264_of cp.h264)).specific_info
                      ++ (start_code4 ++ idr))),
        ),
        ok tt,
      ))
unfolding h264_of
parse-new_avc_sequence_header-pack_video_data p vh sps pps idr cp w k avc raw h kind long short =
    let parser = configured sps pps (h264_of cp.h264) in
    let start : CodecParser = record cp { h264 = some parser } in
    let slice = parse-demux-pack_slice p vh idr parser w k avc (inr kind) long short in
    let packed = slice.0 in
    let body = slice.1 in
    let q : Packet = record p {
      v_header = framed (if nal_type idr == 5 then 1 else 2) vh;
      payload = body;
    } in
    (
      start,
      record start { h264 = some (parse parser body false w).0.0 },
      packed,
      parse-configuration p sps pps cp w k h,
      slice.2,
      demux_and_parse-ok p q packed start w slice.3
          ∙ parse_packet-video q start w false k avc (simp (kind, raw))
          ∙ simp (slice.4, slice.5, kind),
    )
