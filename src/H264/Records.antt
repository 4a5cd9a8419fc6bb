-- ===== src/H264/Records.antt =====
-- The two parsers of the configuration record: ParseAVCSequenceHeader of container/flv/tag.go and
-- parseSpecificInfo of media/h264/parser.go.
use srtmp.Prelude.{ℕ, ◌+◌, ◌*◌, ◌/◌, ◌%◌, ◌^◌, ◌<◌, ◌≡◌, refl, true, false, List, [], ◌∷◌, ◌++◌}
use srtmp.Prelude.{
  length, ltb, uint16, length-append, take-append_exact, drop-append_exact, not_lt→ltb, not_le→leb,
  ok, arith,
}
use srtmp.Wire.Writes.{be_bytes}
use srtmp.Amf.{same}
use srtmp.Flv.Config.{
  start_code4, avc_decoder_configuration_record, parse_avc_sequence_header, own_set,
  parse_avc_sequence_header_lem,
}
use srtmp.H264.{Parser, parse, parse_specific_info, parse_pps}

-- Both parameter sets, each behind a start code.
abbrev with_sets : List ℕ → List ℕ → Parser → Parser
with_sets sps pps parser = record parser {
  specific_info = (parser.specific_info ++ (start_code4 ++ sps)) ++ (start_code4 ++ pps);
}

parse_pps_lem :
    (parser : Parser) (sps pps : List ℕ)
    → 0 < length pps
    → length pps < 2 ^ 16
    → parse_pps parser sps (1 ∷ (be_bytes 2 (length pps) ++ pps))
      ≡ (with_sets sps pps parser, ok tt)
unfolding parse_pps be_bytes
parse_pps_lem parser sps [] pos h = absurd (omega arith)
parse_pps_lem parser sps (b ∷ pps) pos h =
    let n = length (b ∷ pps) in
    let whole : n / 2 ^ 8 % 256 * 256 + n / 2 ^ 0 % 256 ≡ n = omega arith in
    simp (whole, not_lt→ltb n n (omega arith), not_le→leb n 0 pos)

parse_specific_info_lem :
    (parser : Parser) (p0 p1 p2 p3 p4 p5 : ℕ) (sps pps : List ℕ)
    → 0 < length sps
    → length sps < 2 ^ 16
    → 0 < length pps
    → length pps < 2 ^ 16
    → parse_specific_info parser (
        p0
        ∷ p1
        ∷ p2
        ∷ p3
        ∷ p4
        ∷ p5
        ∷ (be_bytes 2 (length sps) ++ (sps ++ (1 ∷ (be_bytes 2 (length pps) ++ pps)))))
      ≡ (with_sets sps pps parser, ok tt)
unfolding parse_specific_info be_bytes
parse_specific_info_lem parser p0 p1 p2 p3 p4 p5 [] pps pos h pos2 h2 = absurd (omega arith)
parse_specific_info_lem parser p0 p1 p2 p3 p4 p5 (b ∷ sps) pps pos h pos2 h2 =
    let n = length (b ∷ sps) in
    let tail = 1 ∷ (be_bytes 2 (length pps) ++ pps) in
    let whole : n / 2 ^ 8 % 256 * 256 + n / 2 ^ 0 % 256 ≡ n = omega arith in
    let enough : ltb (length (b ∷ (sps ++ tail))) n ≡ false =
      not_lt→ltb (length (b ∷ (sps ++ tail))) n (omega (arith, length-append sps tail)) in
    simp (
      whole,
      enough,
      not_le→leb n 0 pos,
      take-append_exact (b ∷ sps) tail n refl,
      drop-append_exact (b ∷ sps) tail n refl,
      parse_pps_lem parser (b ∷ sps) pps pos2 h2,
    )

-- The record made of an SPS and a PPS is read by both parsers: ParseAVCSequenceHeader returns the two
-- sets, and Parse adds them, each behind 00 00 00 01, to the parameter sets of the stream and writes
-- nothing. Neither set is empty or the bare start code, and their lengths fit 16 bits.
pub parse-avc_decoder_configuration_record :
    (sps pps : List ℕ) (parser : Parser) (w : List ℕ)
    → same sps start_code4 ≡ false
    → same pps start_code4 ≡ false
    → 0 < length sps
    → length sps < 2 ^ 16
    → 0 < length pps
    → length pps < 2 ^ 16
    → (parse_avc_sequence_header (avc_decoder_configuration_record sps pps)
        ≡ ok (sps ∷ [], pps ∷ []))
      × (parse parser (avc_decoder_configuration_record sps pps) true w ≡ (
        (
          record parser {
            specific_info = (parser.specific_info ++ (start_code4 ++ sps)) ++ (start_code4 ++ pps);
          },
          w,
        ),
        ok tt,
      ))
unfolding parse avc_decoder_configuration_record
parse-avc_decoder_configuration_record sps pps parser w hs hp pos h pos2 h2 =
    let sps_whole : uint16 (length sps) ≡ length sps = omega arith in
    let pps_whole : uint16 (length pps) ≡ length pps = omega arith in
    (
      parse_avc_sequence_header_lem sps pps hs hp (omega arith) (omega arith) pos2,
      simp (
        own_set sps hs,
        own_set pps hp,
        sps_whole,
        pps_whole,
        parse_specific_info_lem parser 1 66 0 40 255 225 sps pps pos h pos2 h2,
      ),
    )
