-- ===== src/Flv/Packing.antt =====
-- PackVideoData of container/flv/tag.go: an access unit becomes the payload of a video packet.
use srtmp.Prelude.{ℕ, bit_and, ◌||◌, List, [], ◌∷◌, ◌++◌, some, length, drop, ◌==◌, if◌then◌else◌}
use srtmp.Prelude.{uint32, Result, ok, err, bind, failure}
use srtmp.Wire.Writes.{be_bytes}
use srtmp.Av.{VideoPacketHeader}
use srtmp.Flv.{zero_tag, muxer_tag_data}
use srtmp.H264.{is_nalu_header, parse_nalus_n}

-- The copies into the buffer, of the units that are not empty.
unfoldable pub copy_nalus : List (List ℕ) → List ℕ
copy_nalus [] = []
copy_nalus ([] ∷ nalus) = copy_nalus nalus
copy_nalus ((b ∷ nalu) ∷ nalus) =
    be_bytes 4 (uint32 (length (b ∷ nalu))) ++ ((b ∷ nalu) ++ copy_nalus nalus)

-- One length for all of it.
unfoldable pub copy_whole : List ℕ → List ℕ → Result (List ℕ)
copy_whole tag_buffer [] = err failure
copy_whole tag_buffer (b ∷ src) =
    ok (tag_buffer ++ (be_bytes 4 (uint32 (length (b ∷ src))) ++ (b ∷ src)))

-- An H.264 access unit whose start code is taken off. Parameter sets, and what follows them, are split
-- into at most three units.
unfoldable pub pack_h264 : VideoPacketHeader → List ℕ → Result (List ℕ)
pack_h264 header [] = err failure
pack_h264 header (b ∷ src) =
    let nalu_type = bit_and b 0x1f in
    let tag_buffer = muxer_tag_data (record zero_tag {
      f_type = 9;
      frame_type = if nalu_type == 7 || (nalu_type == 8 || nalu_type == 5) then 1 else 2;
      codec_id = header.codec_id;
      avc_packet_type = header.avc_packet_type;
    }) in
    if nalu_type == 7 || nalu_type == 8
    then (bind (parse_nalus_n (b ∷ src) (some 3)) λ nalus. ok (tag_buffer ++ copy_nalus nalus))
    else copy_whole tag_buffer (b ∷ src)

unfoldable pub pack_video_data : VideoPacketHeader → List ℕ → Result (List ℕ)
pack_video_data header src =
    if header.codec_id == 7
    then pack_h264 header (if is_nalu_header src then drop 4 src else src)
    else if header.codec_id == 1 || header.codec_id == 2
    then copy_whole
        (muxer_tag_data
          (record zero_tag { f_type = 9; frame_type = 1; codec_id = header.codec_id }))
        src
    else err failure
