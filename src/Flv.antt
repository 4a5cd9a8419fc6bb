-- ===== src/Flv.antt =====
-- The headers of FLV audio and video tags: container/flv/tag.go and demuxer.go. A tag is known by its
-- type and the fields of its media part; RTMP does not send the other fields of flvTag.
use srtmp.Prelude.{
  ℕ, zero, suc, ◌+◌, ◌*◌, ◌/◌, ◌%◌, ◌^◌, bit_and, bit_or, List, [], ◌∷◌, ◌++◌, length, drop, ltb,
  ◌==◌,
}
use srtmp.Prelude.{
  if◌then◌else◌, byte, shr, shl8, shl32, add32, Result, ok, err, panic, bind, failure,
}
use srtmp.Av.{AudioPacketHeader, VideoPacketHeader, Packet}
pub mod RoundTrip
pub mod Config
pub mod AacConfig
pub mod Packing

pub record Tag : Type 0 where
  pub f_type : ℕ
  pub sound_format : ℕ
  pub sound_rate : ℕ
  pub sound_size : ℕ
  pub sound_type : ℕ
  pub aac_packet_type : ℕ
  pub frame_type : ℕ
  pub codec_id : ℕ
  pub avc_packet_type : ℕ
  pub composition_time : ℕ

-- The zero value of a Tag.
abbrev pub zero_tag : Tag
zero_tag = record {
  f_type = 0;
  sound_format = 0;
  sound_rate = 0;
  sound_size = 0;
  sound_type = 0;
  aac_packet_type = 0;
  frame_type = 0;
  codec_id = 0;
  avc_packet_type = 0;
  composition_time = 0;
}

-- b[1]
abbrev aac_type : List ℕ → Tag → Result (ℕ × Tag)
aac_type (b ∷ _) tag = ok (2, record tag { aac_packet_type = b })
aac_type [] tag = panic

-- The number of bytes of the header, and the tag with its fields.
unfoldable pub parse_audio_header : List ℕ → Tag → Result (ℕ × Tag)
parse_audio_header [] tag = err failure
parse_audio_header (flags ∷ more) tag =
    let t : Tag = record tag {
      sound_format = shr flags 4;
      sound_rate = bit_and (shr flags 2) 0x3;
      sound_size = bit_and (shr flags 1) 0x1;
      sound_type = bit_and flags 0x1;
    } in
    if shr flags 4 == 10 then aac_type more t else ok (1, t)

-- compositionTime<<8 + int32(b[i]), three times.
abbrev push_time : ℕ → ℕ → ℕ
push_time t b = add32 (shl32 t 8) b

-- Fewer than five bytes are an error whatever the codec.
unfoldable pub parse_video_header : List ℕ → Tag → Result (ℕ × Tag)
parse_video_header (flags ∷ apt ∷ b2 ∷ b3 ∷ b4 ∷ _) tag =
    let t : Tag = record tag { frame_type = shr flags 4; codec_id = bit_and flags 0xf } in
    if bit_and flags 0xf == 7
    then ok (
      5,
      record t {
        avc_packet_type = apt;
        composition_time = push_time (push_time (push_time tag.composition_time b2) b3) b4;
      },
    )
    else ok (1, t)
parse_video_header _ tag = err failure

unfoldable pub muxer_tag_data : Tag → List ℕ
muxer_tag_data tag =
    if tag.f_type == 9
    then bit_or (shl8 tag.frame_type 4) (bit_and tag.codec_id 0xf)
      ∷ (if tag.codec_id == 7
          then tag.avc_packet_type
            ∷ byte (shr tag.composition_time 16)
            ∷ byte (shr tag.composition_time 8)
            ∷ byte tag.composition_time
            ∷ []
          else [])
    else if tag.f_type == 8
    then bit_or
        (bit_or (bit_or (shl8 tag.sound_format 4) (bit_and (shl8 tag.sound_rate 2) 0x0c))
          (bit_and (shl8 tag.sound_size 1) 0x02))
        (bit_and tag.sound_type 0x01)
      ∷ (if tag.sound_format == 10 then tag.aac_packet_type ∷ [] else [])
    else []

abbrev pub audio_header : Tag → AudioPacketHeader
audio_header tag = record {
  sound_format = tag.sound_format;
  sound_rate = tag.sound_rate;
  sound_size = tag.sound_size;
  sound_type = tag.sound_type;
  aac_packet_type = tag.aac_packet_type;
}

abbrev pub video_header : Tag → VideoPacketHeader
video_header tag = record {
  frame_type = tag.frame_type;
  avc_packet_type = tag.avc_packet_type;
  codec_id = tag.codec_id;
  composition_time = tag.composition_time;
}

-- DemuxH fills in the packet's header; Demux also takes the header's bytes away. After an error the
-- packet is as it was.
unfoldable pub demux_h : Packet → Result Packet
demux_h p =
    if p.packet_type == 2
    then (bind (parse_audio_header p.payload zero_tag)
        λ r. ok (record p { a_header = audio_header r.1 }))
    else if p.packet_type == 1
    then (bind (parse_video_header p.payload zero_tag)
        λ r. ok (record p { v_header = video_header r.1 }))
    else err failure

unfoldable pub demux : Packet → Result Packet
demux p =
    if p.packet_type == 2
    then (bind (parse_audio_header p.payload zero_tag)
        λ r. ok (record p { a_header = audio_header r.1; payload = drop r.0 p.payload }))
    else if p.packet_type == 1
    then (bind (parse_video_header p.payload zero_tag)
        λ r. ok (record p { v_header = video_header r.1; payload = drop r.0 p.payload }))
    else err failure

abbrev pub audio_tag : AudioPacketHeader → ℕ → Tag
audio_tag ah aac_packet_type = record zero_tag {
  f_type = 8;
  sound_format = ah.sound_format;
  sound_rate = ah.sound_rate;
  sound_size = ah.sound_size;
  sound_type = ah.sound_type;
  aac_packet_type = aac_packet_type;
}

unfoldable pub pack_audio_data : AudioPacketHeader → List ℕ → Result (List ℕ)
pack_audio_data ah src =
    if ah.sound_format == 10 then ok (muxer_tag_data (audio_tag ah 1) ++ src) else err failure

unfoldable pub new_aac_data : AudioPacketHeader → List ℕ → List ℕ
new_aac_data ah src = muxer_tag_data (audio_tag ah 1) ++ src
