-- ===== src/Flv/AacConfig.antt =====
-- The AAC sequence header: NewAACSequenceHeader of container/flv/tag.go.
use srtmp.Prelude.{ℕ, ◌+◌, ◌<◌, ◌≡◌, ap, ◌∙◌, true, List, ◌++◌}
use srtmp.Prelude.{◌==◌, if◌then◌else◌}
use srtmp.Prelude.{ok, arith}
use srtmp.Av.{AudioPacketHeader, Packet}
use srtmp.Aac.{Parser, specific_info, specific_config, specific_info-specific_config}
use srtmp.Flv.{demux}
use srtmp.Flv.RoundTrip.{IsAudioHeader, demux-audio_tag}
use srtmp.Flv.{muxer_tag_data, audio_tag}

-- The sampling frequency index of each rate.
unfoldable pub sampling_frequence_index : ℕ → ℕ
sampling_frequence_index rate =
    if rate == 0
    then 4
    else if rate == 4
    then 4
    else if rate == 5
    then 11
    else if rate == 1
    then 10
    else if rate == 6
    then 9
    else if rate == 7
    then 8
    else if rate == 2
    then 7
    else if rate == 8
    then 6
    else if rate == 9
    then 5
    else if rate == 3
    then 4
    else if rate == 10
    then 3
    else if rate == 11
    then 2
    else if rate == 12
    then 1
    else if rate == 13
    then 0
    else 4

unfoldable pub channel_configuration : ℕ → ℕ
channel_configuration sound_type = if sound_type == 0 then 1 else if sound_type == 1 then 2 else 2

unfoldable pub new_aac_sequence_header : AudioPacketHeader → List ℕ
new_aac_sequence_header ah =
    muxer_tag_data (audio_tag ah 0)
    ++ specific_config 2 (sampling_frequence_index ah.sound_rate)
        (channel_configuration ah.sound_type)

abbrev aac_parser : ℕ → ℕ → Parser
aac_parser index channel = record {
  getted_specific = true;
  object_type = 2;
  sample_rate = index;
  channel = channel;
}

sampling_frequence_index_bound : (rate : ℕ) → sampling_frequence_index rate < 16
unfolding sampling_frequence_index
sampling_frequence_index_bound rate = ground arith

channel_configuration_bound : (sound_type : ℕ) → channel_configuration sound_type < 16
unfolding channel_configuration
channel_configuration_bound sound_type = ground arith

-- Demux takes the tag header off an AAC sequence header whose fields fit it, with the packet type of a
-- sequence header, and what it leaves configures every ADTS parser: AAC-LC, the frequency index of the
-- sound rate, and one channel for mono and two for stereo.
pub demux-new_aac_sequence_header :
    (p : Packet) (ah : AudioPacketHeader) (parser : Parser)
    → p.packet_type ≡ 2
    → IsAudioHeader ah
    → ah.sound_format ≡ 10
    → (config : List ℕ) × (demux (record p { payload = new_aac_sequence_header ah })
        ≡ ok (record p { a_header = record ah { aac_packet_type = 0 }; payload = config }))
      × (specific_info config parser
          ≡ ok (record {
            getted_specific = true;
            object_type = 2;
            sample_rate = sampling_frequence_index ah.sound_rate;
            channel = ah.sound_type + 1;
          }))
unfolding new_aac_sequence_header channel_configuration
demux-new_aac_sequence_header p ah parser k h aac =
    let index = sampling_frequence_index ah.sound_rate in
    let channel = channel_configuration ah.sound_type in
    let channels : channel ≡ ah.sound_type + 1 = ground (arith, h.type_fits) in
    (
      specific_config 2 index channel,
      demux-audio_tag p ah 0 (specific_config 2 index channel) k h aac,
      specific_info-specific_config 2 index channel parser (omega arith)
            (sampling_frequence_index_bound ah.sound_rate)
            (channel_configuration_bound ah.sound_type)
          ∙ ap (λ (c : ℕ). ok (aac_parser index c)) channels,
    )
