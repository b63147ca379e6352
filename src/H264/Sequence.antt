-- ===== src/H264/Sequence.antt =====
-- gst_vk_h264_dec_new_sequence and the level it reports. What GStreamer knows of the stream is the
-- record `Input`; the client's answer is a function.
pub mod Levels
pub mod Rate
mod Tests
use gst_vk_video_parser.Prelude.{
  ℕ, zero, suc, ◌+◌, ◌*◌, ◌%◌, ◌/◌, Bool, true, false, Option, none, some, ◌==◌, if◌then◌else◌,
  to_u32,
}
use gst_vk_video_parser.Prelude.Int.{ℤ, pos, negsuc}
use gst_vk_video_parser.FrameRate.{pack_framerate}

-- StdVideoH264LevelIdc: STD_VIDEO_H264_LEVEL_IDC_4_1 is `level 4 1`.
pub data Level : Type 0 where
  level : ℕ → ℕ → Level
  invalid : Level

unfoldable pub get_h264_level_idc : ℕ → Level
get_h264_level_idc idc =
    if idc == 10
    then level 1 0
    else if idc == 11
    then level 1 1
    else if idc == 12
    then level 1 2
    else if idc == 13
    then level 1 3
    else if idc == 20
    then level 2 0
    else if idc == 21
    then level 2 1
    else if idc == 22
    then level 2 2
    else if idc == 30
    then level 3 0
    else if idc == 31
    then level 3 1
    else if idc == 32
    then level 3 2
    else if idc == 40
    then level 4 0
    else if idc == 41
    then level 4 1
    else if idc == 42
    then level 4 2
    else if idc == 50
    then level 5 0
    else if idc == 51
    then level 5 1
    else if idc == 52
    then level 5 2
    else if idc == 60
    then level 6 0
    else if idc == 61
    then level 6 1
    else if idc == 62
    then level 6 2
    else invalid

-- GstH264VUIParams, what new_sequence reads; the two bit rates are there if their flag is set.
pub record Vui : Type 0 where
  pub video_full_range_flag : ℕ
  pub nal_bit_rate_scale : Option ℕ
  pub vcl_bit_rate_scale : Option ℕ
  pub video_format : ℕ
  pub colour_primaries : ℕ
  pub transfer_characteristics : ℕ
  pub matrix_coefficients : ℕ

-- GstH264SPS, what new_sequence reads; the crop rectangle and the VUI are there if their flag is set.
pub record Sps : Type 0 where
  pub frame_mbs_only_flag : ℕ
  pub width : ℕ
  pub height : ℕ
  pub chroma_format_idc : ℕ
  pub bit_depth_luma_minus8 : ℕ
  pub bit_depth_chroma_minus8 : ℕ
  pub profile_idc : ℕ
  pub crop_rect : Option (ℕ × ℕ)
  pub vui : Option Vui

-- The decoder's input state: whether the profile of its caps starts with "scalable", the frame rate,
-- and what gst_video_calculate_display_ratio makes of a display size.
pub record Input : Type 0 where
  pub is_scalable : Bool
  pub fps_n : ℕ
  pub fps_d : ℕ
  pub display_ratio : ℕ → ℕ → Option (ℕ × ℕ)

-- VkParserSequenceInfo, without the fields that stay 0.
pub record SequenceInfo : Type 0 where
  pub is_svc : Bool
  pub frame_rate : ℕ
  pub prog_seq : ℕ
  pub coded_size : ℕ × ℕ
  pub display_size : ℕ × ℕ
  pub chroma_format : ℕ
  pub bit_depth_luma_minus8 : ℕ
  pub bit_depth_chroma_minus8 : ℕ
  pub video_full_range : ℕ
  pub bitrate : ℕ
  pub video_format : ℕ
  pub color_primaries : ℕ
  pub transfer_characteristics : ℕ
  pub matrix_coefficients : ℕ
  pub display_aspect_ratio : ℕ × ℕ
  pub min_num_decode_surfaces : ℤ
  pub codec_profile : ℕ

abbrev pub display_size : Sps → ℕ × ℕ
display_size sps = elim sps.crop_rect [ none ↦ (sps.width, sps.height) | some size ↦ size ]

-- lBitrate: the NAL parameters come before the VCL ones.
abbrev pub bit_rate : Vui → ℕ
bit_rate v = elim v.nal_bit_rate_scale [
  | some rate ↦ rate
  | none ↦ elim v.vcl_bit_rate_scale [ some rate ↦ rate | none ↦ 0 ]
]

abbrev no_vui : Vui
no_vui = record {
  video_full_range_flag = 0;
  nal_bit_rate_scale = none;
  vcl_bit_rate_scale = none;
  video_format = 0;
  colour_primaries = 0;
  transfer_characteristics = 0;
  matrix_coefficients = 0;
}

-- Without a VUI the fields stay 0.
abbrev pub vui_of : Sps → Vui
vui_of sps = elim sps.vui [ none ↦ no_vui | some v ↦ v ]

abbrev pub ratio_of : Input → ℕ × ℕ → ℕ × ℕ
ratio_of input size = elim (input.display_ratio size.0 size.1) [ none ↦ (0, 0) | some r ↦ r ]

-- The sequence info for a packed frame rate.
unfoldable pub sequence_info : Input → Sps → ℕ → ℕ → SequenceInfo
sequence_info input sps max_dpb_size packed = record {
  is_svc = input.is_scalable;
  frame_rate = to_u32 (packed * 1000);
  prog_seq = sps.frame_mbs_only_flag;
  coded_size = (sps.width, sps.height);
  display_size = display_size sps;
  chroma_format = sps.chroma_format_idc;
  bit_depth_luma_minus8 = sps.bit_depth_luma_minus8;
  bit_depth_chroma_minus8 = sps.bit_depth_chroma_minus8;
  video_full_range = (vui_of sps).video_full_range_flag;
  bitrate = bit_rate (vui_of sps);
  video_format = (vui_of sps).video_format;
  color_primaries = (vui_of sps).colour_primaries;
  transfer_characteristics = (vui_of sps).transfer_characteristics;
  matrix_coefficients = (vui_of sps).matrix_coefficients;
  display_aspect_ratio = ratio_of input (display_size sps);
  min_num_decode_surfaces = pos (suc max_dpb_size);
  codec_profile = sps.profile_idc;
}

-- `self->max_dpb_size` after the call of BeginSequence, if there is a client.
abbrev pub client_answer : Option (SequenceInfo → ℤ) → ℤ → SequenceInfo → ℤ
client_answer none old info = old
client_answer (some begin_sequence) old info = begin_sequence info

-- The info that the client is given and the `max_dpb_size` of the element after it; the outer `none`
-- is a packing of the frame rate that does not end.
unfoldable pub new_sequence :
    Option (SequenceInfo → ℤ) → ℤ → Input → Sps → ℕ → Option (SequenceInfo × ℤ)
new_sequence client old input sps max_dpb_size = elim (pack_framerate input.fps_n input.fps_d) [
  | none ↦ none
  | some packed ↦
      let info = sequence_info input sps max_dpb_size packed in
      some (info, client_answer client old info)
]
