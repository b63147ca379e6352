-- ===== src/H265/Sequence.antt =====
-- gst_vk_h265_dec_new_sequence. What GStreamer knows of the stream and the structure that the client is
-- given are those of the H.264 element.
pub mod Rate
mod Tests
use Prim.Native.Nat.{min}
use gst_vk_video_parser.Prelude.{
  ℕ, ◌+◌, Bool, true, false, not, ◌&&◌, Option, none, some, if◌then◌else◌,
}
use gst_vk_video_parser.Prelude.Int.{ℤ, pos}
use gst_vk_video_parser.FrameRate.{pack_framerate}
use gst_vk_video_parser.H264.Sequence.{Input, SequenceInfo, client_answer, ratio_of}
use gst_vk_video_parser.H265.ParameterSets.Parsed.{Vps, Sps}
use gst_vk_video_parser.H265.ParameterSets.Written.{get_profile_idc}

-- A flag as a number.
abbrev pub flag : Bool → ℕ
flag true = 1
flag false = 0

-- bProgSeq; both cases of the inner test give true.
unfoldable pub is_progressive : Sps → Bool
is_progressive sps =
    if sps.vui_parameters_present_flag && sps.vui_params.field_seq_flag
    then false
    else if sps.profile_tier_level.progressive_source_flag
        && not sps.profile_tier_level.interlaced_source_flag
    then true
    else true

abbrev pub display_size : Sps → ℕ × ℕ
display_size sps =
    if sps.conformance_window_flag
    then (sps.crop_rect_width, sps.crop_rect_height)
    else (sps.width, sps.height)

-- A field of the VUI, which stays 0 without it.
abbrev pub of_vui : Sps → ℕ → ℕ
of_vui sps field = if sps.vui_parameters_present_flag then field else 0

abbrev pub vps_bit_rate : Option Vps → ℕ
vps_bit_rate none = 0
vps_bit_rate (some vps) = vps.hrd_params.bit_rate_scale

-- lBitrate
abbrev pub bit_rate : Sps → ℕ
bit_rate sps =
    if sps.vui_parameters_present_flag
    then sps.vui_params.hrd_params.bit_rate_scale
    else vps_bit_rate sps.vps

-- The sequence info for a packed frame rate.
unfoldable pub sequence_info : Input → Sps → ℕ → ℕ → SequenceInfo
sequence_info input sps max_dpb_size packed = record {
  is_svc = input.is_scalable;
  frame_rate = packed;
  prog_seq = flag (is_progressive sps);
  coded_size = (sps.width, sps.height);
  display_size = display_size sps;
  chroma_format = sps.chroma_format_idc;
  bit_depth_luma_minus8 = sps.bit_depth_luma_minus8;
  bit_depth_chroma_minus8 = sps.bit_depth_chroma_minus8;
  video_full_range = of_vui sps (flag sps.vui_params.video_full_range_flag);
  bitrate = bit_rate sps;
  video_format = of_vui sps sps.vui_params.video_format;
  color_primaries = of_vui sps sps.vui_params.colour_primaries;
  transfer_characteristics = of_vui sps sps.vui_params.transfer_characteristics;
  matrix_coefficients = of_vui sps sps.vui_params.matrix_coefficients;
  display_aspect_ratio = ratio_of input (display_size sps);
  min_num_decode_surfaces = pos (min (max_dpb_size + 1) 8);
  codec_profile = get_profile_idc sps.profile_tier_level.profile_idc;
}

-- The info that the client is given and the `max_dpb_size` of the element after it; the outer `none`
-- is a packing of the frame rate that does not end.
unfoldable pub new_sequence :
    Option (SequenceInfo → ℤ) → ℤ → Input → Sps → ℕ → Option (SequenceInfo × ℤ)
new_sequence client old input sps max_dpb_size = elim (pack_framerate input.fps_n input.fps_d) [
  | none ↦ none
  | some packed ↦
      let info = sequence_info input sps max_dpb_size packed in
      some (info, client_answer client old info)
]
