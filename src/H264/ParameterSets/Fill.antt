-- ===== src/H264/ParameterSets/Fill.antt =====
-- fill_sps and fill_pps of lib/plugins/gstvkh264dec.cpp, over the storage of a VkH264Picture.
use gst_vk_video_parser.Prelude.{
  ℕ, zero, suc, ◌+◌, List, Option, none, some, get_or, set, if◌then◌else◌,
}
use gst_vk_video_parser.Prelude.Int.{ℤ, pos}
use gst_vk_video_parser.H264.ParameterSets.Parsed.{HrdParams, Sps, Pps}
use gst_vk_video_parser.H264.ParameterSets.Std.{StdScalingLists, StdHrd, StdVui, StdSps, StdPps}
use gst_vk_video_parser.H264.ParameterSets.Written.{
  hrd_of_sps, hrd_parameters, vui_parameters, sps_parameters, pps_parameters, sps_lists, pps_lists,
}

-- VkH264Picture
pub record VkH264Picture : Type 0 where
  pub hrd : StdHrd
  pub vui : StdVui
  pub sps : StdSps
  pub pps : StdPps
  pub scaling_lists_sps : StdScalingLists
  pub scaling_lists_pps : StdScalingLists
  pub offset_for_ref_frame : List ℤ

-- `for (uint32_t i = 0; i < sps->num_ref_frames_in_pic_order_cnt_cycle; i++)`, by the rounds that are
-- left.
unfoldable pub copy_offsets : ℕ → ℕ → List ℤ → List ℤ → List ℤ
copy_offsets zero i from to = to
copy_offsets (suc rounds) i from to =
    copy_offsets rounds (i + 1) from (set to i (get_or from i (pos 0)))

abbrev pub fill_hrd : Option HrdParams → StdHrd → StdHrd
fill_hrd none old = old
fill_hrd (some hrd) old = hrd_parameters hrd

unfoldable pub fill_sps : Sps → VkH264Picture → VkH264Picture
fill_sps sps vkp = record vkp {
  scaling_lists_sps =
      if sps.scaling_matrix_present_flag then sps_lists sps else vkp.scaling_lists_sps;
  offset_for_ref_frame =
      copy_offsets sps.num_ref_frames_in_pic_order_cnt_cycle 0 sps.offset_for_ref_frame
        vkp.offset_for_ref_frame;
  hrd = fill_hrd (hrd_of_sps sps) vkp.hrd;
  vui = vui_parameters sps;
  sps = sps_parameters sps;
}

unfoldable pub fill_pps : Pps → VkH264Picture → VkH264Picture
fill_pps pps vkp = record vkp {
  scaling_lists_pps =
      if pps.pic_scaling_matrix_present_flag then pps_lists pps else vkp.scaling_lists_pps;
  pps = pps_parameters pps;
}
