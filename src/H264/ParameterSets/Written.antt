-- ===== src/H264/ParameterSets/Written.antt =====
-- What fill_sps and fill_pps of lib/plugins/gstvkh264dec.cpp write, structure by structure, with the
-- tables of the numbers they translate.
use gst_vk_video_parser.Prelude.{
  ℕ, ◌%◌, ◌^◌, ◌-◌, false, ◌||◌, Option, none, some, ltb, leb, ◌==◌, if◌then◌else◌, replicate,
}
use gst_vk_video_parser.Prelude.Int.{to_int8}
use gst_vk_video_parser.H264.Sequence.{get_h264_level_idc}
use gst_vk_video_parser.H264.ParameterSets.Parsed.{HrdParams, Sps, Pps}
use gst_vk_video_parser.H264.ParameterSets.Std.{
  Pointer, null, to_hrd, to_vui, to_offset_for_ref_frame, to_scaling_lists_sps,
  to_scaling_lists_pps, StdScalingLists, StdHrd, StdVui, StdSps, StdPps,
}

-- STD_VIDEO_H264_..._INVALID
abbrev pub invalid_idc : ℕ
invalid_idc = 2 ^ 31 - 1

-- The four profiles have the same numbers in GstH264Profile and in StdVideoH264ProfileIdc.
unfoldable pub get_h264_profile : ℕ → ℕ
get_h264_profile profile_idc =
    if profile_idc == 66
    then 66
    else if profile_idc == 77
    then 77
    else if profile_idc == 100
    then 100
    else if profile_idc == 244
    then 244
    else invalid_idc

-- The tests for a number from 0 on are true of every uint8_t.
unfoldable pub get_h264_chroma_format : ℕ → ℕ
get_h264_chroma_format chroma_format_idc =
    if leb chroma_format_idc 3 then chroma_format_idc else invalid_idc

unfoldable pub get_h264_poc_type : ℕ → ℕ
get_h264_poc_type pic_order_cnt_type =
    if leb pic_order_cnt_type 2 then pic_order_cnt_type else invalid_idc

unfoldable pub get_h264_aspect_ratio_idc : ℕ → ℕ
get_h264_aspect_ratio_idc aspect_ratio_idc =
    if leb aspect_ratio_idc 16 || aspect_ratio_idc == 255 then aspect_ratio_idc else invalid_idc

unfoldable pub get_h264_weighted_bipred_idc : ℕ → ℕ
get_h264_weighted_bipred_idc weighted_bipred_idc =
    if leb weighted_bipred_idc 2 then weighted_bipred_idc else invalid_idc

-- `hrd`
unfoldable pub hrd_of_sps : Sps → Option HrdParams
hrd_of_sps sps =
    if sps.vui_parameters.nal_hrd_parameters_present_flag
    then some sps.vui_parameters.nal_hrd_parameters
    else if sps.vui_parameters.vcl_hrd_parameters_present_flag
    then some sps.vui_parameters.vcl_hrd_parameters
    else none

abbrev pub hrd_pointer : Option HrdParams → Pointer
hrd_pointer none = null
hrd_pointer (some hrd) = to_hrd

-- `vkp->hrd`; the arrays have 32 entries each on both sides. The code does not name cbr_flag, which the
-- assignment of the structure sets to zeros.
unfoldable pub hrd_parameters : HrdParams → StdHrd
hrd_parameters hrd = record {
  cpb_cnt_minus1 = hrd.cpb_cnt_minus1;
  bit_rate_scale = hrd.bit_rate_scale;
  cpb_size_scale = hrd.cpb_size_scale;
  initial_cpb_removal_delay_length_minus1 = hrd.initial_cpb_removal_delay_length_minus1;
  cpb_removal_delay_length_minus1 = hrd.cpb_removal_delay_length_minus1;
  dpb_output_delay_length_minus1 = hrd.dpb_output_delay_length_minus1;
  time_offset_length = hrd.time_offset_length;
  bit_rate_value_minus1 = hrd.bit_rate_value_minus1;
  cpb_size_value_minus1 = hrd.cpb_size_value_minus1;
  cbr_flag = replicate 32 0;
}

-- `vkp->vui`
unfoldable pub vui_parameters : Sps → StdVui
vui_parameters sps = record {
  flags = record {
    aspect_ratio_info_present_flag = sps.vui_parameters.aspect_ratio_info_present_flag;
    overscan_info_present_flag = sps.vui_parameters.overscan_info_present_flag;
    overscan_appropriate_flag = sps.vui_parameters.overscan_appropriate_flag;
    video_signal_type_present_flag = sps.vui_parameters.video_signal_type_present_flag;
    video_full_range_flag = sps.vui_parameters.video_full_range_flag;
    color_description_present_flag = sps.vui_parameters.colour_description_present_flag;
    chroma_loc_info_present_flag = sps.vui_parameters.chroma_loc_info_present_flag;
    timing_info_present_flag = sps.vui_parameters.timing_info_present_flag;
    fixed_frame_rate_flag = sps.vui_parameters.fixed_frame_rate_flag;
    bitstream_restriction_flag = sps.vui_parameters.bitstream_restriction_flag;
    nal_hrd_parameters_present_flag = sps.vui_parameters.nal_hrd_parameters_present_flag;
    vcl_hrd_parameters_present_flag = sps.vui_parameters.vcl_hrd_parameters_present_flag;
  };
  aspect_ratio_idc = get_h264_aspect_ratio_idc sps.vui_parameters.aspect_ratio_idc;
  sar_width = sps.vui_parameters.sar_width;
  sar_height = sps.vui_parameters.sar_height;
  video_format = sps.vui_parameters.video_format;
  colour_primaries = sps.vui_parameters.colour_primaries;
  transfer_characteristics = sps.vui_parameters.transfer_characteristics;
  matrix_coefficients = sps.vui_parameters.matrix_coefficients;
  num_units_in_tick = sps.vui_parameters.num_units_in_tick;
  time_scale = sps.vui_parameters.time_scale;
  max_num_reorder_frames = sps.vui_parameters.num_reorder_frames % 2 ^ 8;
  max_dec_frame_buffering = sps.vui_parameters.max_dec_frame_buffering % 2 ^ 8;
  chroma_sample_loc_type_top_field = sps.vui_parameters.chroma_sample_loc_type_top_field;
  chroma_sample_loc_type_bottom_field = sps.vui_parameters.chroma_sample_loc_type_bottom_field;
  p_hrd_parameters = hrd_pointer (hrd_of_sps sps);
}

-- `vkp->sps`
unfoldable pub sps_parameters : Sps → StdSps
sps_parameters sps = record {
  flags = record {
    constraint_set0_flag = sps.constraint_set0_flag;
    constraint_set1_flag = sps.constraint_set1_flag;
    constraint_set2_flag = sps.constraint_set2_flag;
    constraint_set3_flag = sps.constraint_set3_flag;
    constraint_set4_flag = sps.constraint_set4_flag;
    constraint_set5_flag = sps.constraint_set5_flag;
    direct_8x8_inference_flag = sps.direct_8x8_inference_flag;
    mb_adaptive_frame_field_flag = sps.mb_adaptive_frame_field_flag;
    frame_mbs_only_flag = sps.frame_mbs_only_flag;
    delta_pic_order_always_zero_flag = sps.delta_pic_order_always_zero_flag;
    separate_colour_plane_flag = sps.separate_colour_plane_flag;
    gaps_in_frame_num_value_allowed_flag = sps.gaps_in_frame_num_value_allowed_flag;
    qpprime_y_zero_transform_bypass_flag = sps.qpprime_y_zero_transform_bypass_flag;
    frame_cropping_flag = sps.frame_cropping_flag;
    seq_scaling_matrix_present_flag = sps.scaling_matrix_present_flag;
    vui_parameters_present_flag = sps.vui_parameters_present_flag;
  };
  profile_idc = get_h264_profile sps.profile_idc;
  level_idc = get_h264_level_idc sps.level_idc;
  chroma_format_idc = get_h264_chroma_format sps.chroma_format_idc;
  seq_parameter_set_id = sps.id % 2 ^ 8;
  bit_depth_luma_minus8 = sps.bit_depth_luma_minus8;
  bit_depth_chroma_minus8 = sps.bit_depth_chroma_minus8;
  log2_max_frame_num_minus4 = sps.log2_max_frame_num_minus4;
  pic_order_cnt_type = get_h264_poc_type sps.pic_order_cnt_type;
  offset_for_non_ref_pic = sps.offset_for_non_ref_pic;
  offset_for_top_to_bottom_field = sps.offset_for_top_to_bottom_field;
  log2_max_pic_order_cnt_lsb_minus4 = sps.log2_max_pic_order_cnt_lsb_minus4;
  num_ref_frames_in_pic_order_cnt_cycle = sps.num_ref_frames_in_pic_order_cnt_cycle;
  max_num_ref_frames = sps.num_ref_frames % 2 ^ 8;
  pic_width_in_mbs_minus1 = sps.pic_width_in_mbs_minus1;
  pic_height_in_map_units_minus1 = sps.pic_height_in_map_units_minus1;
  frame_crop_left_offset = sps.frame_crop_left_offset;
  frame_crop_right_offset = sps.frame_crop_right_offset;
  frame_crop_top_offset = sps.frame_crop_top_offset;
  frame_crop_bottom_offset = sps.frame_crop_bottom_offset;
  p_offset_for_ref_frame =
      if ltb 0 sps.num_ref_frames_in_pic_order_cnt_cycle then to_offset_for_ref_frame else null;
  p_scaling_lists = if sps.scaling_matrix_present_flag then to_scaling_lists_sps else null;
  p_sequence_parameter_set_vui = if sps.vui_parameters_present_flag then to_vui else null;
}

-- `vkp->pps`
unfoldable pub pps_parameters : Pps → StdPps
pps_parameters pps = record {
  flags = record {
    transform_8x8_mode_flag = pps.transform_8x8_mode_flag;
    redundant_pic_cnt_present_flag = pps.redundant_pic_cnt_present_flag;
    constrained_intra_pred_flag = pps.constrained_intra_pred_flag;
    deblocking_filter_control_present_flag = pps.deblocking_filter_control_present_flag;
    weighted_pred_flag = pps.weighted_pred_flag;
    bottom_field_pic_order_in_frame_present_flag = false;
    entropy_coding_mode_flag = pps.entropy_coding_mode_flag;
    pic_scaling_matrix_present_flag = pps.pic_scaling_matrix_present_flag;
  };
  seq_parameter_set_id = pps.sequence.id % 2 ^ 8;
  pic_parameter_set_id = pps.id % 2 ^ 8;
  num_ref_idx_l0_default_active_minus1 = pps.num_ref_idx_l0_active_minus1;
  num_ref_idx_l1_default_active_minus1 = pps.num_ref_idx_l1_active_minus1;
  weighted_bipred_idc = get_h264_weighted_bipred_idc pps.weighted_bipred_idc;
  pic_init_qp_minus26 = pps.pic_init_qp_minus26;
  pic_init_qs_minus26 = pps.pic_init_qs_minus26;
  chroma_qp_index_offset = pps.chroma_qp_index_offset;
  second_chroma_qp_index_offset = to_int8 pps.second_chroma_qp_index_offset;
  p_scaling_lists = if pps.pic_scaling_matrix_present_flag then to_scaling_lists_pps else null;
}

-- `vkp->scaling_lists_sps` and `vkp->scaling_lists_pps`
abbrev pub sps_lists : Sps → StdScalingLists
sps_lists sps = record {
  scaling_list_present_mask = 1;
  use_default_scaling_matrix_mask = 0;
  scaling_lists_4x4 = sps.scaling_lists_4x4;
  scaling_lists_8x8 = sps.scaling_lists_8x8;
}

abbrev pub pps_lists : Pps → StdScalingLists
pps_lists pps = record {
  scaling_list_present_mask = 1;
  use_default_scaling_matrix_mask = 0;
  scaling_lists_4x4 = pps.scaling_lists_4x4;
  scaling_lists_8x8 = pps.scaling_lists_8x8;
}
