-- ===== src/H264/ParameterSets/Zero.antt =====
-- Structures of zeros: g_new0, and what the parser gives for parameter sets of zeros without arrays.
use gst_vk_video_parser.Prelude.{false, [], replicate}
use gst_vk_video_parser.Prelude.Int.{pos}
use gst_vk_video_parser.H264.Sequence.{invalid}
use gst_vk_video_parser.H264.SliceGroups.{SliceGroupParams}
use gst_vk_video_parser.H264.ParameterSets.Parsed.{HrdParams, VuiParams, Sps, Pps}
use gst_vk_video_parser.H264.ParameterSets.Std.{
  null, StdScalingLists, StdHrd, StdVuiFlags, StdVui, StdSpsFlags, StdSps, StdPpsFlags, StdPps,
}
use gst_vk_video_parser.H264.ParameterSets.Fill.{VkH264Picture}

abbrev pub one_group : SliceGroupParams
one_group = record {
  pic_size_in_map_units_minus1 = 0;
  num_slice_groups_minus1 = 0;
  slice_group_map_type = 0;
  run_length_minus1 = [];
  top_left = [];
  bottom_right = [];
  slice_group_id = [];
  pic_width_in_mbs_minus1 = 0;
}

abbrev pub zero_hrd_params : HrdParams
zero_hrd_params = record {
  cpb_cnt_minus1 = 0;
  bit_rate_scale = 0;
  cpb_size_scale = 0;
  initial_cpb_removal_delay_length_minus1 = 0;
  cpb_removal_delay_length_minus1 = 0;
  dpb_output_delay_length_minus1 = 0;
  time_offset_length = 0;
  bit_rate_value_minus1 = [];
  cpb_size_value_minus1 = [];
  cbr_flag = [];
}

abbrev pub zero_vui_params : VuiParams
zero_vui_params = record {
  aspect_ratio_info_present_flag = false;
  overscan_info_present_flag = false;
  overscan_appropriate_flag = false;
  video_signal_type_present_flag = false;
  video_full_range_flag = false;
  colour_description_present_flag = false;
  chroma_loc_info_present_flag = false;
  timing_info_present_flag = false;
  fixed_frame_rate_flag = false;
  bitstream_restriction_flag = false;
  nal_hrd_parameters_present_flag = false;
  vcl_hrd_parameters_present_flag = false;
  aspect_ratio_idc = 0;
  sar_width = 0;
  sar_height = 0;
  video_format = 0;
  colour_primaries = 0;
  transfer_characteristics = 0;
  matrix_coefficients = 0;
  num_units_in_tick = 0;
  time_scale = 0;
  num_reorder_frames = 0;
  max_dec_frame_buffering = 0;
  chroma_sample_loc_type_top_field = 0;
  chroma_sample_loc_type_bottom_field = 0;
  nal_hrd_parameters = zero_hrd_params;
  vcl_hrd_parameters = zero_hrd_params;
}

abbrev pub zero_sps : Sps
zero_sps = record {
  constraint_set0_flag = false;
  constraint_set1_flag = false;
  constraint_set2_flag = false;
  constraint_set3_flag = false;
  constraint_set4_flag = false;
  constraint_set5_flag = false;
  direct_8x8_inference_flag = false;
  mb_adaptive_frame_field_flag = false;
  frame_mbs_only_flag = false;
  delta_pic_order_always_zero_flag = false;
  separate_colour_plane_flag = false;
  gaps_in_frame_num_value_allowed_flag = false;
  qpprime_y_zero_transform_bypass_flag = false;
  frame_cropping_flag = false;
  scaling_matrix_present_flag = false;
  vui_parameters_present_flag = false;
  profile_idc = 0;
  level_idc = 0;
  chroma_format_idc = 0;
  id = 0;
  bit_depth_luma_minus8 = 0;
  bit_depth_chroma_minus8 = 0;
  log2_max_frame_num_minus4 = 0;
  pic_order_cnt_type = 0;
  offset_for_non_ref_pic = pos 0;
  offset_for_top_to_bottom_field = pos 0;
  log2_max_pic_order_cnt_lsb_minus4 = 0;
  num_ref_frames_in_pic_order_cnt_cycle = 0;
  num_ref_frames = 0;
  pic_width_in_mbs_minus1 = 0;
  pic_height_in_map_units_minus1 = 0;
  frame_crop_left_offset = 0;
  frame_crop_right_offset = 0;
  frame_crop_top_offset = 0;
  frame_crop_bottom_offset = 0;
  scaling_lists_4x4 = [];
  scaling_lists_8x8 = [];
  offset_for_ref_frame = [];
  width = 0;
  height = 0;
  vui_parameters = zero_vui_params;
}

abbrev pub zero_pps : Pps
zero_pps = record {
  transform_8x8_mode_flag = false;
  redundant_pic_cnt_present_flag = false;
  constrained_intra_pred_flag = false;
  deblocking_filter_control_present_flag = false;
  weighted_pred_flag = false;
  entropy_coding_mode_flag = false;
  pic_scaling_matrix_present_flag = false;
  id = 0;
  num_ref_idx_l0_active_minus1 = 0;
  num_ref_idx_l1_active_minus1 = 0;
  weighted_bipred_idc = 0;
  pic_init_qp_minus26 = pos 0;
  pic_init_qs_minus26 = pos 0;
  chroma_qp_index_offset = pos 0;
  second_chroma_qp_index_offset = pos 0;
  scaling_lists_4x4 = [];
  scaling_lists_8x8 = [];
  pic_order_present_flag = false;
  slice_group_change_rate_minus1 = 0;
  slice_groups = one_group;
  sequence = zero_sps;
}

abbrev pub zero_std_scaling_lists : StdScalingLists
zero_std_scaling_lists = record {
  scaling_list_present_mask = 0;
  use_default_scaling_matrix_mask = 0;
  scaling_lists_4x4 = replicate 6 (replicate 16 0);
  scaling_lists_8x8 = replicate 6 (replicate 64 0);
}

abbrev pub zero_std_hrd : StdHrd
zero_std_hrd = record {
  cpb_cnt_minus1 = 0;
  bit_rate_scale = 0;
  cpb_size_scale = 0;
  initial_cpb_removal_delay_length_minus1 = 0;
  cpb_removal_delay_length_minus1 = 0;
  dpb_output_delay_length_minus1 = 0;
  time_offset_length = 0;
  bit_rate_value_minus1 = replicate 32 0;
  cpb_size_value_minus1 = replicate 32 0;
  cbr_flag = replicate 32 0;
}

abbrev pub zero_std_vui_flags : StdVuiFlags
zero_std_vui_flags = record {
  aspect_ratio_info_present_flag = false;
  overscan_info_present_flag = false;
  overscan_appropriate_flag = false;
  video_signal_type_present_flag = false;
  video_full_range_flag = false;
  color_description_present_flag = false;
  chroma_loc_info_present_flag = false;
  timing_info_present_flag = false;
  fixed_frame_rate_flag = false;
  bitstream_restriction_flag = false;
  nal_hrd_parameters_present_flag = false;
  vcl_hrd_parameters_present_flag = false;
}

abbrev pub zero_std_vui : StdVui
zero_std_vui = record {
  flags = zero_std_vui_flags;
  aspect_ratio_idc = 0;
  sar_width = 0;
  sar_height = 0;
  video_format = 0;
  colour_primaries = 0;
  transfer_characteristics = 0;
  matrix_coefficients = 0;
  num_units_in_tick = 0;
  time_scale = 0;
  max_num_reorder_frames = 0;
  max_dec_frame_buffering = 0;
  chroma_sample_loc_type_top_field = 0;
  chroma_sample_loc_type_bottom_field = 0;
  p_hrd_parameters = null;
}

abbrev pub zero_std_sps_flags : StdSpsFlags
zero_std_sps_flags = record {
  constraint_set0_flag = false;
  constraint_set1_flag = false;
  constraint_set2_flag = false;
  constraint_set3_flag = false;
  constraint_set4_flag = false;
  constraint_set5_flag = false;
  direct_8x8_inference_flag = false;
  mb_adaptive_frame_field_flag = false;
  frame_mbs_only_flag = false;
  delta_pic_order_always_zero_flag = false;
  separate_colour_plane_flag = false;
  gaps_in_frame_num_value_allowed_flag = false;
  qpprime_y_zero_transform_bypass_flag = false;
  frame_cropping_flag = false;
  seq_scaling_matrix_present_flag = false;
  vui_parameters_present_flag = false;
}

abbrev pub zero_std_sps : StdSps
zero_std_sps = record {
  flags = zero_std_sps_flags;
  profile_idc = 0;
  level_idc = invalid;
  chroma_format_idc = 0;
  seq_parameter_set_id = 0;
  bit_depth_luma_minus8 = 0;
  bit_depth_chroma_minus8 = 0;
  log2_max_frame_num_minus4 = 0;
  pic_order_cnt_type = 0;
  offset_for_non_ref_pic = pos 0;
  offset_for_top_to_bottom_field = pos 0;
  log2_max_pic_order_cnt_lsb_minus4 = 0;
  num_ref_frames_in_pic_order_cnt_cycle = 0;
  max_num_ref_frames = 0;
  pic_width_in_mbs_minus1 = 0;
  pic_height_in_map_units_minus1 = 0;
  frame_crop_left_offset = 0;
  frame_crop_right_offset = 0;
  frame_crop_top_offset = 0;
  frame_crop_bottom_offset = 0;
  p_offset_for_ref_frame = null;
  p_scaling_lists = null;
  p_sequence_parameter_set_vui = null;
}

abbrev pub zero_std_pps_flags : StdPpsFlags
zero_std_pps_flags = record {
  transform_8x8_mode_flag = false;
  redundant_pic_cnt_present_flag = false;
  constrained_intra_pred_flag = false;
  deblocking_filter_control_present_flag = false;
  weighted_pred_flag = false;
  bottom_field_pic_order_in_frame_present_flag = false;
  entropy_coding_mode_flag = false;
  pic_scaling_matrix_present_flag = false;
}

abbrev pub zero_std_pps : StdPps
zero_std_pps = record {
  flags = zero_std_pps_flags;
  seq_parameter_set_id = 0;
  pic_parameter_set_id = 0;
  num_ref_idx_l0_default_active_minus1 = 0;
  num_ref_idx_l1_default_active_minus1 = 0;
  weighted_bipred_idc = 0;
  pic_init_qp_minus26 = pos 0;
  pic_init_qs_minus26 = pos 0;
  chroma_qp_index_offset = pos 0;
  second_chroma_qp_index_offset = pos 0;
  p_scaling_lists = null;
}

abbrev pub zero_picture : VkH264Picture
zero_picture = record {
  hrd = zero_std_hrd;
  vui = zero_std_vui;
  sps = zero_std_sps;
  pps = zero_std_pps;
  scaling_lists_sps = zero_std_scaling_lists;
  scaling_lists_pps = zero_std_scaling_lists;
  offset_for_ref_frame = replicate 255 (pos 0);
}
