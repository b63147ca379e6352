-- ===== src/H265/ParameterSets/Zero.antt =====
-- Structures of zeros: g_new0, and what the parser gives for parameter sets of zeros without arrays.
use gst_vk_video_parser.Prelude.{false, [], none, replicate}
use gst_vk_video_parser.Prelude.Int.{pos}
use gst_vk_video_parser.H265.ParameterSets.Parsed.{
  ScalingList, HrdParams, VuiParams, ProfileTierLevel, SpsExtensionParams, SpsSccExtensionParams,
  PpsExtensionParams, PpsSccExtensionParams, Vps, Sps, Pps,
}
use gst_vk_video_parser.H265.ParameterSets.Std.{
  null, StdDecPicBufMgr, StdScalingLists, StdHrdFlags, StdHrd, StdVuiFlags, StdVui,
  StdProfileTierLevelFlags, StdProfileTierLevel, StdSpsFlags, StdSps, StdPpsFlags, StdPps,
  StdVpsFlags, StdVps,
}
use gst_vk_video_parser.H265.ParameterSets.Fill.{VkH265Picture}

abbrev pub zero_scaling_list : ScalingList
zero_scaling_list = record {
  scaling_lists_4x4 = [];
  scaling_lists_8x8 = [];
  scaling_lists_16x16 = [];
  scaling_lists_32x32 = [];
  scaling_list_dc_coef_minus8_16x16 = [];
  scaling_list_dc_coef_minus8_32x32 = [];
}

abbrev pub zero_hrd_params : HrdParams
zero_hrd_params = record {
  nal_hrd_parameters_present_flag = false;
  vcl_hrd_parameters_present_flag = false;
  sub_pic_hrd_params_present_flag = false;
  sub_pic_cpb_params_in_pic_timing_sei_flag = false;
  fixed_pic_rate_general_flag_0 = 0;
  fixed_pic_rate_within_cvs_flag_0 = 0;
  low_delay_hrd_flag_0 = 0;
  tick_divisor_minus2 = 0;
  du_cpb_removal_delay_increment_length_minus1 = 0;
  dpb_output_delay_du_length_minus1 = 0;
  bit_rate_scale = 0;
  cpb_size_scale = 0;
  cpb_size_du_scale = 0;
  initial_cpb_removal_delay_length_minus1 = 0;
  au_cpb_removal_delay_length_minus1 = 0;
  dpb_output_delay_length_minus1 = 0;
}

abbrev pub zero_vui_params : VuiParams
zero_vui_params = record {
  aspect_ratio_info_present_flag = false;
  overscan_info_present_flag = false;
  overscan_appropriate_flag = false;
  video_signal_type_present_flag = false;
  video_full_range_flag = false;
  colour_description_present_flag = false;
  chroma_loc_info_present_flag = false;
  neutral_chroma_indication_flag = false;
  field_seq_flag = false;
  frame_field_info_present_flag = false;
  default_display_window_flag = false;
  timing_info_present_flag = false;
  poc_proportional_to_timing_flag = false;
  hrd_parameters_present_flag = false;
  bitstream_restriction_flag = false;
  tiles_fixed_structure_flag = false;
  motion_vectors_over_pic_boundaries_flag = false;
  restricted_ref_pic_lists_flag = false;
  aspect_ratio_idc = 0;
  sar_width = 0;
  sar_height = 0;
  video_format = 0;
  colour_primaries = 0;
  transfer_characteristics = 0;
  matrix_coefficients = 0;
  chroma_sample_loc_type_top_field = 0;
  chroma_sample_loc_type_bottom_field = 0;
  def_disp_win_left_offset = 0;
  def_disp_win_right_offset = 0;
  def_disp_win_top_offset = 0;
  def_disp_win_bottom_offset = 0;
  num_units_in_tick = 0;
  time_scale = 0;
  num_ticks_poc_diff_one_minus1 = 0;
  min_spatial_segmentation_idc = 0;
  max_bytes_per_pic_denom = 0;
  max_bits_per_min_cu_denom = 0;
  log2_max_mv_length_horizontal = 0;
  log2_max_mv_length_vertical = 0;
  hrd_params = zero_hrd_params;
}

abbrev pub zero_profile_tier_level : ProfileTierLevel
zero_profile_tier_level = record {
  tier_flag = false;
  progressive_source_flag = false;
  interlaced_source_flag = false;
  non_packed_constraint_flag = false;
  frame_only_constraint_flag = false;
  profile_idc = 0;
  level_idc = 0;
}

abbrev pub zero_sps_extension_params : SpsExtensionParams
zero_sps_extension_params = record {
  transform_skip_context_enabled_flag = false;
  implicit_rdpcm_enabled_flag = false;
  explicit_rdpcm_enabled_flag = false;
  extended_precision_processing_flag = false;
  intra_smoothing_disabled_flag = false;
  high_precision_offsets_enabled_flag = false;
  persistent_rice_adaptation_enabled_flag = false;
  cabac_bypass_alignment_enabled_flag = false;
}

abbrev pub zero_sps_scc_extension_params : SpsSccExtensionParams
zero_sps_scc_extension_params = record {
  sps_curr_pic_ref_enabled_flag = false;
  palette_mode_enabled_flag = false;
  sps_palette_predictor_initializers_present_flag = false;
  intra_boundary_filtering_disabled_flag = false;
  palette_max_size = 0;
  delta_palette_max_predictor_size = 0;
  motion_vector_resolution_control_idc = 0;
  sps_num_palette_predictor_initializer_minus1 = 0;
}

abbrev pub zero_pps_extension_params : PpsExtensionParams
zero_pps_extension_params = record {
  cross_component_prediction_enabled_flag = false;
  chroma_qp_offset_list_enabled_flag = false;
  log2_max_transform_skip_block_size_minus2 = 0;
  diff_cu_chroma_qp_offset_depth = 0;
  chroma_qp_offset_list_len_minus1 = 0;
  log2_sao_offset_scale_luma = 0;
  log2_sao_offset_scale_chroma = 0;
}

abbrev pub zero_pps_scc_extension_params : PpsSccExtensionParams
zero_pps_scc_extension_params = record {
  pps_curr_pic_ref_enabled_flag = false;
  residual_adaptive_colour_transform_enabled_flag = false;
  pps_slice_act_qp_offsets_present_flag = false;
  pps_palette_predictor_initializers_present_flag = false;
  monochrome_palette_flag = false;
  pps_act_y_qp_offset_plus5 = pos 0;
  pps_act_cb_qp_offset_plus5 = pos 0;
  pps_act_cr_qp_offset_plus3 = pos 0;
  pps_num_palette_predictor_initializer = 0;
  luma_bit_depth_entry_minus8 = 0;
  chroma_bit_depth_entry_minus8 = 0;
}

abbrev pub zero_vps : Vps
zero_vps = record {
  hrd_params = zero_hrd_params;
  temporal_id_nesting_flag = false;
  sub_layer_ordering_info_present_flag = false;
  timing_info_present_flag = false;
  poc_proportional_to_timing_flag = false;
  id = 0;
  max_sub_layers_minus1 = 0;
  num_units_in_tick = 0;
  time_scale = 0;
  num_ticks_poc_diff_one_minus1 = 0;
  max_latency_increase_plus1 = [];
  max_dec_pic_buffering_minus1 = [];
  max_num_reorder_pics = [];
  profile_tier_level = zero_profile_tier_level;
}

abbrev pub zero_sps : Sps
zero_sps = record {
  crop_rect_width = 0;
  crop_rect_height = 0;
  temporal_id_nesting_flag = false;
  separate_colour_plane_flag = false;
  conformance_window_flag = false;
  sub_layer_ordering_info_present_flag = false;
  scaling_list_enabled_flag = false;
  scaling_list_data_present_flag = false;
  amp_enabled_flag = false;
  sample_adaptive_offset_enabled_flag = false;
  pcm_enabled_flag = false;
  pcm_loop_filter_disabled_flag = false;
  long_term_ref_pics_present_flag = false;
  temporal_mvp_enabled_flag = false;
  strong_intra_smoothing_enabled_flag = false;
  vui_parameters_present_flag = false;
  sps_extension_flag = false;
  sps_range_extension_flag = false;
  sps_scc_extension_flag = false;
  chroma_format_idc = 0;
  pic_width_in_luma_samples = 0;
  pic_height_in_luma_samples = 0;
  max_sub_layers_minus1 = 0;
  id = 0;
  bit_depth_luma_minus8 = 0;
  bit_depth_chroma_minus8 = 0;
  log2_max_pic_order_cnt_lsb_minus4 = 0;
  log2_min_luma_coding_block_size_minus3 = 0;
  log2_diff_max_min_luma_coding_block_size = 0;
  log2_min_transform_block_size_minus2 = 0;
  log2_diff_max_min_transform_block_size = 0;
  max_transform_hierarchy_depth_inter = 0;
  max_transform_hierarchy_depth_intra = 0;
  num_short_term_ref_pic_sets = 0;
  num_long_term_ref_pics_sps = 0;
  pcm_sample_bit_depth_luma_minus1 = 0;
  pcm_sample_bit_depth_chroma_minus1 = 0;
  log2_min_pcm_luma_coding_block_size_minus3 = 0;
  log2_diff_max_min_pcm_luma_coding_block_size = 0;
  conf_win_left_offset = 0;
  conf_win_right_offset = 0;
  conf_win_top_offset = 0;
  conf_win_bottom_offset = 0;
  vps_id = 0;
  vps = none;
  scaling_list = zero_scaling_list;
  width = 0;
  height = 0;
  vui_params = zero_vui_params;
  profile_tier_level = zero_profile_tier_level;
  sps_extension_params = zero_sps_extension_params;
  sps_scc_extension_params = zero_sps_scc_extension_params;
}

abbrev pub zero_pps : Pps
zero_pps = record {
  dependent_slice_segments_enabled_flag = false;
  output_flag_present_flag = false;
  sign_data_hiding_enabled_flag = false;
  cabac_init_present_flag = false;
  constrained_intra_pred_flag = false;
  transform_skip_enabled_flag = false;
  cu_qp_delta_enabled_flag = false;
  slice_chroma_qp_offsets_present_flag = false;
  weighted_pred_flag = false;
  weighted_bipred_flag = false;
  transquant_bypass_enabled_flag = false;
  tiles_enabled_flag = false;
  entropy_coding_sync_enabled_flag = false;
  uniform_spacing_flag = false;
  loop_filter_across_tiles_enabled_flag = false;
  loop_filter_across_slices_enabled_flag = false;
  deblocking_filter_control_present_flag = false;
  deblocking_filter_override_enabled_flag = false;
  deblocking_filter_disabled_flag = false;
  scaling_list_data_present_flag = false;
  lists_modification_present_flag = false;
  slice_segment_header_extension_present_flag = false;
  pps_extension_flag = false;
  pps_range_extension_flag = false;
  id = 0;
  num_extra_slice_header_bits = 0;
  num_ref_idx_l0_default_active_minus1 = 0;
  num_ref_idx_l1_default_active_minus1 = 0;
  init_qp_minus26 = pos 0;
  diff_cu_qp_delta_depth = 0;
  cb_qp_offset = pos 0;
  cr_qp_offset = pos 0;
  beta_offset_div2 = pos 0;
  tc_offset_div2 = pos 0;
  log2_parallel_merge_level_minus2 = 0;
  num_tile_columns_minus1 = 0;
  num_tile_rows_minus1 = 0;
  sps_id = 0;
  column_width_minus1 = [];
  row_height_minus1 = [];
  scaling_list = zero_scaling_list;
  pps_scc_extension_flag = false;
  pps_extension_params = zero_pps_extension_params;
  pps_scc_extension_params = zero_pps_scc_extension_params;
}

abbrev pub zero_std_dec_pic_buf_mgr : StdDecPicBufMgr
zero_std_dec_pic_buf_mgr = record {
  max_latency_increase_plus1 = replicate 28 0;
  max_dec_pic_buffering_minus1 = replicate 7 0;
  max_num_reorder_pics = replicate 7 0;
}

abbrev pub zero_std_scaling_lists : StdScalingLists
zero_std_scaling_lists = record {
  scaling_lists_4x4 = replicate 6 (replicate 16 0);
  scaling_lists_8x8 = replicate 6 (replicate 64 0);
  scaling_lists_16x16 = replicate 6 (replicate 64 0);
  scaling_lists_32x32 = replicate 2 (replicate 64 0);
  scaling_list_dc_coef_16x16 = replicate 6 0;
  scaling_list_dc_coef_32x32 = replicate 2 0;
}

abbrev pub zero_std_hrd_flags : StdHrdFlags
zero_std_hrd_flags = record {
  nal_hrd_parameters_present_flag = false;
  vcl_hrd_parameters_present_flag = false;
  sub_pic_hrd_params_present_flag = false;
  sub_pic_cpb_params_in_pic_timing_sei_flag = false;
  fixed_pic_rate_general_flag = 0;
  fixed_pic_rate_within_cvs_flag = 0;
  low_delay_hrd_flag = 0;
}

abbrev pub zero_std_hrd : StdHrd
zero_std_hrd = record {
  flags = zero_std_hrd_flags;
  tick_divisor_minus2 = 0;
  du_cpb_removal_delay_increment_length_minus1 = 0;
  dpb_output_delay_du_length_minus1 = 0;
  bit_rate_scale = 0;
  cpb_size_scale = 0;
  cpb_size_du_scale = 0;
  initial_cpb_removal_delay_length_minus1 = 0;
  au_cpb_removal_delay_length_minus1 = 0;
  dpb_output_delay_length_minus1 = 0;
  p_sub_layer_hrd_parameters_nal = null;
  p_sub_layer_hrd_parameters_vcl = null;
}

abbrev pub zero_std_vui_flags : StdVuiFlags
zero_std_vui_flags = record {
  aspect_ratio_info_present_flag = false;
  overscan_info_present_flag = false;
  overscan_appropriate_flag = false;
  video_signal_type_present_flag = false;
  video_full_range_flag = false;
  colour_description_present_flag = false;
  chroma_loc_info_present_flag = false;
  neutral_chroma_indication_flag = false;
  field_seq_flag = false;
  frame_field_info_present_flag = false;
  default_display_window_flag = false;
  vui_timing_info_present_flag = false;
  vui_poc_proportional_to_timing_flag = false;
  vui_hrd_parameters_present_flag = false;
  bitstream_restriction_flag = false;
  tiles_fixed_structure_flag = false;
  motion_vectors_over_pic_boundaries_flag = false;
  restricted_ref_pic_lists_flag = false;
}

abbrev pub zero_std_vui : StdVui
zero_std_vui = record {
  flags = zero_std_vui_flags;
  aspect_ratio_idc = 0;
  sar_width = 0;
  sar_height = 0;
  video_format = 0;
  colour_primaries = 0;
  transfer_characteristics = 0;
  matrix_coeffs = 0;
  chroma_sample_loc_type_top_field = 0;
  chroma_sample_loc_type_bottom_field = 0;
  def_disp_win_left_offset = 0;
  def_disp_win_right_offset = 0;
  def_disp_win_top_offset = 0;
  def_disp_win_bottom_offset = 0;
  vui_num_units_in_tick = 0;
  vui_time_scale = 0;
  vui_num_ticks_poc_diff_one_minus1 = 0;
  min_spatial_segmentation_idc = 0;
  max_bytes_per_pic_denom = 0;
  max_bits_per_min_cu_denom = 0;
  log2_max_mv_length_horizontal = 0;
  log2_max_mv_length_vertical = 0;
  p_hrd_parameters = null;
}

abbrev pub zero_std_profile_tier_level_flags : StdProfileTierLevelFlags
zero_std_profile_tier_level_flags = record {
  general_tier_flag = false;
  general_progressive_source_flag = false;
  general_interlaced_source_flag = false;
  general_non_packed_constraint_flag = false;
  general_frame_only_constraint_flag = false;
}

abbrev pub zero_std_profile_tier_level : StdProfileTierLevel
zero_std_profile_tier_level = record {
  flags = zero_std_profile_tier_level_flags;
  general_profile_idc = 0;
  general_level_idc = 0;
}

abbrev pub zero_std_sps_flags : StdSpsFlags
zero_std_sps_flags = record {
  sps_temporal_id_nesting_flag = false;
  separate_colour_plane_flag = false;
  conformance_window_flag = false;
  sps_sub_layer_ordering_info_present_flag = false;
  scaling_list_enabled_flag = false;
  sps_scaling_list_data_present_flag = false;
  amp_enabled_flag = false;
  sample_adaptive_offset_enabled_flag = false;
  pcm_enabled_flag = false;
  pcm_loop_filter_disabled_flag = false;
  long_term_ref_pics_present_flag = false;
  sps_temporal_mvp_enabled_flag = false;
  strong_intra_smoothing_enabled_flag = false;
  vui_parameters_present_flag = false;
  sps_extension_present_flag = false;
  sps_range_extension_flag = false;
  transform_skip_rotation_enabled_flag = false;
  transform_skip_context_enabled_flag = false;
  implicit_rdpcm_enabled_flag = false;
  explicit_rdpcm_enabled_flag = false;
  extended_precision_processing_flag = false;
  intra_smoothing_disabled_flag = false;
  high_precision_offsets_enabled_flag = false;
  persistent_rice_adaptation_enabled_flag = false;
  cabac_bypass_alignment_enabled_flag = false;
  sps_scc_extension_flag = false;
  sps_curr_pic_ref_enabled_flag = false;
  palette_mode_enabled_flag = false;
  sps_palette_predictor_initializers_present_flag = false;
  intra_boundary_filtering_disabled_flag = false;
}

abbrev pub zero_std_sps : StdSps
zero_std_sps = record {
  flags = zero_std_sps_flags;
  chroma_format_idc = 0;
  pic_width_in_luma_samples = 0;
  pic_height_in_luma_samples = 0;
  sps_video_parameter_set_id = 0;
  sps_max_sub_layers_minus1 = 0;
  sps_seq_parameter_set_id = 0;
  bit_depth_luma_minus8 = 0;
  bit_depth_chroma_minus8 = 0;
  log2_max_pic_order_cnt_lsb_minus4 = 0;
  log2_min_luma_coding_block_size_minus3 = 0;
  log2_diff_max_min_luma_coding_block_size = 0;
  log2_min_luma_transform_block_size_minus2 = 0;
  log2_diff_max_min_luma_transform_block_size = 0;
  max_transform_hierarchy_depth_inter = 0;
  max_transform_hierarchy_depth_intra = 0;
  num_short_term_ref_pic_sets = 0;
  num_long_term_ref_pics_sps = 0;
  pcm_sample_bit_depth_luma_minus1 = 0;
  pcm_sample_bit_depth_chroma_minus1 = 0;
  log2_min_pcm_luma_coding_block_size_minus3 = 0;
  log2_diff_max_min_pcm_luma_coding_block_size = 0;
  palette_max_size = 0;
  delta_palette_max_predictor_size = 0;
  motion_vector_resolution_control_idc = 0;
  sps_num_palette_predictor_initializers_minus1 = 0;
  conf_win_left_offset = 0;
  conf_win_right_offset = 0;
  conf_win_top_offset = 0;
  conf_win_bottom_offset = 0;
  p_profile_tier_level = null;
  p_dec_pic_buf_mgr = null;
  p_scaling_lists = null;
  p_short_term_ref_pic_set = null;
  p_long_term_ref_pics_sps = null;
  p_sequence_parameter_set_vui = null;
  p_predictor_palette_entries = null;
}

abbrev pub zero_std_pps_flags : StdPpsFlags
zero_std_pps_flags = record {
  dependent_slice_segments_enabled_flag = false;
  output_flag_present_flag = false;
  sign_data_hiding_enabled_flag = false;
  cabac_init_present_flag = false;
  constrained_intra_pred_flag = false;
  transform_skip_enabled_flag = false;
  cu_qp_delta_enabled_flag = false;
  pps_slice_chroma_qp_offsets_present_flag = false;
  weighted_pred_flag = false;
  weighted_bipred_flag = false;
  transquant_bypass_enabled_flag = false;
  tiles_enabled_flag = false;
  entropy_coding_sync_enabled_flag = false;
  uniform_spacing_flag = false;
  loop_filter_across_tiles_enabled_flag = false;
  pps_loop_filter_across_slices_enabled_flag = false;
  deblocking_filter_control_present_flag = false;
  deblocking_filter_override_enabled_flag = false;
  pps_deblocking_filter_disabled_flag = false;
  pps_scaling_list_data_present_flag = false;
  lists_modification_present_flag = false;
  slice_segment_header_extension_present_flag = false;
  pps_extension_present_flag = false;
  cross_component_prediction_enabled_flag = false;
  chroma_qp_offset_list_enabled_flag = false;
  pps_curr_pic_ref_enabled_flag = false;
  residual_adaptive_colour_transform_enabled_flag = false;
  pps_slice_act_qp_offsets_present_flag = false;
  pps_palette_predictor_initializers_present_flag = false;
  monochrome_palette_flag = false;
  pps_range_extension_flag = false;
}

abbrev pub zero_std_pps : StdPps
zero_std_pps = record {
  flags = zero_std_pps_flags;
  pps_pic_parameter_set_id = 0;
  pps_seq_parameter_set_id = 0;
  num_extra_slice_header_bits = 0;
  num_ref_idx_l0_default_active_minus1 = 0;
  num_ref_idx_l1_default_active_minus1 = 0;
  init_qp_minus26 = pos 0;
  diff_cu_qp_delta_depth = 0;
  pps_cb_qp_offset = pos 0;
  pps_cr_qp_offset = pos 0;
  pps_beta_offset_div2 = pos 0;
  pps_tc_offset_div2 = pos 0;
  log2_parallel_merge_level_minus2 = 0;
  log2_max_transform_skip_block_size_minus2 = 0;
  diff_cu_chroma_qp_offset_depth = 0;
  chroma_qp_offset_list_len_minus1 = 0;
  log2_sao_offset_scale_luma = 0;
  log2_sao_offset_scale_chroma = 0;
  pps_act_y_qp_offset_plus5 = pos 0;
  pps_act_cb_qp_offset_plus5 = pos 0;
  pps_act_cr_qp_offset_plus3 = pos 0;
  pps_num_palette_predictor_initializers = 0;
  luma_bit_depth_entry_minus8 = 0;
  chroma_bit_depth_entry_minus8 = 0;
  num_tile_columns_minus1 = 0;
  num_tile_rows_minus1 = 0;
  p_scaling_lists = null;
  p_predictor_palette_entries = null;
  column_width_minus1 = replicate 38 0;
  row_height_minus1 = replicate 42 0;
}

abbrev pub zero_std_vps_flags : StdVpsFlags
zero_std_vps_flags = record {
  vps_temporal_id_nesting_flag = false;
  vps_sub_layer_ordering_info_present_flag = false;
  vps_timing_info_present_flag = false;
  vps_poc_proportional_to_timing_flag = false;
}

abbrev pub zero_std_vps : StdVps
zero_std_vps = record {
  flags = zero_std_vps_flags;
  vps_video_parameter_set_id = 0;
  vps_max_sub_layers_minus1 = 0;
  vps_num_units_in_tick = 0;
  vps_time_scale = 0;
  vps_num_ticks_poc_diff_one_minus1 = 0;
  p_dec_pic_buf_mgr = null;
}

-- A VkPic's VkH265Picture when it is new.
abbrev pub zero_picture : VkH265Picture
zero_picture = record {
  hrd = zero_std_hrd;
  vui = zero_std_vui;
  profile_tier_level = zero_std_profile_tier_level;
  sps = zero_std_sps;
  pps = zero_std_pps;
  vps = zero_std_vps;
  pic_buf_mgr = zero_std_dec_pic_buf_mgr;
  scaling_lists_sps = zero_std_scaling_lists;
  scaling_lists_pps = zero_std_scaling_lists;
}
