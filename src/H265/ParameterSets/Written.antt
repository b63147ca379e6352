-- ===== src/H265/ParameterSets/Written.antt =====
-- What fill_sps, fill_pps and fill_vps of lib/plugins/gstvkh265dec.cpp write, structure by structure, with
-- the scaling list and the profile. `recent` is GST_CHECK_VERSION (1, 21, 1).
use gst_vk_video_parser.Prelude.{
  ℕ, ◌+◌, ◌*◌, ◌-◌, ◌%◌, ◌^◌, Bool, true, false, map, Option, none, some, take, ◌==◌, if◌then◌else◌,
}
use gst_vk_video_parser.Prelude.Int.{ℤ, pos, negsuc, to_int8}
use gst_vk_video_parser.H265.ParameterSets.Parsed.{ScalingList, Vps, Sps, Pps}
use gst_vk_video_parser.H265.ParameterSets.Std.{
  null, to_hrd, to_vui, to_profile_tier_level, to_pic_buf_mgr, to_scaling_lists_sps,
  to_scaling_lists_pps, StdScalingLists, StdHrd, StdVui, StdProfileTierLevel, StdSps, StdPps,
  StdVps,
}

-- STD_VIDEO_H265_PROFILE_IDC_INVALID
abbrev pub invalid_profile : ℕ
invalid_profile = 2 ^ 31 - 1

-- The four profiles have the same numbers in GstH265ProfileIDC and in StdVideoH265ProfileIdc.
unfoldable pub get_profile_idc : ℕ → ℕ
get_profile_idc profile_idc =
    if profile_idc == 1
    then 1
    else if profile_idc == 2
    then 2
    else if profile_idc == 3
    then 3
    else if profile_idc == 4
    then 4
    else invalid_profile

-- The low eight bits of a gint16 and 8.
abbrev pub plus_8 : ℤ → ℕ
plus_8 (pos c) = (c + 8) % 2 ^ 8
plus_8 (negsuc c) = (2 ^ 16 + 7 - c) % 2 ^ 8

unfoldable pub fill_scaling_list : ScalingList → StdScalingLists
fill_scaling_list src = record {
  scaling_lists_4x4 = src.scaling_lists_4x4;
  scaling_lists_8x8 = src.scaling_lists_8x8;
  scaling_lists_16x16 = src.scaling_lists_16x16;
  scaling_lists_32x32 = src.scaling_lists_32x32;
  scaling_list_dc_coef_16x16 = map plus_8 src.scaling_list_dc_coef_minus8_16x16;
  scaling_list_dc_coef_32x32 = map plus_8 src.scaling_list_dc_coef_minus8_32x32;
}

-- `vkp->hrd`, as fill_sps writes it.
unfoldable pub hrd_parameters : Sps → StdHrd
hrd_parameters sps = record {
  flags = record {
    nal_hrd_parameters_present_flag = sps.vui_params.hrd_params.nal_hrd_parameters_present_flag;
    vcl_hrd_parameters_present_flag = sps.vui_params.hrd_params.vcl_hrd_parameters_present_flag;
    sub_pic_hrd_params_present_flag = sps.vui_params.hrd_params.sub_pic_hrd_params_present_flag;
    sub_pic_cpb_params_in_pic_timing_sei_flag =
        sps.vui_params.hrd_params.sub_pic_cpb_params_in_pic_timing_sei_flag;
    fixed_pic_rate_general_flag = sps.vui_params.hrd_params.fixed_pic_rate_general_flag_0;
    fixed_pic_rate_within_cvs_flag = sps.vui_params.hrd_params.fixed_pic_rate_within_cvs_flag_0;
    low_delay_hrd_flag = sps.vui_params.hrd_params.low_delay_hrd_flag_0;
  };
  tick_divisor_minus2 = sps.vui_params.hrd_params.tick_divisor_minus2;
  du_cpb_removal_delay_increment_length_minus1 =
      sps.vui_params.hrd_params.du_cpb_removal_delay_increment_length_minus1;
  dpb_output_delay_du_length_minus1 = sps.vui_params.hrd_params.dpb_output_delay_du_length_minus1;
  bit_rate_scale = sps.vui_params.hrd_params.bit_rate_scale;
  cpb_size_scale = sps.vui_params.hrd_params.cpb_size_scale;
  cpb_size_du_scale = sps.vui_params.hrd_params.cpb_size_du_scale;
  initial_cpb_removal_delay_length_minus1 =
      sps.vui_params.hrd_params.initial_cpb_removal_delay_length_minus1;
  au_cpb_removal_delay_length_minus1 = sps.vui_params.hrd_params.au_cpb_removal_delay_length_minus1;
  dpb_output_delay_length_minus1 = sps.vui_params.hrd_params.dpb_output_delay_length_minus1;
  p_sub_layer_hrd_parameters_nal = null;
  p_sub_layer_hrd_parameters_vcl = null;
}

-- `vkp->vui`
unfoldable pub vui_parameters : Sps → StdVui
vui_parameters sps = record {
  flags = record {
    aspect_ratio_info_present_flag = sps.vui_params.aspect_ratio_info_present_flag;
    overscan_info_present_flag = sps.vui_params.overscan_info_present_flag;
    overscan_appropriate_flag = sps.vui_params.overscan_appropriate_flag;
    video_signal_type_present_flag = sps.vui_params.video_signal_type_present_flag;
    video_full_range_flag = sps.vui_params.video_full_range_flag;
    colour_description_present_flag = sps.vui_params.colour_description_present_flag;
    chroma_loc_info_present_flag = sps.vui_params.chroma_loc_info_present_flag;
    neutral_chroma_indication_flag = sps.vui_params.neutral_chroma_indication_flag;
    field_seq_flag = sps.vui_params.field_seq_flag;
    frame_field_info_present_flag = sps.vui_params.frame_field_info_present_flag;
    default_display_window_flag = sps.vui_params.default_display_window_flag;
    vui_timing_info_present_flag = sps.vui_params.timing_info_present_flag;
    vui_poc_proportional_to_timing_flag = sps.vui_params.poc_proportional_to_timing_flag;
    vui_hrd_parameters_present_flag = sps.vui_params.hrd_parameters_present_flag;
    bitstream_restriction_flag = sps.vui_params.bitstream_restriction_flag;
    tiles_fixed_structure_flag = sps.vui_params.tiles_fixed_structure_flag;
    motion_vectors_over_pic_boundaries_flag =
        sps.vui_params.motion_vectors_over_pic_boundaries_flag;
    restricted_ref_pic_lists_flag = sps.vui_params.restricted_ref_pic_lists_flag;
  };
  aspect_ratio_idc = sps.vui_params.aspect_ratio_idc;
  sar_width = sps.vui_params.sar_width;
  sar_height = sps.vui_params.sar_height;
  video_format = sps.vui_params.video_format;
  colour_primaries = sps.vui_params.colour_primaries;
  transfer_characteristics = sps.vui_params.transfer_characteristics;
  matrix_coeffs = sps.vui_params.matrix_coefficients;
  chroma_sample_loc_type_top_field = sps.vui_params.chroma_sample_loc_type_top_field;
  chroma_sample_loc_type_bottom_field = sps.vui_params.chroma_sample_loc_type_bottom_field;
  def_disp_win_left_offset = sps.vui_params.def_disp_win_left_offset % 2 ^ 16;
  def_disp_win_right_offset = sps.vui_params.def_disp_win_right_offset % 2 ^ 16;
  def_disp_win_top_offset = sps.vui_params.def_disp_win_top_offset % 2 ^ 16;
  def_disp_win_bottom_offset = sps.vui_params.def_disp_win_bottom_offset % 2 ^ 16;
  vui_num_units_in_tick = sps.vui_params.num_units_in_tick;
  vui_time_scale = sps.vui_params.time_scale;
  vui_num_ticks_poc_diff_one_minus1 = sps.vui_params.num_ticks_poc_diff_one_minus1;
  min_spatial_segmentation_idc = sps.vui_params.min_spatial_segmentation_idc;
  max_bytes_per_pic_denom = sps.vui_params.max_bytes_per_pic_denom;
  max_bits_per_min_cu_denom = sps.vui_params.max_bits_per_min_cu_denom;
  log2_max_mv_length_horizontal = sps.vui_params.log2_max_mv_length_horizontal;
  log2_max_mv_length_vertical = sps.vui_params.log2_max_mv_length_vertical;
  p_hrd_parameters = to_hrd;
}

-- `vkp->profileTierLevel`
unfoldable pub profile_tier_level_of : Sps → StdProfileTierLevel
profile_tier_level_of sps = record {
  flags = record {
    general_tier_flag = sps.profile_tier_level.tier_flag;
    general_progressive_source_flag = sps.profile_tier_level.progressive_source_flag;
    general_interlaced_source_flag = sps.profile_tier_level.interlaced_source_flag;
    general_non_packed_constraint_flag = sps.profile_tier_level.non_packed_constraint_flag;
    general_frame_only_constraint_flag = sps.profile_tier_level.frame_only_constraint_flag;
  };
  general_profile_idc = get_profile_idc sps.profile_tier_level.profile_idc;
  general_level_idc = sps.profile_tier_level.level_idc;
}

abbrev pub vps_id_or : ℕ → Option Vps → ℕ
vps_id_or id none = id
vps_id_or id (some vps) = vps.id

abbrev pub initial_vps_id : Bool → Sps → ℕ
initial_vps_id true sps = sps.vps_id
initial_vps_id false sps = vps_id_or 0 sps.vps

-- `vkp->sps`, before its extensions.
unfoldable pub first_sps : Bool → Sps → StdSps
first_sps recent sps = record {
  flags = record {
    sps_temporal_id_nesting_flag = sps.temporal_id_nesting_flag;
    separate_colour_plane_flag = sps.separate_colour_plane_flag;
    conformance_window_flag = sps.conformance_window_flag;
    sps_sub_layer_ordering_info_present_flag = sps.sub_layer_ordering_info_present_flag;
    scaling_list_enabled_flag = sps.scaling_list_enabled_flag;
    sps_scaling_list_data_present_flag = sps.scaling_list_data_present_flag;
    amp_enabled_flag = sps.amp_enabled_flag;
    sample_adaptive_offset_enabled_flag = sps.sample_adaptive_offset_enabled_flag;
    pcm_enabled_flag = sps.pcm_enabled_flag;
    pcm_loop_filter_disabled_flag = sps.pcm_loop_filter_disabled_flag;
    long_term_ref_pics_present_flag = sps.long_term_ref_pics_present_flag;
    sps_temporal_mvp_enabled_flag = sps.temporal_mvp_enabled_flag;
    strong_intra_smoothing_enabled_flag = sps.strong_intra_smoothing_enabled_flag;
    vui_parameters_present_flag = sps.vui_parameters_present_flag;
    sps_extension_present_flag = sps.sps_extension_flag;
    sps_range_extension_flag = sps.sps_range_extension_flag;
    transform_skip_rotation_enabled_flag = false;
    transform_skip_context_enabled_flag = false;
    implicit_rdpcm_enabled_flag = false;
    explicit_rdpcm_enabled_flag = false;
    extended_precision_processing_flag = false;
    intra_smoothing_disabled_flag = false;
    high_precision_offsets_enabled_flag = false;
    persistent_rice_adaptation_enabled_flag = false;
    cabac_bypass_alignment_enabled_flag = false;
    sps_scc_extension_flag = sps.sps_scc_extension_flag;
    sps_curr_pic_ref_enabled_flag = sps.sps_scc_extension_params.sps_curr_pic_ref_enabled_flag;
    palette_mode_enabled_flag = sps.sps_scc_extension_params.palette_mode_enabled_flag;
    sps_palette_predictor_initializers_present_flag =
        sps.sps_scc_extension_params.sps_palette_predictor_initializers_present_flag;
    intra_boundary_filtering_disabled_flag =
        sps.sps_scc_extension_params.intra_boundary_filtering_disabled_flag;
  };
  chroma_format_idc = sps.chroma_format_idc;
  pic_width_in_luma_samples = sps.pic_width_in_luma_samples;
  pic_height_in_luma_samples = sps.pic_height_in_luma_samples;
  sps_video_parameter_set_id = initial_vps_id recent sps;
  sps_max_sub_layers_minus1 = sps.max_sub_layers_minus1;
  sps_seq_parameter_set_id = sps.id;
  bit_depth_luma_minus8 = sps.bit_depth_luma_minus8;
  bit_depth_chroma_minus8 = sps.bit_depth_chroma_minus8;
  log2_max_pic_order_cnt_lsb_minus4 = sps.log2_max_pic_order_cnt_lsb_minus4;
  log2_min_luma_coding_block_size_minus3 = sps.log2_min_luma_coding_block_size_minus3;
  log2_diff_max_min_luma_coding_block_size = sps.log2_diff_max_min_luma_coding_block_size;
  log2_min_luma_transform_block_size_minus2 = sps.log2_min_transform_block_size_minus2;
  log2_diff_max_min_luma_transform_block_size = sps.log2_diff_max_min_transform_block_size;
  max_transform_hierarchy_depth_inter = sps.max_transform_hierarchy_depth_inter;
  max_transform_hierarchy_depth_intra = sps.max_transform_hierarchy_depth_intra;
  num_short_term_ref_pic_sets = sps.num_short_term_ref_pic_sets;
  num_long_term_ref_pics_sps = sps.num_long_term_ref_pics_sps;
  pcm_sample_bit_depth_luma_minus1 = sps.pcm_sample_bit_depth_luma_minus1;
  pcm_sample_bit_depth_chroma_minus1 = sps.pcm_sample_bit_depth_chroma_minus1;
  log2_min_pcm_luma_coding_block_size_minus3 = sps.log2_min_pcm_luma_coding_block_size_minus3;
  log2_diff_max_min_pcm_luma_coding_block_size = sps.log2_diff_max_min_pcm_luma_coding_block_size;
  palette_max_size = 0;
  delta_palette_max_predictor_size = 0;
  motion_vector_resolution_control_idc = 0;
  sps_num_palette_predictor_initializers_minus1 = 0;
  conf_win_left_offset = sps.conf_win_left_offset;
  conf_win_right_offset = sps.conf_win_right_offset;
  conf_win_top_offset = sps.conf_win_top_offset;
  conf_win_bottom_offset = sps.conf_win_bottom_offset;
  p_profile_tier_level = to_profile_tier_level;
  p_dec_pic_buf_mgr = to_pic_buf_mgr;
  p_scaling_lists = if sps.scaling_list_enabled_flag then to_scaling_lists_sps else null;
  p_short_term_ref_pic_set = null;
  p_long_term_ref_pics_sps = null;
  p_sequence_parameter_set_vui = to_vui;
  p_predictor_palette_entries = null;
}

-- `vkp->pps`
unfoldable pub pps_parameters : Bool → Pps → StdPps
pps_parameters recent pps = record {
  flags = record {
    dependent_slice_segments_enabled_flag = pps.dependent_slice_segments_enabled_flag;
    output_flag_present_flag = pps.output_flag_present_flag;
    sign_data_hiding_enabled_flag = pps.sign_data_hiding_enabled_flag;
    cabac_init_present_flag = pps.cabac_init_present_flag;
    constrained_intra_pred_flag = pps.constrained_intra_pred_flag;
    transform_skip_enabled_flag = pps.transform_skip_enabled_flag;
    cu_qp_delta_enabled_flag = pps.cu_qp_delta_enabled_flag;
    pps_slice_chroma_qp_offsets_present_flag = pps.slice_chroma_qp_offsets_present_flag;
    weighted_pred_flag = pps.weighted_pred_flag;
    weighted_bipred_flag = pps.weighted_bipred_flag;
    transquant_bypass_enabled_flag = pps.transquant_bypass_enabled_flag;
    tiles_enabled_flag = pps.tiles_enabled_flag;
    entropy_coding_sync_enabled_flag = pps.entropy_coding_sync_enabled_flag;
    uniform_spacing_flag = pps.uniform_spacing_flag;
    loop_filter_across_tiles_enabled_flag = pps.loop_filter_across_tiles_enabled_flag;
    pps_loop_filter_across_slices_enabled_flag = pps.loop_filter_across_slices_enabled_flag;
    deblocking_filter_control_present_flag = pps.deblocking_filter_control_present_flag;
    deblocking_filter_override_enabled_flag = pps.deblocking_filter_override_enabled_flag;
    pps_deblocking_filter_disabled_flag = pps.deblocking_filter_disabled_flag;
    pps_scaling_list_data_present_flag = pps.scaling_list_data_present_flag;
    lists_modification_present_flag = pps.lists_modification_present_flag;
    slice_segment_header_extension_present_flag = pps.slice_segment_header_extension_present_flag;
    pps_extension_present_flag = pps.pps_extension_flag;
    cross_component_prediction_enabled_flag =
        pps.pps_extension_params.cross_component_prediction_enabled_flag;
    chroma_qp_offset_list_enabled_flag =
        pps.pps_extension_params.chroma_qp_offset_list_enabled_flag;
    pps_curr_pic_ref_enabled_flag = pps.pps_scc_extension_params.pps_curr_pic_ref_enabled_flag;
    residual_adaptive_colour_transform_enabled_flag =
        pps.pps_scc_extension_params.residual_adaptive_colour_transform_enabled_flag;
    pps_slice_act_qp_offsets_present_flag =
        pps.pps_scc_extension_params.pps_slice_act_qp_offsets_present_flag;
    pps_palette_predictor_initializers_present_flag =
        pps.pps_scc_extension_params.pps_palette_predictor_initializers_present_flag;
    monochrome_palette_flag = pps.pps_scc_extension_params.monochrome_palette_flag;
    pps_range_extension_flag = pps.pps_range_extension_flag;
  };
  pps_pic_parameter_set_id = pps.id % 2 ^ 8;
  pps_seq_parameter_set_id = if recent then pps.sps_id % 2 ^ 8 else 0;
  num_extra_slice_header_bits = pps.num_extra_slice_header_bits;
  num_ref_idx_l0_default_active_minus1 = pps.num_ref_idx_l0_default_active_minus1;
  num_ref_idx_l1_default_active_minus1 = pps.num_ref_idx_l1_default_active_minus1;
  init_qp_minus26 = pps.init_qp_minus26;
  diff_cu_qp_delta_depth = pps.diff_cu_qp_delta_depth;
  pps_cb_qp_offset = pps.cb_qp_offset;
  pps_cr_qp_offset = pps.cr_qp_offset;
  pps_beta_offset_div2 = pps.beta_offset_div2;
  pps_tc_offset_div2 = pps.tc_offset_div2;
  log2_parallel_merge_level_minus2 = pps.log2_parallel_merge_level_minus2;
  log2_max_transform_skip_block_size_minus2 =
      pps.pps_extension_params.log2_max_transform_skip_block_size_minus2 % 2 ^ 8;
  diff_cu_chroma_qp_offset_depth = pps.pps_extension_params.diff_cu_chroma_qp_offset_depth;
  chroma_qp_offset_list_len_minus1 = pps.pps_extension_params.chroma_qp_offset_list_len_minus1;
  log2_sao_offset_scale_luma = pps.pps_extension_params.log2_sao_offset_scale_luma;
  log2_sao_offset_scale_chroma = pps.pps_extension_params.log2_sao_offset_scale_chroma;
  pps_act_y_qp_offset_plus5 = to_int8 pps.pps_scc_extension_params.pps_act_y_qp_offset_plus5;
  pps_act_cb_qp_offset_plus5 = to_int8 pps.pps_scc_extension_params.pps_act_cb_qp_offset_plus5;
  pps_act_cr_qp_offset_plus3 = to_int8 pps.pps_scc_extension_params.pps_act_cr_qp_offset_plus3;
  pps_num_palette_predictor_initializers =
      pps.pps_scc_extension_params.pps_num_palette_predictor_initializer;
  luma_bit_depth_entry_minus8 = pps.pps_scc_extension_params.luma_bit_depth_entry_minus8;
  chroma_bit_depth_entry_minus8 =
      pps.pps_scc_extension_params.chroma_bit_depth_entry_minus8 % 2 ^ 8;
  num_tile_columns_minus1 = pps.num_tile_columns_minus1;
  num_tile_rows_minus1 = pps.num_tile_rows_minus1;
  p_scaling_lists = if pps.scaling_list_data_present_flag then to_scaling_lists_pps else null;
  p_predictor_palette_entries = null;
  column_width_minus1 = take (19 * 2) pps.column_width_minus1;
  row_height_minus1 = take (21 * 2) pps.row_height_minus1;
}

-- `vkp->vps`
unfoldable pub vps_parameters : Vps → StdVps
vps_parameters vps = record {
  flags = record {
    vps_temporal_id_nesting_flag = vps.temporal_id_nesting_flag;
    vps_sub_layer_ordering_info_present_flag = vps.sub_layer_ordering_info_present_flag;
    vps_timing_info_present_flag = vps.timing_info_present_flag;
    vps_poc_proportional_to_timing_flag = vps.poc_proportional_to_timing_flag;
  };
  vps_video_parameter_set_id = vps.id;
  vps_max_sub_layers_minus1 = vps.max_sub_layers_minus1;
  vps_num_units_in_tick = vps.num_units_in_tick;
  vps_time_scale = vps.time_scale;
  vps_num_ticks_poc_diff_one_minus1 = vps.num_ticks_poc_diff_one_minus1;
  p_dec_pic_buf_mgr = to_pic_buf_mgr;
}
