-- ===== src/H265/ParameterSets/Contents.antt =====
-- What the structures of Vulkan Video are to hold of a parameter set, field by field: the member of the
-- parser's structure with the same meaning, in the width of the field. Where the code has no such
-- member the comment says what the field holds. `recent` is GST_CHECK_VERSION (1, 21, 1).
use gst_vk_video_parser.Prelude.{
  ℕ, ◌*◌, ◌%◌, ◌-◌, ◌^◌, ◌≡◌, refl, ap, ◌∙◌, Bool, true, false, ◌&&◌, map, Option, none, some, take,
  leb, if◌then◌else◌, arith, Bool-cases, Option-cases, inl, inr,
}
use gst_vk_video_parser.Prelude.Int.{to_int8}
use gst_vk_video_parser.H265.ParameterSets.Parsed.{ScalingList, Vps, Sps, Pps}
use gst_vk_video_parser.H265.ParameterSets.Std.{
  null, to_hrd, to_vui, to_profile_tier_level, to_pic_buf_mgr, to_scaling_lists_sps,
  to_scaling_lists_pps, StdScalingLists, StdHrd, StdVui, StdProfileTierLevel, StdSps, StdPps,
  StdVps,
}
use gst_vk_video_parser.H265.ParameterSets.Written.{
  plus_8, get_profile_idc, vps_id_or, initial_vps_id, fill_scaling_list, hrd_parameters,
  vui_parameters, profile_tier_level_of, first_sps, pps_parameters, vps_parameters,
}
use gst_vk_video_parser.H265.ParameterSets.Fill.{fill_extension, fill_scc_extension, sps_parameters}

-- The number of the video parameter set: that of the parameter set that the sequence points to, or what
-- the parser read, where it tells it.
abbrev pub video_id : Bool → ℕ → Option Vps → ℕ
video_id recent read (some vps) = vps.id
video_id true read none = read
video_id false read none = 0

-- A scaling list, its DC coefficients with the 8 that the stream leaves out.
abbrev pub list_fields : ScalingList → StdScalingLists
list_fields l = record {
  scaling_lists_4x4 = l.scaling_lists_4x4;
  scaling_lists_8x8 = l.scaling_lists_8x8;
  scaling_lists_16x16 = l.scaling_lists_16x16;
  scaling_lists_32x32 = l.scaling_lists_32x32;
  scaling_list_dc_coef_16x16 = map plus_8 l.scaling_list_dc_coef_minus8_16x16;
  scaling_list_dc_coef_32x32 = map plus_8 l.scaling_list_dc_coef_minus8_32x32;
}

-- Of the HRD parameters those that are not of a sublayer, and three flags of the first sublayer.
abbrev pub hrd_fields : Sps → StdHrd
hrd_fields sps = record {
  flags = record {
    nal_hrd_parameters_present_flag = sps.vui_params.hrd_params.nal_hrd_parameters_present_flag;
    vcl_hrd_parameters_present_flag = sps.vui_params.hrd_params.vcl_hrd_parameters_present_flag;
    sub_pic_hrd_params_present_flag = sps.vui_params.hrd_params.sub_pic_hrd_params_present_flag;
    sub_pic_cpb_params_in_pic_timing_sei_flag =
        sps.vui_params.hrd_params.sub_pic_cpb_params_in_pic_timing_sei_flag;
    fixed_pic_rate_general_flag = sps.vui_params.hrd_params.fixed_pic_rate_general_flag_0;
    fixed_pic_rate_within_cvs_flag = sps.vui_params.hrd_params.fixed_pic_rate_within_cvs_flag_0;
    low_delay_hrd_flag = sps.vui_params.hrd_params.low_delay_hrd_flag_0;
  };
  tick_divisor_minus2 = sps.vui_params.hrd_params.tick_divisor_minus2;
  du_cpb_removal_delay_increment_length_minus1 =
      sps.vui_params.hrd_params.du_cpb_removal_delay_increment_length_minus1;
  dpb_output_delay_du_length_minus1 = sps.vui_params.hrd_params.dpb_output_delay_du_length_minus1;
  bit_rate_scale = sps.vui_params.hrd_params.bit_rate_scale;
  cpb_size_scale = sps.vui_params.hrd_params.cpb_size_scale;
  cpb_size_du_scale = sps.vui_params.hrd_params.cpb_size_du_scale;
  initial_cpb_removal_delay_length_minus1 =
      sps.vui_params.hrd_params.initial_cpb_removal_delay_length_minus1;
  au_cpb_removal_delay_length_minus1 = sps.vui_params.hrd_params.au_cpb_removal_delay_length_minus1;
  dpb_output_delay_length_minus1 = sps.vui_params.hrd_params.dpb_output_delay_length_minus1;
  p_sub_layer_hrd_parameters_nal = null;
  p_sub_layer_hrd_parameters_vcl = null;
}

-- The VUI.
abbrev pub vui_fields : Sps → StdVui
vui_fields sps = record {
  flags = record {
    aspect_ratio_info_present_flag = sps.vui_params.aspect_ratio_info_present_flag;
    overscan_info_present_flag = sps.vui_params.overscan_info_present_flag;
    overscan_appropriate_flag = sps.vui_params.overscan_appropriate_flag;
    video_signal_type_present_flag = sps.vui_params.video_signal_type_present_flag;
    video_full_range_flag = sps.vui_params.video_full_range_flag;
    colour_description_present_flag = sps.vui_params.colour_description_present_flag;
    chroma_loc_info_present_flag = sps.vui_params.chroma_loc_info_present_flag;
    neutral_chroma_indication_flag = sps.vui_params.neutral_chroma_indication_flag;
    field_seq_flag = sps.vui_params.field_seq_flag;
    frame_field_info_present_flag = sps.vui_params.frame_field_info_present_flag;
    default_display_window_flag = sps.vui_params.default_display_window_flag;
    vui_timing_info_present_flag = sps.vui_params.timing_info_present_flag;
    vui_poc_proportional_to_timing_flag = sps.vui_params.poc_proportional_to_timing_flag;
    vui_hrd_parameters_present_flag = sps.vui_params.hrd_parameters_present_flag;
    bitstream_restriction_flag = sps.vui_params.bitstream_restriction_flag;
    tiles_fixed_structure_flag = sps.vui_params.tiles_fixed_structure_flag;
    motion_vectors_over_pic_boundaries_flag =
        sps.vui_params.motion_vectors_over_pic_boundaries_flag;
    restricted_ref_pic_lists_flag = sps.vui_params.restricted_ref_pic_lists_flag;
  };
  aspect_ratio_idc = sps.vui_params.aspect_ratio_idc;
  sar_width = sps.vui_params.sar_width;
  sar_height = sps.vui_params.sar_height;
  video_format = sps.vui_params.video_format;
  colour_primaries = sps.vui_params.colour_primaries;
  transfer_characteristics = sps.vui_params.transfer_characteristics;
  matrix_coeffs = sps.vui_params.matrix_coefficients;
  chroma_sample_loc_type_top_field = sps.vui_params.chroma_sample_loc_type_top_field;
  chroma_sample_loc_type_bottom_field = sps.vui_params.chroma_sample_loc_type_bottom_field;
  def_disp_win_left_offset = sps.vui_params.def_disp_win_left_offset % 2 ^ 16;
  def_disp_win_right_offset = sps.vui_params.def_disp_win_right_offset % 2 ^ 16;
  def_disp_win_top_offset = sps.vui_params.def_disp_win_top_offset % 2 ^ 16;
  def_disp_win_bottom_offset = sps.vui_params.def_disp_win_bottom_offset % 2 ^ 16;
  vui_num_units_in_tick = sps.vui_params.num_units_in_tick;
  vui_time_scale = sps.vui_params.time_scale;
  vui_num_ticks_poc_diff_one_minus1 = sps.vui_params.num_ticks_poc_diff_one_minus1;
  min_spatial_segmentation_idc = sps.vui_params.min_spatial_segmentation_idc;
  max_bytes_per_pic_denom = sps.vui_params.max_bytes_per_pic_denom;
  max_bits_per_min_cu_denom = sps.vui_params.max_bits_per_min_cu_denom;
  log2_max_mv_length_horizontal = sps.vui_params.log2_max_mv_length_horizontal;
  log2_max_mv_length_vertical = sps.vui_params.log2_max_mv_length_vertical;
  p_hrd_parameters = to_hrd;
}

-- The profile, which is one of four or unknown, the tier and the level.
abbrev pub profile_fields : Sps → StdProfileTierLevel
profile_fields sps = record {
  flags = record {
    general_tier_flag = sps.profile_tier_level.tier_flag;
    general_progressive_source_flag = sps.profile_tier_level.progressive_source_flag;
    general_interlaced_source_flag = sps.profile_tier_level.interlaced_source_flag;
    general_non_packed_constraint_flag = sps.profile_tier_level.non_packed_constraint_flag;
    general_frame_only_constraint_flag = sps.profile_tier_level.frame_only_constraint_flag;
  };
  general_profile_idc =
      if leb 1 sps.profile_tier_level.profile_idc && leb sps.profile_tier_level.profile_idc 4
      then sps.profile_tier_level.profile_idc
      else 2 ^ 31 - 1;
  general_level_idc = sps.profile_tier_level.level_idc;
}

-- The sequence parameter set. The fields of the range extension are 0 without it, and those of the screen
-- content extension that are numbers are 0 without that. transform_skip_rotation_enabled_flag is the
-- parser's transform_skip_context_enabled_flag.
abbrev pub sps_fields : Bool → Sps → StdSps
sps_fields recent sps = record {
  flags = record {
    sps_temporal_id_nesting_flag = sps.temporal_id_nesting_flag;
    separate_colour_plane_flag = sps.separate_colour_plane_flag;
    conformance_window_flag = sps.conformance_window_flag;
    sps_sub_layer_ordering_info_present_flag = sps.sub_layer_ordering_info_present_flag;
    scaling_list_enabled_flag = sps.scaling_list_enabled_flag;
    sps_scaling_list_data_present_flag = sps.scaling_list_data_present_flag;
    amp_enabled_flag = sps.amp_enabled_flag;
    sample_adaptive_offset_enabled_flag = sps.sample_adaptive_offset_enabled_flag;
    pcm_enabled_flag = sps.pcm_enabled_flag;
    pcm_loop_filter_disabled_flag = sps.pcm_loop_filter_disabled_flag;
    long_term_ref_pics_present_flag = sps.long_term_ref_pics_present_flag;
    sps_temporal_mvp_enabled_flag = sps.temporal_mvp_enabled_flag;
    strong_intra_smoothing_enabled_flag = sps.strong_intra_smoothing_enabled_flag;
    vui_parameters_present_flag = sps.vui_parameters_present_flag;
    sps_extension_present_flag = sps.sps_extension_flag;
    sps_range_extension_flag = sps.sps_range_extension_flag;
    transform_skip_rotation_enabled_flag =
        sps.sps_extension_flag && sps.sps_extension_params.transform_skip_context_enabled_flag;
    transform_skip_context_enabled_flag =
        sps.sps_extension_flag && sps.sps_extension_params.transform_skip_context_enabled_flag;
    implicit_rdpcm_enabled_flag =
        sps.sps_extension_flag && sps.sps_extension_params.implicit_rdpcm_enabled_flag;
    explicit_rdpcm_enabled_flag =
        sps.sps_extension_flag && sps.sps_extension_params.explicit_rdpcm_enabled_flag;
    extended_precision_processing_flag =
        sps.sps_extension_flag && sps.sps_extension_params.extended_precision_processing_flag;
    intra_smoothing_disabled_flag =
        sps.sps_extension_flag && sps.sps_extension_params.intra_smoothing_disabled_flag;
    high_precision_offsets_enabled_flag =
        sps.sps_extension_flag && sps.sps_extension_params.high_precision_offsets_enabled_flag;
    persistent_rice_adaptation_enabled_flag =
        sps.sps_extension_flag && sps.sps_extension_params.persistent_rice_adaptation_enabled_flag;
    cabac_bypass_alignment_enabled_flag =
        sps.sps_extension_flag && sps.sps_extension_params.cabac_bypass_alignment_enabled_flag;
    sps_scc_extension_flag = sps.sps_scc_extension_flag;
    sps_curr_pic_ref_enabled_flag = sps.sps_scc_extension_params.sps_curr_pic_ref_enabled_flag;
    palette_mode_enabled_flag = sps.sps_scc_extension_params.palette_mode_enabled_flag;
    sps_palette_predictor_initializers_present_flag =
        sps.sps_scc_extension_params.sps_palette_predictor_initializers_present_flag;
    intra_boundary_filtering_disabled_flag =
        sps.sps_scc_extension_params.intra_boundary_filtering_disabled_flag;
  };
  chroma_format_idc = sps.chroma_format_idc;
  pic_width_in_luma_samples = sps.pic_width_in_luma_samples;
  pic_height_in_luma_samples = sps.pic_height_in_luma_samples;
  sps_video_parameter_set_id = video_id recent sps.vps_id sps.vps;
  sps_max_sub_layers_minus1 = sps.max_sub_layers_minus1;
  sps_seq_parameter_set_id = sps.id;
  bit_depth_luma_minus8 = sps.bit_depth_luma_minus8;
  bit_depth_chroma_minus8 = sps.bit_depth_chroma_minus8;
  log2_max_pic_order_cnt_lsb_minus4 = sps.log2_max_pic_order_cnt_lsb_minus4;
  log2_min_luma_coding_block_size_minus3 = sps.log2_min_luma_coding_block_size_minus3;
  log2_diff_max_min_luma_coding_block_size = sps.log2_diff_max_min_luma_coding_block_size;
  log2_min_luma_transform_block_size_minus2 = sps.log2_min_transform_block_size_minus2;
  log2_diff_max_min_luma_transform_block_size = sps.log2_diff_max_min_transform_block_size;
  max_transform_hierarchy_depth_inter = sps.max_transform_hierarchy_depth_inter;
  max_transform_hierarchy_depth_intra = sps.max_transform_hierarchy_depth_intra;
  num_short_term_ref_pic_sets = sps.num_short_term_ref_pic_sets;
  num_long_term_ref_pics_sps = sps.num_long_term_ref_pics_sps;
  pcm_sample_bit_depth_luma_minus1 = sps.pcm_sample_bit_depth_luma_minus1;
  pcm_sample_bit_depth_chroma_minus1 = sps.pcm_sample_bit_depth_chroma_minus1;
  log2_min_pcm_luma_coding_block_size_minus3 = sps.log2_min_pcm_luma_coding_block_size_minus3;
  log2_diff_max_min_pcm_luma_coding_block_size = sps.log2_diff_max_min_pcm_luma_coding_block_size;
  palette_max_size =
      if sps.sps_scc_extension_flag then sps.sps_scc_extension_params.palette_max_size else 0;
  delta_palette_max_predictor_size =
      if sps.sps_scc_extension_flag
      then sps.sps_scc_extension_params.delta_palette_max_predictor_size
      else 0;
  motion_vector_resolution_control_idc =
      if sps.sps_scc_extension_flag
      then sps.sps_scc_extension_params.motion_vector_resolution_control_idc
      else 0;
  sps_num_palette_predictor_initializers_minus1 =
      if sps.sps_scc_extension_flag
      then sps.sps_scc_extension_params.sps_num_palette_predictor_initializer_minus1
      else 0;
  conf_win_left_offset = sps.conf_win_left_offset;
  conf_win_right_offset = sps.conf_win_right_offset;
  conf_win_top_offset = sps.conf_win_top_offset;
  conf_win_bottom_offset = sps.conf_win_bottom_offset;
  p_profile_tier_level = to_profile_tier_level;
  p_dec_pic_buf_mgr = to_pic_buf_mgr;
  p_scaling_lists = if sps.scaling_list_enabled_flag then to_scaling_lists_sps else null;
  p_short_term_ref_pic_set = null;
  p_long_term_ref_pics_sps = null;
  p_sequence_parameter_set_vui = to_vui;
  p_predictor_palette_entries = null;
}

-- The picture parameter set. The number of its sequence parameter set is 0 before that version.
abbrev pub pps_fields : Bool → Pps → StdPps
pps_fields recent pps = record {
  flags = record {
    dependent_slice_segments_enabled_flag = pps.dependent_slice_segments_enabled_flag;
    output_flag_present_flag = pps.output_flag_present_flag;
    sign_data_hiding_enabled_flag = pps.sign_data_hiding_enabled_flag;
    cabac_init_present_flag = pps.cabac_init_present_flag;
    constrained_intra_pred_flag = pps.constrained_intra_pred_flag;
    transform_skip_enabled_flag = pps.transform_skip_enabled_flag;
    cu_qp_delta_enabled_flag = pps.cu_qp_delta_enabled_flag;
    pps_slice_chroma_qp_offsets_present_flag = pps.slice_chroma_qp_offsets_present_flag;
    weighted_pred_flag = pps.weighted_pred_flag;
    weighted_bipred_flag = pps.weighted_bipred_flag;
    transquant_bypass_enabled_flag = pps.transquant_bypass_enabled_flag;
    tiles_enabled_flag = pps.tiles_enabled_flag;
    entropy_coding_sync_enabled_flag = pps.entropy_coding_sync_enabled_flag;
    uniform_spacing_flag = pps.uniform_spacing_flag;
    loop_filter_across_tiles_enabled_flag = pps.loop_filter_across_tiles_enabled_flag;
    pps_loop_filter_across_slices_enabled_flag = pps.loop_filter_across_slices_enabled_flag;
    deblocking_filter_control_present_flag = pps.deblocking_filter_control_present_flag;
    deblocking_filter_override_enabled_flag = pps.deblocking_filter_override_enabled_flag;
    pps_deblocking_filter_disabled_flag = pps.deblocking_filter_disabled_flag;
    pps_scaling_list_data_present_flag = pps.scaling_list_data_present_flag;
    lists_modification_present_flag = pps.lists_modification_present_flag;
    slice_segment_header_extension_present_flag = pps.slice_segment_header_extension_present_flag;
    pps_extension_present_flag = pps.pps_extension_flag;
    cross_component_prediction_enabled_flag =
        pps.pps_extension_params.cross_component_prediction_enabled_flag;
    chroma_qp_offset_list_enabled_flag =
        pps.pps_extension_params.chroma_qp_offset_list_enabled_flag;
    pps_curr_pic_ref_enabled_flag = pps.pps_scc_extension_params.pps_curr_pic_ref_enabled_flag;
    residual_adaptive_colour_transform_enabled_flag =
        pps.pps_scc_extension_params.residual_adaptive_colour_transform_enabled_flag;
    pps_slice_act_qp_offsets_present_flag =
        pps.pps_scc_extension_params.pps_slice_act_qp_offsets_present_flag;
    pps_palette_predictor_initializers_present_flag =
        pps.pps_scc_extension_params.pps_palette_predictor_initializers_present_flag;
    monochrome_palette_flag = pps.pps_scc_extension_params.monochrome_palette_flag;
    pps_range_extension_flag = pps.pps_range_extension_flag;
  };
  pps_pic_parameter_set_id = pps.id % 2 ^ 8;
  pps_seq_parameter_set_id = if recent then pps.sps_id % 2 ^ 8 else 0;
  num_extra_slice_header_bits = pps.num_extra_slice_header_bits;
  num_ref_idx_l0_default_active_minus1 = pps.num_ref_idx_l0_default_active_minus1;
  num_ref_idx_l1_default_active_minus1 = pps.num_ref_idx_l1_default_active_minus1;
  init_qp_minus26 = pps.init_qp_minus26;
  diff_cu_qp_delta_depth = pps.diff_cu_qp_delta_depth;
  pps_cb_qp_offset = pps.cb_qp_offset;
  pps_cr_qp_offset = pps.cr_qp_offset;
  pps_beta_offset_div2 = pps.beta_offset_div2;
  pps_tc_offset_div2 = pps.tc_offset_div2;
  log2_parallel_merge_level_minus2 = pps.log2_parallel_merge_level_minus2;
  log2_max_transform_skip_block_size_minus2 =
      pps.pps_extension_params.log2_max_transform_skip_block_size_minus2 % 2 ^ 8;
  diff_cu_chroma_qp_offset_depth = pps.pps_extension_params.diff_cu_chroma_qp_offset_depth;
  chroma_qp_offset_list_len_minus1 = pps.pps_extension_params.chroma_qp_offset_list_len_minus1;
  log2_sao_offset_scale_luma = pps.pps_extension_params.log2_sao_offset_scale_luma;
  log2_sao_offset_scale_chroma = pps.pps_extension_params.log2_sao_offset_scale_chroma;
  pps_act_y_qp_offset_plus5 = to_int8 pps.pps_scc_extension_params.pps_act_y_qp_offset_plus5;
  pps_act_cb_qp_offset_plus5 = to_int8 pps.pps_scc_extension_params.pps_act_cb_qp_offset_plus5;
  pps_act_cr_qp_offset_plus3 = to_int8 pps.pps_scc_extension_params.pps_act_cr_qp_offset_plus3;
  pps_num_palette_predictor_initializers =
      pps.pps_scc_extension_params.pps_num_palette_predictor_initializer;
  luma_bit_depth_entry_minus8 = pps.pps_scc_extension_params.luma_bit_depth_entry_minus8;
  chroma_bit_depth_entry_minus8 =
      pps.pps_scc_extension_params.chroma_bit_depth_entry_minus8 % 2 ^ 8;
  num_tile_columns_minus1 = pps.num_tile_columns_minus1;
  num_tile_rows_minus1 = pps.num_tile_rows_minus1;
  p_scaling_lists = if pps.scaling_list_data_present_flag then to_scaling_lists_pps else null;
  p_predictor_palette_entries = null;
  column_width_minus1 = take (19 * 2) pps.column_width_minus1;
  row_height_minus1 = take (21 * 2) pps.row_height_minus1;
}

-- The video parameter set.
abbrev pub vps_fields : Vps → StdVps
vps_fields vps = record {
  flags = record {
    vps_temporal_id_nesting_flag = vps.temporal_id_nesting_flag;
    vps_sub_layer_ordering_info_present_flag = vps.sub_layer_ordering_info_present_flag;
    vps_timing_info_present_flag = vps.timing_info_present_flag;
    vps_poc_proportional_to_timing_flag = vps.poc_proportional_to_timing_flag;
  };
  vps_video_parameter_set_id = vps.id;
  vps_max_sub_layers_minus1 = vps.max_sub_layers_minus1;
  vps_num_units_in_tick = vps.num_units_in_tick;
  vps_time_scale = vps.time_scale;
  vps_num_ticks_poc_diff_one_minus1 = vps.num_ticks_poc_diff_one_minus1;
  p_dec_pic_buf_mgr = to_pic_buf_mgr;
}

pub fill_scaling_list-fields : (l : ScalingList) → fill_scaling_list l ≡ list_fields l
unfolding fill_scaling_list
fill_scaling_list-fields l = refl

pub hrd_parameters-fields : (s : Sps) → hrd_parameters s ≡ hrd_fields s
unfolding hrd_parameters
hrd_parameters-fields s = refl

pub vui_parameters-fields : (s : Sps) → vui_parameters s ≡ vui_fields s
unfolding vui_parameters
vui_parameters-fields s = refl

profile-known : (n : ℕ) → get_profile_idc n ≡ (if leb 1 n && leb n 4 then n else 2 ^ 31 - 1)
unfolding get_profile_idc
profile-known n = ground arith

pub profile_tier_level_of-fields : (s : Sps) → profile_tier_level_of s ≡ profile_fields s
unfolding profile_tier_level_of
profile_tier_level_of-fields s =
    ap (λ p. record (profile_fields s) { general_profile_idc = p })
      (profile-known s.profile_tier_level.profile_idc)

pub pps_parameters-fields :
    (recent : Bool) (p : Pps) → pps_parameters recent p ≡ pps_fields recent p
unfolding pps_parameters
pps_parameters-fields recent p = refl

pub vps_parameters-fields : (v : Vps) → vps_parameters v ≡ vps_fields v
unfolding vps_parameters
vps_parameters-fields v = refl

written_id :
    (recent : Bool) (s : Sps)
    → vps_id_or (initial_vps_id recent s) s.vps ≡ video_id recent s.vps_id s.vps
written_id true s = elim (Option-cases s.vps) [ inl e ↦ rw e refl | inr (v, e) ↦ rw e refl ]
written_id false s = elim (Option-cases s.vps) [ inl e ↦ rw e refl | inr (v, e) ↦ rw e refl ]

pub sps_parameters-fields :
    (recent : Bool) (s : Sps) → sps_parameters recent s ≡ sps_fields recent s
unfolding first_sps fill_extension fill_scc_extension
sps_parameters-fields recent s =
    ap
      (λ i.
        fill_scc_extension s
          (fill_extension s (record (first_sps recent s) { sps_video_parameter_set_id = i })))
      (written_id recent s)
    ∙ elim (Bool-cases s.sps_extension_flag) [
      | inl on ↦ elim (Bool-cases s.sps_scc_extension_flag) [
        | inl scc ↦ rw (on, scc) refl
        | inr no_scc ↦ rw (on, no_scc) refl
      ]
      | inr off ↦ elim (Bool-cases s.sps_scc_extension_flag) [
        | inl scc ↦ rw (off, scc) refl
        | inr no_scc ↦ rw (off, no_scc) refl
      ]
    ]
