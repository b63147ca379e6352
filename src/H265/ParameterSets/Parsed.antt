-- ===== src/H265/ParameterSets/Parsed.antt =====
-- The parameter sets as GStreamer's codec parser gives them: the fields that the decoder element reads.
-- A flag of one bit is a Boolean. The arrays of numbers of a Vps and a Pps are the bytes they are stored in.
use gst_vk_video_parser.Prelude.{ℕ, Bool, List, Option}
use gst_vk_video_parser.Prelude.Int.{ℤ}

-- GstH265ScalingList
pub record ScalingList : Type 0 where
  pub scaling_lists_4x4 : List (List ℕ)
  pub scaling_lists_8x8 : List (List ℕ)
  pub scaling_lists_16x16 : List (List ℕ)
  pub scaling_lists_32x32 : List (List ℕ)
  pub scaling_list_dc_coef_minus8_16x16 : List ℤ
  pub scaling_list_dc_coef_minus8_32x32 : List ℤ

-- GstH265HRDParams. The three arrays of flags are their first elements.
pub record HrdParams : Type 0 where
  pub nal_hrd_parameters_present_flag : Bool
  pub vcl_hrd_parameters_present_flag : Bool
  pub sub_pic_hrd_params_present_flag : Bool
  pub sub_pic_cpb_params_in_pic_timing_sei_flag : Bool
  pub fixed_pic_rate_general_flag_0 : ℕ
  pub fixed_pic_rate_within_cvs_flag_0 : ℕ
  pub low_delay_hrd_flag_0 : ℕ
  pub tick_divisor_minus2 : ℕ
  pub du_cpb_removal_delay_increment_length_minus1 : ℕ
  pub dpb_output_delay_du_length_minus1 : ℕ
  pub bit_rate_scale : ℕ
  pub cpb_size_scale : ℕ
  pub cpb_size_du_scale : ℕ
  pub initial_cpb_removal_delay_length_minus1 : ℕ
  pub au_cpb_removal_delay_length_minus1 : ℕ
  pub dpb_output_delay_length_minus1 : ℕ

-- GstH265VUIParams
pub record VuiParams : Type 0 where
  pub aspect_ratio_info_present_flag : Bool
  pub overscan_info_present_flag : Bool
  pub overscan_appropriate_flag : Bool
  pub video_signal_type_present_flag : Bool
  pub video_full_range_flag : Bool
  pub colour_description_present_flag : Bool
  pub chroma_loc_info_present_flag : Bool
  pub neutral_chroma_indication_flag : Bool
  pub field_seq_flag : Bool
  pub frame_field_info_present_flag : Bool
  pub default_display_window_flag : Bool
  pub timing_info_present_flag : Bool
  pub poc_proportional_to_timing_flag : Bool
  pub hrd_parameters_present_flag : Bool
  pub bitstream_restriction_flag : Bool
  pub tiles_fixed_structure_flag : Bool
  pub motion_vectors_over_pic_boundaries_flag : Bool
  pub restricted_ref_pic_lists_flag : Bool
  pub aspect_ratio_idc : ℕ
  pub sar_width : ℕ
  pub sar_height : ℕ
  pub video_format : ℕ
  pub colour_primaries : ℕ
  pub transfer_characteristics : ℕ
  pub matrix_coefficients : ℕ
  pub chroma_sample_loc_type_top_field : ℕ
  pub chroma_sample_loc_type_bottom_field : ℕ
  pub def_disp_win_left_offset : ℕ
  pub def_disp_win_right_offset : ℕ
  pub def_disp_win_top_offset : ℕ
  pub def_disp_win_bottom_offset : ℕ
  pub num_units_in_tick : ℕ
  pub time_scale : ℕ
  pub num_ticks_poc_diff_one_minus1 : ℕ
  pub min_spatial_segmentation_idc : ℕ
  pub max_bytes_per_pic_denom : ℕ
  pub max_bits_per_min_cu_denom : ℕ
  pub log2_max_mv_length_horizontal : ℕ
  pub log2_max_mv_length_vertical : ℕ
  pub hrd_params : HrdParams

-- GstH265ProfileTierLevel
pub record ProfileTierLevel : Type 0 where
  pub tier_flag : Bool
  pub progressive_source_flag : Bool
  pub interlaced_source_flag : Bool
  pub non_packed_constraint_flag : Bool
  pub frame_only_constraint_flag : Bool
  pub profile_idc : ℕ
  pub level_idc : ℕ

-- GstH265SPSExtensionParams
pub record SpsExtensionParams : Type 0 where
  pub transform_skip_context_enabled_flag : Bool
  pub implicit_rdpcm_enabled_flag : Bool
  pub explicit_rdpcm_enabled_flag : Bool
  pub extended_precision_processing_flag : Bool
  pub intra_smoothing_disabled_flag : Bool
  pub high_precision_offsets_enabled_flag : Bool
  pub persistent_rice_adaptation_enabled_flag : Bool
  pub cabac_bypass_alignment_enabled_flag : Bool

-- GstH265SPSSCCExtensionParams
pub record SpsSccExtensionParams : Type 0 where
  pub sps_curr_pic_ref_enabled_flag : Bool
  pub palette_mode_enabled_flag : Bool
  pub sps_palette_predictor_initializers_present_flag : Bool
  pub intra_boundary_filtering_disabled_flag : Bool
  pub palette_max_size : ℕ
  pub delta_palette_max_predictor_size : ℕ
  pub motion_vector_resolution_control_idc : ℕ
  pub sps_num_palette_predictor_initializer_minus1 : ℕ

-- GstH265PPSExtensionParams
pub record PpsExtensionParams : Type 0 where
  pub cross_component_prediction_enabled_flag : Bool
  pub chroma_qp_offset_list_enabled_flag : Bool
  pub log2_max_transform_skip_block_size_minus2 : ℕ
  pub diff_cu_chroma_qp_offset_depth : ℕ
  pub chroma_qp_offset_list_len_minus1 : ℕ
  pub log2_sao_offset_scale_luma : ℕ
  pub log2_sao_offset_scale_chroma : ℕ

-- GstH265PPSSCCExtensionParams
pub record PpsSccExtensionParams : Type 0 where
  pub pps_curr_pic_ref_enabled_flag : Bool
  pub residual_adaptive_colour_transform_enabled_flag : Bool
  pub pps_slice_act_qp_offsets_present_flag : Bool
  pub pps_palette_predictor_initializers_present_flag : Bool
  pub monochrome_palette_flag : Bool
  pub pps_act_y_qp_offset_plus5 : ℤ
  pub pps_act_cb_qp_offset_plus5 : ℤ
  pub pps_act_cr_qp_offset_plus3 : ℤ
  pub pps_num_palette_predictor_initializer : ℕ
  pub luma_bit_depth_entry_minus8 : ℕ
  pub chroma_bit_depth_entry_minus8 : ℕ

-- GstH265VPS
pub record Vps : Type 0 where
  pub hrd_params : HrdParams
  pub temporal_id_nesting_flag : Bool
  pub sub_layer_ordering_info_present_flag : Bool
  pub timing_info_present_flag : Bool
  pub poc_proportional_to_timing_flag : Bool
  pub id : ℕ
  pub max_sub_layers_minus1 : ℕ
  pub num_units_in_tick : ℕ
  pub time_scale : ℕ
  pub num_ticks_poc_diff_one_minus1 : ℕ
  pub max_latency_increase_plus1 : List ℕ
  pub max_dec_pic_buffering_minus1 : List ℕ
  pub max_num_reorder_pics : List ℕ
  pub profile_tier_level : ProfileTierLevel

-- GstH265SPS
pub record Sps : Type 0 where
  pub crop_rect_width : ℕ
  pub crop_rect_height : ℕ
  pub temporal_id_nesting_flag : Bool
  pub separate_colour_plane_flag : Bool
  pub conformance_window_flag : Bool
  pub sub_layer_ordering_info_present_flag : Bool
  pub scaling_list_enabled_flag : Bool
  pub scaling_list_data_present_flag : Bool
  pub amp_enabled_flag : Bool
  pub sample_adaptive_offset_enabled_flag : Bool
  pub pcm_enabled_flag : Bool
  pub pcm_loop_filter_disabled_flag : Bool
  pub long_term_ref_pics_present_flag : Bool
  pub temporal_mvp_enabled_flag : Bool
  pub strong_intra_smoothing_enabled_flag : Bool
  pub vui_parameters_present_flag : Bool
  pub sps_extension_flag : Bool
  pub sps_range_extension_flag : Bool
  pub sps_scc_extension_flag : Bool
  pub chroma_format_idc : ℕ
  pub pic_width_in_luma_samples : ℕ
  pub pic_height_in_luma_samples : ℕ
  pub max_sub_layers_minus1 : ℕ
  pub id : ℕ
  pub bit_depth_luma_minus8 : ℕ
  pub bit_depth_chroma_minus8 : ℕ
  pub log2_max_pic_order_cnt_lsb_minus4 : ℕ
  pub log2_min_luma_coding_block_size_minus3 : ℕ
  pub log2_diff_max_min_luma_coding_block_size : ℕ
  pub log2_min_transform_block_size_minus2 : ℕ
  pub log2_diff_max_min_transform_block_size : ℕ
  pub max_transform_hierarchy_depth_inter : ℕ
  pub max_transform_hierarchy_depth_intra : ℕ
  pub num_short_term_ref_pic_sets : ℕ
  pub num_long_term_ref_pics_sps : ℕ
  pub pcm_sample_bit_depth_luma_minus1 : ℕ
  pub pcm_sample_bit_depth_chroma_minus1 : ℕ
  pub log2_min_pcm_luma_coding_block_size_minus3 : ℕ
  pub log2_diff_max_min_pcm_luma_coding_block_size : ℕ
  pub conf_win_left_offset : ℕ
  pub conf_win_right_offset : ℕ
  pub conf_win_top_offset : ℕ
  pub conf_win_bottom_offset : ℕ
  pub vps_id : ℕ
  pub vps : Option Vps
  pub scaling_list : ScalingList
  pub width : ℕ
  pub height : ℕ
  pub vui_params : VuiParams
  pub profile_tier_level : ProfileTierLevel
  pub sps_extension_params : SpsExtensionParams
  pub sps_scc_extension_params : SpsSccExtensionParams

-- GstH265PPS
pub record Pps : Type 0 where
  pub dependent_slice_segments_enabled_flag : Bool
  pub output_flag_present_flag : Bool
  pub sign_data_hiding_enabled_flag : Bool
  pub cabac_init_present_flag : Bool
  pub constrained_intra_pred_flag : Bool
  pub transform_skip_enabled_flag : Bool
  pub cu_qp_delta_enabled_flag : Bool
  pub slice_chroma_qp_offsets_present_flag : Bool
  pub weighted_pred_flag : Bool
  pub weighted_bipred_flag : Bool
  pub transquant_bypass_enabled_flag : Bool
  pub tiles_enabled_flag : Bool
  pub entropy_coding_sync_enabled_flag : Bool
  pub uniform_spacing_flag : Bool
  pub loop_filter_across_tiles_enabled_flag : Bool
  pub loop_filter_across_slices_enabled_flag : Bool
  pub deblocking_filter_control_present_flag : Bool
  pub deblocking_filter_override_enabled_flag : Bool
  pub deblocking_filter_disabled_flag : Bool
  pub scaling_list_data_present_flag : Bool
  pub lists_modification_present_flag : Bool
  pub slice_segment_header_extension_present_flag : Bool
  pub pps_extension_flag : Bool
  pub pps_range_extension_flag : Bool
  pub id : ℕ
  pub num_extra_slice_header_bits : ℕ
  pub num_ref_idx_l0_default_active_minus1 : ℕ
  pub num_ref_idx_l1_default_active_minus1 : ℕ
  pub init_qp_minus26 : ℤ
  pub diff_cu_qp_delta_depth : ℕ
  pub cb_qp_offset : ℤ
  pub cr_qp_offset : ℤ
  pub beta_offset_div2 : ℤ
  pub tc_offset_div2 : ℤ
  pub log2_parallel_merge_level_minus2 : ℕ
  pub num_tile_columns_minus1 : ℕ
  pub num_tile_rows_minus1 : ℕ
  pub sps_id : ℕ
  pub column_width_minus1 : List ℕ
  pub row_height_minus1 : List ℕ
  pub scaling_list : ScalingList
  pub pps_scc_extension_flag : Bool
  pub pps_extension_params : PpsExtensionParams
  pub pps_scc_extension_params : PpsSccExtensionParams
