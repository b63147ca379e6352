-- ===== src/H265/ParameterSets/Std.antt =====
-- The structures of Vulkan Video that the parameter sets are written to: the fields that the code names.
-- The others are zero. The arrays of numbers that a memcpy writes are the bytes they are stored in.
use gst_vk_video_parser.Prelude.{ℕ, Bool, List}
use gst_vk_video_parser.Prelude.Int.{ℤ}

-- A pointer to a structure of the same VkH265Picture.
pub data Pointer : Type 0 where
  null to_hrd to_vui to_profile_tier_level to_pic_buf_mgr to_scaling_lists_sps
        to_scaling_lists_pps :
      Pointer

-- StdVideoH265DecPicBufMgr
pub record StdDecPicBufMgr : Type 0 where
  pub max_latency_increase_plus1 : List ℕ
  pub max_dec_pic_buffering_minus1 : List ℕ
  pub max_num_reorder_pics : List ℕ

-- StdVideoH265ScalingLists
pub record StdScalingLists : Type 0 where
  pub scaling_lists_4x4 : List (List ℕ)
  pub scaling_lists_8x8 : List (List ℕ)
  pub scaling_lists_16x16 : List (List ℕ)
  pub scaling_lists_32x32 : List (List ℕ)
  pub scaling_list_dc_coef_16x16 : List ℕ
  pub scaling_list_dc_coef_32x32 : List ℕ

pub record StdHrdFlags : Type 0 where
  pub nal_hrd_parameters_present_flag : Bool
  pub vcl_hrd_parameters_present_flag : Bool
  pub sub_pic_hrd_params_present_flag : Bool
  pub sub_pic_cpb_params_in_pic_timing_sei_flag : Bool
  pub fixed_pic_rate_general_flag : ℕ
  pub fixed_pic_rate_within_cvs_flag : ℕ
  pub low_delay_hrd_flag : ℕ

-- StdVideoH265HrdParameters
pub record StdHrd : Type 0 where
  pub flags : StdHrdFlags
  pub tick_divisor_minus2 : ℕ
  pub du_cpb_removal_delay_increment_length_minus1 : ℕ
  pub dpb_output_delay_du_length_minus1 : ℕ
  pub bit_rate_scale : ℕ
  pub cpb_size_scale : ℕ
  pub cpb_size_du_scale : ℕ
  pub initial_cpb_removal_delay_length_minus1 : ℕ
  pub au_cpb_removal_delay_length_minus1 : ℕ
  pub dpb_output_delay_length_minus1 : ℕ
  pub p_sub_layer_hrd_parameters_nal : Pointer
  pub p_sub_layer_hrd_parameters_vcl : Pointer

pub record StdVuiFlags : Type 0 where
  pub aspect_ratio_info_present_flag : Bool
  pub overscan_info_present_flag : Bool
  pub overscan_appropriate_flag : Bool
  pub video_signal_type_present_flag : Bool
  pub video_full_range_flag : Bool
  pub colour_description_present_flag : Bool
  pub chroma_loc_info_present_flag : Bool
  pub neutral_chroma_indication_flag : Bool
  pub field_seq_flag : Bool
  pub frame_field_info_present_flag : Bool
  pub default_display_window_flag : Bool
  pub vui_timing_info_present_flag : Bool
  pub vui_poc_proportional_to_timing_flag : Bool
  pub vui_hrd_parameters_present_flag : Bool
  pub bitstream_restriction_flag : Bool
  pub tiles_fixed_structure_flag : Bool
  pub motion_vectors_over_pic_boundaries_flag : Bool
  pub restricted_ref_pic_lists_flag : Bool

-- StdVideoH265SequenceParameterSetVui
pub record StdVui : Type 0 where
  pub flags : StdVuiFlags
  pub aspect_ratio_idc : ℕ
  pub sar_width : ℕ
  pub sar_height : ℕ
  pub video_format : ℕ
  pub colour_primaries : ℕ
  pub transfer_characteristics : ℕ
  pub matrix_coeffs : ℕ
  pub chroma_sample_loc_type_top_field : ℕ
  pub chroma_sample_loc_type_bottom_field : ℕ
  pub def_disp_win_left_offset : ℕ
  pub def_disp_win_right_offset : ℕ
  pub def_disp_win_top_offset : ℕ
  pub def_disp_win_bottom_offset : ℕ
  pub vui_num_units_in_tick : ℕ
  pub vui_time_scale : ℕ
  pub vui_num_ticks_poc_diff_one_minus1 : ℕ
  pub min_spatial_segmentation_idc : ℕ
  pub max_bytes_per_pic_denom : ℕ
  pub max_bits_per_min_cu_denom : ℕ
  pub log2_max_mv_length_horizontal : ℕ
  pub log2_max_mv_length_vertical : ℕ
  pub p_hrd_parameters : Pointer

pub record StdProfileTierLevelFlags : Type 0 where
  pub general_tier_flag : Bool
  pub general_progressive_source_flag : Bool
  pub general_interlaced_source_flag : Bool
  pub general_non_packed_constraint_flag : Bool
  pub general_frame_only_constraint_flag : Bool

-- StdVideoH265ProfileTierLevel
pub record StdProfileTierLevel : Type 0 where
  pub flags : StdProfileTierLevelFlags
  pub general_profile_idc : ℕ
  pub general_level_idc : ℕ

pub record StdSpsFlags : Type 0 where
  pub sps_temporal_id_nesting_flag : Bool
  pub separate_colour_plane_flag : Bool
  pub conformance_window_flag : Bool
  pub sps_sub_layer_ordering_info_present_flag : Bool
  pub scaling_list_enabled_flag : Bool
  pub sps_scaling_list_data_present_flag : Bool
  pub amp_enabled_flag : Bool
  pub sample_adaptive_offset_enabled_flag : Bool
  pub pcm_enabled_flag : Bool
  pub pcm_loop_filter_disabled_flag : Bool
  pub long_term_ref_pics_present_flag : Bool
  pub sps_temporal_mvp_enabled_flag : Bool
  pub strong_intra_smoothing_enabled_flag : Bool
  pub vui_parameters_present_flag : Bool
  pub sps_extension_present_flag : Bool
  pub sps_range_extension_flag : Bool
  pub transform_skip_rotation_enabled_flag : Bool
  pub transform_skip_context_enabled_flag : Bool
  pub implicit_rdpcm_enabled_flag : Bool
  pub explicit_rdpcm_enabled_flag : Bool
  pub extended_precision_processing_flag : Bool
  pub intra_smoothing_disabled_flag : Bool
  pub high_precision_offsets_enabled_flag : Bool
  pub persistent_rice_adaptation_enabled_flag : Bool
  pub cabac_bypass_alignment_enabled_flag : Bool
  pub sps_scc_extension_flag : Bool
  pub sps_curr_pic_ref_enabled_flag : Bool
  pub palette_mode_enabled_flag : Bool
  pub sps_palette_predictor_initializers_present_flag : Bool
  pub intra_boundary_filtering_disabled_flag : Bool

-- StdVideoH265SequenceParameterSet
pub record StdSps : Type 0 where
  pub flags : StdSpsFlags
  pub chroma_format_idc : ℕ
  pub pic_width_in_luma_samples : ℕ
  pub pic_height_in_luma_samples : ℕ
  pub sps_video_parameter_set_id : ℕ
  pub sps_max_sub_layers_minus1 : ℕ
  pub sps_seq_parameter_set_id : ℕ
  pub bit_depth_luma_minus8 : ℕ
  pub bit_depth_chroma_minus8 : ℕ
  pub log2_max_pic_order_cnt_lsb_minus4 : ℕ
  pub log2_min_luma_coding_block_size_minus3 : ℕ
  pub log2_diff_max_min_luma_coding_block_size : ℕ
  pub log2_min_luma_transform_block_size_minus2 : ℕ
  pub log2_diff_max_min_luma_transform_block_size : ℕ
  pub max_transform_hierarchy_depth_inter : ℕ
  pub max_transform_hierarchy_depth_intra : ℕ
  pub num_short_term_ref_pic_sets : ℕ
  pub num_long_term_ref_pics_sps : ℕ
  pub pcm_sample_bit_depth_luma_minus1 : ℕ
  pub pcm_sample_bit_depth_chroma_minus1 : ℕ
  pub log2_min_pcm_luma_coding_block_size_minus3 : ℕ
  pub log2_diff_max_min_pcm_luma_coding_block_size : ℕ
  pub palette_max_size : ℕ
  pub delta_palette_max_predictor_size : ℕ
  pub motion_vector_resolution_control_idc : ℕ
  pub sps_num_palette_predictor_initializers_minus1 : ℕ
  pub conf_win_left_offset : ℕ
  pub conf_win_right_offset : ℕ
  pub conf_win_top_offset : ℕ
  pub conf_win_bottom_offset : ℕ
  pub p_profile_tier_level : Pointer
  pub p_dec_pic_buf_mgr : Pointer
  pub p_scaling_lists : Pointer
  pub p_short_term_ref_pic_set : Pointer
  pub p_long_term_ref_pics_sps : Pointer
  pub p_sequence_parameter_set_vui : Pointer
  pub p_predictor_palette_entries : Pointer

pub record StdPpsFlags : Type 0 where
  pub dependent_slice_segments_enabled_flag : Bool
  pub output_flag_present_flag : Bool
  pub sign_data_hiding_enabled_flag : Bool
  pub cabac_init_present_flag : Bool
  pub constrained_intra_pred_flag : Bool
  pub transform_skip_enabled_flag : Bool
  pub cu_qp_delta_enabled_flag : Bool
  pub pps_slice_chroma_qp_offsets_present_flag : Bool
  pub weighted_pred_flag : Bool
  pub weighted_bipred_flag : Bool
  pub transquant_bypass_enabled_flag : Bool
  pub tiles_enabled_flag : Bool
  pub entropy_coding_sync_enabled_flag : Bool
  pub uniform_spacing_flag : Bool
  pub loop_filter_across_tiles_enabled_flag : Bool
  pub pps_loop_filter_across_slices_enabled_flag : Bool
  pub deblocking_filter_control_present_flag : Bool
  pub deblocking_filter_override_enabled_flag : Bool
  pub pps_deblocking_filter_disabled_flag : Bool
  pub pps_scaling_list_data_present_flag : Bool
  pub lists_modification_present_flag : Bool
  pub slice_segment_header_extension_present_flag : Bool
  pub pps_extension_present_flag : Bool
  pub cross_component_prediction_enabled_flag : Bool
  pub chroma_qp_offset_list_enabled_flag : Bool
  pub pps_curr_pic_ref_enabled_flag : Bool
  pub residual_adaptive_colour_transform_enabled_flag : Bool
  pub pps_slice_act_qp_offsets_present_flag : Bool
  pub pps_palette_predictor_initializers_present_flag : Bool
  pub monochrome_palette_flag : Bool
  pub pps_range_extension_flag : Bool

-- StdVideoH265PictureParameterSet
pub record StdPps : Type 0 where
  pub flags : StdPpsFlags
  pub pps_pic_parameter_set_id : ℕ
  pub pps_seq_parameter_set_id : ℕ
  pub num_extra_slice_header_bits : ℕ
  pub num_ref_idx_l0_default_active_minus1 : ℕ
  pub num_ref_idx_l1_default_active_minus1 : ℕ
  pub init_qp_minus26 : ℤ
  pub diff_cu_qp_delta_depth : ℕ
  pub pps_cb_qp_offset : ℤ
  pub pps_cr_qp_offset : ℤ
  pub pps_beta_offset_div2 : ℤ
  pub pps_tc_offset_div2 : ℤ
  pub log2_parallel_merge_level_minus2 : ℕ
  pub log2_max_transform_skip_block_size_minus2 : ℕ
  pub diff_cu_chroma_qp_offset_depth : ℕ
  pub chroma_qp_offset_list_len_minus1 : ℕ
  pub log2_sao_offset_scale_luma : ℕ
  pub log2_sao_offset_scale_chroma : ℕ
  pub pps_act_y_qp_offset_plus5 : ℤ
  pub pps_act_cb_qp_offset_plus5 : ℤ
  pub pps_act_cr_qp_offset_plus3 : ℤ
  pub pps_num_palette_predictor_initializers : ℕ
  pub luma_bit_depth_entry_minus8 : ℕ
  pub chroma_bit_depth_entry_minus8 : ℕ
  pub num_tile_columns_minus1 : ℕ
  pub num_tile_rows_minus1 : ℕ
  pub p_scaling_lists : Pointer
  pub p_predictor_palette_entries : Pointer
  pub column_width_minus1 : List ℕ
  pub row_height_minus1 : List ℕ

pub record StdVpsFlags : Type 0 where
  pub vps_temporal_id_nesting_flag : Bool
  pub vps_sub_layer_ordering_info_present_flag : Bool
  pub vps_timing_info_present_flag : Bool
  pub vps_poc_proportional_to_timing_flag : Bool

-- StdVideoH265VideoParameterSet
pub record StdVps : Type 0 where
  pub flags : StdVpsFlags
  pub vps_video_parameter_set_id : ℕ
  pub vps_max_sub_layers_minus1 : ℕ
  pub vps_num_units_in_tick : ℕ
  pub vps_time_scale : ℕ
  pub vps_num_ticks_poc_diff_one_minus1 : ℕ
  pub p_dec_pic_buf_mgr : Pointer
