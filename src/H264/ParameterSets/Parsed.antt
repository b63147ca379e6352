-- ===== src/H264/ParameterSets/Parsed.antt =====
-- The parameter sets as GStreamer's codec parser gives them: the fields that the decoder element reads.
-- A flag of one bit is a Boolean.
use gst_vk_video_parser.Prelude.{ℕ, Bool, List}
use gst_vk_video_parser.Prelude.Int.{ℤ}
use gst_vk_video_parser.H264.SliceGroups.{SliceGroupParams}

-- GstH264HRDParams
pub record HrdParams : Type 0 where
  pub cpb_cnt_minus1 : ℕ
  pub bit_rate_scale : ℕ
  pub cpb_size_scale : ℕ
  pub initial_cpb_removal_delay_length_minus1 : ℕ
  pub cpb_removal_delay_length_minus1 : ℕ
  pub dpb_output_delay_length_minus1 : ℕ
  pub time_offset_length : ℕ
  pub bit_rate_value_minus1 : List ℕ
  pub cpb_size_value_minus1 : List ℕ
  pub cbr_flag : List ℕ

-- GstH264VUIParams
pub record VuiParams : Type 0 where
  pub aspect_ratio_info_present_flag : Bool
  pub overscan_info_present_flag : Bool
  pub overscan_appropriate_flag : Bool
  pub video_signal_type_present_flag : Bool
  pub video_full_range_flag : Bool
  pub colour_description_present_flag : Bool
  pub chroma_loc_info_present_flag : Bool
  pub timing_info_present_flag : Bool
  pub fixed_frame_rate_flag : Bool
  pub bitstream_restriction_flag : Bool
  pub nal_hrd_parameters_present_flag : Bool
  pub vcl_hrd_parameters_present_flag : Bool
  pub aspect_ratio_idc : ℕ
  pub sar_width : ℕ
  pub sar_height : ℕ
  pub video_format : ℕ
  pub colour_primaries : ℕ
  pub transfer_characteristics : ℕ
  pub matrix_coefficients : ℕ
  pub num_units_in_tick : ℕ
  pub time_scale : ℕ
  pub num_reorder_frames : ℕ
  pub max_dec_frame_buffering : ℕ
  pub chroma_sample_loc_type_top_field : ℕ
  pub chroma_sample_loc_type_bottom_field : ℕ
  pub nal_hrd_parameters : HrdParams
  pub vcl_hrd_parameters : HrdParams

-- GstH264SPS
pub record Sps : Type 0 where
  pub constraint_set0_flag : Bool
  pub constraint_set1_flag : Bool
  pub constraint_set2_flag : Bool
  pub constraint_set3_flag : Bool
  pub constraint_set4_flag : Bool
  pub constraint_set5_flag : Bool
  pub direct_8x8_inference_flag : Bool
  pub mb_adaptive_frame_field_flag : Bool
  pub frame_mbs_only_flag : Bool
  pub delta_pic_order_always_zero_flag : Bool
  pub separate_colour_plane_flag : Bool
  pub gaps_in_frame_num_value_allowed_flag : Bool
  pub qpprime_y_zero_transform_bypass_flag : Bool
  pub frame_cropping_flag : Bool
  pub scaling_matrix_present_flag : Bool
  pub vui_parameters_present_flag : Bool
  pub profile_idc : ℕ
  pub level_idc : ℕ
  pub chroma_format_idc : ℕ
  pub id : ℕ
  pub bit_depth_luma_minus8 : ℕ
  pub bit_depth_chroma_minus8 : ℕ
  pub log2_max_frame_num_minus4 : ℕ
  pub pic_order_cnt_type : ℕ
  pub offset_for_non_ref_pic : ℤ
  pub offset_for_top_to_bottom_field : ℤ
  pub log2_max_pic_order_cnt_lsb_minus4 : ℕ
  pub num_ref_frames_in_pic_order_cnt_cycle : ℕ
  pub num_ref_frames : ℕ
  pub pic_width_in_mbs_minus1 : ℕ
  pub pic_height_in_map_units_minus1 : ℕ
  pub frame_crop_left_offset : ℕ
  pub frame_crop_right_offset : ℕ
  pub frame_crop_top_offset : ℕ
  pub frame_crop_bottom_offset : ℕ
  pub scaling_lists_4x4 : List (List ℕ)
  pub scaling_lists_8x8 : List (List ℕ)
  pub offset_for_ref_frame : List ℤ
  pub width : ℕ
  pub height : ℕ
  pub vui_parameters : VuiParams

-- GstH264PPS; `slice_groups` is what get_slice_group_map reads.
pub record Pps : Type 0 where
  pub transform_8x8_mode_flag : Bool
  pub redundant_pic_cnt_present_flag : Bool
  pub constrained_intra_pred_flag : Bool
  pub deblocking_filter_control_present_flag : Bool
  pub weighted_pred_flag : Bool
  pub entropy_coding_mode_flag : Bool
  pub pic_scaling_matrix_present_flag : Bool
  pub id : ℕ
  pub num_ref_idx_l0_active_minus1 : ℕ
  pub num_ref_idx_l1_active_minus1 : ℕ
  pub weighted_bipred_idc : ℕ
  pub pic_init_qp_minus26 : ℤ
  pub pic_init_qs_minus26 : ℤ
  pub chroma_qp_index_offset : ℤ
  pub second_chroma_qp_index_offset : ℤ
  pub scaling_lists_4x4 : List (List ℕ)
  pub scaling_lists_8x8 : List (List ℕ)
  pub pic_order_present_flag : Bool
  pub slice_group_change_rate_minus1 : ℕ
  pub slice_groups : SliceGroupParams
  pub sequence : Sps
