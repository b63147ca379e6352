-- ===== src/H264/ParameterSets/Std.antt =====
-- The structures of Vulkan Video that the parameter sets are written to: the fields that the code names.
-- The others are zero.
use gst_vk_video_parser.Prelude.{ℕ, Bool, List}
use gst_vk_video_parser.Prelude.Int.{ℤ}
use gst_vk_video_parser.H264.Sequence.{Level}

-- A pointer to a member of the same VkH264Picture.
pub data Pointer : Type 0 where
  null to_hrd to_vui to_offset_for_ref_frame to_scaling_lists_sps to_scaling_lists_pps : Pointer

-- StdVideoH264ScalingLists
pub record StdScalingLists : Type 0 where
  pub scaling_list_present_mask : ℕ
  pub use_default_scaling_matrix_mask : ℕ
  pub scaling_lists_4x4 : List (List ℕ)
  pub scaling_lists_8x8 : List (List ℕ)

-- StdVideoH264HrdParameters
pub record StdHrd : Type 0 where
  pub cpb_cnt_minus1 : ℕ
  pub bit_rate_scale : ℕ
  pub cpb_size_scale : ℕ
  pub initial_cpb_removal_delay_length_minus1 : ℕ
  pub cpb_removal_delay_length_minus1 : ℕ
  pub dpb_output_delay_length_minus1 : ℕ
  pub time_offset_length : ℕ
  pub bit_rate_value_minus1 : List ℕ
  pub cpb_size_value_minus1 : List ℕ
  pub cbr_flag : List ℕ

pub record StdVuiFlags : Type 0 where
  pub aspect_ratio_info_present_flag : Bool
  pub overscan_info_present_flag : Bool
  pub overscan_appropriate_flag : Bool
  pub video_signal_type_present_flag : Bool
  pub video_full_range_flag : Bool
  pub color_description_present_flag : Bool
  pub chroma_loc_info_present_flag : Bool
  pub timing_info_present_flag : Bool
  pub fixed_frame_rate_flag : Bool
  pub bitstream_restriction_flag : Bool
  pub nal_hrd_parameters_present_flag : Bool
  pub vcl_hrd_parameters_present_flag : Bool

-- StdVideoH264SequenceParameterSetVui
pub record StdVui : Type 0 where
  pub flags : StdVuiFlags
  pub aspect_ratio_idc : ℕ
  pub sar_width : ℕ
  pub sar_height : ℕ
  pub video_format : ℕ
  pub colour_primaries : ℕ
  pub transfer_characteristics : ℕ
  pub matrix_coefficients : ℕ
  pub num_units_in_tick : ℕ
  pub time_scale : ℕ
  pub max_num_reorder_frames : ℕ
  pub max_dec_frame_buffering : ℕ
  pub chroma_sample_loc_type_top_field : ℕ
  pub chroma_sample_loc_type_bottom_field : ℕ
  pub p_hrd_parameters : Pointer

pub record StdSpsFlags : Type 0 where
  pub constraint_set0_flag : Bool
  pub constraint_set1_flag : Bool
  pub constraint_set2_flag : Bool
  pub constraint_set3_flag : Bool
  pub constraint_set4_flag : Bool
  pub constraint_set5_flag : Bool
  pub direct_8x8_inference_flag : Bool
  pub mb_adaptive_frame_field_flag : Bool
  pub frame_mbs_only_flag : Bool
  pub delta_pic_order_always_zero_flag : Bool
  pub separate_colour_plane_flag : Bool
  pub gaps_in_frame_num_value_allowed_flag : Bool
  pub qpprime_y_zero_transform_bypass_flag : Bool
  pub frame_cropping_flag : Bool
  pub seq_scaling_matrix_present_flag : Bool
  pub vui_parameters_present_flag : Bool

-- StdVideoH264SequenceParameterSet
pub record StdSps : Type 0 where
  pub flags : StdSpsFlags
  pub profile_idc : ℕ
  pub level_idc : Level
  pub chroma_format_idc : ℕ
  pub seq_parameter_set_id : ℕ
  pub bit_depth_luma_minus8 : ℕ
  pub bit_depth_chroma_minus8 : ℕ
  pub log2_max_frame_num_minus4 : ℕ
  pub pic_order_cnt_type : ℕ
  pub offset_for_non_ref_pic : ℤ
  pub offset_for_top_to_bottom_field : ℤ
  pub log2_max_pic_order_cnt_lsb_minus4 : ℕ
  pub num_ref_frames_in_pic_order_cnt_cycle : ℕ
  pub max_num_ref_frames : ℕ
  pub pic_width_in_mbs_minus1 : ℕ
  pub pic_height_in_map_units_minus1 : ℕ
  pub frame_crop_left_offset : ℕ
  pub frame_crop_right_offset : ℕ
  pub frame_crop_top_offset : ℕ
  pub frame_crop_bottom_offset : ℕ
  pub p_offset_for_ref_frame : Pointer
  pub p_scaling_lists : Pointer
  pub p_sequence_parameter_set_vui : Pointer

pub record StdPpsFlags : Type 0 where
  pub transform_8x8_mode_flag : Bool
  pub redundant_pic_cnt_present_flag : Bool
  pub constrained_intra_pred_flag : Bool
  pub deblocking_filter_control_present_flag : Bool
  pub weighted_pred_flag : Bool
  pub bottom_field_pic_order_in_frame_present_flag : Bool
  pub entropy_coding_mode_flag : Bool
  pub pic_scaling_matrix_present_flag : Bool

-- StdVideoH264PictureParameterSet
pub record StdPps : Type 0 where
  pub flags : StdPpsFlags
  pub seq_parameter_set_id : ℕ
  pub pic_parameter_set_id : ℕ
  pub num_ref_idx_l0_default_active_minus1 : ℕ
  pub num_ref_idx_l1_default_active_minus1 : ℕ
  pub weighted_bipred_idc : ℕ
  pub pic_init_qp_minus26 : ℤ
  pub pic_init_qs_minus26 : ℤ
  pub chroma_qp_index_offset : ℤ
  pub second_chroma_qp_index_offset : ℤ
  pub p_scaling_lists : Pointer
