-- ===== src/H264/ParameterSets/Contents.antt =====
-- What the structures of Vulkan Video are to hold of a parameter set, field by field: the member of the
-- parser's structure with the same meaning, in the width of the field. It is stated without the code.
use gst_vk_video_parser.Prelude.{
  ℕ, ◌%◌, ◌/◌, ◌^◌, ◌-◌, ◌≡◌, refl, Bool, true, false, ◌&&◌, ◌||◌, ap, ap₂, ◌∙◌, arith, Option,
  none, some, ltb, leb, ◌==◌, if◌then◌else◌, replicate,
}
use gst_vk_video_parser.Prelude.Int.{to_int8}
use gst_vk_video_parser.H264.Sequence.{Level, level, invalid, get_h264_level_idc}
use gst_vk_video_parser.H264.ParameterSets.Parsed.{HrdParams, VuiParams, Sps, Pps}
use gst_vk_video_parser.H264.ParameterSets.Std.{
  Pointer, null, to_hrd, to_vui, to_offset_for_ref_frame, to_scaling_lists_sps,
  to_scaling_lists_pps, StdScalingLists, StdHrd, StdVui, StdSps, StdPps,
}
use gst_vk_video_parser.H264.ParameterSets.Written.{
  get_h264_profile, get_h264_chroma_format, get_h264_poc_type, get_h264_aspect_ratio_idc,
  get_h264_weighted_bipred_idc, hrd_of_sps, hrd_pointer, hrd_parameters, vui_parameters,
  sps_parameters, pps_parameters,
}

-- A number that the standard knows, or the one for the others.
abbrev pub known : Bool → ℕ → ℕ
known true n = n
known false n = 2 ^ 31 - 1

-- 10 to 62 with a last digit of 0, 1 or 2, and 13: the tens and the ones of the level.
abbrev pub level_of : ℕ → Level
level_of idc =
    if leb 10 idc && (leb idc 62 && (leb (idc % 10) 2 || idc == 13))
    then level (idc / 10) (idc % 10)
    else invalid

-- The HRD parameters that the client is shown: those of the NAL units before those of the slices.
abbrev pub shown_hrd : VuiParams → Option HrdParams
shown_hrd vui =
    if vui.nal_hrd_parameters_present_flag
    then some vui.nal_hrd_parameters
    else (if vui.vcl_hrd_parameters_present_flag then some vui.vcl_hrd_parameters else none)

abbrev pub hrd_address : Option HrdParams → Pointer
hrd_address none = null
hrd_address (some hrd) = to_hrd

-- Of the HRD parameters all but cbr_flag, which is 0.
abbrev pub hrd_fields : HrdParams → StdHrd
hrd_fields hrd = record {
  cpb_cnt_minus1 = hrd.cpb_cnt_minus1;
  bit_rate_scale = hrd.bit_rate_scale;
  cpb_size_scale = hrd.cpb_size_scale;
  initial_cpb_removal_delay_length_minus1 = hrd.initial_cpb_removal_delay_length_minus1;
  cpb_removal_delay_length_minus1 = hrd.cpb_removal_delay_length_minus1;
  dpb_output_delay_length_minus1 = hrd.dpb_output_delay_length_minus1;
  time_offset_length = hrd.time_offset_length;
  bit_rate_value_minus1 = hrd.bit_rate_value_minus1;
  cpb_size_value_minus1 = hrd.cpb_size_value_minus1;
  cbr_flag = replicate 32 0;
}

-- The VUI.
abbrev pub vui_fields : Sps → StdVui
vui_fields sps = record {
  flags = record {
    aspect_ratio_info_present_flag = sps.vui_parameters.aspect_ratio_info_present_flag;
    overscan_info_present_flag = sps.vui_parameters.overscan_info_present_flag;
    overscan_appropriate_flag = sps.vui_parameters.overscan_appropriate_flag;
    video_signal_type_present_flag = sps.vui_parameters.video_signal_type_present_flag;
    video_full_range_flag = sps.vui_parameters.video_full_range_flag;
    color_description_present_flag = sps.vui_parameters.colour_description_present_flag;
    chroma_loc_info_present_flag = sps.vui_parameters.chroma_loc_info_present_flag;
    timing_info_present_flag = sps.vui_parameters.timing_info_present_flag;
    fixed_frame_rate_flag = sps.vui_parameters.fixed_frame_rate_flag;
    bitstream_restriction_flag = sps.vui_parameters.bitstream_restriction_flag;
    nal_hrd_parameters_present_flag = sps.vui_parameters.nal_hrd_parameters_present_flag;
    vcl_hrd_parameters_present_flag = sps.vui_parameters.vcl_hrd_parameters_present_flag;
  };
  aspect_ratio_idc =
      known
        (leb sps.vui_parameters.aspect_ratio_idc 16 || sps.vui_parameters.aspect_ratio_idc == 255)
        sps.vui_parameters.aspect_ratio_idc;
  sar_width = sps.vui_parameters.sar_width;
  sar_height = sps.vui_parameters.sar_height;
  video_format = sps.vui_parameters.video_format;
  colour_primaries = sps.vui_parameters.colour_primaries;
  transfer_characteristics = sps.vui_parameters.transfer_characteristics;
  matrix_coefficients = sps.vui_parameters.matrix_coefficients;
  num_units_in_tick = sps.vui_parameters.num_units_in_tick;
  time_scale = sps.vui_parameters.time_scale;
  max_num_reorder_frames = sps.vui_parameters.num_reorder_frames % 2 ^ 8;
  max_dec_frame_buffering = sps.vui_parameters.max_dec_frame_buffering % 2 ^ 8;
  chroma_sample_loc_type_top_field = sps.vui_parameters.chroma_sample_loc_type_top_field;
  chroma_sample_loc_type_bottom_field = sps.vui_parameters.chroma_sample_loc_type_bottom_field;
  p_hrd_parameters = hrd_address (shown_hrd sps.vui_parameters);
}

-- The sequence parameter set.
abbrev pub sps_fields : Sps → StdSps
sps_fields sps = record {
  flags = record {
    constraint_set0_flag = sps.constraint_set0_flag;
    constraint_set1_flag = sps.constraint_set1_flag;
    constraint_set2_flag = sps.constraint_set2_flag;
    constraint_set3_flag = sps.constraint_set3_flag;
    constraint_set4_flag = sps.constraint_set4_flag;
    constraint_set5_flag = sps.constraint_set5_flag;
    direct_8x8_inference_flag = sps.direct_8x8_inference_flag;
    mb_adaptive_frame_field_flag = sps.mb_adaptive_frame_field_flag;
    frame_mbs_only_flag = sps.frame_mbs_only_flag;
    delta_pic_order_always_zero_flag = sps.delta_pic_order_always_zero_flag;
    separate_colour_plane_flag = sps.separate_colour_plane_flag;
    gaps_in_frame_num_value_allowed_flag = sps.gaps_in_frame_num_value_allowed_flag;
    qpprime_y_zero_transform_bypass_flag = sps.qpprime_y_zero_transform_bypass_flag;
    frame_cropping_flag = sps.frame_cropping_flag;
    seq_scaling_matrix_present_flag = sps.scaling_matrix_present_flag;
    vui_parameters_present_flag = sps.vui_parameters_present_flag;
  };
  profile_idc =
      known
        (sps.profile_idc == 66
          || (sps.profile_idc == 77 || (sps.profile_idc == 100 || sps.profile_idc == 244)))
        sps.profile_idc;
  level_idc = level_of sps.level_idc;
  chroma_format_idc = known (leb sps.chroma_format_idc 3) sps.chroma_format_idc;
  seq_parameter_set_id = sps.id % 2 ^ 8;
  bit_depth_luma_minus8 = sps.bit_depth_luma_minus8;
  bit_depth_chroma_minus8 = sps.bit_depth_chroma_minus8;
  log2_max_frame_num_minus4 = sps.log2_max_frame_num_minus4;
  pic_order_cnt_type = known (leb sps.pic_order_cnt_type 2) sps.pic_order_cnt_type;
  offset_for_non_ref_pic = sps.offset_for_non_ref_pic;
  offset_for_top_to_bottom_field = sps.offset_for_top_to_bottom_field;
  log2_max_pic_order_cnt_lsb_minus4 = sps.log2_max_pic_order_cnt_lsb_minus4;
  num_ref_frames_in_pic_order_cnt_cycle = sps.num_ref_frames_in_pic_order_cnt_cycle;
  max_num_ref_frames = sps.num_ref_frames % 2 ^ 8;
  pic_width_in_mbs_minus1 = sps.pic_width_in_mbs_minus1;
  pic_height_in_map_units_minus1 = sps.pic_height_in_map_units_minus1;
  frame_crop_left_offset = sps.frame_crop_left_offset;
  frame_crop_right_offset = sps.frame_crop_right_offset;
  frame_crop_top_offset = sps.frame_crop_top_offset;
  frame_crop_bottom_offset = sps.frame_crop_bottom_offset;
  p_offset_for_ref_frame =
      if ltb 0 sps.num_ref_frames_in_pic_order_cnt_cycle then to_offset_for_ref_frame else null;
  p_scaling_lists = if sps.scaling_matrix_present_flag then to_scaling_lists_sps else null;
  p_sequence_parameter_set_vui = if sps.vui_parameters_present_flag then to_vui else null;
}

-- The picture parameter set, whose bottom_field_pic_order_in_frame_present_flag is always 0.
abbrev pub pps_fields : Pps → StdPps
pps_fields pps = record {
  flags = record {
    transform_8x8_mode_flag = pps.transform_8x8_mode_flag;
    redundant_pic_cnt_present_flag = pps.redundant_pic_cnt_present_flag;
    constrained_intra_pred_flag = pps.constrained_intra_pred_flag;
    deblocking_filter_control_present_flag = pps.deblocking_filter_control_present_flag;
    weighted_pred_flag = pps.weighted_pred_flag;
    bottom_field_pic_order_in_frame_present_flag = false;
    entropy_coding_mode_flag = pps.entropy_coding_mode_flag;
    pic_scaling_matrix_present_flag = pps.pic_scaling_matrix_present_flag;
  };
  seq_parameter_set_id = pps.sequence.id % 2 ^ 8;
  pic_parameter_set_id = pps.id % 2 ^ 8;
  num_ref_idx_l0_default_active_minus1 = pps.num_ref_idx_l0_active_minus1;
  num_ref_idx_l1_default_active_minus1 = pps.num_ref_idx_l1_active_minus1;
  weighted_bipred_idc = known (leb pps.weighted_bipred_idc 2) pps.weighted_bipred_idc;
  pic_init_qp_minus26 = pps.pic_init_qp_minus26;
  pic_init_qs_minus26 = pps.pic_init_qs_minus26;
  chroma_qp_index_offset = pps.chroma_qp_index_offset;
  second_chroma_qp_index_offset = to_int8 pps.second_chroma_qp_index_offset;
  p_scaling_lists = if pps.pic_scaling_matrix_present_flag then to_scaling_lists_pps else null;
}

-- Its scaling lists, of which the mask marks the first.
abbrev pub sps_list_fields : Sps → StdScalingLists
sps_list_fields s = record {
  scaling_list_present_mask = 1;
  use_default_scaling_matrix_mask = 0;
  scaling_lists_4x4 = s.scaling_lists_4x4;
  scaling_lists_8x8 = s.scaling_lists_8x8;
}

-- Its scaling lists, of which the mask marks the first.
abbrev pub pps_list_fields : Pps → StdScalingLists
pps_list_fields s = record {
  scaling_list_present_mask = 1;
  use_default_scaling_matrix_mask = 0;
  scaling_lists_4x4 = s.scaling_lists_4x4;
  scaling_lists_8x8 = s.scaling_lists_8x8;
}

level-known : (idc : ℕ) → get_h264_level_idc idc ≡ level_of idc
unfolding get_h264_level_idc
level-known idc = ground arith

profile-known :
    (n : ℕ) → get_h264_profile n ≡ known (n == 66 || (n == 77 || (n == 100 || n == 244))) n
unfolding get_h264_profile
profile-known n = ground arith

chroma-known : (n : ℕ) → get_h264_chroma_format n ≡ known (leb n 3) n
unfolding get_h264_chroma_format
chroma-known n = ground arith

poc_type-known : (n : ℕ) → get_h264_poc_type n ≡ known (leb n 2) n
unfolding get_h264_poc_type
poc_type-known n = ground arith

aspect-known : (n : ℕ) → get_h264_aspect_ratio_idc n ≡ known (leb n 16 || n == 255) n
unfolding get_h264_aspect_ratio_idc
aspect-known n = ground arith

bipred-known : (n : ℕ) → get_h264_weighted_bipred_idc n ≡ known (leb n 2) n
unfolding get_h264_weighted_bipred_idc
bipred-known n = ground arith

hrd_address_same : (o : Option HrdParams) → hrd_pointer o ≡ hrd_address o
hrd_address_same none = refl
hrd_address_same (some hrd) = refl

pub hrd_parameters-fields : (hrd : HrdParams) → hrd_parameters hrd ≡ hrd_fields hrd
unfolding hrd_parameters
hrd_parameters-fields hrd = refl

pub hrd_of_sps-shown : (s : Sps) → hrd_of_sps s ≡ shown_hrd s.vui_parameters
unfolding hrd_of_sps
hrd_of_sps-shown s = refl

pub vui_parameters-fields : (s : Sps) → vui_parameters s ≡ vui_fields s
unfolding vui_parameters
vui_parameters-fields s =
    ap₂ (λ a p. record (vui_fields s) { aspect_ratio_idc = a; p_hrd_parameters = p })
      (aspect-known s.vui_parameters.aspect_ratio_idc)
      (ap hrd_pointer (hrd_of_sps-shown s) ∙ hrd_address_same (shown_hrd s.vui_parameters))

pub sps_parameters-fields : (s : Sps) → sps_parameters s ≡ sps_fields s
unfolding sps_parameters
sps_parameters-fields s =
    ap₂ (λ p l. record (sps_parameters s) { profile_idc = p; level_idc = l })
      (profile-known s.profile_idc) (level-known s.level_idc)
    ∙ ap₂ (λ c t. record (sps_fields s) { chroma_format_idc = c; pic_order_cnt_type = t })
        (chroma-known s.chroma_format_idc) (poc_type-known s.pic_order_cnt_type)

pub pps_parameters-fields : (p : Pps) → pps_parameters p ≡ pps_fields p
unfolding pps_parameters
pps_parameters-fields p =
    ap (λ b. record (pps_fields p) { weighted_bipred_idc = b }) (bipred-known p.weighted_bipred_idc)
