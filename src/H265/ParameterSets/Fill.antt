-- ===== src/H265/ParameterSets/Fill.antt =====
-- fill_sps, fill_pps and fill_vps of lib/plugins/gstvkh265dec.cpp, over the storage of a VkH265Picture.
use gst_vk_video_parser.Prelude.{ℕ, Bool, List, ◌++◌, take, drop, if◌then◌else◌}
use gst_vk_video_parser.H265.ParameterSets.Parsed.{Vps, Sps, Pps}
use gst_vk_video_parser.H265.ParameterSets.Std.{
  StdDecPicBufMgr, StdScalingLists, StdHrd, StdVui, StdProfileTierLevel, StdSps, StdPps, StdVps,
}
use gst_vk_video_parser.H265.ParameterSets.Written.{
  fill_scaling_list, hrd_parameters, vui_parameters, profile_tier_level_of, first_sps, vps_id_or,
  pps_parameters, vps_parameters,
}

-- VkH265Picture
pub record VkH265Picture : Type 0 where
  pub hrd : StdHrd
  pub vui : StdVui
  pub profile_tier_level : StdProfileTierLevel
  pub sps : StdSps
  pub pps : StdPps
  pub vps : StdVps
  pub pic_buf_mgr : StdDecPicBufMgr
  pub scaling_lists_sps : StdScalingLists
  pub scaling_lists_pps : StdScalingLists

-- `if (sps->vui_parameters_present_flag)`
unfoldable pub fill_vui : Sps → VkH265Picture → VkH265Picture
fill_vui sps vkp =
    if sps.vui_parameters_present_flag
    then (if sps.vui_params.hrd_parameters_present_flag
        then record vkp { hrd = hrd_parameters sps; vui = vui_parameters sps }
        else record vkp { vui = vui_parameters sps })
    else vkp

-- `if (sps->vps)`
abbrev pub fill_vps_id : Sps → StdSps → StdSps
fill_vps_id sps std = record std {
  sps_video_parameter_set_id = vps_id_or std.sps_video_parameter_set_id sps.vps;
}

-- `if (sps->sps_extension_flag)`
unfoldable pub fill_extension : Sps → StdSps → StdSps
fill_extension sps std =
    if sps.sps_extension_flag
    then record std {
      flags = record std.flags {
        transform_skip_rotation_enabled_flag =
            sps.sps_extension_params.transform_skip_context_enabled_flag;
        transform_skip_context_enabled_flag =
            sps.sps_extension_params.transform_skip_context_enabled_flag;
        implicit_rdpcm_enabled_flag = sps.sps_extension_params.implicit_rdpcm_enabled_flag;
        explicit_rdpcm_enabled_flag = sps.sps_extension_params.explicit_rdpcm_enabled_flag;
        extended_precision_processing_flag =
            sps.sps_extension_params.extended_precision_processing_flag;
        intra_smoothing_disabled_flag = sps.sps_extension_params.intra_smoothing_disabled_flag;
        high_precision_offsets_enabled_flag =
            sps.sps_extension_params.high_precision_offsets_enabled_flag;
        persistent_rice_adaptation_enabled_flag =
            sps.sps_extension_params.persistent_rice_adaptation_enabled_flag;
        cabac_bypass_alignment_enabled_flag =
            sps.sps_extension_params.cabac_bypass_alignment_enabled_flag;
      };
    }
    else std

-- `if (sps->sps_scc_extension_flag)`
unfoldable pub fill_scc_extension : Sps → StdSps → StdSps
fill_scc_extension sps std =
    if sps.sps_scc_extension_flag
    then record std {
      palette_max_size = sps.sps_scc_extension_params.palette_max_size;
      delta_palette_max_predictor_size =
          sps.sps_scc_extension_params.delta_palette_max_predictor_size;
      motion_vector_resolution_control_idc =
          sps.sps_scc_extension_params.motion_vector_resolution_control_idc;
      sps_num_palette_predictor_initializers_minus1 =
          sps.sps_scc_extension_params.sps_num_palette_predictor_initializer_minus1;
    }
    else std

-- `vkp->sps` at the end of fill_sps.
abbrev pub sps_parameters : Bool → Sps → StdSps
sps_parameters recent sps =
    fill_scc_extension sps (fill_extension sps (fill_vps_id sps (first_sps recent sps)))

unfoldable pub fill_sps : Bool → Sps → VkH265Picture → VkH265Picture
fill_sps recent sps vkp = record (fill_vui sps vkp) {
  profile_tier_level = profile_tier_level_of sps;
  scaling_lists_sps = fill_scaling_list sps.scaling_list;
  sps = sps_parameters recent sps;
}

unfoldable pub fill_pps : Bool → Pps → VkH265Picture → VkH265Picture
fill_pps recent pps vkp = record vkp {
  scaling_lists_pps = fill_scaling_list pps.scaling_list;
  pps = pps_parameters recent pps;
}

-- memcpy of that many bytes.
abbrev pub copied : ℕ → List ℕ → List ℕ → List ℕ
copied n from to = take n from ++ drop n to

-- The count of bytes is STD_VIDEO_H265_SUBLAYERS_LIST_SIZE each time.
unfoldable pub fill_vps : Vps → VkH265Picture → VkH265Picture
fill_vps vps vkp = record vkp {
  vps = vps_parameters vps;
  pic_buf_mgr = record {
    max_latency_increase_plus1 =
        copied 7 vps.max_latency_increase_plus1 vkp.pic_buf_mgr.max_latency_increase_plus1;
    max_dec_pic_buffering_minus1 =
        copied 7 vps.max_dec_pic_buffering_minus1 vkp.pic_buf_mgr.max_dec_pic_buffering_minus1;
    max_num_reorder_pics = copied 7 vps.max_num_reorder_pics vkp.pic_buf_mgr.max_num_reorder_pics;
  };
}
