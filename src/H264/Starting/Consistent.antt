-- ===== src/H264/Starting/Consistent.antt =====
-- What a client is shown of a picture whose parameter sets are filled into its own storage.
use gst_vk_video_parser.Prelude.{◌≡◌}
use gst_vk_video_parser.H264.ParameterSets.Parsed.{Pps}
use gst_vk_video_parser.H264.ParameterSets.Fill.{VkH264Picture}
use gst_vk_video_parser.H264.ParameterSets.Views.{sps_view, sps_contents, pps_view, pps_contents}
use gst_vk_video_parser.H264.Starting.Data.{H264PictureData}

-- What the picture's data and a picture parameter set in the storage both tell agrees. The data has the
-- QP of the set in the place of the QS.
pub record Agrees (h : H264PictureData) (vkp : VkH264Picture) : Type 0 where
  pub sps_id : h.seq_parameter_set_id ≡ vkp.sps.seq_parameter_set_id
  pub pps_sps_id : h.seq_parameter_set_id ≡ vkp.pps.seq_parameter_set_id
  pub pps_id : h.pic_parameter_set_id ≡ vkp.pps.pic_parameter_set_id
  pub ref_idx_l0 : h.num_ref_idx_l0_active_minus1 ≡ vkp.pps.num_ref_idx_l0_default_active_minus1
  pub ref_idx_l1 : h.num_ref_idx_l1_active_minus1 ≡ vkp.pps.num_ref_idx_l1_default_active_minus1
  pub weighted_pred : h.weighted_pred_flag ≡ vkp.pps.flags.weighted_pred_flag
  pub redundant_pic_cnt :
      h.redundant_pic_cnt_present_flag ≡ vkp.pps.flags.redundant_pic_cnt_present_flag
  pub deblocking :
      h.deblocking_filter_control_present_flag
      ≡ vkp.pps.flags.deblocking_filter_control_present_flag
  pub transform_8x8 : h.transform_8x8_mode_flag ≡ vkp.pps.flags.transform_8x8_mode_flag
  pub constrained_intra : h.constrained_intra_pred_flag ≡ vkp.pps.flags.constrained_intra_pred_flag
  pub entropy_coding : h.entropy_coding_mode_flag ≡ vkp.pps.flags.entropy_coding_mode_flag
  pub qp : h.pic_init_qp_minus26 ≡ vkp.pps.pic_init_qp_minus26
  pub qs_is_qp : h.pic_init_qs_minus26 ≡ vkp.pps.pic_init_qp_minus26
  pub chroma_qp : h.chroma_qp_index_offset ≡ vkp.pps.chroma_qp_index_offset
  pub second_chroma_qp : h.second_chroma_qp_index_offset ≡ vkp.pps.second_chroma_qp_index_offset

-- The contents of a picture parameter set and of its sequence parameter set, which agree with the data.
pub record Describes (p : Pps) (h : H264PictureData) (vkp : VkH264Picture) : Type 0 where
  pub sps : sps_view vkp ≡ sps_contents p.sequence
  pub pps : pps_view vkp ≡ pps_contents p
  pub agrees : Agrees h vkp
