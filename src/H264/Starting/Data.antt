-- ===== src/H264/Starting/Data.antt =====
-- lib/plugins/gstvkh264dec.cpp: start_picture, with the data it describes a picture with.
use gst_vk_video_parser.Prelude.{ℕ, ◌/◌, ◌%◌, ◌^◌, Bool, not, ◌&&◌, ◌||◌, List, Option, ltb}
use gst_vk_video_parser.Prelude.Int.{ℤ, to_int8}
use gst_vk_video_parser.H264.SliceGroups.{
  Outcome, done, out_of_bounds, running, get_slice_group_map,
}
use gst_vk_video_parser.H264.Dpb.{Picture, DpbEntry, reference_frames}
use gst_vk_video_parser.H264.ParameterSets.Parsed.{Sps, Pps}
use gst_vk_video_parser.H264.ParameterSets.Fill.{VkH264Picture}
use gst_vk_video_parser.H264.Starting.{Decoder, start_parameters}

-- What start_picture reads of a GstH264Picture and of a GstH264Slice. The flags of buffer_flags and the
-- tests on the type of the slice are Booleans.
pub record CurrentPicture : Type 0 where
  pub second_field : Bool
  pub interlaced : Bool
  pub top_field_first : Bool
  pub ref_pic : Bool
  pub pic_order_cnt : ℤ
  pub frame_num : ℤ
  pub top_field_order_cnt : ℤ
  pub bottom_field_order_cnt : ℤ

pub record Slice : Type 0 where
  pub field_pic_flag : Bool
  pub bottom_field_flag : Bool
  pub is_i_slice : Bool
  pub is_si_slice : Bool

-- VkParserPictureData, the fields that start_picture writes.
pub record PictureData : Type 0 where
  pub pic_width_in_mbs : ℕ
  pub frame_height_in_mbs : ℕ
  pub curr_pic : Option ℕ
  pub field_pic_flag : Bool
  pub bottom_field_flag : Bool
  pub second_field : Bool
  pub progressive_frame : Bool
  pub top_field_first : Bool
  pub repeat_first_field : ℕ
  pub ref_pic_flag : Bool
  pub intra_pic_flag : Bool
  pub chroma_format : ℕ
  pub picture_order_count : ℤ
  pub current_dpb_id : ℕ

unfoldable pub picture_data : Sps → Slice → CurrentPicture → Option ℕ → PictureData
picture_data sps slice picture pic = record {
  pic_width_in_mbs = sps.width / 16;
  frame_height_in_mbs = sps.height / 16;
  curr_pic = pic;
  field_pic_flag = slice.field_pic_flag;
  bottom_field_flag = slice.bottom_field_flag;
  second_field = picture.second_field;
  progressive_frame = not picture.interlaced;
  top_field_first = picture.top_field_first;
  repeat_first_field = 0;
  ref_pic_flag = picture.ref_pic;
  intra_pic_flag = slice.is_i_slice || slice.is_si_slice;
  chroma_format = sps.chroma_format_idc;
  picture_order_count = picture.pic_order_cnt;
  current_dpb_id = 0;
}

-- VkParserH264PictureData, but for the pointers to the parameter sets and the reference frames.
pub record H264PictureData : Type 0 where
  pub pic_parameter_set_id : ℕ
  pub seq_parameter_set_id : ℕ
  pub num_ref_idx_l0_active_minus1 : ℕ
  pub num_ref_idx_l1_active_minus1 : ℕ
  pub weighted_pred_flag : Bool
  pub weighted_bipred_idc : ℕ
  pub pic_init_qp_minus26 : ℤ
  pub redundant_pic_cnt_present_flag : Bool
  pub deblocking_filter_control_present_flag : Bool
  pub transform_8x8_mode_flag : Bool
  pub mbaff_frame_flag : Bool
  pub constrained_intra_pred_flag : Bool
  pub entropy_coding_mode_flag : Bool
  pub pic_order_present_flag : Bool
  pub chroma_qp_index_offset : ℤ
  pub second_chroma_qp_index_offset : ℤ
  pub frame_num : ℤ
  pub curr_field_order_cnt : ℤ × ℤ
  pub fmo_aso_enable : Bool
  pub num_slice_groups_minus1 : ℕ
  pub slice_group_map_type : ℕ
  pub pic_init_qs_minus26 : ℤ
  pub slice_group_change_rate_minus1 : ℕ
  pub mb2_slice_group_map : List ℕ

unfoldable pub h264_picture_data : Pps → Slice → CurrentPicture → List ℕ → H264PictureData
h264_picture_data pps slice picture map = record {
  pic_parameter_set_id = pps.id % 2 ^ 8;
  seq_parameter_set_id = pps.sequence.id % 2 ^ 8;
  num_ref_idx_l0_active_minus1 = pps.num_ref_idx_l0_active_minus1;
  num_ref_idx_l1_active_minus1 = pps.num_ref_idx_l1_active_minus1;
  weighted_pred_flag = pps.weighted_pred_flag;
  weighted_bipred_idc = pps.weighted_bipred_idc;
  pic_init_qp_minus26 = pps.pic_init_qp_minus26;
  redundant_pic_cnt_present_flag = pps.redundant_pic_cnt_present_flag;
  deblocking_filter_control_present_flag = pps.deblocking_filter_control_present_flag;
  transform_8x8_mode_flag = pps.transform_8x8_mode_flag;
  mbaff_frame_flag = pps.sequence.mb_adaptive_frame_field_flag && not slice.field_pic_flag;
  constrained_intra_pred_flag = pps.constrained_intra_pred_flag;
  entropy_coding_mode_flag = pps.entropy_coding_mode_flag;
  pic_order_present_flag = pps.pic_order_present_flag;
  chroma_qp_index_offset = pps.chroma_qp_index_offset;
  second_chroma_qp_index_offset = to_int8 pps.second_chroma_qp_index_offset;
  frame_num = picture.frame_num;
  curr_field_order_cnt = (picture.top_field_order_cnt, picture.bottom_field_order_cnt);
  fmo_aso_enable = ltb 0 pps.slice_groups.num_slice_groups_minus1;
  num_slice_groups_minus1 = pps.slice_groups.num_slice_groups_minus1 % 2 ^ 8;
  slice_group_map_type = pps.slice_groups.slice_group_map_type;
  pic_init_qs_minus26 = pps.pic_init_qp_minus26;
  slice_group_change_rate_minus1 = pps.slice_group_change_rate_minus1;
  mb2_slice_group_map = map;
}

-- The data of a picture with its reference frames.
pub record StartedPicture : Type 0 where
  pub picture : PictureData
  pub h264 : H264PictureData
  pub dpb : List DpbEntry

-- start_picture from `vkpic->data` on, given how get_slice_group_map ends.
unfoldable pub describe_picture :
    Pps
    → Slice
    → CurrentPicture
    → Option ℕ
    → List Picture
    → List Picture
    → Outcome (List ℕ)
    → Outcome StartedPicture
describe_picture pps slice picture pic short_term long_term (done map) = done (record {
  picture = picture_data pps.sequence slice picture pic;
  h264 = h264_picture_data pps slice picture map;
  dpb = reference_frames short_term long_term;
})
describe_picture pps slice picture pic short_term long_term out_of_bounds = out_of_bounds
describe_picture pps slice picture pic short_term long_term running = running

-- gst_vk_h264_dec_start_picture: the picture's storage and its data. `own` and `pic` are the `vkp` and the
-- `pic` of the picture's VkPic; the two lists are what the decoded picture buffer answers.
unfoldable pub start_picture :
    ℕ
    → Decoder
    → VkH264Picture
    → Option ℕ
    → Pps
    → Slice
    → CurrentPicture
    → List Picture
    → List Picture
    → VkH264Picture × Outcome StartedPicture
start_picture fuel self own pic pps slice picture short_term long_term = (
  start_parameters self pps own,
  describe_picture pps slice picture pic short_term long_term
      (get_slice_group_map fuel pps.slice_groups),
)
