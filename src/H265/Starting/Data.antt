-- ===== src/H265/Starting/Data.antt =====
-- lib/plugins/gstvkh265dec.cpp: the data that start_picture describes a picture with.
use gst_vk_video_parser.Prelude.{
  ℕ, ◌/◌, ◌%◌, ◌^◌, Bool, false, not, List, Option, none, some, if◌then◌else◌,
}
use gst_vk_video_parser.Prelude.Int.{ℤ, int32_of}
use gst_vk_video_parser.H265.ParameterSets.Parsed.{Sps, Pps, Vps}
use gst_vk_video_parser.H265.ParameterSets.Fill.{VkH265Picture}
use gst_vk_video_parser.H265.RefPics.{
  Picture, RefPics, RefPicSets, RefResult, filled, null_vps, ◌>>=◌, ref_pic_sets,
}
use gst_vk_video_parser.H265.Starting.{Decoder, start_parameters}

-- What start_picture reads of a GstH265Picture, a GstH265Slice and a GstH265Decoder. The flags of
-- buffer_flags and the tests on the type of the slice's NAL unit are Booleans.
pub record CurrentPicture : Type 0 where
  pub bottom_field : Bool
  pub interlaced : Bool
  pub top_field_first : Bool
  pub ref : Bool
  pub intra_pic_flag : Bool
  pub pic_order_cnt : ℤ

pub record Slice : Type 0 where
  pub is_irap : Bool
  pub is_idr : Bool
  pub short_term_ref_pic_set_size : ℕ
  pub num_delta_pocs_of_ref_rps_idx : ℕ
  pub num_poc_total_curr : ℕ

pub record BaseDecoder : Type 0 where
  pub num_poc_st_curr_before : ℕ
  pub num_poc_st_curr_after : ℕ
  pub num_poc_lt_curr : ℕ

-- VkParserPictureData, the fields that start_picture writes.
pub record PictureData : Type 0 where
  pub pic_width_in_mbs : ℕ
  pub frame_height_in_mbs : ℕ
  pub curr_pic : Option ℕ
  pub field_pic_flag : Bool
  pub bottom_field_flag : Bool
  pub progressive_frame : Bool
  pub top_field_first : Bool
  pub repeat_first_field : ℕ
  pub ref_pic_flag : Bool
  pub intra_pic_flag : Bool
  pub chroma_format : ℕ
  pub picture_order_count : ℤ
  pub current_dpb_id : ℕ

unfoldable pub picture_data : Sps → CurrentPicture → Option ℕ → PictureData
picture_data sps picture pic = record {
  pic_width_in_mbs = sps.width / 16;
  frame_height_in_mbs = sps.height / 16;
  curr_pic = pic;
  field_pic_flag = if sps.vui_parameters_present_flag then sps.vui_params.field_seq_flag else false;
  bottom_field_flag = picture.bottom_field;
  progressive_frame = not picture.interlaced;
  top_field_first = picture.top_field_first;
  repeat_first_field = 0;
  ref_pic_flag = picture.ref;
  intra_pic_flag = picture.intra_pic_flag;
  chroma_format = sps.chroma_format_idc;
  picture_order_count = picture.pic_order_cnt;
  current_dpb_id = 0;
}

-- VkParserHevcPictureData, but for the pointers and the reference pictures.
pub record HevcPictureData : Type 0 where
  pub pic_parameter_set_id : ℕ
  pub seq_parameter_set_id : ℕ
  pub vps_video_parameter_set_id : ℕ
  pub irap_pic_flag : Bool
  pub idr_pic_flag : Bool
  pub num_bits_for_short_term_rps_in_slice : ℤ
  pub num_delta_pocs_of_ref_rps_idx : ℕ
  pub num_poc_total_curr : ℕ
  pub num_poc_st_curr_before : ℤ
  pub num_poc_st_curr_after : ℤ
  pub num_poc_lt_curr : ℤ
  pub curr_pic_order_cnt_val : ℤ
  pub profile_level : ℕ
  pub color_primaries : ℕ
  pub bit_depth_luma_minus8 : ℕ
  pub bit_depth_chroma_minus8 : ℕ

unfoldable pub hevc_picture_data :
    BaseDecoder → Vps → Sps → Pps → Slice → CurrentPicture → HevcPictureData
hevc_picture_data decoder vps sps pps slice picture = record {
  pic_parameter_set_id = pps.id % 2 ^ 8;
  seq_parameter_set_id = sps.id % 2 ^ 8;
  vps_video_parameter_set_id = vps.id % 2 ^ 8;
  irap_pic_flag = slice.is_irap;
  idr_pic_flag = slice.is_idr;
  num_bits_for_short_term_rps_in_slice = int32_of slice.short_term_ref_pic_set_size;
  num_delta_pocs_of_ref_rps_idx = slice.num_delta_pocs_of_ref_rps_idx;
  num_poc_total_curr = slice.num_poc_total_curr;
  num_poc_st_curr_before = int32_of decoder.num_poc_st_curr_before;
  num_poc_st_curr_after = int32_of decoder.num_poc_st_curr_after;
  num_poc_lt_curr = int32_of decoder.num_poc_lt_curr;
  curr_pic_order_cnt_val = picture.pic_order_cnt;
  profile_level = vps.profile_tier_level.profile_idc;
  color_primaries = if sps.vui_parameters_present_flag then sps.vui_params.colour_primaries else 0;
  bit_depth_luma_minus8 =
      if pps.pps_scc_extension_flag
      then pps.pps_scc_extension_params.luma_bit_depth_entry_minus8
      else 0;
  bit_depth_chroma_minus8 =
      if pps.pps_scc_extension_flag
      then pps.pps_scc_extension_params.chroma_bit_depth_entry_minus8 % 2 ^ 8
      else 0;
}

-- The data of a picture with its reference pictures.
pub record StartedPicture : Type 0 where
  pub picture : PictureData
  pub hevc : HevcPictureData
  pub ref_pics : RefPics
  pub sets : RefPicSets

-- start_picture from `vkpic->data` on; `vps` is read for the data.
unfoldable pub describe_picture :
    BaseDecoder
    → Option Vps
    → Sps
    → Pps
    → Slice
    → CurrentPicture
    → Option ℕ
    → RefResult (RefPics × RefPicSets)
    → RefResult StartedPicture
describe_picture decoder none sps pps slice picture pic refs = null_vps
describe_picture decoder (some vps) sps pps slice picture pic refs = refs >>= λ r. filled (record {
  picture = picture_data sps picture pic;
  hevc = hevc_picture_data decoder vps sps pps slice picture;
  ref_pics = r.0;
  sets = r.1;
})

-- gst_vk_h265_dec_start_picture: the element, the picture's storage, and the picture's data. `own` and
-- `pic` are the `vkp` and the `pic` of the picture's VkPic, `sps` is `pps->sps`.
unfoldable pub start_picture :
    Bool
    → Decoder
    → VkH265Picture
    → Option ℕ
    → BaseDecoder
    → Sps
    → Pps
    → Slice
    → CurrentPicture
    → List Picture
    → List (Option ℤ) × List (Option ℤ) × List (Option ℤ)
    → (Decoder × VkH265Picture) × RefResult StartedPicture
start_picture recent self own pic decoder sps pps slice picture dpb (before, after, lt) = (
  start_parameters recent sps pps self own,
  describe_picture decoder sps.vps sps pps slice picture pic (ref_pic_sets dpb before after lt),
)
