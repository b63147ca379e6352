-- ===== src/H265/Starting.antt =====
-- lib/plugins/gstvkh265dec.cpp: update_picture_parameters and start_picture, over the storage for parameter
-- sets of the decoder element and of a picture. The base decoder's slice and picture are arguments.
pub mod Data
pub mod Stored
pub mod Lists
pub mod Consistent
mod Tests
use gst_vk_video_parser.Prelude.{
  ℕ, Bool, true, false, not, ◌&&◌, ◌||◌, List, [], ◌∷◌, Option, none, some, ◌==◌, if◌then◌else◌,
}
use gst_vk_video_parser.Updates.{NalType, sps, pps, vps, other, Counts, Update, h265_update}
use gst_vk_video_parser.H265.ParameterSets.Parsed.{Sps, Pps, Vps}
use gst_vk_video_parser.H265.ParameterSets.Std.{to_scaling_lists_sps}
use gst_vk_video_parser.H265.ParameterSets.Written.{fill_scaling_list}
use gst_vk_video_parser.H265.ParameterSets.Fill.{VkH265Picture, fill_sps, fill_pps, fill_vps}

-- GstVkH265Dec, what these calls read and write of it.
pub record Decoder : Type 0 where
  pub oob_pic_params : Bool
  pub vkp : VkH265Picture
  pub counts : Counts

-- The NAL units of update_picture_parameters, with their contents.
pub data Nalu : Type 0 where
  sps_nalu : Sps → Nalu
  pps_nalu : Pps → Nalu
  vps_nalu : Vps → Nalu
  other_nalu : Nalu

abbrev pub nal_type : Nalu → NalType
nal_type (sps_nalu s) = sps
nal_type (pps_nalu p) = pps
nal_type (vps_nalu v) = vps
nal_type other_nalu = other

-- The fill function of each case.
unfoldable pub store : Bool → Nalu → VkH265Picture → VkH265Picture
store recent (sps_nalu s) vkp = fill_sps recent s vkp
store recent (pps_nalu p) vkp = fill_pps recent p vkp
store recent (vps_nalu v) vkp = fill_vps v vkp
store recent other_nalu vkp = vkp

-- The parameter sets of a sequence of NAL units, in order.
unfoldable pub store_all : Bool → List Nalu → VkH265Picture → VkH265Picture
store_all recent [] vkp = vkp
store_all recent (u ∷ us) vkp = store_all recent us (store recent u vkp)

-- gst_vk_h265_dec_update_picture_parameters: what the client is told, and the element.
unfoldable pub update_picture_parameters : Bool → Decoder → Nalu → Option Update × Decoder
update_picture_parameters recent self nalu = (
  (h265_update self.counts (nal_type nalu)).0,
  record self {
    vkp = store recent nalu self.vkp;
    counts = (h265_update self.counts (nal_type nalu)).1;
  },
)

-- The test of start_picture, which reads the same counter twice.
unfoldable pub fills_own : Decoder → Bool
fills_own self =
    not self.oob_pic_params
    || (self.counts.sps_update_count == 0 && self.counts.sps_update_count == 0)

-- `// Following bad/sys/nvcodec/gstnvh265dec.c`
unfoldable pub follow_nvcodec : Sps → Pps → VkH265Picture → VkH265Picture
follow_nvcodec s p vkp =
    if p.scaling_list_data_present_flag
      || (s.scaling_list_enabled_flag && not s.scaling_list_data_present_flag)
    then record vkp {
      scaling_lists_sps = fill_scaling_list p.scaling_list;
      sps = record vkp.sps { p_scaling_lists = to_scaling_lists_sps };
    }
    else vkp

-- start_picture up to `vkpic->data`: the element and the picture's storage.
unfoldable pub start_parameters :
    Bool → Sps → Pps → Decoder → VkH265Picture → Decoder × VkH265Picture
start_parameters recent s p self own =
    if fills_own self
    then (self, follow_nvcodec s p (fill_pps recent p (fill_sps recent s own)))
    else (record self { vkp = follow_nvcodec s p self.vkp }, own)

-- `vkp`: the storage that pStdVps, pStdSps and pStdPps point into.
unfoldable pub pointed : Decoder → VkH265Picture → VkH265Picture
pointed self own = if fills_own self then own else self.vkp
