-- ===== src/H264/Starting.antt =====
-- lib/plugins/gstvkh264dec.cpp: update_picture_parameters and the parameter sets of start_picture, over the
-- storage of the decoder element and of a picture. The slice's parameter sets are arguments.
pub mod Data
pub mod Stored
pub mod Consistent
mod Tests
use gst_vk_video_parser.Prelude.{
  Bool, true, false, not, ◌&&◌, ◌||◌, List, [], ◌∷◌, Option, none, some, ◌==◌, if◌then◌else◌,
}
use gst_vk_video_parser.Updates.{NalType, sps, pps, other, Counts, Update, h264_update}
use gst_vk_video_parser.H264.ParameterSets.Parsed.{Sps, Pps}
use gst_vk_video_parser.H264.ParameterSets.Fill.{VkH264Picture, fill_sps, fill_pps}

-- GstVkH264Dec, what these calls read and write of it.
pub record Decoder : Type 0 where
  pub oob_pic_params : Bool
  pub vkp : VkH264Picture
  pub counts : Counts

-- The NAL units of update_picture_parameters, with their contents.
pub data Nalu : Type 0 where
  sps_nalu : Sps → Nalu
  pps_nalu : Pps → Nalu
  other_nalu : Nalu

abbrev pub nal_type : Nalu → NalType
nal_type (sps_nalu s) = sps
nal_type (pps_nalu p) = pps
nal_type other_nalu = other

-- The fill function of each case.
unfoldable pub store : Nalu → VkH264Picture → VkH264Picture
store (sps_nalu s) vkp = fill_sps s vkp
store (pps_nalu p) vkp = fill_pps p vkp
store other_nalu vkp = vkp

-- The parameter sets of a sequence of NAL units, in order.
unfoldable pub store_all : List Nalu → VkH264Picture → VkH264Picture
store_all [] vkp = vkp
store_all (u ∷ us) vkp = store_all us (store u vkp)

-- gst_vk_h264_dec_update_picture_parameters: what the client is told, and the element.
unfoldable pub update_picture_parameters : Decoder → Nalu → Option Update × Decoder
update_picture_parameters self nalu = (
  (h264_update self.counts (nal_type nalu)).0,
  record self { vkp = store nalu self.vkp; counts = (h264_update self.counts (nal_type nalu)).1 },
)

-- The updates of a sequence of NAL units.
unfoldable pub update_all : Decoder → List Nalu → Decoder
update_all self [] = self
update_all self (u ∷ us) = update_all (update_picture_parameters self u).1 us

-- The test of start_picture, which reads the same counter twice.
unfoldable pub fills_own : Decoder → Bool
fills_own self =
    not self.oob_pic_params
    || (self.counts.sps_update_count == 0 && self.counts.sps_update_count == 0)

-- The picture's storage after start_picture, which leaves the element's.
unfoldable pub start_parameters : Decoder → Pps → VkH264Picture → VkH264Picture
start_parameters self p own = if fills_own self then fill_pps p (fill_sps p.sequence own) else own

-- `vkp`: the storage that pStdSps and pStdPps point into.
unfoldable pub pointed : Decoder → VkH264Picture → VkH264Picture
pointed self own = if fills_own self then own else self.vkp
