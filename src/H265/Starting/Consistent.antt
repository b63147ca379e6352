-- ===== src/H265/Starting/Consistent.antt =====
-- The numbers in a picture's data and in the parameter sets that the data points to.
use gst_vk_video_parser.Prelude.{
  ℕ, ◌<◌, ◌≤◌, ◌-◌, length, ◌%◌, ◌^◌, ◌≡◌, refl, ap, sym, ◌∙◌, Bool, true, List, Option, some,
  arith, Bool-cases, inl, inr,
}
use gst_vk_video_parser.Prelude.Int.{ℤ}
use gst_vk_video_parser.H265.ParameterSets.Parsed.{Sps, Pps, Vps}
use gst_vk_video_parser.H265.ParameterSets.Written.{first_sps, vps_id_or, pps_parameters}
use gst_vk_video_parser.H265.ParameterSets.Fill.{VkH265Picture, fill_sps, fill_pps}
use gst_vk_video_parser.H265.ParameterSets.Views.{sps_parameters-Kept}
use gst_vk_video_parser.H265.RefPics.{Picture, RefPics, RefPicSets, RefResult, filled, ref_pic_sets}
use gst_vk_video_parser.H265.RefPics.Listing.{listed, HaveFrames, holding}
use gst_vk_video_parser.H265.RefPics.Numbering.{Fits, filled_ref_set, ref_pic_sets_lem}
use gst_vk_video_parser.H265.Starting.Stored.{fill_vui-others}
use gst_vk_video_parser.H265.Starting.{Decoder, fills_own, follow_nvcodec, pointed}
use gst_vk_video_parser.H265.Starting.Data.{
  BaseDecoder, Slice, CurrentPicture, HevcPictureData, StartedPicture, picture_data,
  hevc_picture_data, describe_picture, start_picture,
}
use gst_vk_video_parser.H265.Starting.Lists.{follows, start_parameters-own}

-- The numbers of the data are those of the parameter sets in the storage, for the video parameter set
-- the one that the sequence parameter set names.
pub record SameIds (h : HevcPictureData) (vkp : VkH265Picture) : Type 0 where
  pub sps : h.seq_parameter_set_id ≡ vkp.sps.sps_seq_parameter_set_id
  pub pps : h.pic_parameter_set_id ≡ vkp.pps.pps_pic_parameter_set_id
  pub vps : h.vps_video_parameter_set_id ≡ vkp.sps.sps_video_parameter_set_id

follow_nvcodec-SameIds :
    (s : Sps) (p : Pps) (h : HevcPictureData) (vkp : VkH265Picture)
    → SameIds h vkp
    → SameIds h (follow_nvcodec s p vkp)
unfolding follow_nvcodec
follow_nvcodec-SameIds s p h vkp same = elim (Bool-cases (follows s p)) [
  | inl on ↦ rw on (record { sps = same.sps; pps = same.pps; vps = same.vps })
  | inr off ↦ rw off same
]

small_id : (n : ℕ) → n < 256 → n % 2 ^ 8 ≡ n
small_id n h = omega arith

filled_ids :
    (recent : Bool) (decoder : BaseDecoder) (v : Vps) (s : Sps) (p : Pps) (slice : Slice)
    (picture : CurrentPicture) (own : VkH265Picture)
    → s.vps ≡ some v
    → s.id < 256
    → v.id < 256
    → SameIds
        (hevc_picture_data decoder v s p slice picture)
        (fill_pps recent p (fill_sps recent s own))
unfolding fill_pps fill_sps hevc_picture_data pps_parameters first_sps
filled_ids recent decoder v s p slice picture own has small_sps small_vps = record {
  sps = small_id s.id small_sps ∙ sym (sps_parameters-Kept recent s).sps_id;
  pps = refl;
  vps =
      small_id v.id small_vps
      ∙ sym (
          (sps_parameters-Kept recent s).vps_id
          ∙ ap (vps_id_or (first_sps recent s).sps_video_parameter_set_id) has);
}

described :
    (decoder : BaseDecoder) (v : Vps) (s : Sps) (p : Pps) (slice : Slice) (picture : CurrentPicture)
    (pic : Option ℕ) (refs : RefResult (RefPics × RefPicSets)) (r : RefPics × RefPicSets)
    → s.vps ≡ some v
    → refs ≡ filled r
    → describe_picture decoder s.vps s p slice picture pic refs
      ≡ filled (record {
        picture = picture_data s picture pic;
        hevc = hevc_picture_data decoder v s p slice picture;
        ref_pics = r.0;
        sets = r.1;
      })
unfolding describe_picture
described decoder v s p slice picture pic refs r has listed =
    ap (λ o. describe_picture decoder o s p slice picture pic refs) has
    ∙ ap (describe_picture decoder (some v) s p slice picture pic) listed

follow_nvcodec-vps :
    (s : Sps) (p : Pps) (vkp : VkH265Picture) → (follow_nvcodec s p vkp).vps ≡ vkp.vps
unfolding follow_nvcodec
follow_nvcodec-vps s p vkp = elim (Bool-cases (follows s p)) [
  | inl on ↦ rw on refl
  | inr off ↦ rw off refl
]

filled-vps :
    (recent : Bool) (s : Sps) (p : Pps) (own : VkH265Picture)
    → (follow_nvcodec s p (fill_pps recent p (fill_sps recent s own))).vps ≡ own.vps
unfolding fill_pps fill_sps
filled-vps recent s p own =
    follow_nvcodec-vps s p (fill_pps recent p (fill_sps recent s own)) ∙ (fill_vui-others s own).1

-- For a picture whose parameter sets are filled into its own storage, whose sequence parameter set has
-- its video parameter set, with numbers of eight bits, with at most 16 reference pictures that all have
-- their VkPics, and with three sets that each have at most eight entries, no more than there are
-- reference pictures, each for one of these: the call succeeds, it shows these reference pictures and
-- for each set the positions of the first ones with its entries' order counts, and the decoder element
-- is left as it is. The numbers of the sequence and of the picture parameter set in the picture's data
-- are those in the structures that pStdSps and pStdPps point to, and that of the video parameter set is
-- the one that the sequence parameter set there names; pStdVps points to a structure that the call
-- leaves as it was.
pub start_picture_lem :
    (recent : Bool) (self : Decoder) (own : VkH265Picture) (pic : Option ℕ) (decoder : BaseDecoder)
    (v : Vps) (s : Sps) (p : Pps) (slice : Slice) (picture : CurrentPicture) (dpb : List Picture)
    (before after lt : List (Option ℤ))
    → fills_own self ≡ true
    → s.vps ≡ some v
    → s.id < 256
    → v.id < 256
    → HaveFrames dpb
    → length (listed dpb) ≤ 16
    → Fits (listed dpb) before
    → Fits (listed dpb) after
    → Fits (listed dpb) lt
    → let ((self', own'), result) =
        start_picture recent self own pic decoder s p slice picture dpb (before, after, lt) in
      (d : StartedPicture) × (result ≡ filled d)
      × (d.ref_pics ≡ holding (listed dpb) (16 - length (listed dpb)))
      × (d.sets ≡ record {
        st_curr_before = filled_ref_set (listed dpb) before;
        st_curr_after = filled_ref_set (listed dpb) after;
        lt_curr = filled_ref_set (listed dpb) lt;
      })
      × (self' ≡ self)
      × SameIds d.hevc (pointed self' own')
      × ((pointed self' own').vps ≡ own.vps)
unfolding start_picture pointed
start_picture_lem recent self own pic decoder v s p slice picture dpb before after lt own_storage
      has small_sps small_vps frames size b a l =
    rw (start_parameters-own recent s p self own own_storage, own_storage)
      (
        record {
          picture = picture_data s picture pic;
          hevc = hevc_picture_data decoder v s p slice picture;
          ref_pics = holding (listed dpb) (16 - length (listed dpb));
          sets = record {
            st_curr_before = filled_ref_set (listed dpb) before;
            st_curr_after = filled_ref_set (listed dpb) after;
            lt_curr = filled_ref_set (listed dpb) lt;
          };
        },
        described decoder v s p slice picture pic (ref_pic_sets dpb before after lt) _ has
            (ref_pic_sets_lem dpb before after lt frames size b a l),
        refl,
        refl,
        refl,
        follow_nvcodec-SameIds s p (hevc_picture_data decoder v s p slice picture)
            (fill_pps recent p (fill_sps recent s own))
            (filled_ids recent decoder v s p slice picture own has small_sps small_vps),
        filled-vps recent s p own,
      )
