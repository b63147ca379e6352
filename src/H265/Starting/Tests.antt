-- ===== src/H265/Starting/Tests.antt =====
-- Tests of the parameter sets and of start_picture.
use gst_vk_video_parser.Prelude.{
  ℕ, replicate, ◌≡◌, refl, true, false, List, [], ◌∷◌, none, some, arith,
}
use gst_vk_video_parser.Prelude.Int.{ℤ, pos}
use gst_vk_video_parser.H265.ParameterSets.Parsed.{Sps, Pps}
use gst_vk_video_parser.H265.ParameterSets.Std.{StdVui}
use gst_vk_video_parser.H265.ParameterSets.Written.{fill_scaling_list}
use gst_vk_video_parser.H265.ParameterSets.Contents.{sps_fields, pps_fields, vps_fields, vui_fields}
use gst_vk_video_parser.H265.ParameterSets.Fill.{VkH265Picture}
use gst_vk_video_parser.H265.ParameterSets.Views.{sps_view}
use gst_vk_video_parser.H265.ParameterSets.Zero.{
  zero_sps, zero_pps, zero_vps, zero_scaling_list, zero_std_vui, zero_picture,
}
use gst_vk_video_parser.H265.RefPics.{Picture, filled}
use gst_vk_video_parser.H265.RefPics.Listing.{listed, holding, entry}
use gst_vk_video_parser.H265.Starting.{
  Decoder, sps_nalu, pps_nalu, vps_nalu, store_all, fills_own, start_parameters, pointed,
}
use gst_vk_video_parser.H265.Starting.Data.{
  BaseDecoder, Slice, CurrentPicture, StartedPicture, start_picture,
}
use gst_vk_video_parser.H265.Starting.Stored.{store_all_lem}
use gst_vk_video_parser.H265.Starting.Lists.{start_parameters_stale}
use gst_vk_video_parser.H265.Starting.Consistent.{SameIds, start_picture_lem}

abbrev unset : List ℕ
unset = replicate 8 0

-- A sequence parameter set without VUI over storage that has one.
abbrev old_vui : StdVui
old_vui = record zero_std_vui { sar_width = 3 }

abbrev old_picture : VkH265Picture
old_picture = record zero_picture { vui = old_vui }

abbrev sps_one : Sps
sps_one = record zero_sps {
  id = 1;
  width = 64;
  height = 32;
  vps = some (record zero_vps { id = 2 });
  scaling_list_enabled_flag = true;
  scaling_list_data_present_flag = true;
}

abbrev with_vui : Sps
with_vui = record zero_sps { id = 3; vui_parameters_present_flag = true }

abbrev pps_with_lists : Pps
pps_with_lists = record zero_pps {
  id = 4;
  scaling_list_data_present_flag = true;
  scaling_list = record zero_scaling_list {
    scaling_list_dc_coef_minus8_32x32 = pos 1 ∷ pos 2 ∷ [];
  };
}

abbrev pps_without_lists : Pps
pps_without_lists = record zero_pps { id = 5 }

-- A picture parameter set before its sequence parameter sets, of which the last has no VUI.
store_all_lem_example :
    let after =
      store_all true
        (pps_nalu pps_with_lists ∷ sps_nalu with_vui ∷ vps_nalu zero_vps ∷ sps_nalu sps_one ∷ [])
        zero_picture in
    (after.sps ≡ sps_fields true sps_one)
    × (after.pps ≡ pps_fields true pps_with_lists)
    × (after.vps ≡ vps_fields zero_vps)
    × (after.vui ≡ vui_fields with_vui)
store_all_lem_example =
    store_all_lem true
      (pps_nalu pps_with_lists ∷ sps_nalu with_vui ∷ vps_nalu zero_vps ∷ sps_nalu sps_one ∷ [])
      zero_picture

abbrev in_band : Decoder
in_band = record {
  oob_pic_params = false;
  vkp = zero_picture;
  counts = record { sps_update_count = 1; pps_update_count = 1 };
}

abbrev out_of_band : Decoder
out_of_band = record in_band { oob_pic_params = true }

start_parameters_stale_example :
    let after = (start_parameters true sps_one pps_with_lists out_of_band zero_picture).0 in
    let (last, last_own) = start_parameters true sps_one pps_without_lists after zero_picture in
    (sps_view (pointed last last_own)).scaling_lists
    ≡ some (fill_scaling_list pps_with_lists.scaling_list)
unfolding fills_own
start_parameters_stale_example =
    start_parameters_stale true sps_one pps_with_lists pps_without_lists out_of_band zero_picture
      zero_picture refl refl refl refl

abbrev no_references : BaseDecoder
no_references = record {
  num_poc_st_curr_before = 0;
  num_poc_st_curr_after = 0;
  num_poc_lt_curr = 0;
}

abbrev idr_slice : Slice
idr_slice = record {
  is_irap = true;
  is_idr = true;
  short_term_ref_pic_set_size = 0;
  num_delta_pocs_of_ref_rps_idx = 0;
  num_poc_total_curr = 0;
}

abbrev idr_picture : CurrentPicture
idr_picture = record {
  bottom_field = false;
  interlaced = false;
  top_field_first = false;
  ref = true;
  intra_pic_flag = true;
  pic_order_cnt = pos 0;
}

abbrev reference : ℤ → Picture
reference poc = record { ref = true; frame = some (some 7); pic_order_cnt = poc; long_term = false }

abbrev two_references : List Picture
two_references = reference (pos 4) ∷ reference (pos 6) ∷ []

start_picture_lem_example :
    let ((self, own), result) =
      start_picture true in_band zero_picture
        (some 7)
        no_references
        sps_one
        pps_with_lists
        idr_slice
        idr_picture
        two_references
        ((none ∷ some (pos 6) ∷ []), [], []) in
    (d : StartedPicture) × (result ≡ filled d)
    × (d.ref_pics ≡ holding (listed two_references) 14)
    × (d.sets
        ≡ record { st_curr_before = 1 ∷ replicate 7 0; st_curr_after = unset; lt_curr = unset })
    × (self ≡ in_band)
    × SameIds d.hevc (pointed self own)
    × ((pointed self own).vps ≡ zero_picture.vps)
unfolding fills_own
start_picture_lem_example =
    start_picture_lem true in_band zero_picture (some 7) no_references (record zero_vps { id = 2 })
      sps_one pps_with_lists idr_slice idr_picture two_references (none ∷ some (pos 6) ∷ []) [] []
      refl refl (ground arith) (ground arith) ((λ e. (some 7, refl)), ((λ e. (some 7, refl)), tt))
      (ground arith)
      (((1, (entry (reference (pos 6)), refl, refl)), tt), ground arith, ground arith)
      (tt, ground arith, ground arith) (tt, ground arith, ground arith)
