-- ===== src/H264/Starting/Tests.antt =====
-- Tests of the parameter sets and of start_picture.
use gst_vk_video_parser.Prelude.{◌≡◌, refl, true, false, List, [], ◌∷◌, arith}
use gst_vk_video_parser.Prelude.Int.{pos, negsuc}
use gst_vk_video_parser.Updates.{h264_update}
use gst_vk_video_parser.H264.ParameterSets.Parsed.{Sps, Pps}
use gst_vk_video_parser.H264.ParameterSets.Views.{sps_view, sps_contents, offsets}
use gst_vk_video_parser.H264.ParameterSets.Zero.{zero_sps, zero_pps, zero_vui_params, zero_picture}
use gst_vk_video_parser.H264.Starting.{
  Decoder, Nalu, sps_nalu, pps_nalu, other_nalu, update_picture_parameters, update_all, fills_own,
  start_parameters, pointed,
}
use gst_vk_video_parser.H264.Starting.Data.{CurrentPicture, Slice}
use gst_vk_video_parser.H264.Starting.Stored.{update_all-shown}

-- A sequence parameter set with two offsets.
abbrev sps_two : Sps
sps_two = record zero_sps {
  id = 2;
  width = 64;
  height = 32;
  scaling_matrix_present_flag = true;
  num_ref_frames_in_pic_order_cnt_cycle = 2;
  offset_for_ref_frame = pos 5 ∷ negsuc 2 ∷ [];
}

abbrev sps_vui : Sps
sps_vui = record zero_sps {
  id = 3;
  vui_parameters_present_flag = true;
  vui_parameters = record zero_vui_params { nal_hrd_parameters_present_flag = true };
}

abbrev pps_two : Pps
pps_two = record zero_pps { id = 7; pic_scaling_matrix_present_flag = true; sequence = sps_two }

offsets_two : (sps_contents sps_two).offset_for_ref_frame ≡ offsets (pos 5 ∷ negsuc 2 ∷ [])
offsets_two = refl

abbrev out_of_band : Decoder
out_of_band = record {
  oob_pic_params = true;
  vkp = zero_picture;
  counts = record { sps_update_count = 0; pps_update_count = 0 };
}

abbrev units : List Nalu
units = sps_nalu sps_vui ∷ other_nalu ∷ sps_nalu sps_two ∷ pps_nalu pps_two ∷ []

update_all-shown_example :
    let self = update_all out_of_band units in
    sps_view (pointed self (start_parameters self pps_two zero_picture)) ≡ sps_contents sps_two
unfolding update_all update_picture_parameters fills_own h264_update
update_all-shown_example =
    update_all-shown out_of_band (sps_nalu sps_vui ∷ other_nalu ∷ []) (pps_nalu pps_two ∷ [])
      sps_two pps_two zero_picture refl (ground arith) (ground arith) refl

abbrev in_band : Decoder
in_band = record out_of_band { oob_pic_params = false }

abbrev idr_slice : Slice
idr_slice = record {
  field_pic_flag = false;
  bottom_field_flag = false;
  is_i_slice = true;
  is_si_slice = false;
}

abbrev idr_picture : CurrentPicture
idr_picture = record {
  second_field = false;
  interlaced = false;
  top_field_first = false;
  ref_pic = true;
  pic_order_cnt = pos 0;
  frame_num = pos 0;
  top_field_order_cnt = pos 0;
  bottom_field_order_cnt = pos 0;
}
