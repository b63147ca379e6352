-- ===== src/H264/Dpb/Tests.antt =====
-- Reference lists of a few pictures.
use gst_vk_video_parser.Prelude.{
  ℕ, ◌*◌, ◌+◌, [], ◌∷◌, ◌≡◌, refl, true, false, none, some, replicate,
}
use gst_vk_video_parser.Prelude.Int.{pos}
use gst_vk_video_parser.H264.Dpb.{
  Picture, frame, top_field, empty_entry, fill_dbp_entry, dpb_size, fill_dpb, clear_dpb,
  reference_frames,
}
use gst_vk_video_parser.H264.Dpb.Filling.{padded, entries}
use gst_vk_video_parser.H264.Dpb.Order.{reference_frames_lem}

abbrev short_picture : ℕ → Picture
short_picture n = record {
  user_data = some (some n);
  is_long_term_ref = false;
  pic_num = pos n;
  long_term_pic_num = pos 0;
  nonexisting = false;
  field = frame;
  order_cnt = record { top = pos (2 * n); bottom = pos (2 * n + 1) };
  other_field = none;
}

abbrev long_picture : ℕ → Picture
long_picture n = record (short_picture n) { is_long_term_ref = true; long_term_pic_num = pos 5 }

abbrev lone_top_field : Picture
lone_top_field = record (short_picture 3) { field = top_field }

-- One short-term reference hides the first of two long-term references.
one_and_two :
    reference_frames (short_picture 1 ∷ []) (long_picture 2 ∷ long_picture 3 ∷ [])
    ≡ fill_dbp_entry (short_picture 1) ∷ fill_dbp_entry (long_picture 3) ∷ replicate 15 empty_entry
unfolding reference_frames fill_dpb clear_dpb
one_and_two = refl

reference_frames_lem_example :
    reference_frames (short_picture 1 ∷ []) (long_picture 2 ∷ long_picture 3 ∷ [])
    ≡ padded dpb_size (entries (short_picture 1 ∷ long_picture 3 ∷ []))
reference_frames_lem_example =
    reference_frames_lem (short_picture 1 ∷ []) (long_picture 2 ∷ long_picture 3 ∷ [])
