-- ===== src/Pictures/Tests.antt =====
-- A client that keeps what it is given and refuses pictures without slices.
use gst_vk_video_parser.Prelude.{
  ◌-◌, ◌^◌, ◌≡◌, refl, Bool, true, false, not, List, [], ◌∷◌, some, ltb, ◌==◌,
}
use gst_vk_video_parser.Bitstream.{NalUnit, PictureBytes}
use gst_vk_video_parser.Parser.Pipeline.{flow_ok, flow_error}
use gst_vk_video_parser.Pictures.{PictureClient, timestamp, output_picture}

abbrev Given : Type 0
Given = List (PictureBytes × Bool)

abbrev keeper : PictureClient Given
keeper = record {
  decode_picture = λ s bytes ref. (not (bytes.num_slices == 0), (bytes, ref) ∷ s);
  display_picture = λ s pic time. (ltb time 1000, s);
}

abbrev slice : NalUnit
slice = record { bytes = 0 ∷ 0 ∷ 1 ∷ 101 ∷ 136 ∷ []; offset = 3; size = 2 }

abbrev slice_bytes : PictureBytes
slice_bytes = record {
  bitstream_data = 0 ∷ 0 ∷ 1 ∷ 101 ∷ 136 ∷ [];
  bitstream_data_len = 5;
  num_slices = 1;
  slice_data_offsets = 0 ∷ 5 ∷ [];
}

-- The client refuses to display, and the frame is not finished.
refused : output_picture (some keeper) flow_ok 50 4000 (some 1) [] ≡ (flow_error, false, [])
unfolding output_picture
refused = refl

shown : output_picture (some keeper) flow_ok 5 4000 (some 1) [] ≡ (flow_ok, true, [])
unfolding output_picture
shown = refl

-- With GST_CLOCK_TIME_NONE as the duration a later picture has an earlier time.
later_is_earlier : ltb (timestamp 300 (2 ^ 64 - 1)) (timestamp 2 (2 ^ 64 - 1)) ≡ true
later_is_earlier = refl
