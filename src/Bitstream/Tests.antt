-- ===== src/Bitstream/Tests.antt =====
-- A picture of two slices.
use gst_vk_video_parser.Prelude.{List, [], ◌∷◌, ◌≡◌, refl, some, arith}
use gst_vk_video_parser.Bitstream.{NalUnit, PictureBytes, decode_slices, decode_slice, fresh, steal}
use gst_vk_video_parser.Bitstream.Assembly.{assemble, assemble-Cut, Cut, framed}

abbrev first_slice : NalUnit
first_slice = record { bytes = 0 ∷ 0 ∷ 1 ∷ 101 ∷ 136 ∷ []; offset = 3; size = 2 }

abbrev second_slice : NalUnit
second_slice = record { bytes = 65 ∷ 154 ∷ 7 ∷ []; offset = 0; size = 3 }

abbrev two_slices : List NalUnit
two_slices = first_slice ∷ second_slice ∷ []

abbrev two_slices_bytes : PictureBytes
two_slices_bytes = record {
  bitstream_data = 0 ∷ 0 ∷ 1 ∷ 101 ∷ 136 ∷ 0 ∷ 0 ∷ 1 ∷ 65 ∷ 154 ∷ 7 ∷ [];
  bitstream_data_len = 11;
  num_slices = 2;
  slice_data_offsets = 0 ∷ 5 ∷ 11 ∷ [];
}

assemble_two : assemble two_slices ≡ some two_slices_bytes
unfolding assemble decode_slices decode_slice fresh steal
assemble_two = refl

assemble-Cut_example :
    Cut two_slices_bytes.bitstream_data two_slices_bytes.slice_data_offsets 1 (framed second_slice)
assemble-Cut_example =
    assemble-Cut two_slices two_slices_bytes 1 second_slice (omega arith) (omega arith) assemble_two
      refl
