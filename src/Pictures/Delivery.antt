-- ===== src/Pictures/Delivery.antt =====
-- What a client is handed of a picture.
use gst_vk_video_parser.Prelude.{◌≡◌, List, Option, none, some, length, to_u32}
use gst_vk_video_parser.Bitstream.{
  NalUnit, Bitstream, PictureBytes, fresh, decode_slice, decode_slices, steal,
}
use gst_vk_video_parser.Bitstream.Assembly.{stream, offsets_from}
use gst_vk_video_parser.Parser.Pipeline.{FlowReturn}

-- The slices in order, each behind its start code, with their number and their offsets.
abbrev pub picture_bytes : List NalUnit → PictureBytes
picture_bytes ns = record {
  bitstream_data = stream ns;
  bitstream_data_len = to_u32 (length (stream ns));
  num_slices = to_u32 (length ns);
  slice_data_offsets = offsets_from 0 ns;
}

-- The slices of a picture succeed, and leave these bytes to be taken.
record Assembled (ns : List NalUnit) : Type 0 where
  after : Bitstream
  result : decode_slices fresh ns ≡ some after
  bytes : (steal after).0 ≡ picture_bytes ns

module _ {ℓ} {S : Type ℓ} where
  -- A delivered picture: the answer and the client after it, and a bitstream to which no slice can be
  -- added.
  pub record Delivers (r : Option ((FlowReturn × S) × Bitstream)) (answer : FlowReturn × S)
      : Type ℓ where
    pub left : Bitstream
    pub result : r ≡ some (answer, left)
    pub is_over : (n : NalUnit) → decode_slice left n ≡ none
