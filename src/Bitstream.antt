-- ===== src/Bitstream.antt =====
-- The bitstream of one picture, as lib/plugins/gstvkh264dec.cpp and gstvkh265dec.cpp put it together:
-- `decode_slice` adds a start code and the slice's NAL unit, `end_picture` hands the bytes over.
pub mod Assembly
mod Tests
use gst_vk_video_parser.Prelude.{
  ℕ, ◌+◌, ◌≤◌, List, [], ◌∷◌, ◌++◌, Option, none, some, length, take, drop, get_last?, to_u32,
  u32_mod, ltb, leb, ◌&&◌, if◌then◌else◌,
}

-- GstH264NalUnit and GstH265NalUnit, what the decoders read of them: `size` bytes at `data + offset`.
pub record NalUnit : Type 0 where
  pub bytes : List ℕ
  pub offset : ℕ
  pub size : ℕ

-- slice->nalu.data + slice->nalu.offset, nalu.size bytes of it
abbrev pub payload : NalUnit → List ℕ
payload n = take n.size (drop n.offset n.bytes)

-- The unit lies in its buffer.
abbrev pub IsWithin : NalUnit → Type 0
IsWithin n = n.offset + n.size ≤ length n.bytes

-- What `VkPic` holds of the bitstream: the GByteArray, the GArray of offsets and `data.nNumSlices`.
pub record Bitstream : Type 0 where
  pub bytes : List ℕ
  pub slice_offsets : List ℕ
  pub num_slices : ℕ

-- `static const uint8_t nal[]`
abbrev pub nal : List ℕ
nal = 0 ∷ 0 ∷ 1 ∷ []

-- vk_pic_new: no bytes, and the offset of the first slice.
unfoldable pub fresh : Bitstream
fresh = record { bytes = []; slice_offsets = 0 ∷ []; num_slices = 0 }

-- `none` is the read of `slice_offsets[len - 1]` in an empty array, as `end_picture` leaves it, the read
-- of a slice beyond its buffer, or the abort of g_byte_array_append on an array of 2 ^ 32 bytes.
unfoldable pub decode_slice : Bitstream → NalUnit → Option Bitstream
decode_slice b nalu = elim (get_last? b.slice_offsets) [
  | none ↦ none
  | some last ↦
      if leb (nalu.offset + nalu.size) (length nalu.bytes)
        && ltb (length b.bytes + length nal + nalu.size) u32_mod
      then some (record {
        bytes = b.bytes ++ (nal ++ payload nalu);
        slice_offsets = b.slice_offsets ++ to_u32 (last + nalu.size + length nal) ∷ [];
        num_slices = to_u32 (b.num_slices + 1);
      })
      else none
]

-- The calls of one picture, in order.
unfoldable pub decode_slices : Bitstream → List NalUnit → Option Bitstream
decode_slices b [] = some b
decode_slices b (n ∷ ns) = elim (decode_slice b n) [ none ↦ none | some b' ↦ decode_slices b' ns ]

-- pBitstreamData, nBitstreamDataLen, nNumSlices and pSliceDataOffsets of VkParserPictureData.
pub record PictureBytes : Type 0 where
  pub bitstream_data : List ℕ
  pub bitstream_data_len : ℕ
  pub num_slices : ℕ
  pub slice_data_offsets : List ℕ

-- The first part of end_picture: the two arrays are taken out of the picture and left empty. The
-- length goes through int32_t into a uint32_t, which keeps its low 32 bits.
unfoldable pub steal : Bitstream → PictureBytes × Bitstream
steal b = (
  record {
    bitstream_data = b.bytes;
    bitstream_data_len = to_u32 (length b.bytes);
    num_slices = b.num_slices;
    slice_data_offsets = b.slice_offsets;
  },
  record b { bytes = []; slice_offsets = [] },
)
