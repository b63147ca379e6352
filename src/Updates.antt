-- ===== src/Updates.antt =====
-- update_picture_parameters of lib/plugins/gstvkh264dec.cpp and gstvkh265dec.cpp: the parameter sets of
-- the stream that the client is told of, each with its number.
pub mod Numbers
mod Tests
use gst_vk_video_parser.Prelude.{
  ℕ, ◌+◌, Bool, true, false, List, [], ◌∷◌, Option, none, some, add_u32,
}

-- The NAL units that update_picture_parameters tells apart; H.264 has no video parameter set.
pub data NalType : Type 0 where
  sps pps vps other : NalType

-- sps_update_count and pps_update_count.
pub record Counts : Type 0 where
  pub sps_update_count : ℕ
  pub pps_update_count : ℕ

-- VkPictureParameters, without the parameter set: its updateType and updateSequenceCount.
pub record Update : Type 0 where
  pub update_type : NalType
  pub update_sequence_count : ℕ

-- gst_vk_h264_dec_update_picture_parameters: the update that the client is given, and the counters.
unfoldable pub h264_update : Counts → NalType → Option Update × Counts
h264_update c sps = (
  some (record { update_type = sps; update_sequence_count = c.sps_update_count }),
  record c { sps_update_count = add_u32 c.sps_update_count 1 },
)
h264_update c pps = (
  some (record { update_type = pps; update_sequence_count = c.pps_update_count }),
  record c { pps_update_count = add_u32 c.pps_update_count 1 },
)
h264_update c vps = (none, c)
h264_update c other = (none, c)

-- gst_vk_h265_dec_update_picture_parameters.
unfoldable pub h265_update : Counts → NalType → Option Update × Counts
h265_update c sps = (
  some (record { update_type = sps; update_sequence_count = c.sps_update_count }),
  record c { sps_update_count = add_u32 c.sps_update_count 1 },
)
h265_update c pps = (
  some (record { update_type = pps; update_sequence_count = c.pps_update_count }),
  record c { pps_update_count = add_u32 c.pps_update_count 1 },
)
h265_update c vps = (
  some (record { update_type = vps; update_sequence_count = c.pps_update_count }),
  record c { pps_update_count = add_u32 c.pps_update_count 1 },
)
h265_update c other = (none, c)

abbrev pub add_update : Option Update → List Update → List Update
add_update none us = us
add_update (some u) us = u ∷ us

-- The updates of a sequence of NAL units.
unfoldable pub updates :
    (Counts → NalType → Option Update × Counts) → Counts → List NalType → List Update
updates step c [] = []
updates step c (n ∷ ns) = add_update (step c n).0 (updates step (step c n).1 ns)
