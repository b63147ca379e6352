-- ===== src/Updates/Tests.antt =====
-- A stream whose PPS comes twice.
use gst_vk_video_parser.Prelude.{◌≡◌, List, [], ◌∷◌}
use gst_vk_video_parser.Updates.{
  NalType, sps, pps, vps, other, Counts, h264_update, h265_update, updates,
}
use gst_vk_video_parser.Updates.Numbers.{
  numbers, how_many, from, is_sps, is_pps, is_pps_or_vps, h264_numbers, h265_numbers,
}

abbrev start_counts : Counts
start_counts = record { sps_update_count = 0; pps_update_count = 0 }

abbrev stream : List NalType
stream = vps ∷ sps ∷ pps ∷ other ∷ pps ∷ []

h264_numbers_example :
    (numbers is_sps (updates h264_update start_counts stream) ≡ from 0 (how_many is_sps stream))
    × (numbers is_pps (updates h264_update start_counts stream) ≡ from 0 (how_many is_pps stream))
h264_numbers_example = h264_numbers start_counts stream

h265_numbers_example :
    (numbers is_sps (updates h265_update start_counts stream) ≡ from 0 (how_many is_sps stream))
    × (numbers is_pps_or_vps (updates h265_update start_counts stream)
        ≡ from 0 (how_many is_pps_or_vps stream))
h265_numbers_example = h265_numbers start_counts stream
