-- ===== src/H264/Sequence/Levels.antt =====
-- The levels of H.264.
use gst_vk_video_parser.Prelude.{ℕ, ◌%◌, ◌/◌, ◌≤◌, ◌≡◌, ◌⊎◌, arith}
use gst_vk_video_parser.H264.Sequence.{level, invalid, get_h264_level_idc}

-- The numbers of the levels: 10 to 62 with a last digit of 0, 1 or 2, and 13.
abbrev pub IsLevel : ℕ → Type 0
IsLevel idc = (10 ≤ idc) × (idc ≤ 62) × ((idc % 10 ≤ 2) ⊎ (idc ≡ 13))

-- The number of a level gives the level with its tens as the major and its ones as the minor part, any
-- other number gives the invalid level.
pub get_h264_level_idc_lem :
    (idc : ℕ)
    → (IsLevel idc → get_h264_level_idc idc ≡ level (idc / 10) (idc % 10))
      × (¬ IsLevel idc → get_h264_level_idc idc ≡ invalid)
unfolding get_h264_level_idc
get_h264_level_idc_lem idc = (λ h. ground arith, λ h. ground arith)
