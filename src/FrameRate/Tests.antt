-- ===== src/FrameRate/Tests.antt =====
-- pack_framerate at concrete rates, and its theorem at one.
use gst_vk_video_parser.Prelude.{◌+◌, ◌*◌, ◌^◌, ◌≡◌, refl, some, arith}
use gst_vk_video_parser.FrameRate.{pack_framerate, reduce_once}
use gst_vk_video_parser.FrameRate.Bounds.{Packed, pack_framerate-Packed}

pack_framerate_pal : pack_framerate 30 1 ≡ some 491521
unfolding pack_framerate reduce_once
pack_framerate_pal = refl

-- 24000 / 1001 fits; 30000000 / 1000000 loses its common factors 5.
pack_framerate_ntsc : pack_framerate 24000 1001 ≡ some (24000 * 2 ^ 14 + 1001)
unfolding pack_framerate reduce_once
pack_framerate_ntsc = refl

pack_framerate_micro : pack_framerate 30000000 1000000 ≡ some (240000 * 2 ^ 14 + 8000)
unfolding pack_framerate reduce_once
pack_framerate_micro = refl

pack_framerate-Packed_example : Packed 30000000 1000000
pack_framerate-Packed_example = pack_framerate-Packed 30000000 1000000 (omega arith) (omega arith)
