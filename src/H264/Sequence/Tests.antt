-- ===== src/H264/Sequence/Tests.antt =====
-- A stream of 29.97 frames per second.
use Prim.Native.Nat.{min}
use gst_vk_video_parser.Prelude.{◌+◌, ◌%◌, ◌^◌, ◌≡◌, ◌≢◌, refl, false, none, some, arith}
use gst_vk_video_parser.Prelude.Int.{ℤ, pos}
use gst_vk_video_parser.Client.{begin_sequence}
use gst_vk_video_parser.H264.Sequence.{
  level, get_h264_level_idc, Input, Sps, SequenceInfo, new_sequence,
}
use gst_vk_video_parser.H264.Sequence.Rate.{new_sequence_frame_rate, new_sequence_dpb}

abbrev film : Input
film = record {
  is_scalable = false;
  fps_n = 30000;
  fps_d = 1001;
  display_ratio = λ w h. some (16, 9);
}

abbrev hd : Sps
hd = record {
  frame_mbs_only_flag = 1;
  width = 1920;
  height = 1088;
  chroma_format_idc = 1;
  bit_depth_luma_minus8 = 0;
  bit_depth_chroma_minus8 = 0;
  profile_idc = 100;
  crop_rect = some (1920, 1080);
  vui = none;
}

level_41 : get_h264_level_idc 41 ≡ level 4 1
unfolding get_h264_level_idc
level_41 = refl

new_sequence_frame_rate_example :
    (r : SequenceInfo × ℤ) × (new_sequence none (pos 0) film hd 4 ≡ some r)
    × (r.0.frame_rate % 2 ^ 14 ≢ 1001)
new_sequence_frame_rate_example =
    new_sequence_frame_rate none (pos 0) film hd 4 (omega arith) (omega arith) (omega arith)

new_sequence_dpb_example :
    (info : SequenceInfo) × (new_sequence
        (some (λ i. begin_sequence false i.is_svc i.min_num_decode_surfaces))
        (pos 0)
        film
        hd
        4
      ≡ some (info, pos (min (4 + 1) 16)))
new_sequence_dpb_example = new_sequence_dpb (pos 0) film hd 4 (omega arith) (omega arith) refl
